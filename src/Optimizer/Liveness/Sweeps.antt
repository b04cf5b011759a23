-- ===== src/Optimizer/Liveness/Sweeps.antt =====
-- Liveness only grows from sweep to sweep, and a sweep that adds nothing leaves a solution.
use mini_tool_chain.Base.{
  ℕ, zero, suc, ◌+◌, ◌≤◌, ◌<◌, ◌≡◌, ◌≢◌, ◌⊎◌, inl, inr, refl, sym, ap, ◌∙◌, arith, Bool, true,
  false, ◌||◌, List, [], ◌∷◌, some, some-injective, if◌then◌else◌, length, get_elem?, get_or, set,
  get_or-set_ne, Option-cases,
}
use mini_tool_chain.Optimizer.Liveness.{Node, any_live, live_before}

-- `anyLive` without the bounds.
abbrev pub any_or : Bool → List ℕ → List Bool → Bool
any_or live [] live_in = live
any_or live (s ∷ rest) live_in = any_or (live || get_or live_in s false) rest live_in

pub get_elem?-get_or :
    {A : Type 0} (xs : List A) (i : ℕ) (x d : A) → get_elem? xs i ≡ some x → get_or xs i d ≡ x
get_elem?-get_or [] i x d h = cc h
get_elem?-get_or (y ∷ xs) zero x d h = some-injective y x h
get_elem?-get_or (y ∷ xs) (suc i) x d h = get_elem?-get_or xs i x d h

pub any_live-any_or :
    (live : Bool) (ss : List ℕ) (live_in : List Bool) (out : Bool)
    → any_live live ss live_in ≡ some out
    → out ≡ any_or live ss live_in
unfolding any_live
any_live-any_or live [] live_in out h = sym (some-injective live out h)
any_live-any_or true (s ∷ rest) live_in out h = any_live-any_or true rest live_in out h
any_live-any_or false (s ∷ rest) live_in out h = elim (Option-cases (get_elem? live_in s)) [
  | inl missing ↦ cc (rw (missing, any_live) at h)
  | inr (b, found) ↦
      rw (get_elem?-get_or live_in s b false found)
        (any_live-any_or b rest live_in out (rw (found, any_live) at h))
]

-- Whatever is live stays live.
abbrev pub Below : List Bool → List Bool → Type 0
Below xs ys = (j : ℕ) → get_or xs j false ≡ true → get_or ys j false ≡ true

or_mono :
    (a b c d : Bool)
    → (a ≡ true → c ≡ true)
    → (b ≡ true → d ≡ true)
    → (a || b) ≡ true
    → (c || d) ≡ true
or_mono true b c d f g h = rw (f refl)
or_mono false b true d f g h = refl
or_mono false b false d f g h = g h

any_or-Below :
    (a b : Bool) (ss : List ℕ) (xs ys : List Bool)
    → (a ≡ true → b ≡ true)
    → Below xs ys
    → any_or a ss xs ≡ true
    → any_or b ss ys ≡ true
any_or-Below a b [] xs ys f g h = f h
any_or-Below a b (s ∷ rest) xs ys f g h =
    any_or-Below (a || get_or xs s false) (b || get_or ys s false) rest xs ys
      (or_mono a _ b _ f (g s)) g h

abbrev pub out_of : Node → List Bool → Bool
out_of node live_in = any_or node.unknown node.successors live_in

abbrev pub in_of : Node → List Bool → Bool
in_of node live_in = live_before node (out_of node live_in)

live_before_mono :
    (node : Node) (a b : Bool)
    → (a ≡ true → b ≡ true)
    → live_before node a ≡ true
    → live_before node b ≡ true
live_before_mono node true b f h = rw (f refl) h
live_before_mono node false true f h = ground (arith, h)
live_before_mono node false false f h = h

pub count_true : List Bool → ℕ
count_true [] = 0
count_true (b ∷ bs) = (if b then 1 else 0) + count_true bs

pub count_true-set :
    (bs : List Bool) (i : ℕ)
    → i < length bs
    → get_or bs i false ≡ false
    → count_true (set bs i true) ≡ suc (count_true bs)
unfolding count_true
count_true-set [] i h low = elim h [ ]
count_true-set (b ∷ bs) zero h low = rw low (omega arith)
count_true-set (b ∷ bs) (suc i) h low = omega (arith, count_true-set bs i (omega arith) low)

pub count_true-le : (bs : List Bool) → count_true bs ≤ length bs
unfolding count_true
count_true-le [] = omega arith
count_true-le (true ∷ bs) = omega (arith, count_true-le bs)
count_true-le (false ∷ bs) = omega (arith, count_true-le bs)

pub Below-set : (bs : List Bool) (i : ℕ) → i < length bs → Below bs (set bs i true)
Below-set [] i h j t = t
Below-set (b ∷ bs) zero h zero t = refl
Below-set (b ∷ bs) zero h (suc j) t = t
Below-set (b ∷ bs) (suc i) h zero t = t
Below-set (b ∷ bs) (suc i) h (suc j) t = Below-set bs i (omega arith) j t

pub index_cases : (i j : ℕ) → (j ≡ i) ⊎ (i ≢ j)
index_cases i j = elim order [
  | inl same_index ↦ inl same_index
  | inr apart ↦ inr (λ e. absurd (omega arith))
]
  where
    order : (j ≡ i) ⊎ ((i < j) ⊎ (j < i))
    order = omega arith

pub same_node :
    (nodes : List Node) (i j : ℕ) (node other : Node)
    → j ≡ i
    → get_elem? nodes i ≡ some node
    → get_elem? nodes j ≡ some other
    → other ≡ node
same_node nodes i j node other e at found =
    some-injective other node (sym found ∙ ap (get_elem? nodes) e ∙ at)

-- What is live was found live from the rest.
abbrev pub IsSupported : List Node → List Bool → Type 0
IsSupported nodes live_in =
    (i : ℕ) (node : Node)
    → get_elem? nodes i ≡ some node
    → get_or live_in i false ≡ true
    → in_of node live_in ≡ true

-- A block at which the equations hold.
abbrev pub IsSolved : List Node → List Bool → List Bool → ℕ → Type 0
IsSolved nodes live_out live_in i =
    (node : Node)
    → get_elem? nodes i ≡ some node
    → (get_or live_out i true ≡ out_of node live_in) × (get_or live_in i false ≡ in_of node live_in)

pub IsSupported-set :
    (nodes : List Node) (live_in : List Bool) (i : ℕ) (node : Node)
    → i < length live_in
    → get_elem? nodes i ≡ some node
    → in_of node live_in ≡ true
    → IsSupported nodes live_in
    → IsSupported nodes (set live_in i true)
IsSupported-set nodes live_in i node h at now sup j other found live =
    live_before_mono other _ _
      (any_or-Below other.unknown other.unknown other.successors _ _ (λ t. t) grows)
      (elim (index_cases i j) [
        | inl same_index ↦ rw (same_node nodes i j node other same_index at found) now
        | inr apart ↦ sup j other found (rw (get_or-set_ne live_in i j true false apart) at live)
      ])
  where
    grows : Below live_in (set live_in i true)
    grows = Below-set live_in i h
