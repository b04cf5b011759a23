-- ===== src/Optimizer/Liveness/Solution.antt =====
-- What `computeFlagLiveness` comes to: it ends, and no block that it calls dead reaches a read of
-- FLAGS.
use mini_tool_chain.Base.{
  ℕ, zero, suc, ◌+◌, ◌<◌, ◌≡◌, ◌≢◌, inl, inr, refl, sym, ap, ◌∙◌, subst, arith, Bool, true, false,
  ◌||◌, List, [], ◌∷◌, some, some-injective, length, length-replicate, get_elem?, get_or,
  Option-cases, Bool-cases,
}
use mini_tool_chain.Optimizer.Liveness.{
  Node, Sweep, live_before, sweep, unchanged, settled, out_of_range, out_of_fuel, liveness_loop,
  initial_live, flag_liveness,
}
use mini_tool_chain.Optimizer.Liveness.Sweeps.{any_or, out_of, IsSolved, IsSupported}
use mini_tool_chain.Optimizer.Liveness.Still.{sweep-still}
use mini_tool_chain.Optimizer.Liveness.Ends.{loop-ends}

-- Control can go from a block to block `j`.
pub data Reaches (j : ℕ) : List ℕ → Type 0 where
  here : {rest : List ℕ} → Reaches j (j ∷ rest)
  further : {s : ℕ} {rest : List ℕ} → Reaches j rest → Reaches j (s ∷ rest)

-- FLAGS as block `i` leaves it may be read: where control goes is unknown, or a successor reads it,
-- or one leaves it as it is and it may be read behind that.
pub data LiveOut (nodes : List Node) : ℕ → Type 0 where
  escapes :
      {i : ℕ} (node : Node) → get_elem? nodes i ≡ some node → node.unknown ≡ true → LiveOut nodes i
  read_next :
      {i : ℕ} (node : Node) (j : ℕ) (next : Node)
      → get_elem? nodes i ≡ some node
      → Reaches j node.successors
      → get_elem? nodes j ≡ some next
      → next.reads ≡ true
      → LiveOut nodes i
  passed_on :
      {i : ℕ} (node : Node) (j : ℕ) (next : Node)
      → get_elem? nodes i ≡ some node
      → Reaches j node.successors
      → get_elem? nodes j ≡ some next
      → next.writes ≡ false
      → LiveOut nodes j
      → LiveOut nodes i

any_or-true : (ss : List ℕ) (live_in : List Bool) → any_or true ss live_in ≡ true
any_or-true [] live_in = refl
any_or-true (s ∷ rest) live_in = any_or-true rest live_in

or_true : (b : Bool) → (b || true) ≡ true
or_true true = refl
or_true false = refl

any_or-Reaches :
    (j : ℕ) (live_in : List Bool) (live : Bool) (ss : List ℕ)
    → Reaches j ss
    → get_or live_in j false ≡ true
    → any_or live ss live_in ≡ true
any_or-Reaches j live_in live ss (here {rest}) h = rw (h, or_true live) (any_or-true rest live_in)
any_or-Reaches j live_in live ss (further {s} {rest} r) h =
    any_or-Reaches j live_in (live || get_or live_in s false) rest r h

get_elem?-bound :
    {A : Type 0} (xs : List A) (i : ℕ) (x : A) → get_elem? xs i ≡ some x → i < length xs
get_elem?-bound [] i x h = cc h
get_elem?-bound (y ∷ xs) zero x h = omega arith
get_elem?-bound (y ∷ xs) (suc i) x h = omega (arith, get_elem?-bound xs i x h)

live_before-read : (node : Node) (out : Bool) → node.reads ≡ true → live_before node out ≡ true
live_before-read node out h = rw h refl

live_before-passed :
    (node : Node) (out : Bool) → node.writes ≡ false → out ≡ true → live_before node out ≡ true
live_before-passed node out w h = rw (w, h) (or_true node.reads)

module _ (nodes : List Node) (outs ins : List Bool)
    (solved : (j : ℕ) → j < length nodes → IsSolved nodes outs ins j) where
  solution-LiveOut : (i : ℕ) → LiveOut nodes i → get_or outs i true ≡ true
  solution-LiveOut i (escapes node at u) =
      (solved i (get_elem?-bound nodes i node at) node at).0
      ∙ ap (λ b. any_or b node.successors ins) u
      ∙ any_or-true node.successors ins
  solution-LiveOut i (read_next node j next at r found reads) =
      (solved i (get_elem?-bound nodes i node at) node at).0
      ∙ any_or-Reaches j ins node.unknown node.successors r (
          (solved j (get_elem?-bound nodes j next found) next found).1
          ∙ live_before-read next (out_of next ins) reads)
  solution-LiveOut i (passed_on node j next at r found kept live) =
      let after = solved j (get_elem?-bound nodes j next found) next found in
      (solved i (get_elem?-bound nodes i node at) node at).0
      ∙ any_or-Reaches j ins node.unknown node.successors r (
          after.1
          ∙ live_before-passed next (out_of next ins) kept (sym after.0 ∙ solution-LiveOut j live))

settled-injective : (a b : List Bool) → settled a ≡ settled b → a ≡ b
settled-injective a b h =
    ap (λ o. elim o [ settled x ↦ x | out_of_range ↦ [] | out_of_fuel ↦ [] ]) h

loop-solution :
    (fuel : ℕ) (nodes : List Node) (s : Sweep) (outs : List Bool)
    → liveness_loop fuel nodes s ≡ settled outs
    → (ins : List Bool) × ((j : ℕ) → j < length nodes → IsSolved nodes outs ins j)
unfolding liveness_loop
loop-solution zero nodes s outs h = cc h
loop-solution (suc fuel) nodes s outs h =
    elim (Option-cases (sweep nodes (length nodes) (unchanged s))) [
      | inl failed ↦ cc (rw (failed, liveness_loop) at h)
      | inr (s', swept) ↦ elim (Bool-cases s'.changed) [
        | inl more ↦ loop-solution fuel nodes s' outs (rw (swept, more, liveness_loop) at h)
        | inr still ↦
            let end = sweep-still nodes (length nodes) (unchanged s) s' swept still in
            let last : s'.live_out ≡ outs =
              settled-injective s'.live_out outs (rw (swept, still, liveness_loop) at h) in
            (
              s.live_in,
              λ j lt.
                  subst (λ os. IsSolved nodes os s.live_in j)
                    (sym (ap (λ t. t.live_out) end.0) ∙ last) (end.1 j lt),
            )
      ]
    ]

pub initial_live-length : (nodes : List Node) → length (initial_live nodes) ≡ length nodes
unfolding initial_live
initial_live-length [] = refl
initial_live-length (node ∷ rest) = ap suc (initial_live-length rest)

initial_live-reads :
    (nodes : List Node) (i : ℕ) (node : Node)
    → get_elem? nodes i ≡ some node
    → get_or (initial_live nodes) i false ≡ true
    → node.reads ≡ true
unfolding initial_live
initial_live-reads [] i node at h = cc h
initial_live-reads (n ∷ rest) zero node at h = rw (← some-injective n node at) h
initial_live-reads (n ∷ rest) (suc i) node at h = initial_live-reads rest i node at h

initial_live-IsSupported : (nodes : List Node) → IsSupported nodes (initial_live nodes)
initial_live-IsSupported nodes i node at h =
    live_before-read node (out_of node (initial_live nodes)) (initial_live-reads nodes i node at h)

-- The liveness loop does not run out of rounds.
pub flag_liveness-ends : (nodes : List Node) → flag_liveness nodes ≢ out_of_fuel
unfolding flag_liveness
flag_liveness-ends nodes =
    loop-ends nodes (length nodes + 2) _
      (record {
        supported = initial_live-IsSupported nodes;
        outs = length-replicate (length nodes) true;
        ins = initial_live-length nodes;
      })
      (omega arith)

-- A block that the settled result calls dead, which no index out of range is, has no path by blocks
-- that leave FLAGS as it is to a block that reads FLAGS first or to an unknown successor.
pub flag_liveness_sound :
    (nodes : List Node) (outs : List Bool) (i : ℕ)
    → flag_liveness nodes ≡ settled outs
    → get_or outs i true ≡ false
    → ¬ LiveOut nodes i
unfolding flag_liveness
flag_liveness_sound nodes outs i h dead live =
    let (ins, solved) = loop-solution (length nodes + 2) nodes _ outs h in
    cc (dead, solution-LiveOut nodes outs ins solved i live)
