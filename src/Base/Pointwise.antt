-- ===== src/Base/Pointwise.antt =====
-- Two lists of one length that are related place by place, as regions before and after a stage of
-- the linker, or segments and the regions that they are loaded into.
use mini_tool_chain.Base.{
  ℕ, zero, suc, ◌≡◌, refl, sym, List, [], ◌∷◌, some, some-injective, get_elem?, get_or, set, subst,
}

module _ {A B : Type 0} where
  abbrev pub Pointwise : (A → B → Type 0) → List A → List B → Type 0
  Pointwise R [] [] = Unit {0}
  Pointwise R [] (y ∷ ys) = ⊥
  Pointwise R (x ∷ xs) [] = ⊥
  Pointwise R (x ∷ xs) (y ∷ ys) = R x y × Pointwise R xs ys

module _ {A B : Type 0} (R : A → B → Type 0) where
  pub Pointwise-get_elem? :
      (xs : List A) (ys : List B) (i : ℕ) (x : A)
      → Pointwise R xs ys
      → get_elem? xs i ≡ some x
      → (y : B) × (get_elem? ys i ≡ some y) × R x y
  Pointwise-get_elem? [] ys i x h e = cc
  Pointwise-get_elem? (a ∷ xs) [] i x h e = absurd h
  Pointwise-get_elem? (a ∷ xs) (y ∷ ys) zero x h e =
      let same : a ≡ x = some-injective a x e in (y, refl, subst (λ z. R z y) same h.0)
  Pointwise-get_elem? (a ∷ xs) (y ∷ ys) (suc i) x h e = Pointwise-get_elem? xs ys i x h.1 e

  -- What the relation implies holds in its place.
  pub Pointwise-map :
      (S : A → B → Type 0) (xs : List A) (ys : List B)
      → ((x : A) (y : B) → R x y → S x y)
      → Pointwise R xs ys
      → Pointwise S xs ys
  Pointwise-map S [] [] f h = tt
  Pointwise-map S [] (y ∷ ys) f h = absurd h
  Pointwise-map S (x ∷ xs) [] f h = absurd h
  Pointwise-map S (x ∷ xs) (y ∷ ys) f h = (f x y h.0, Pointwise-map S xs ys f h.1)

module _ {A : Type 0} (R : A → A → Type 0) where
  pub Pointwise-refl : ((x : A) → R x x) → (xs : List A) → Pointwise R xs xs
  Pointwise-refl r [] = tt
  Pointwise-refl r (x ∷ xs) = (r x, Pointwise-refl r xs)

  pub Pointwise-trans :
      ((x y z : A) → R x y → R y z → R x z)
      → (xs ys zs : List A) → Pointwise R xs ys
      → Pointwise R ys zs
      → Pointwise R xs zs
  Pointwise-trans t [] [] [] h k = tt
  Pointwise-trans t [] [] (z ∷ zs) h k = absurd k
  Pointwise-trans t [] (y ∷ ys) zs h k = absurd h
  Pointwise-trans t (x ∷ xs) [] zs h k = absurd h
  Pointwise-trans t (x ∷ xs) (y ∷ ys) [] h k = absurd k
  Pointwise-trans t (x ∷ xs) (y ∷ ys) (z ∷ zs) h k =
      (t x y z h.0 k.0, Pointwise-trans t xs ys zs h.1 k.1)

  pub Pointwise-set :
      ((x : A) → R x x)
      → (xs : List A) (i : ℕ) (x y : A) → get_elem? xs i ≡ some x
      → R x y
      → Pointwise R xs (set xs i y)
  Pointwise-set r [] i x y e h = cc
  Pointwise-set r (a ∷ xs) zero x y e h =
      let same : x ≡ a = some-injective x a (sym e) in
      (subst (λ z. R z y) same h, Pointwise-refl r xs)
  Pointwise-set r (a ∷ xs) (suc i) x y e h = (r a, Pointwise-set r xs i x y e h)

  -- The same by `get_or`: a write out of range changes nothing.
  pub Pointwise-set_or :
      ((x : A) → R x x)
      → (xs : List A) (i : ℕ) (d y : A) → R (get_or xs i d) y
      → Pointwise R xs (set xs i y)
  Pointwise-set_or r [] i d y h = tt
  Pointwise-set_or r (a ∷ xs) zero d y h = (h, Pointwise-refl r xs)
  Pointwise-set_or r (a ∷ xs) (suc i) d y h = (r a, Pointwise-set_or r xs i d y h)

module _ {A : Type 0} where
  pub get_elem?-set_self :
      (xs : List A) (i : ℕ) (x y : A) → get_elem? xs i ≡ some x → get_elem? (set xs i y) i ≡ some y
  get_elem?-set_self [] i x y e = cc
  get_elem?-set_self (a ∷ xs) zero x y e = refl
  get_elem?-set_self (a ∷ xs) (suc i) x y e = get_elem?-set_self xs i x y e
