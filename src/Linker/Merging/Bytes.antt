-- ===== src/Linker/Merging/Bytes.antt =====
-- `alignUp` of src/linker/linker.cpp, and the vectors that it resizes.
use mini_tool_chain.Base.{
  ℕ, zero, suc, ◌+◌, ◌-◌, ◌%◌, ◌^◌, ◌≤◌, ◌<◌, max, ◌≡◌, refl, sym, ap, ◌∙◌, arith, List, [], ◌∷◌,
  ◌++◌, leb, ◌==◌, length, take, drop, replicate, length-append, length-replicate, length-take, ltb,
  ltb→lt, Bool-cases, inl, inr,
}
use package.native.Mathlib.Nat.{mod-add-mod, mod_self, mod-lt, mod-eq_of_lt}
use mini_tool_chain.Word.{IsU64, add64}
use mini_tool_chain.Linker.Merging.{region_size, align_up, resize}

take_all : (n : ℕ) (xs : List ℕ) → length xs ≤ n → take n xs ≡ xs
take_all zero [] h = refl
take_all zero (x ∷ xs) h = absurd (omega arith)
take_all (suc n) [] h = refl
take_all (suc n) (x ∷ xs) h = ap (λ ys. x ∷ ys) (take_all n xs (omega arith))

pub resize_longer :
    (xs : List ℕ) (n : ℕ) → length xs ≤ n → resize xs n ≡ xs ++ replicate (n - length xs) 0
unfolding resize
resize_longer xs n h = ap (λ ys. ys ++ replicate (n - length xs) 0) (take_all n xs h)

pub length-resize : (xs : List ℕ) (n : ℕ) → length (resize xs n) ≡ n
unfolding resize
length-resize xs n = omega (
  arith,
  length-append (take n xs) (replicate (n - length xs) 0),
  length-take n xs,
  length-replicate {A = ℕ} (n - length xs) 0,
)

-- Behind a prefix that is kept, the rest is resized.
pub resize-append :
    (xs ys : List ℕ) (m n : ℕ) → m ≡ length xs + n → resize (xs ++ ys) m ≡ xs ++ resize ys n
unfolding resize
resize-append [] ys m n h =
    let e : m ≡ n = omega arith in ap (λ k. take k ys ++ replicate (k - length ys) 0) e
resize-append (x ∷ xs) ys zero n h = absurd (omega arith)
resize-append (x ∷ xs) ys (suc m) n h =
    ap (λ zs. x ∷ zs) (rest ∙ resize-append xs ys m n (omega arith))
  where
    rest :
        take m (xs ++ ys) ++ replicate (suc m - suc (length (xs ++ ys))) 0
        ≡ take m (xs ++ ys) ++ replicate (m - length (xs ++ ys)) 0
    rest =
        let e : suc m - suc (length (xs ++ ys)) ≡ m - length (xs ++ ys) = omega arith in
        ap (λ k. take m (xs ++ ys) ++ replicate k 0) e

-- A part that a prefix and a suffix surround.
pub take-drop-prefix :
    (xs ys zs : List ℕ) (offset n : ℕ)
    → offset ≡ length xs
    → n ≡ length ys
    → take n (drop offset (xs ++ (ys ++ zs))) ≡ ys
take-drop-prefix [] [] zs zero zero at long = refl
take-drop-prefix [] (y ∷ ys) zs zero (suc n) at long =
    ap (λ l. y ∷ l) (take-drop-prefix [] ys zs zero n refl (omega arith))
take-drop-prefix (x ∷ xs) ys zs (suc offset) n at long =
    take-drop-prefix xs ys zs offset n (omega arith) long
take-drop-prefix [] [] zs zero (suc n) at long = absurd (omega arith)
take-drop-prefix [] (y ∷ ys) zs zero zero at long = absurd (omega arith)
take-drop-prefix [] ys zs (suc offset) n at long = absurd (omega arith)
take-drop-prefix (x ∷ xs) ys zs zero n at long = absurd (omega arith)

pub take-drop-append :
    (xs ys : List ℕ) (offset n : ℕ)
    → offset + n ≤ length xs
    → take n (drop offset (xs ++ ys)) ≡ take n (drop offset xs)
take-drop-append xs ys zero zero h = refl
take-drop-append [] ys zero (suc n) h = absurd (omega arith)
take-drop-append (x ∷ xs) ys zero (suc n) h =
    ap (λ l. x ∷ l) (take-drop-append xs ys zero n (omega arith))
take-drop-append [] ys (suc offset) n h = absurd (omega arith)
take-drop-append (x ∷ xs) ys (suc offset) n h = take-drop-append xs ys offset n (omega arith)

pub take-drop-nil : (offset n : ℕ) → take n (drop {A = ℕ} offset []) ≡ []
take-drop-nil zero zero = refl
take-drop-nil zero (suc n) = refl
take-drop-nil (suc offset) zero = refl
take-drop-nil (suc offset) (suc n) = refl

pub no_elements : (xs : List ℕ) → length xs ≡ 0 → xs ≡ []
no_elements [] h = refl
no_elements (x ∷ xs) h = absurd (omega arith)

padded_mod :
    (value alignment : ℕ)
    → 1 < alignment
    → (value + (alignment - value % alignment)) % alignment ≡ 0
padded_mod value alignment h =
    sym (mod-add-mod value alignment (alignment - value % alignment)) ∙ whole
  where
    whole : (value % alignment + (alignment - value % alignment)) % alignment ≡ 0
    whole =
        let e : value % alignment + (alignment - value % alignment) ≡ alignment =
          omega (arith, mod-lt value {m = alignment} (omega arith)) in
        ap (λ k. k % alignment) e ∙ mod_self alignment

padded_small :
    (value alignment : ℕ)
    → value ≤ region_size
    → IsU64 alignment
    → value + (alignment - value % alignment) < 2 ^ 64
padded_small value alignment small u = elim (Bool-cases (ltb value alignment)) [
  | inl above ↦
      let less : value < alignment = ltb→lt value alignment above in
      omega (arith, mod-eq_of_lt {n = value} {m = alignment} less)
  | inr within ↦ ground arith
]

-- An aligned offset at or behind the value.
pub align_up_lem :
    (value alignment : ℕ)
    → value ≤ region_size
    → IsU64 alignment
    → (value ≤ align_up value alignment) × (align_up value alignment % max 1 alignment ≡ 0)
unfolding align_up
align_up_lem value alignment small u = elim (Bool-cases (leb alignment 1)) [
  | inl free ↦
      let one : max 1 alignment ≡ 1 = ground arith in
      (rw free (omega arith), rw (free, one) (omega arith))
  | inr wide ↦
      let same : max 1 alignment ≡ alignment = ground arith in
      let small' = padded_small value alignment small u in
      let padded : add64 value (alignment - value % alignment)
          ≡ value + (alignment - value % alignment) =
        omega arith in
      elim (Bool-cases (value % alignment == 0)) [
        | inl at ↦ (rw (wide, at) (omega arith), rw (wide, at, same) (ground arith))
        | inr off ↦ (
          rw (wide, off, padded) (omega arith),
          rw (wide, off, padded, same) (padded_mod value alignment (ground arith)),
        )
      ]
]
