-- ===== src/Isa/Semantics/Division.antt =====
-- What DIV and MOD of src/isa/semantics.cpp give is the division of the operands as signed numbers.
use native.Mathlib.Nat.{div-le_self, div-lt_self, mod-lt, mod-le, div-add-mod}
use mini_tool_chain.Base.{
  ℕ, zero, suc, ◌+◌, ◌-◌, ◌*◌, ◌/◌, ◌%◌, ◌^◌, ◌<◌, ◌≤◌, ◌≡◌, ◌⊎◌, refl, ap, ◌∙◌, arith, true, false,
  ok, err, Bool-cases, inl, inr, ◌==◌, if◌then◌else◌,
}
use mini_tool_chain.Base.Int.{ℤ, pos, negsuc, ◌+ℤ◌, ◌*ℤ◌, sub_ℕ, ◌≤ℤ◌, abs}
use mini_tool_chain.Word.{IsU64, IsI64, to_u64, to_i64, to_i64-IsI64, add64, not64}
use mini_tool_chain.Isa.Opcode.{div, mod_op}
use mini_tool_chain.Isa.Semantics.{
  AluResult, division_by_zero, evaluate_binary, divide, modulo, is_minus_one, quot_i64, rem_i64,
  zero_and_sign, minus,
}

abbrev i64_min : ℤ
i64_min = negsuc (2 ^ 63 - 1)

minus_sub : (e : ℕ) → minus e ≡ sub_ℕ 0 e
minus_sub zero = refl
minus_sub (suc e) = ground arith

-- The quotient times the divisor and the remainder make the dividend.
module _ (e n f m : ℕ) (h : n * e + f ≡ m) where
  pos_pos : (pos e *ℤ pos n) +ℤ pos f ≡ pos m
  pos_pos = ground arith

  pos_neg : (n' : ℕ) → n ≡ suc n' → (minus e *ℤ negsuc n') +ℤ pos f ≡ pos m
  pos_neg n' same = rw (minus_sub e) (ground arith)

  neg_pos : (minus e *ℤ pos n) +ℤ minus f ≡ minus m
  neg_pos = rw (minus_sub e, minus_sub f, minus_sub m) (ground arith)

  neg_neg : (n' : ℕ) → n ≡ suc n' → (pos e *ℤ negsuc n') +ℤ minus f ≡ minus m
  neg_neg n' same = rw (minus_sub f, minus_sub m) (ground arith)

whole : (m n n' : ℕ) → n' ≡ n → n * (m / n) + m % n' ≡ m
whole m n n' same = ap (λ k. n * (m / n) + m % k) same ∙ div-add-mod m n

quot-rem : (x y : ℤ) → (quot_i64 x y *ℤ y) +ℤ rem_i64 x y ≡ x
unfolding quot_i64 rem_i64
quot-rem (pos m) (pos n) = pos_pos (m / n) n _ m (whole m n _ (omega arith))
quot-rem (pos m) (negsuc n) =
    pos_neg (m / suc n) (suc n) _ m (whole m (suc n) _ (omega arith)) n refl
quot-rem (negsuc m) (pos n) = neg_pos (suc m / n) n _ (suc m) (whole (suc m) n _ (omega arith))
quot-rem (negsuc m) (negsuc n) =
    neg_neg (suc m / suc n) (suc n) _ (suc m) (whole (suc m) (suc n) _ (omega arith)) n refl

-- The cast to u64 and back keeps an i64.
to_i64-to_u64 : (z : ℤ) → IsI64 z → to_i64 (to_u64 z) ≡ z
to_i64-to_u64 (pos n) h = ground arith
to_i64-to_u64 (negsuc n) h = ground arith

minus-IsI64 : (e : ℕ) → e ≤ 2 ^ 63 → IsI64 (minus e)
minus-IsI64 zero h = omega arith
minus-IsI64 (suc e) h = omega arith

quot_i64-IsI64 : (x y : ℤ) → IsI64 x → is_minus_one y ≡ false → IsI64 (quot_i64 x y)
unfolding quot_i64 is_minus_one
quot_i64-IsI64 (pos m) (pos n) h k = omega (arith, div-le_self m n)
quot_i64-IsI64 (pos m) (negsuc n) h k = minus-IsI64 _ (omega (arith, div-le_self m (suc n)))
quot_i64-IsI64 (negsuc m) (pos n) h k = minus-IsI64 _ (omega (arith, div-le_self (suc m) n))
quot_i64-IsI64 (negsuc m) (negsuc zero) h k = cc
quot_i64-IsI64 (negsuc m) (negsuc (suc n)) h k =
    let smaller = div-lt_self {n = suc m} {k = suc (suc n)} (omega arith) (omega arith) in
    omega arith

rem_i64-IsI64 : (x y : ℤ) → IsI64 x → IsI64 (rem_i64 x y)
unfolding rem_i64
rem_i64-IsI64 (pos m) y h = omega (arith, mod-le m (abs y))
rem_i64-IsI64 (negsuc m) y h = minus-IsI64 _ (omega (arith, mod-le (suc m) (abs y)))

-- The remainder is smaller than the divisor and has the sign of the dividend.
abbrev pub IsRemainder : ℤ → ℤ → ℤ → Type 0
IsRemainder x y m =
    (abs m < abs y) × (((pos 0 ≤ℤ x) × (pos 0 ≤ℤ m)) ⊎ ((x ≤ℤ pos 0) × (m ≤ℤ pos 0)))

minus-abs : (e : ℕ) → (abs (minus e) ≡ e) × (minus e ≤ℤ pos 0)
minus-abs zero = omega arith
minus-abs (suc e) = omega arith

rem_i64-IsRemainder : (x y : ℤ) → 0 < abs y → IsRemainder x y (rem_i64 x y)
unfolding rem_i64
rem_i64-IsRemainder (pos m) y h = (omega (arith, mod-lt m h), inl (omega arith, omega arith))
rem_i64-IsRemainder (negsuc m) y h =
    let (size, below) = minus-abs (suc m % abs y) in
    (omega (arith, size, mod-lt (suc m) h), inr (omega arith, below))

-- A quotient and a remainder of i64 numbers: the division is whole, but for the one whose quotient
-- is no i64, where the dividend is the quotient.
abbrev pub IsDivision : ℤ → ℤ → ℤ → ℤ → Type 0
IsDivision x y q m =
    (((q *ℤ y) +ℤ m ≡ x) ⊎ ((x ≡ i64_min) × (y ≡ negsuc 0) × (q ≡ x) × (m ≡ pos 0)))
    × IsRemainder x y m

-- The two results as the code chooses them.
abbrev divided : ℕ → ℕ → ℕ
divided a b =
    if is_minus_one (to_i64 b) then add64 (not64 a) 1 else to_u64 (quot_i64 (to_i64 a) (to_i64 b))

abbrev remaining : ℕ → ℕ → ℕ
remaining a b = if is_minus_one (to_i64 b) then 0 else to_u64 (rem_i64 (to_i64 a) (to_i64 b))

abbrev written : ℕ → AluResult
written v = record { value = v; flags = zero_and_sign v; writes_value = true; writes_flags = true }

is_minus_one_iff : (y : ℤ) → is_minus_one y ≡ true → y ≡ negsuc 0
unfolding is_minus_one
is_minus_one_iff (pos n) h = cc
is_minus_one_iff (negsuc n) h = ground arith

module _ (a b : ℕ) (ha : IsU64 a) (hb : IsU64 b) (h : 0 < b) where
  by_minus_one :
      b ≡ 2 ^ 64 - 1 → IsDivision (to_i64 a) (negsuc 0) (to_i64 (add64 (not64 a) 1)) (pos 0)
  by_minus_one at = elim (Bool-cases (a == 2 ^ 63)) [
    | inl least ↦ (
      inr (ground arith, refl, ground arith, refl),
      (omega arith, inr (ground arith, omega arith)),
    )
    | inr other ↦ (inl (ground arith), (omega arith, ground arith))
  ]

  by_other :
      is_minus_one (to_i64 b) ≡ false
      → IsDivision
          (to_i64 a)
          (to_i64 b)
          (to_i64 (to_u64 (quot_i64 (to_i64 a) (to_i64 b))))
          (to_i64 (to_u64 (rem_i64 (to_i64 a) (to_i64 b))))
  by_other other =
      let x = to_i64-IsI64 a ha in
      rw
        (
          to_i64-to_u64 _ (quot_i64-IsI64 (to_i64 a) (to_i64 b) x other),
          to_i64-to_u64 _ (rem_i64-IsI64 (to_i64 a) (to_i64 b) x),
        )
        (
          inl (quot-rem (to_i64 a) (to_i64 b)),
          rem_i64-IsRemainder (to_i64 a) (to_i64 b) (ground arith),
        )

  divided-IsDivision :
      IsDivision (to_i64 a) (to_i64 b) (to_i64 (divided a b)) (to_i64 (remaining a b))
  unfolding is_minus_one
  divided-IsDivision = elim (Bool-cases (is_minus_one (to_i64 b))) [
    | inl minus_one ↦
        let all = is_minus_one_iff (to_i64 b) minus_one in
        rw (minus_one, all) (by_minus_one (ground (arith, all)))
    | inr other ↦ rw other (by_other other)
  ]

-- What DIV and MOD write for two words.
abbrev pub Divides : ℕ → ℕ → AluResult → AluResult → Type 0
Divides a b q m =
    (evaluate_binary div a b ≡ ok q)
    × (evaluate_binary mod_op a b ≡ ok m)
    × (q.writes_value ≡ true)
    × (m.writes_value ≡ true)
    × IsDivision (to_i64 a) (to_i64 b) (to_i64 q.value) (to_i64 m.value)

-- DIV and MOD of two u64 fail on a zero divisor. On any other, read as signed numbers, they give
-- the quotient and the remainder of a division that rounds towards zero: the quotient times the
-- divisor and the remainder are the dividend, and the remainder is smaller than the divisor and of
-- the dividend's sign; only the least i64 by -1 gives itself and 0. Both results are written.
pub evaluate_binary-div_mod :
    (a b : ℕ)
    → IsU64 a
    → IsU64 b
    → 0 < b
    → (evaluate_binary div a 0 ≡ err division_by_zero)
      × (evaluate_binary mod_op a 0 ≡ err division_by_zero)
      × ((q : AluResult) × (m : AluResult) × Divides a b q m)
unfolding evaluate_binary divide modulo
evaluate_binary-div_mod a b ha hb h =
    let nonzero : (b == 0) ≡ false = ground arith in
    (
      refl,
      refl,
      (
        written (divided a b),
        written (remaining a b),
        (rw nonzero refl, rw nonzero refl, refl, refl, divided-IsDivision a b ha hb h),
      ),
    )
