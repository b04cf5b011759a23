-- ===== src/Isa/Semantics/Flags.antt =====
-- What the four flags say after an addition and a subtraction.
use mini_tool_chain.Base.{
  ℕ, zero, suc, ◌+◌, ◌-◌, ◌/◌, ◌^◌, ◌<◌, bit_and, bit_xor, ◌≡◌, refl, ◌∙◌, ◌⊎◌, Bool, true, false,
  ◌||◌, arith, ltb, leb, ◌==◌, if◌then◌else◌,
}
use mini_tool_chain.Base.Int.{ℤ, pos, negsuc, ltb_ℤ, ◌+ℤ◌, ◌-ℤ◌}
use mini_tool_chain.Word.{IsU64, add64, sub64, not64, to_i64}
use mini_tool_chain.Word.Bits.{and_shift, xor_shift, xor-lt}
use mini_tool_chain.Isa.Semantics.{
  zero_flag, sign_flag, carry_flag, overflow_flag, set_flag, top_bit_set, has_flag, compute_flags,
}

-- The four flags of a number.
pub record FlagsAre (flags : ℕ) (z s c o : Bool) : Type 0 where
  pub is_zero : has_flag flags zero_flag ≡ z
  pub is_sign : has_flag flags sign_flag ≡ s
  pub is_carry : has_flag flags carry_flag ≡ c
  pub is_overflow : has_flag flags overflow_flag ≡ o

set_flags :
    (z s c o : Bool)
    → FlagsAre
        (set_flag o overflow_flag
          (set_flag c carry_flag (set_flag s sign_flag (set_flag z zero_flag 0))))
        z
        s
        c
        o
set_flags z s c o = ground arith

-- A mathematical result that no i64 holds.
abbrev pub leaves_i64 : ℤ → Bool
leaves_i64 z = ltb_ℤ z (negsuc (2 ^ 63 - 1)) || ltb_ℤ (pos (2 ^ 63 - 1)) z

bit_cases : (x : ℕ) → x < 2 → (x ≡ 0) ⊎ (x ≡ 1)
bit_cases x h = omega arith

-- The overflow tests on top bits.
sub_table :
    (x y r : ℕ)
    → x < 2
    → y < 2
    → r < 2
    → bit_and (bit_xor x y) (bit_xor x r) ≡ (if x == y then 0 else if x == r then 0 else 1)
sub_table zero zero zero p q h = refl
sub_table zero zero (suc zero) p q h = refl
sub_table zero (suc zero) zero p q h = refl
sub_table zero (suc zero) (suc zero) p q h = refl
sub_table (suc zero) zero zero p q h = refl
sub_table (suc zero) zero (suc zero) p q h = refl
sub_table (suc zero) (suc zero) zero p q h = refl
sub_table (suc zero) (suc zero) (suc zero) p q h = refl
sub_table (suc (suc x)) _ _ p q h = absurd (omega arith)
sub_table _ (suc (suc y)) _ p q h = absurd (omega arith)
sub_table _ _ (suc (suc r)) p q h = absurd (omega arith)

add_table :
    (x y r : ℕ)
    → x < 2
    → y < 2
    → r < 2
    → bit_and (1 - bit_xor x y) (bit_xor x r) ≡ (if x == y then (if x == r then 0 else 1) else 0)
add_table zero zero zero p q h = refl
add_table zero zero (suc zero) p q h = refl
add_table zero (suc zero) zero p q h = refl
add_table zero (suc zero) (suc zero) p q h = refl
add_table (suc zero) zero zero p q h = refl
add_table (suc zero) zero (suc zero) p q h = refl
add_table (suc zero) (suc zero) zero p q h = refl
add_table (suc zero) (suc zero) (suc zero) p q h = refl
add_table (suc (suc x)) _ _ p q h = absurd (omega arith)
add_table _ (suc (suc y)) _ p q h = absurd (omega arith)
add_table _ _ (suc (suc r)) p q h = absurd (omega arith)

module _ (a b r : ℕ) (ha : IsU64 a) (hb : IsU64 b) (hr : IsU64 r) where
  sub_overflow_bit :
      bit_and (bit_xor a b) (bit_xor a r) / 2 ^ 63
      ≡ (if a / 2 ^ 63 == b / 2 ^ 63 then 0 else if a / 2 ^ 63 == r / 2 ^ 63 then 0 else 1)
  sub_overflow_bit =
      and_shift 63 (bit_xor a b) (bit_xor a r)
      ∙ rw (xor_shift 63 a b, xor_shift 63 a r)
          (sub_table (a / 2 ^ 63) (b / 2 ^ 63) (r / 2 ^ 63) (omega arith) (omega arith)
            (omega arith))

  not_shift : not64 (bit_xor a b) / 2 ^ 63 ≡ 1 - bit_xor (a / 2 ^ 63) (b / 2 ^ 63)
  not_shift = omega (arith, xor_shift 63 a b, xor-lt 64 a b ha hb)

  add_overflow_bit :
      bit_and (not64 (bit_xor a b)) (bit_xor a r) / 2 ^ 63
      ≡ (if a / 2 ^ 63 == b / 2 ^ 63 then (if a / 2 ^ 63 == r / 2 ^ 63 then 0 else 1) else 0)
  add_overflow_bit =
      and_shift 63 (not64 (bit_xor a b)) (bit_xor a r)
      ∙ rw (not_shift, xor_shift 63 a r)
          (add_table (a / 2 ^ 63) (b / 2 ^ 63) (r / 2 ^ 63) (omega arith) (omega arith)
            (omega arith))

module _ (a b : ℕ) (ha : IsU64 a) (hb : IsU64 b) where
  -- The flags after `a - b` of two u64: ZF for a zero result, SF for a negative one, CF for a
  -- borrow, and OF exactly when the signed difference is no i64.
  pub compute_flags-sub64 :
      FlagsAre
        (compute_flags (sub64 a b) a b true)
        (sub64 a b == 0)
        (ltb_ℤ (to_i64 (sub64 a b)) (pos 0))
        (ltb a b)
        (leaves_i64 (to_i64 a -ℤ to_i64 b))
  unfolding compute_flags
  compute_flags-sub64 = rw (sign_eq, overflow_eq) (set_flags _ _ _ _)
    where
      sign_eq : ltb_ℤ (to_i64 (sub64 a b)) (pos 0) ≡ top_bit_set (sub64 a b)
      sign_eq = ground arith

      overflow_eq :
          leaves_i64 (to_i64 a -ℤ to_i64 b)
          ≡ top_bit_set (bit_and (bit_xor a b) (bit_xor a (sub64 a b)))
      overflow_eq = ground (arith, sub_overflow_bit a b (sub64 a b) ha hb (omega arith))

  -- The flags after `a + b` of two u64: ZF for a zero result, SF for a negative one, CF when the
  -- sum is no u64, and OF exactly when the signed sum is no i64.
  pub compute_flags-add64 :
      FlagsAre
        (compute_flags (add64 a b) a b false)
        (add64 a b == 0)
        (ltb_ℤ (to_i64 (add64 a b)) (pos 0))
        (leb (2 ^ 64) (a + b))
        (leaves_i64 (to_i64 a +ℤ to_i64 b))
  unfolding compute_flags
  compute_flags-add64 = rw (sign_eq, carry_eq, overflow_eq) (set_flags _ _ _ _)
    where
      sign_eq : ltb_ℤ (to_i64 (add64 a b)) (pos 0) ≡ top_bit_set (add64 a b)
      sign_eq = ground arith

      carry_eq : leb (2 ^ 64) (a + b) ≡ ltb (add64 a b) a
      carry_eq = ground arith

      overflow_eq :
          leaves_i64 (to_i64 a +ℤ to_i64 b)
          ≡ top_bit_set (bit_and (not64 (bit_xor a b)) (bit_xor a (add64 a b)))
      overflow_eq = ground (arith, add_overflow_bit a b (add64 a b) ha hb (omega arith))
