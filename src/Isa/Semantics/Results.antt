-- ===== src/Isa/Semantics/Results.antt =====
-- The results of the semantics layer are u64 values.
use native.Mathlib.Nat.{div-le_self}
use mini_tool_chain.Base.{
  ℕ, ◌-◌, ◌^◌, ◌≡◌, ap, subst, arith, Bool, true, false, bit_and, Expected, ok, if◌then◌else◌, ◌==◌,
  Bool-cases, inl, inr, ok-injective,
}
use mini_tool_chain.Base.Int.{ℤ, pos, negsuc}
use mini_tool_chain.Word.{IsU64, add64, not64, shl64, shr64, to_u64, to_i64}
use mini_tool_chain.Word.Bits.{and-lt, or-lt, xor-lt}
use mini_tool_chain.Isa.Opcode.{
  Opcode, add, sub, mul, div, mod_op, and, or, xor, shl, shr, sar, cmp, test, inc, dec, neg, not_op,
}
use mini_tool_chain.Isa.Semantics.{
  AluError, AluResult, evaluate_binary, evaluate_unary, divide, modulo, multiply, logical, shifted,
  shift_left, shift_right, shift_arithmetic, is_minus_one, quot_i64, rem_i64, top_bit_set,
}

pub to_u64-IsU64 : (z : ℤ) → IsU64 (to_u64 z)
to_u64-IsU64 (pos n) = omega arith
to_u64-IsU64 (negsuc n) = omega arith

shl64-IsU64 : (a n : ℕ) → IsU64 (shl64 a n)
shl64-IsU64 a n = omega arith

shr64-IsU64 : (a n : ℕ) → IsU64 a → IsU64 (shr64 a n)
shr64-IsU64 a n h = omega (arith, div-le_self a (2 ^ n))

if-IsU64 : (t : Bool) (a b : ℕ) → IsU64 a → IsU64 b → IsU64 (if t then a else b)
if-IsU64 true a b f g = f
if-IsU64 false a b f g = g

-- The value of a result that was made of it.
value-IsU64 :
    (made r : AluResult)
    → ◌≡◌ {A = Expected AluError AluResult} (ok made) (ok r)
    → IsU64 made.value
    → IsU64 r.value
value-IsU64 made r h = subst IsU64 (ap (λ t. t.value) (ok-injective made r h))

divide-IsU64 : (a b : ℕ) (r : AluResult) → divide a b ≡ ok r → IsU64 r.value
unfolding divide
divide-IsU64 a b r h = elim (Bool-cases (b == 0)) [
  | inl zeroed ↦ cc (rw zeroed at h)
  | inr fine ↦ value-IsU64 _ r (rw fine at h) (
      if-IsU64 (is_minus_one (to_i64 b)) (add64 (not64 a) 1)
        (to_u64 (quot_i64 (to_i64 a) (to_i64 b))) (omega arith)
        (to_u64-IsU64 (quot_i64 (to_i64 a) (to_i64 b))))
]

modulo-IsU64 : (a b : ℕ) (r : AluResult) → modulo a b ≡ ok r → IsU64 r.value
unfolding modulo
modulo-IsU64 a b r h = elim (Bool-cases (b == 0)) [
  | inl zeroed ↦ cc (rw zeroed at h)
  | inr fine ↦ value-IsU64 _ r (rw fine at h) (
      if-IsU64 (is_minus_one (to_i64 b)) 0 (to_u64 (rem_i64 (to_i64 a) (to_i64 b))) (omega arith)
        (to_u64-IsU64 (rem_i64 (to_i64 a) (to_i64 b))))
]

module _ (a b : ℕ) (r : AluResult) (ha : IsU64 a) (hb : IsU64 b) where
  shift_arithmetic-IsU64 : shift_arithmetic a b ≡ ok r → IsU64 r.value
  unfolding shift_arithmetic shifted
  shift_arithmetic-IsU64 h = value-IsU64 _ r h (
      if-IsU64 _ _ _ ha (
        or-lt 64 _ _ (shr64-IsU64 a _ ha) (
          if-IsU64 (top_bit_set a) (shl64 (not64 0) (64 - bit_and b 63)) 0
            (shl64-IsU64 (not64 0) (64 - bit_and b 63)) (omega arith))))

  -- The value that a binary operation gives for two u64, where it gives one, is a u64.
  pub evaluate_binary-IsU64 : (op : Opcode) → evaluate_binary op a b ≡ ok r → IsU64 r.value
  unfolding evaluate_binary multiply logical shift_left shift_right shifted
  evaluate_binary-IsU64 add h = value-IsU64 _ r h (omega arith)
  evaluate_binary-IsU64 sub h = value-IsU64 _ r h (omega arith)
  evaluate_binary-IsU64 mul h = value-IsU64 _ r h (omega arith)
  evaluate_binary-IsU64 div h = divide-IsU64 a b r h
  evaluate_binary-IsU64 mod_op h = modulo-IsU64 a b r h
  evaluate_binary-IsU64 and h = value-IsU64 _ r h (and-lt 64 a b ha hb)
  evaluate_binary-IsU64 or h = value-IsU64 _ r h (or-lt 64 a b ha hb)
  evaluate_binary-IsU64 xor h = value-IsU64 _ r h (xor-lt 64 a b ha hb)
  evaluate_binary-IsU64 shl h = value-IsU64 _ r h (if-IsU64 _ _ _ ha (shl64-IsU64 a _))
  evaluate_binary-IsU64 shr h = value-IsU64 _ r h (if-IsU64 _ _ _ ha (shr64-IsU64 a _ ha))
  evaluate_binary-IsU64 sar h = shift_arithmetic-IsU64 h
  evaluate_binary-IsU64 cmp h = value-IsU64 _ r h ha
  evaluate_binary-IsU64 test h = value-IsU64 _ r h ha
  evaluate_binary-IsU64 _ h = cc h

pub evaluate_unary-IsU64 :
    (op : Opcode) (a : ℕ) (r : AluResult) → evaluate_unary op a ≡ ok r → IsU64 r.value
unfolding evaluate_unary
evaluate_unary-IsU64 inc a r h = value-IsU64 _ r h (omega arith)
evaluate_unary-IsU64 dec a r h = value-IsU64 _ r h (omega arith)
evaluate_unary-IsU64 neg a r h = value-IsU64 _ r h (omega arith)
evaluate_unary-IsU64 not_op a r h = value-IsU64 _ r h (omega arith)
evaluate_unary-IsU64 _ a r h = cc h
