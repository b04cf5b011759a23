-- ===== src/Isa/Semantics.antt =====
-- include/minitool/isa/semantics.hpp and src/isa/semantics.cpp: the arithmetic of the instructions.
pub mod Flags
pub mod Branches
pub mod Results
pub mod Division
use mini_tool_chain.Base.{
  ℕ, zero, suc, ◌+◌, ◌-◌, ◌*◌, ◌/◌, ◌%◌, ◌^◌, bit_and, bit_or, bit_xor, Bool, true, false, not,
  ◌&&◌, ◌||◌, ltb, ◌==◌, if◌then◌else◌, Expected, ok, err,
}
use mini_tool_chain.Base.Int.{ℤ, pos, negsuc, pos_part, neg_part}
use mini_tool_chain.Word.{add64, sub64, mul64, not64, shl64, shr64, to_u64, to_i64}
use mini_tool_chain.Isa.Opcode.{
  Opcode, add, sub, mul, div, mod_op, inc, dec, neg, and, or, xor, not_op, shl, shr, sar, cmp, test,
  jmp, je, jne, jg, jl, jge, jle, call,
}

abbrev pub zero_flag : ℕ
zero_flag = 1

abbrev pub sign_flag : ℕ
sign_flag = 2

abbrev pub carry_flag : ℕ
carry_flag = 4

abbrev pub overflow_flag : ℕ
overflow_flag = 8

abbrev pub flags_mask : ℕ
flags_mask = 15

pub data AluError : Type 0 where
  division_by_zero not_arithmetic : AluError

pub record AluResult : Type 0 where
  pub value : ℕ
  pub flags : ℕ
  pub writes_value : Bool
  pub writes_flags : Bool

abbrev alu_result : ℕ → ℕ → Bool → Bool → Expected AluError AluResult
alu_result v f writes_v writes_f =
    ok (record { value = v; flags = f; writes_value = writes_v; writes_flags = writes_f })

-- `if (test) flags |= bit;`
abbrev pub set_flag : Bool → ℕ → ℕ → ℕ
set_flag raised bit flags = if raised then bit_or flags bit else flags

-- `(word >> 63U) != 0U`
abbrev pub top_bit_set : ℕ → Bool
top_bit_set word = not (shr64 word 63 == 0)

unfoldable pub zero_and_sign : ℕ → ℕ
zero_and_sign result = set_flag (top_bit_set result) sign_flag (set_flag (result == 0) zero_flag 0)

unfoldable pub compute_flags : ℕ → ℕ → ℕ → Bool → ℕ
unfolding zero_and_sign
compute_flags result a b is_subtraction =
    let flags = zero_and_sign result in
    if is_subtraction
    then set_flag (top_bit_set (bit_and (bit_xor a b) (bit_xor a result))) overflow_flag
        (set_flag (ltb a b) carry_flag flags)
    else set_flag (top_bit_set (bit_and (not64 (bit_xor a b)) (bit_xor a result))) overflow_flag
        (set_flag (ltb result a) carry_flag flags)

logical : ℕ → Expected AluError AluResult
unfolding zero_and_sign
logical result = alu_result result (zero_and_sign result) true true

-- `lhs / rhs` and `lhs % rhs` on i64 round towards zero.
abbrev magnitude : ℤ → ℕ
magnitude z = pos_part z + neg_part z

abbrev minus : ℕ → ℤ
minus zero = pos 0
minus (suc n) = negsuc n

unfoldable pub quot_i64 : ℤ → ℤ → ℤ
quot_i64 (pos m) (pos n) = pos (m / n)
quot_i64 (pos m) (negsuc n) = minus (m / suc n)
quot_i64 (negsuc m) (pos n) = minus (suc m / n)
quot_i64 (negsuc m) (negsuc n) = pos (suc m / suc n)

unfoldable pub rem_i64 : ℤ → ℤ → ℤ
rem_i64 (pos m) rhs = pos (m % magnitude rhs)
rem_i64 (negsuc m) rhs = minus (suc m % magnitude rhs)

is_minus_one : ℤ → Bool
is_minus_one (pos n) = false
is_minus_one (negsuc n) = n == 0

divide : ℕ → ℕ → Expected AluError AluResult
unfolding is_minus_one quot_i64 zero_and_sign
divide a b =
    let result =
      if is_minus_one (to_i64 b)
      then add64 (not64 a) 1
      else to_u64 (quot_i64 (to_i64 a) (to_i64 b)) in
    if b == 0 then err division_by_zero else alu_result result (zero_and_sign result) true true

modulo : ℕ → ℕ → Expected AluError AluResult
unfolding is_minus_one rem_i64 zero_and_sign
modulo a b =
    let result = if is_minus_one (to_i64 b) then 0 else to_u64 (rem_i64 (to_i64 a) (to_i64 b)) in
    if b == 0 then err division_by_zero else alu_result result (zero_and_sign result) true true

multiply : ℕ → ℕ → Expected AluError AluResult
unfolding zero_and_sign
multiply a b =
    let result = mul64 a b in
    alu_result result
      (set_flag (not (a == 0) && not (result / a == b)) carry_flag (zero_and_sign result)) true true

-- A shift's result and flags; `bit` is the last bit shifted out, and is read for a count above 0.
shifted : ℕ → ℕ → ℕ → Expected AluError AluResult
unfolding zero_and_sign
shifted count result bit =
    alu_result result
      (set_flag (not (count == 0) && not (bit == 0)) carry_flag (zero_and_sign result)) true true

shift_left : ℕ → ℕ → Expected AluError AluResult
unfolding shifted
shift_left a b =
    let count = bit_and b 63 in
    let result = if count == 0 then a else shl64 a count in
    shifted count result (bit_and (shr64 a (64 - count)) 1)

shift_right : ℕ → ℕ → Expected AluError AluResult
unfolding shifted
shift_right a b =
    let count = bit_and b 63 in
    let result = if count == 0 then a else shr64 a count in
    shifted count result (bit_and (shr64 a (count - 1)) 1)

shift_arithmetic : ℕ → ℕ → Expected AluError AluResult
unfolding shifted
shift_arithmetic a b =
    let count = bit_and b 63 in
    let sign = if top_bit_set a then shl64 (not64 0) (64 - count) else 0 in
    let result = if count == 0 then a else bit_or (shr64 a count) sign in
    shifted count result (bit_and (shr64 a (count - 1)) 1)

unfoldable pub evaluate_binary : Opcode → ℕ → ℕ → Expected AluError AluResult
unfolding compute_flags multiply divide modulo logical shift_left shift_right shift_arithmetic
evaluate_binary add a b =
    let result = add64 a b in alu_result result (compute_flags result a b false) true true
evaluate_binary sub a b =
    let result = sub64 a b in alu_result result (compute_flags result a b true) true true
evaluate_binary mul a b = multiply a b
evaluate_binary div a b = divide a b
evaluate_binary mod_op a b = modulo a b
evaluate_binary and a b = logical (bit_and a b)
evaluate_binary or a b = logical (bit_or a b)
evaluate_binary xor a b = logical (bit_xor a b)
evaluate_binary shl a b = shift_left a b
evaluate_binary shr a b = shift_right a b
evaluate_binary sar a b = shift_arithmetic a b
evaluate_binary cmp a b = alu_result a (compute_flags (sub64 a b) a b true) false true
evaluate_binary test a b = alu_result a (zero_and_sign (bit_and a b)) false true
evaluate_binary _ a b = err not_arithmetic

unfoldable pub evaluate_unary : Opcode → ℕ → Expected AluError AluResult
unfolding compute_flags
evaluate_unary inc a =
    let result = add64 a 1 in alu_result result (compute_flags result a 1 false) true true
evaluate_unary dec a =
    let result = sub64 a 1 in alu_result result (compute_flags result a 1 true) true true
evaluate_unary neg a =
    let result = add64 (not64 a) 1 in alu_result result (compute_flags result 0 a true) true true
evaluate_unary not_op a = alu_result (not64 a) 0 true false
evaluate_unary _ a = err not_arithmetic

unfoldable pub is_binary_alu : Opcode → Bool
is_binary_alu add = true
is_binary_alu sub = true
is_binary_alu mul = true
is_binary_alu div = true
is_binary_alu mod_op = true
is_binary_alu and = true
is_binary_alu or = true
is_binary_alu xor = true
is_binary_alu shl = true
is_binary_alu shr = true
is_binary_alu sar = true
is_binary_alu cmp = true
is_binary_alu test = true
is_binary_alu _ = false

unfoldable pub is_unary_alu : Opcode → Bool
is_unary_alu inc = true
is_unary_alu dec = true
is_unary_alu neg = true
is_unary_alu not_op = true
is_unary_alu _ = false

unfoldable pub reads_flags : Opcode → Bool
reads_flags je = true
reads_flags jne = true
reads_flags jg = true
reads_flags jl = true
reads_flags jge = true
reads_flags jle = true
reads_flags _ = false

abbrev pub has_flag : ℕ → ℕ → Bool
has_flag flags bit = not (bit_and flags bit == 0)

-- `==` on two Booleans.
abbrev pub same : Bool → Bool → Bool
same true b = b
same false b = not b

unfoldable pub branch_taken : Opcode → ℕ → Bool
branch_taken jmp flags = true
branch_taken call flags = true
branch_taken je flags = has_flag flags zero_flag
branch_taken jne flags = not (has_flag flags zero_flag)
branch_taken jg flags =
    not (has_flag flags zero_flag) && same (has_flag flags sign_flag) (has_flag flags overflow_flag)
branch_taken jl flags = not (same (has_flag flags sign_flag) (has_flag flags overflow_flag))
branch_taken jge flags = same (has_flag flags sign_flag) (has_flag flags overflow_flag)
branch_taken jle flags =
    has_flag flags zero_flag || not (same (has_flag flags sign_flag) (has_flag flags overflow_flag))
branch_taken _ flags = false
