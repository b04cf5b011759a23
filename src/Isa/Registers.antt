-- ===== src/Isa/Registers.antt =====
-- include/minitool/isa/registers.hpp and src/isa/registers.cpp. A Reg is its number; a cast can
-- bring one that names no register.
use mini_tool_chain.Base.{
  ℕ, ◌+◌, ◌-◌, ◌*◌, ◌/◌, ◌%◌, Bool, true, false, not, ◌&&◌, ◌||◌, Option, none, some, List, [], ◌∷◌,
  ltb, leb, ◌==◌, ◌≡◌, ◌<◌, ◌≤◌, ◌⊎◌, inl, inr, arith, if◌then◌else◌, length,
}

abbrev pub Reg : Type 0
Reg = ℕ

abbrev pub register_count : ℕ
register_count = 16

abbrev pub frame_pointer : Reg
frame_pointer = 13

abbrev pub return_value : Reg
return_value = 14

unfoldable pub is_valid_register : Reg → Bool
is_valid_register reg = ltb reg register_count

-- `kNames[reg]` as code points: the letter and the number without leading zeros.
unfoldable pub register_name : Reg → List ℕ
unfolding is_valid_register
register_name reg =
    if not (is_valid_register reg)
    then b'R' ∷ b'?' ∷ []
    else if ltb reg 10
    then b'R' ∷ (b'0' + reg) ∷ []
    else b'R' ∷ (b'0' + reg / 10) ∷ (b'0' + reg % 10) ∷ []

is_digit : ℕ → Bool
is_digit c = leb b'0' c && leb c b'9'

-- The loop over the digits; the number cannot wrap, since there are two digits at most.
digits_value : ℕ → List ℕ → Option ℕ
unfolding is_digit
digits_value acc [] = some acc
digits_value acc (c ∷ rest) =
    let more = digits_value (acc * 10 + (c - b'0')) rest in if is_digit c then more else none

checked : Option ℕ → Option Reg
checked none = none
checked (some n) = if leb register_count n then none else some n

starts_zero : List ℕ → Bool
starts_zero (c ∷ d ∷ rest) = c == b'0'
starts_zero _ = false

-- `toupper` of the C library is a parameter.
module _ (to_upper : ℕ → ℕ) where
  alias : List ℕ → Option Reg
  alias (a ∷ b ∷ []) =
      if to_upper a == b'F' && to_upper b == b'P'
      then some frame_pointer
      else if to_upper a == b'R' && to_upper b == b'V'
      then some return_value
      else none
  alias _ = none

  numbered : List ℕ → Option Reg
  unfolding digits_value checked starts_zero
  numbered [] = none
  numbered (r ∷ digits) =
      if ltb (length digits) 1 || ltb 2 (length digits) || not (to_upper r == b'R')
      then none
      else if starts_zero digits
      then none
      else checked (digits_value 0 digits)

  unfoldable pub parse_register : List ℕ → Option Reg
  unfolding alias numbered
  parse_register text = elim (alias text) [ some reg ↦ some reg | none ↦ numbered text ]

  -- The name of each of the sixteen registers is parsed back to it, where `toupper` keeps every
  -- code below the lower-case letters.
  pub parse_register-register_name :
      (reg : Reg)
      → ltb reg register_count ≡ true
      → ((c : ℕ) → c < b'a' → to_upper c ≡ c)
      → parse_register (register_name reg) ≡ some reg
  unfolding parse_register register_name
  parse_register-register_name reg h upper = elim width [
    | inl one ↦ ground (arith, upper b'R', upper (b'0' + reg))
    | inr two ↦ ground (arith, upper b'R')
  ]
    where
      width : (reg < 10) ⊎ (10 ≤ reg)
      width = omega arith
