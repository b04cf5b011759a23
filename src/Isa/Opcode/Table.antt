-- ===== src/Isa/Opcode/Table.antt =====
-- What the table of opcodes and the casts between an opcode and its number say of each other.
use mini_tool_chain.Base.{
  ℕ, ◌<◌, ◌≡◌, refl, true, none, some, arith, ◌==◌, ==_iff, holds_below, holds_below_each,
}
use mini_tool_chain.Isa.Opcode.{
  Opcode, OpcodeInfo, nop, undefined, opcode_value, opcode_cast, find_opcode,
}

-- What decoding needs of an opcode that the table lists.
pub record IsListed (op : Opcode) : Type 0 where
  pub fits_byte : opcode_value op < 256
  pub cast_back : opcode_cast (opcode_value op) ≡ op

pub find_opcode-undefined : (n : ℕ) → find_opcode (undefined n) ≡ none
unfolding find_opcode
find_opcode-undefined n = ground arith

pub find_opcode-IsListed :
    (op : Opcode) (info : OpcodeInfo) → find_opcode op ≡ some info → IsListed op
unfolding opcode_cast opcode_value
find_opcode-IsListed (undefined n) info h = cc (find_opcode-undefined n)
find_opcode-IsListed nop info h = record { fits_byte = omega arith; cast_back = refl }
find_opcode-IsListed _ info h = record { fits_byte = omega arith; cast_back = refl }

cast_table : holds_below (λ n. opcode_value (opcode_cast n) == n) 256 ≡ true
unfolding holds_below opcode_cast opcode_value
cast_table = refl

pub value-opcode_cast : (n : ℕ) → n < 256 → opcode_value (opcode_cast n) ≡ n
value-opcode_cast n h = (==_iff _ n).0 (holds_below_each _ 256 n h cast_table)
