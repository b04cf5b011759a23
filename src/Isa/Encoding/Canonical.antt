-- ===== src/Isa/Encoding/Canonical.antt =====
-- The instructions that encode accepts, format by format, and the words that it gives them.
use mini_tool_chain.Base.{ℕ, ◌-◌, ◌%◌, ◌^◌, ◌<◌, ◌≡◌, arith, ok}
use mini_tool_chain.Base.Int.{ℤ, pos, negsuc, ◌≤ℤ◌}
use mini_tool_chain.Word.{IsI64, to_u64}
use mini_tool_chain.Word.Bits.{and_mask}
use mini_tool_chain.ByteOrder.{fits_signed, fits_unsigned}
use mini_tool_chain.Isa.Opcode.{
  opcode_value, Format, no_operand, reg1, reg2, reg_imm, mem, jump, sys_imm,
}
use mini_tool_chain.Isa.Registers.{Reg}
use mini_tool_chain.Isa.Encoding.{Instruction, fields_of, immediate_field, encode_fields}
use mini_tool_chain.Isa.Encoding.Fields.{word_of, pack-word_of}

-- What a format's register fields can hold.
abbrev pub RegistersFit : Format → Reg → Reg → Type 0
RegistersFit no_operand dst src = (dst ≡ 0) × (src ≡ 0)
RegistersFit reg1 dst src = (dst < 16) × (src ≡ 0)
RegistersFit reg2 dst src = (dst < 16) × (src < 16)
RegistersFit reg_imm dst src = (dst < 16) × (src ≡ 0)
RegistersFit mem dst src = (dst < 16) × (src < 16)
RegistersFit jump dst src = (dst ≡ 0) × (src ≡ 0)
RegistersFit sys_imm dst src = (dst ≡ 0) × (src ≡ 0)

abbrev pub Signed48 : ℤ → Type 0
Signed48 z = (negsuc (2 ^ 47 - 1) ≤ℤ z) × (z ≤ℤ pos (2 ^ 47 - 1))

-- What its immediate can be.
abbrev pub ImmediateFits : Format → ℤ → Type 0
ImmediateFits no_operand z = z ≡ pos 0
ImmediateFits reg1 z = z ≡ pos 0
ImmediateFits reg2 z = z ≡ pos 0
ImmediateFits reg_imm z = Signed48 z
ImmediateFits mem z = Signed48 z
ImmediateFits jump z = Signed48 z
ImmediateFits sys_imm z = (pos 0 ≤ℤ z) × (z ≤ℤ pos (2 ^ 48 - 1))

pub record IsEncodable (shape : Format) (i : Instruction) : Type 0 where
  pub registers : RegistersFit shape i.dst i.src
  pub immediate : ImmediateFits shape i.imm

-- The word that an instruction stands for.
abbrev pub instruction_word : Instruction → ℕ
instruction_word i = word_of (opcode_value i.opcode) i.dst i.src (to_u64 i.imm % 2 ^ 48)

immediate_field-ok :
    (shape : Format) (z : ℤ)
    → ImmediateFits shape z
    → immediate_field (fields_of shape) z ≡ ok (to_u64 z % 2 ^ 48)
unfolding immediate_field fields_of fits_signed fits_unsigned
immediate_field-ok no_operand z h = rw h
immediate_field-ok reg1 z h = rw h
immediate_field-ok reg2 z h = rw h
immediate_field-ok reg_imm z h = ground (arith, and_mask 48 (to_u64 z))
immediate_field-ok mem z h = ground (arith, and_mask 48 (to_u64 z))
immediate_field-ok jump z h = ground (arith, and_mask 48 (to_u64 z))
immediate_field-ok sys_imm z h = ground (arith, and_mask 48 (to_u64 z))

pub encode_fields-ok :
    (shape : Format) (i : Instruction)
    → opcode_value i.opcode < 256
    → IsEncodable shape i
    → encode_fields (fields_of shape) i ≡ ok (instruction_word i)
unfolding encode_fields fields_of
encode_fields-ok no_operand i small e = ground (
  arith,
  immediate_field-ok no_operand i.imm e.immediate,
  pack-word_of (opcode_value i.opcode) i.dst i.src (to_u64 i.imm % 2 ^ 48) small,
)
encode_fields-ok reg1 i small e = ground (
  arith,
  immediate_field-ok reg1 i.imm e.immediate,
  pack-word_of (opcode_value i.opcode) i.dst i.src (to_u64 i.imm % 2 ^ 48) small,
)
encode_fields-ok reg2 i small e = ground (
  arith,
  immediate_field-ok reg2 i.imm e.immediate,
  pack-word_of (opcode_value i.opcode) i.dst i.src (to_u64 i.imm % 2 ^ 48) small,
)
encode_fields-ok reg_imm i small e = ground (
  arith,
  immediate_field-ok reg_imm i.imm e.immediate,
  pack-word_of (opcode_value i.opcode) i.dst i.src (to_u64 i.imm % 2 ^ 48) small,
)
encode_fields-ok mem i small e = ground (
  arith,
  immediate_field-ok mem i.imm e.immediate,
  pack-word_of (opcode_value i.opcode) i.dst i.src (to_u64 i.imm % 2 ^ 48) small,
)
encode_fields-ok jump i small e = ground (
  arith,
  immediate_field-ok jump i.imm e.immediate,
  pack-word_of (opcode_value i.opcode) i.dst i.src (to_u64 i.imm % 2 ^ 48) small,
)
encode_fields-ok sys_imm i small e = ground (
  arith,
  immediate_field-ok sys_imm i.imm e.immediate,
  pack-word_of (opcode_value i.opcode) i.dst i.src (to_u64 i.imm % 2 ^ 48) small,
)

-- What a successful encoding says of the instruction.
pub encode_fields-IsEncodable :
    (shape : Format) (i : Instruction) (w : ℕ)
    → IsI64 i.imm
    → encode_fields (fields_of shape) i ≡ ok w
    → IsEncodable shape i
unfolding encode_fields fields_of immediate_field fits_signed fits_unsigned
encode_fields-IsEncodable no_operand i w r h = ground arith
encode_fields-IsEncodable reg1 i w r h = ground arith
encode_fields-IsEncodable reg2 i w r h = ground arith
encode_fields-IsEncodable reg_imm i w r h = ground arith
encode_fields-IsEncodable mem i w r h = ground arith
encode_fields-IsEncodable jump i w r h = ground arith
encode_fields-IsEncodable sys_imm i w r h = ground arith
