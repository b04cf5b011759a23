-- ===== src/Assembler/Sema/Instructions.antt =====
-- `checkInstruction` of src/assembler/sema.cpp.
pub mod Encodes
pub mod Displacements
use mini_tool_chain.Base.{
  ℕ, ◌+◌, ◌%◌, Bool, true, false, not, ◌&&◌, ◌||◌, Option, none, some, List, [], ◌∷◌, ◌++◌, ◌==◌,
  if◌then◌else◌, length,
}
use mini_tool_chain.Base.Int.{ℤ, pos, ltb_ℤ, pos_part, neg_part}
use mini_tool_chain.Word.{to_u64}
use mini_tool_chain.ByteOrder.{fits_signed, fits_unsigned}
use mini_tool_chain.Isa.Opcode.{
  Opcode, store, Format, reg1, reg2, reg_imm, mem, jump, sys_imm, OpcodeInfo, operand_count,
  find_mnemonic,
}
use mini_tool_chain.Isa.Encoding.{immediate_bits, instruction_size}
use mini_tool_chain.Ir.Lower.{is_store}
use mini_tool_chain.Ast.{Operand, InstructionNode}
use mini_tool_chain.Assembler.Sema.Operands.{
  invalid_opcode, invalid_operand, integer_overflow, Report, report_if, is_register, is_immediate,
  is_memory, is_value, check_signed_range, require_register,
}

-- `imm % 8` of a signed number is zero if that of its magnitude is.
abbrev pub is_unaligned : ℤ → Bool
is_unaligned value = not ((pos_part value + neg_part value) % instruction_size == 0)

pub check_memory : Operand → Operand → List Report
check_memory memory reg =
    require_register reg
    ++ (if is_memory memory.type
        then check_signed_range memory immediate_bits
        else (invalid_operand, memory.location) ∷ [])

pub check_branch : Operand → List Report
check_branch o =
    if not (is_value o.type)
    then (invalid_operand, o.location) ∷ []
    else if is_immediate o.type && not (fits_signed o.immediate immediate_bits)
    then (integer_overflow, o.location) ∷ []
    else report_if (is_immediate o.type && is_unaligned o.immediate) invalid_operand o.location

pub check_service : Operand → List Report
check_service o =
    if not (is_immediate o.type)
    then (invalid_operand, o.location) ∷ []
    else report_if
        (ltb_ℤ o.immediate (pos 0) || not (fits_unsigned (to_u64 o.immediate) immediate_bits))
        integer_overflow o.location

pub check_value : Operand → Operand → List Report
check_value reg value =
    if is_register reg.type && not (is_value value.type)
    then (invalid_operand, value.location) ∷ []
    else require_register reg ++ check_signed_range value immediate_bits

-- The switch over the format; there are as many operands as the format has.
pub check_operands : OpcodeInfo → Format → List Operand → List Report
unfolding check_memory check_branch check_service check_value
check_operands info reg1 (a ∷ []) = require_register a
check_operands info reg2 (a ∷ b ∷ []) = require_register a ++ require_register b
check_operands info reg_imm (a ∷ b ∷ []) = check_value a b
check_operands info mem (a ∷ b ∷ []) =
    if is_store info.opcode then check_memory a b else check_memory b a
check_operands info jump (a ∷ []) = check_branch a
check_operands info sys_imm (a ∷ []) = check_service a
check_operands info _ os = []

pub check_found : InstructionNode → Option OpcodeInfo → List Report
unfolding check_operands operand_count
check_found n none = (invalid_opcode, n.location) ∷ []
check_found n (some info) =
    if not (length n.operands == operand_count info.format)
    then (invalid_operand, n.location) ∷ []
    else check_operands info info.format n.operands

-- `toupper` of the C library is a parameter.
module _ (to_upper : ℕ → ℕ) where
  unfoldable pub check_instruction : InstructionNode → List Report
  unfolding check_found find_mnemonic
  check_instruction n = check_found n (find_mnemonic to_upper n.mnemonic)
