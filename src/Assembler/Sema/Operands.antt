-- ===== src/Assembler/Sema/Operands.antt =====
-- The reports of src/assembler/sema.cpp and its tests of operands.
use mini_tool_chain.Base.{ℕ, ◌*◌, Bool, true, false, not, ◌||◌, List, [], ◌∷◌, leb, if◌then◌else◌}
use mini_tool_chain.Base.Int.{ℤ}
use mini_tool_chain.Word.{to_u64}
use mini_tool_chain.ByteOrder.{fits_signed, fits_unsigned}
use mini_tool_chain.Ir.{SourceLocation}
use mini_tool_chain.Ir.Lower.{is_symbol}
use mini_tool_chain.Ast.{
  OperandType, register_operand, immediate_operand, memory_operand, string_operand, Operand,
}

-- The codes of `diag::ErrorCode` that are reported here, a duplicate label with the location of its
-- note.
pub data SemanticError : Type 0 where
  duplicate_symbol : SourceLocation → SemanticError
  invalid_opcode invalid_operand integer_overflow invalid_directive : SemanticError
  invalid_section_reference invalid_relocation : SemanticError

abbrev pub Report : Type 0
Report = SemanticError × SourceLocation

abbrev pub report_if : Bool → SemanticError → SourceLocation → List Report
report_if test error at = if test then (error, at) ∷ [] else []

unfoldable pub fits_in_width : ℤ → ℕ → Bool
fits_in_width value bytes =
    let bits = bytes * 8 in
    if leb 64 bits then true else fits_signed value bits || fits_unsigned (to_u64 value) bits

-- Tests of an operand's type.
abbrev pub is_register : OperandType → Bool
is_register register_operand = true
is_register _ = false

abbrev pub is_immediate : OperandType → Bool
is_immediate immediate_operand = true
is_immediate _ = false

abbrev pub is_memory : OperandType → Bool
is_memory memory_operand = true
is_memory _ = false

abbrev pub is_string : OperandType → Bool
is_string string_operand = true
is_string _ = false

abbrev pub is_value : OperandType → Bool
is_value t = is_immediate t || is_symbol t

-- Nothing is reported of an operand that is no literal.
abbrev pub check_signed_range : Operand → ℕ → List Report
check_signed_range o bits =
    if not (is_immediate o.type)
    then []
    else report_if (not (fits_signed o.immediate bits)) integer_overflow o.location

abbrev pub require_register : Operand → List Report
require_register o = report_if (not (is_register o.type)) invalid_operand o.location
