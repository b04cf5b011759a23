-- ===== src/Assembler/Sema.antt =====
-- src/assembler/sema.cpp and include/minitool/assembler/sema.hpp: what is reported of a program, in
-- order. A report is its code and location, the duplicate label's note included; `valid_` is that
-- there is none.
pub mod Operands
pub mod Instructions
pub mod Directives
use package.text.Mathlib.Text.{◌==◌ as str_eq}
use mini_tool_chain.Base.{
  ℕ, suc, ◌+◌, ◌-◌, ◌*◌, ◌%◌, bit_and, Bool, true, false, not, ◌&&◌, ◌||◌, Option, none, some, List,
  [], ◌∷◌, ◌++◌, String, ltb, leb, ◌==◌, if◌then◌else◌, length,
}
use mini_tool_chain.Base.Int.{ℤ, pos, negsuc, leb_ℤ, ltb_ℤ, pos_part, neg_part}
use mini_tool_chain.Word.{to_u64}
use mini_tool_chain.ByteOrder.{fits_signed, fits_unsigned}
use mini_tool_chain.Isa.Opcode.{
  Opcode, store, Format, no_operand, reg1, reg2, reg_imm, mem, jump, sys_imm, OpcodeInfo,
  operand_count, find_mnemonic,
}
use mini_tool_chain.Isa.Encoding.{immediate_bits, instruction_size}
use mini_tool_chain.Ir.{SourceLocation}
use mini_tool_chain.Ast.{
  OperandType, register_operand, immediate_operand, symbol_operand, memory_operand, string_operand,
  Operand, InstructionNode, LabelNode, DirectiveType, section_directive, global_directive,
  extern_directive, weak_directive, asciz_directive, align_directive, space_directive,
  data_directive_width, DirectiveNode, Statement, instruction_node, label_node, directive_node,
  Program,
}
use mini_tool_chain.Assembler.Sema.Operands.{
  SemanticError, duplicate_symbol, invalid_opcode, invalid_operand, integer_overflow,
  invalid_directive, invalid_section_reference, invalid_relocation, Report, report_if,
  fits_in_width, is_register, is_immediate, is_memory, is_string, is_value, check_signed_range,
  require_register,
}
use mini_tool_chain.Assembler.Sema.Instructions.{check_instruction}
use mini_tool_chain.Assembler.Sema.Directives.{check_directive}

-- `labels_`, an association list in place of the standard library's hash map.
abbrev pub Labels : Type 0
Labels = List (String × SourceLocation)

find_label : Labels → String → Option SourceLocation
find_label [] name = none
find_label ((key, at) ∷ rest) name = if str_eq key name then some at else find_label rest name

label_checked : Labels → LabelNode → Option SourceLocation → Labels × List Report
label_checked labels n none = ((n.name, n.location) ∷ labels, [])
label_checked labels n (some before) = (labels, (duplicate_symbol before, n.location) ∷ [])

unfoldable pub check_label : Labels → LabelNode → Labels × List Report
unfolding find_label label_checked
check_label labels n = label_checked labels n (find_label labels n.name)

-- `toupper` of the C library is a parameter.
module _ (to_upper : ℕ → ℕ) where
  pub check_statement : Labels → Statement → Labels × List Report
  unfolding check_instruction check_directive check_label
  check_statement labels (instruction_node n) = (labels, check_instruction to_upper n)
  check_statement labels (directive_node d) = (labels, check_directive d)
  check_statement labels (label_node n) = check_label labels n

  pub check_statements : Labels → List Statement → List Report
  unfolding check_statement
  check_statements labels [] = []
  check_statements labels (s ∷ rest) =
      let (labels', reports) = check_statement labels s in reports ++ check_statements labels' rest

  unfoldable pub analyze : Program → List Report
  unfolding check_statements
  analyze program = check_statements [] program.statements
