-- ===== src/Ast.antt =====
-- include/minitool/ast/ast.hpp and src/ast/ast.cpp: the syntax tree. Mnemonics and the texts of
-- strings are code points.
use mini_tool_chain.Base.{ℕ, Bool, List, String}
use mini_tool_chain.Base.Int.{ℤ}
use mini_tool_chain.Isa.Registers.{Reg}
use mini_tool_chain.Ir.{SourceLocation}

pub data OperandType : Type 0 where
  register_operand immediate_operand symbol_operand memory_operand string_operand : OperandType

unfoldable pub operand_type_name : OperandType → String
operand_type_name register_operand = "register"
operand_type_name immediate_operand = "immediate"
operand_type_name symbol_operand = "symbol"
operand_type_name memory_operand = "memory operand"
operand_type_name string_operand = "string"

pub record Operand : Type 0 where
  pub type : OperandType
  pub reg : Reg
  pub immediate : ℤ
  pub symbol : String
  pub text : List ℕ
  pub location : SourceLocation

pub record InstructionNode : Type 0 where
  pub mnemonic : List ℕ
  pub operands : List Operand
  pub location : SourceLocation

pub record LabelNode : Type 0 where
  pub name : String
  pub is_local : Bool
  pub location : SourceLocation

pub data DirectiveType : Type 0 where
  section_directive global_directive extern_directive weak_directive : DirectiveType
  byte_directive word_directive dword_directive qword_directive : DirectiveType
  asciz_directive align_directive space_directive : DirectiveType

unfoldable pub directive_name : DirectiveType → String
directive_name section_directive = ".section"
directive_name global_directive = ".global"
directive_name extern_directive = ".extern"
directive_name weak_directive = ".weak"
directive_name byte_directive = ".byte"
directive_name word_directive = ".word"
directive_name dword_directive = ".dword"
directive_name qword_directive = ".qword"
directive_name asciz_directive = ".asciz"
directive_name align_directive = ".align"
directive_name space_directive = ".space"

unfoldable pub data_directive_width : DirectiveType → ℕ
data_directive_width byte_directive = 1
data_directive_width word_directive = 2
data_directive_width dword_directive = 4
data_directive_width qword_directive = 8
data_directive_width _ = 0

pub record DirectiveNode : Type 0 where
  pub type : DirectiveType
  pub operands : List Operand
  pub location : SourceLocation

pub data Statement : Type 0 where
  instruction_node : InstructionNode → Statement
  label_node : LabelNode → Statement
  directive_node : DirectiveNode → Statement

unfoldable pub statement_location : Statement → SourceLocation
statement_location (instruction_node n) = n.location
statement_location (label_node n) = n.location
statement_location (directive_node n) = n.location

pub record Program : Type 0 where
  pub statements : List Statement
