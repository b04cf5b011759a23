-- ===== src/Examples/Lowering.antt =====
-- A small source file, lowered.
use mini_tool_chain.Base.{
  ℕ, ◌≡◌, refl, Bool, true, false, List, [], ◌∷◌, Option, none, some, String, Expected, ok, err,
  leb, ◌-◌, ◌&&◌, if◌then◌else◌, All,
}
use mini_tool_chain.Base.Int.{pos}
use mini_tool_chain.Isa.Opcode.{codes}
use mini_tool_chain.Ast.{
  OperandType, register_operand, immediate_operand, symbol_operand, Operand, DirectiveType,
  section_directive, qword_directive, byte_directive, space_directive, Statement, instruction_node,
  label_node, directive_node, Program,
}
use mini_tool_chain.Ir.{SourceLocation, Module}
use mini_tool_chain.Ir.Lower.{lower, empty_module, ErrorCode}
use mini_tool_chain.Ir.Lower.Places.{IsPlaced}
use mini_tool_chain.Ir.Lower.Layout.{lower-IsPlaced}

abbrev at_line : ℕ → SourceLocation
at_line n = record { file = 0; line = n; column = 1; span = 1 }

abbrev operand : OperandType → ℕ → ℕ → String → Operand
operand type reg value name = record {
  type = type;
  reg = reg;
  immediate = pos value;
  symbol = name;
  text = [];
  location = at_line 1;
}

abbrev directive : DirectiveType → List Operand → Statement
directive type os = directive_node (record { type = type; operands = os; location = at_line 2 })

-- The letters of ASCII.
abbrev upper_ascii : ℕ → ℕ
upper_ascii c = if leb 97 c && leb c 122 then c - 32 else c

-- `movi r1, message`, a label and a word in .data, and space in .bss.
abbrev statements : List Statement
statements =
    instruction_node (record {
      mnemonic = codes "movi";
      operands = operand register_operand 1 0 "" ∷ operand symbol_operand 0 8 "message" ∷ [];
      location = at_line 1;
    })
    ∷ directive section_directive (operand symbol_operand 0 0 ".data" ∷ [])
    ∷ label_node (record { name = "message"; is_local = false; location = at_line 3 })
    ∷ directive qword_directive
        (operand immediate_operand 0 513 "" ∷ operand symbol_operand 0 0 "message" ∷ [])
    ∷ directive section_directive (operand symbol_operand 0 0 ".bss" ∷ [])
    ∷ directive space_directive (operand immediate_operand 0 16 "" ∷ [])
    ∷ []

abbrev program : Program
program = record { statements = statements }

-- A byte in .bss.
abbrev misplaced : Program
misplaced = record {
  statements =
      directive section_directive (operand symbol_operand 0 0 ".bss" ∷ [])
      ∷ directive byte_directive (operand immediate_operand 0 1 "" ∷ [])
      ∷ [];
}

abbrev module_of : Option (Expected (List (ErrorCode × SourceLocation)) Module) → Module
module_of none = empty_module ""
module_of (some (err _)) = empty_module ""
module_of (some (ok m)) = m

abbrev is_rejected : Option (Expected (List (ErrorCode × SourceLocation)) Module) → Bool
is_rejected (some (err _)) = true
is_rejected _ = false

misplaced_test : is_rejected (lower upper_ascii misplaced "misplaced.asm") ≡ true
unfolding lower
misplaced_test = refl

program-lowered :
    lower upper_ascii program "program.asm"
    ≡ some (ok (module_of (lower upper_ascii program "program.asm")))
unfolding lower
program-lowered = refl

lower-IsPlaced_example : All IsPlaced (module_of (lower upper_ascii program "program.asm")).sections
lower-IsPlaced_example =
    lower-IsPlaced upper_ascii program "program.asm"
      (module_of (lower upper_ascii program "program.asm")) program-lowered
