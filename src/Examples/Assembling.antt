-- ===== src/Examples/Assembling.antt =====
-- Instructions and directives under the analyzer, and a small section through both passes of the
-- assembler.
use mini_tool_chain.Base.{
  ℕ, ◌^◌, ◌≡◌, refl, arith, true, false, List, [], ◌∷◌, none, some, String, ok, length,
}
use mini_tool_chain.Base.Int.{ℤ, pos, negsuc}
use mini_tool_chain.ByteOrder.{fits_signed, store}
use mini_tool_chain.Isa.Opcode.{
  OpcodeInfo, codes, mem, reg_imm, movi, load, find_mnemonic, find_opcode, opcode_value,
}
use mini_tool_chain.Isa.Encoding.{encode, encode_into, encode_fields, fields_of, immediate_field}
use mini_tool_chain.Ast.{
  OperandType, register_operand, immediate_operand, memory_operand, Operand, InstructionNode,
  align_directive, label_node, directive_node, Program,
}
use mini_tool_chain.Ir.{
  SourceLocation, SectionKind, Instruction, Item, instruction, label, bytes, space, align,
  text_section, Module,
}
use mini_tool_chain.Ir as Ir
use mini_tool_chain.Ir.Lower.{operand_fields, fresh}
use mini_tool_chain.Assembler.Sema.{analyze}
use mini_tool_chain.Assembler.Sema.Instructions.{check_instruction}
use mini_tool_chain.Assembler.Sema.Instructions.Encodes.{
  displacement_fits, checked_instruction-encodes,
}
use mini_tool_chain.Assembler.Sema.Instructions.Displacements.{displacement-unchecked}
use mini_tool_chain.Assembler.Layout.{Assembly, Placed, place_items, collect_sections}
use mini_tool_chain.Assembler.Emission.{Emitted, emit_item, emit_items}
use mini_tool_chain.Assembler.Emission.Sizes.{IsBounded, place_items-emit_items}

abbrev at_line : ℕ → SourceLocation
at_line n = record { file = 0; line = n; column = 1; span = 1 }

abbrev operand : OperandType → ℕ → ℤ → String → Operand
operand type reg value name = record {
  type = type;
  reg = reg;
  immediate = value;
  symbol = name;
  text = [];
  location = at_line 1;
}

abbrev node : String → List Operand → InstructionNode
node mnemonic os = record { mnemonic = codes mnemonic; operands = os; location = at_line 1 }

-- The mnemonics here are in capitals.
abbrev same : ℕ → ℕ
same c = c

abbrev movi_row : OpcodeInfo
movi_row = record {
  opcode = movi;
  mnemonic = codes "MOVI";
  format = reg_imm;
  writes_dst = true;
  reads_dst = false;
  writes_flags = false;
  is_terminator = false;
  is_branch = false;
}

abbrev load_row : OpcodeInfo
load_row = record movi_row { opcode = load; mnemonic = codes "LOAD"; format = mem }

-- `MOVI R3, -5`
abbrev movi_node : InstructionNode
movi_node =
    node "MOVI"
      (operand register_operand 3 (pos 0) "" ∷ operand immediate_operand 0 (negsuc 4) "" ∷ [])

checked_instruction-encodes_example :
    (i : Instruction) × (w : ℕ) × (operand_fields reg_imm movi_node.operands
        (fresh movi (at_line 1))
      ≡ some i)
    × (encode i.machine ≡ ok w)
unfolding displacement_fits check_instruction fits_signed find_mnemonic
checked_instruction-encodes_example =
    checked_instruction-encodes same movi_node movi_row (omega arith) (refl, (refl, tt)) refl refl

-- `LOAD R1, [R2 + 2^60]`
abbrev far : Operand
far = operand memory_operand 2 (pos (2 ^ 60)) ""

abbrev near : Operand
near = operand register_operand 1 (pos 0) ""

displacement-unchecked_example :
    (check_instruction same (node "LOAD" (near ∷ far ∷ [])) ≡ [])
    × ((i : Instruction) × (operand_fields mem (near ∷ far ∷ []) (fresh load (at_line 1)) ≡ some i)
        × ¬ ((w : ℕ) × (encode i.machine ≡ ok w)))
unfolding find_mnemonic fits_signed
displacement-unchecked_example =
    displacement-unchecked same (node "LOAD" (near ∷ far ∷ [])) load_row far near refl refl refl
      refl refl (omega arith) refl

abbrev items : List Item
items =
    bytes (1 ∷ 2 ∷ 3 ∷ []) (at_line 1)
    ∷ align 8 (at_line 2)
    ∷ instruction (record {
      machine = record { opcode = movi; dst = 3; src = 0; imm = pos 9 };
      symbol = none;
      location = at_line 3;
    })
    ∷ space 5 0 (at_line 4)
    ∷ []

abbrev section : Ir.Section
section = record { kind = text_section; name = ".text"; alignment = 8; items = items }

abbrev module_ : Module
module_ = record {
  source_name = "items.asm";
  sections = section ∷ [];
  globals = [];
  externs = [];
  weaks = [];
}

abbrev assembly : Assembly
assembly = collect_sections module_

abbrev placed_nothing : Placed
placed_nothing = record { offset = 0; max_alignment = 8; assembly = assembly }

abbrev emitted_nothing : Emitted
emitted_nothing = record { contents = []; assembly = assembly }

items-IsBounded : IsBounded 0 items emitted_nothing
unfolding emit_item encode_into encode encode_fields find_opcode fields_of immediate_field store
    fits_signed opcode_value
items-IsBounded = omega arith

place_items-emit_items_example :
    (place_items 0 items placed_nothing).offset
    ≡ length (emit_items 0 items emitted_nothing).contents
place_items-emit_items_example =
    place_items-emit_items 0 0 items placed_nothing emitted_nothing refl items-IsBounded

offset_test : (place_items 0 items placed_nothing).offset ≡ 21
unfolding place_items
offset_test = refl

-- An alignment of 6 and a label that is there already.
abbrev bad_program : Program
bad_program = record {
  statements =
      label_node (record { name = "a"; is_local = false; location = at_line 1 })
      ∷ directive_node (record {
        type = align_directive;
        operands = operand immediate_operand 0 (pos 6) "" ∷ [];
        location = at_line 2;
      })
      ∷ label_node (record { name = "a"; is_local = false; location = at_line 3 })
      ∷ [];
}

analyze_test : length (analyze same bad_program) ≡ 2
unfolding analyze
analyze_test = refl
