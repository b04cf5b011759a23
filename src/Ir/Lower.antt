-- ===== src/Ir/Lower.antt =====
-- src/ir/lower.cpp: the syntax tree to the intermediate representation. An operand that `at` does
-- not find is an exception in the source, and `none` here. Diagnostics are their codes and
-- locations in the order of their reports. `toupper` of the C library is a parameter.
pub mod Places
pub mod Layout
use mini_tool_chain.Base.{
  ℕ, zero, suc, ◌+◌, ◌*◌, ◌%◌, Bool, true, false, not, ◌&&◌, List, [], ◌∷◌, ◌++◌, Option, none,
  some, String, ltb, ◌==◌, if◌then◌else◌, length, get_elem?, bit_and, Expected, ok, err,
}
use mini_tool_chain.Base.Int.{ℤ, pos}
use mini_tool_chain.Word.{shr64, to_u64}
use mini_tool_chain.Isa.Opcode.{
  Opcode, nop, store, Format, no_operand, reg1, reg2, reg_imm, mem, jump, sys_imm, OpcodeInfo,
  find_mnemonic,
}
use mini_tool_chain.Isa.Encoding as Isa
use mini_tool_chain.Ast.{
  OperandType, symbol_operand, Operand, InstructionNode, LabelNode, DirectiveType,
  section_directive, global_directive, extern_directive, weak_directive, asciz_directive,
  align_directive, space_directive, data_directive_width, DirectiveNode, Statement,
  instruction_node, label_node, directive_node, Program,
}
use mini_tool_chain.Ir.{
  SectionKind, text_section, bss_section, same_kind, section_kind_from_name, SourceLocation,
  SymbolRef, Instruction, Item, instruction, label, bytes, symbol_value, space, align, Section,
  Module, section_for,
}

-- The codes of `diag::ErrorCode` that the lowering reports.
pub data ErrorCode : Type 0 where
  invalid_section_reference invalid_opcode : ErrorCode

pub record Lowerer : Type 0 where
  pub module_ : Module
  pub current_kind : SectionKind
  pub failed : Bool
  pub errors : List (ErrorCode × SourceLocation)

pub report : Lowerer → SourceLocation → ErrorCode → Lowerer
report l at code = record l { errors = l.errors ++ ((code, at) ∷ []); failed = true }

pub append_item : ℕ → Item → List Section → List Section
append_item at item [] = []
append_item zero item (s ∷ rest) = record s { items = s.items ++ (item ∷ []) } ∷ rest
append_item (suc at) item (s ∷ rest) = s ∷ append_item at item rest

pub emit : Item → Lowerer → Lowerer
unfolding section_for append_item
emit item l =
    let (at, m) = section_for l.module_ l.current_kind in
    record l { module_ = record m { sections = append_item at item m.sections } }

-- `requireInitialisableSection`, with what is done where it holds.
abbrev pub if_initialisable : Lowerer → SourceLocation → Lowerer → Lowerer
if_initialisable l at done =
    if same_kind l.current_kind bss_section then report l at invalid_section_reference else done

abbrev pub is_symbol : OperandType → Bool
is_symbol symbol_operand = true
is_symbol _ = false

pub flush : SourceLocation → List ℕ → Lowerer → Lowerer
flush at [] l = l
flush at (b ∷ rest) l = emit (bytes (b ∷ rest) at) l

-- The bytes from number `byte` on.
pub value_bytes : ℕ → ℕ → ℕ → List ℕ
value_bytes zero byte value = []
value_bytes (suc left) byte value =
    bit_and (shr64 value (8 * byte)) 255 ∷ value_bytes left (byte + 1) value

-- The loop of `lowerData`, with what is pending.
pub data_loop : List Operand → ℕ → SourceLocation → List ℕ → Lowerer → Lowerer
unfolding flush value_bytes emit
data_loop [] width at pending l = flush at pending l
data_loop (o ∷ rest) width at pending l = elim (is_symbol o.type) [
  | true ↦ data_loop rest width at [] (
      emit (symbol_value width (record { name = o.symbol; addend = o.immediate }) o.location)
        (flush at pending l))
  | false ↦ data_loop rest width at (pending ++ value_bytes width 0 (to_u64 o.immediate)) l
]

pub lower_data : DirectiveNode → Lowerer → Lowerer
unfolding data_loop data_directive_width report
lower_data d l =
    if_initialisable l d.location
      (data_loop d.operands (data_directive_width d.type) d.location [] l)

symbols_of : List Operand → List String
symbols_of [] = []
symbols_of (o ∷ rest) = o.symbol ∷ symbols_of rest

pub enter_section : DirectiveNode → Option SectionKind → Lowerer → Lowerer
unfolding report section_for
enter_section d none l = report l d.location invalid_section_reference
enter_section d (some kind) l = record l {
  current_kind = kind;
  module_ = (section_for l.module_ kind).1;
}

-- `fill`
fill_of : List Operand → ℕ
fill_of (o ∷ f ∷ rest) = to_u64 f.immediate % 256
fill_of _ = 0

pub lower_space : DirectiveNode → ℕ → ℕ → Lowerer → Lowerer
lower_space d size fill l =
    if fill == 0
    then emit (space size fill d.location) l
    else if_initialisable l d.location (emit (space size fill d.location) l)

-- `operands.at(0)`, and what is done with it.
pub with_first : List Operand → (Operand → Lowerer) → Option Lowerer
with_first [] f = none
with_first (o ∷ rest) f = some (f o)

pub lower_directive : DirectiveNode → Lowerer → Option Lowerer
unfolding with_first enter_section fill_of lower_space section_kind_from_name lower_data symbols_of
    report
lower_directive d l = elim d.type [
  | section_directive ↦
      with_first d.operands (λ o. enter_section d (section_kind_from_name o.symbol) l)
  | global_directive ↦ some (record l {
    module_ = record l.module_ { globals = l.module_.globals ++ symbols_of d.operands };
  })
  | extern_directive ↦ some (record l {
    module_ = record l.module_ { externs = l.module_.externs ++ symbols_of d.operands };
  })
  | weak_directive ↦
      some (record l {
        module_ = record l.module_ { weaks = l.module_.weaks ++ symbols_of d.operands };
      })
  | asciz_directive ↦
      if same_kind l.current_kind bss_section
      then some (report l d.location invalid_section_reference)
      else with_first d.operands (λ o. emit (bytes (o.text ++ (0 ∷ [])) d.location) l)
  | align_directive ↦ with_first d.operands (λ o. emit (align (to_u64 o.immediate) d.location) l)
  | space_directive ↦
      with_first d.operands (λ o. lower_space d (to_u64 o.immediate) (fill_of d.operands) l)
  | _ ↦ some (lower_data d l)
]

unfoldable pub set_value : Instruction → Operand → Instruction
set_value i o =
    if is_symbol o.type
    then record i {
      symbol = some (record { name = o.symbol; addend = o.immediate });
      machine = record i.machine { imm = pos 0 };
    }
    else record i { machine = record i.machine { imm = o.immediate } }

abbrev pub is_store : Opcode → Bool
is_store store = true
is_store _ = false

-- The fields of a LOAD or STORE of its two operands.
memory_fields : Bool → Instruction → Operand → Operand → Instruction
memory_fields true i memory reg = record i {
  machine = record i.machine { dst = memory.reg; src = reg.reg; imm = memory.immediate };
}
memory_fields false i reg memory = record i {
  machine = record i.machine { dst = reg.reg; src = memory.reg; imm = memory.immediate };
}

-- The switch over the format; an operand is read as it is used.
unfoldable pub operand_fields : Format → List Operand → Instruction → Option Instruction
unfolding set_value memory_fields
operand_fields no_operand os i = some i
operand_fields reg1 (a ∷ rest) i = some (record i { machine = record i.machine { dst = a.reg } })
operand_fields reg2 (a ∷ b ∷ rest) i =
    some (record i { machine = record i.machine { dst = a.reg; src = b.reg } })
operand_fields reg_imm (a ∷ b ∷ rest) i =
    some (set_value (record i { machine = record i.machine { dst = a.reg } }) b)
operand_fields mem (a ∷ b ∷ rest) i = some (memory_fields (is_store i.machine.opcode) i a b)
operand_fields jump (a ∷ rest) i = some (set_value i a)
operand_fields sys_imm (a ∷ rest) i =
    some (record i { machine = record i.machine { imm = a.immediate } })
operand_fields _ os i = none

abbrev pub fresh : Opcode → SourceLocation → Instruction
fresh op at = record {
  machine = record { opcode = op; dst = 0; src = 0; imm = pos 0 };
  symbol = none;
  location = at;
}

emitted : Lowerer → Option Instruction → Option Lowerer
emitted l none = none
emitted l (some i) = some (emit (instruction i) l)

abbrev pub empty_module : String → Module
empty_module name = record {
  source_name = name;
  sections = [];
  globals = [];
  externs = [];
  weaks = [];
}

abbrev pub new_lowerer : String → Lowerer
new_lowerer name = record {
  module_ = (section_for (empty_module name) text_section).1;
  current_kind = text_section;
  failed = false;
  errors = [];
}

module _ (to_upper : ℕ → ℕ) where
  pub lower_instruction : InstructionNode → Lowerer → Option Lowerer
  unfolding operand_fields emitted report find_mnemonic emit
  lower_instruction n l = elim (find_mnemonic to_upper n.mnemonic) [
    | none ↦ some (report l n.location invalid_opcode)
    | some info ↦
        if not (same_kind l.current_kind text_section)
        then some (report l n.location invalid_section_reference)
        else emitted l (operand_fields info.format n.operands (fresh info.opcode n.location))
  ]

  pub lower_statement : Statement → Lowerer → Option Lowerer
  unfolding lower_instruction lower_directive emit
  lower_statement (label_node n) l =
      some (emit (label (record { name = n.name; is_local = n.is_local; location = n.location })) l)
  lower_statement (directive_node d) l = lower_directive d l
  lower_statement (instruction_node n) l = lower_instruction n l

  -- The loop of `run`.
  pub lower_statements : List Statement → Lowerer → Option Lowerer
  unfolding lower_statement
  lower_statements [] l = some l
  lower_statements (s ∷ rest) l = elim (lower_statement s l) [
    | none ↦ none
    | some l' ↦ lower_statements rest l'
  ]

  -- The module, or the errors that were reported.
  unfoldable pub lower :
      Program → String → Option (Expected (List (ErrorCode × SourceLocation)) Module)
  unfolding lower_statements section_for
  lower program name = elim (lower_statements program.statements (new_lowerer name)) [
    | none ↦ none
    | some l ↦ some (if l.failed then err l.errors else ok l.module_)
  ]
