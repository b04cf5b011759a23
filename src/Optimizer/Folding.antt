-- ===== src/Optimizer/Folding.antt =====
-- `ConstantMap` of src/optimizer/optimizer.cpp and the constant folding of `Optimizer::runPasses`,
-- with `flagsDeadAfter`.
pub mod Sound
pub mod Balance
pub mod Constants
pub mod Executes
use mini_tool_chain.Base.{
  ℕ, Bool, true, false, not, ◌&&◌, ◌||◌, List, [], ◌∷◌, Option, none, some, ◌==◌, if◌then◌else◌,
  get_or, set, replicate, Expected, ok, err,
}
use mini_tool_chain.Word.{to_u64, to_i64}
use mini_tool_chain.ByteOrder.{fits_signed}
use mini_tool_chain.Isa.Opcode.{Opcode, mov, movi, lea}
use mini_tool_chain.Isa.Registers.{Reg}
use mini_tool_chain.Isa.Encoding as Isa
use mini_tool_chain.Isa.Semantics.{
  AluResult, AluError, evaluate_binary, evaluate_unary, is_binary_alu, is_unary_alu, reads_flags,
}
use mini_tool_chain.Ir.{
  Item, Instruction, instruction, label, bytes, symbol_value, space, align, is_symbolic,
}
use mini_tool_chain.Optimizer.Queries.{writes_register, writes_flags}
use mini_tool_chain.Optimizer.Cells.{Tally, Cell, Marked, count_folded, in_front, present}

-- The value of each register that is known.
abbrev pub ConstantMap : Type 0
ConstantMap = List (Option ℕ)

abbrev pub no_constants : ConstantMap
no_constants = replicate 16 none

abbrev pub constant : ConstantMap → Reg → Option ℕ
constant c reg = get_or c reg none

abbrev pub set_constant : ConstantMap → Reg → ℕ → ConstantMap
set_constant c reg value = set c reg (some value)

abbrev pub clear_constant : ConstantMap → Reg → ConstantMap
clear_constant c reg = set c reg none

pub clear_written : Isa.Instruction → ConstantMap → ConstantMap
unfolding writes_register
clear_written i c = if writes_register i i.dst then clear_constant c i.dst else c

-- The rest of the block after an instruction, and `flags_live_out` of the block.
pub flags_dead_after : List Cell → Bool → Bool
unfolding reads_flags writes_flags
flags_dead_after [] live_out = not live_out
flags_dead_after (c ∷ rest) live_out =
    let later = flags_dead_after rest live_out in
    elim c.item [
      | instruction i ↦
          if reads_flags i.machine.opcode
          then false
          else if writes_flags i.machine.opcode
          then true
          else later
      | _ ↦ later
    ]

-- What folding makes of an instruction: its replacement, if it has one, and the constants behind
-- it.
abbrev pub Folded : Type 0
Folded = Option Isa.Instruction × ConstantMap

-- `static_cast<i64>(value)` fits the immediate field.
abbrev pub is_representable : ℕ → Bool
is_representable value = fits_signed (to_i64 value) Isa.immediate_bits

abbrev pub load_constant : Isa.Instruction → ℕ → Isa.Instruction
load_constant i value = record i { opcode = movi; imm = to_i64 value; src = 0 }

pub fold_move : Isa.Instruction → ConstantMap → Option ℕ → Folded
unfolding fits_signed
fold_move i c none = (none, clear_constant c i.dst)
fold_move i c (some value) = (
  if is_representable value then some (load_constant i value) else none,
  set_constant c i.dst value,
)

-- With the result of the evaluation.
pub fold_evaluated : Bool → Isa.Instruction → ConstantMap → Expected AluError AluResult → Folded
unfolding fits_signed
fold_evaluated dead i c (err e) = (none, clear_constant c i.dst)
fold_evaluated dead i c (ok r) = if not r.writes_value then (none, c) else (
  if (not r.writes_flags || dead) && is_representable r.value
      then some (load_constant i r.value)
      else none,
  set_constant c i.dst r.value,
)

-- The operands that are known: the second of a unary instruction is 0.
pub fold_operands : Bool → Isa.Instruction → ConstantMap → Option ℕ → Option ℕ → Folded
unfolding fold_evaluated is_binary_alu clear_written evaluate_binary evaluate_unary
fold_operands dead i c none rhs = (none, clear_written i c)
fold_operands dead i c (some lhs) none = (none, clear_written i c)
fold_operands dead i c (some lhs) (some rhs) = fold_evaluated dead i c (
    if is_binary_alu i.opcode
    then evaluate_binary i.opcode lhs rhs
    else evaluate_unary i.opcode lhs)

pub fold_other : Bool → Isa.Instruction → ConstantMap → Folded
unfolding fold_operands is_binary_alu is_unary_alu clear_written
fold_other dead i c =
    if not (is_binary_alu i.opcode) && not (is_unary_alu i.opcode)
    then (none, clear_written i c)
    else fold_operands dead i c (constant c i.dst)
        (if is_binary_alu i.opcode then constant c i.src else some 0)

-- An instruction without symbol; its opcode is the first argument.
unfoldable pub fold_machine : Opcode → Bool → Isa.Instruction → ConstantMap → Folded
unfolding fold_move fold_other
fold_machine movi dead i c = (none, set_constant c i.dst (to_u64 i.imm))
fold_machine lea dead i c = (none, set_constant c i.dst (to_u64 i.imm))
fold_machine mov dead i c = fold_move i c (constant c i.src)
fold_machine _ dead i c = fold_other dead i c

pub fold_instruction : Bool → Instruction → ConstantMap → Folded
unfolding is_symbolic fold_machine
fold_instruction dead i c =
    if is_symbolic i
    then (none, clear_constant c i.machine.dst)
    else fold_machine i.machine.opcode dead i.machine c

pub refold : Cell → Instruction → Option Isa.Instruction → Cell
refold c i none = c
refold c i (some machine) = record c { item = instruction (record i { machine = machine }) }

pub count_fold : Option Isa.Instruction → Tally → Tally
count_fold none t = t
count_fold (some machine) t = count_folded t

-- The loop over the cells of a block.
unfoldable pub fold_block : Bool → ConstantMap → List Cell → Tally → Marked
unfolding fold_instruction flags_dead_after refold count_fold
fold_block live_out c [] t = ([], t)
fold_block live_out c (cell ∷ rest) t = elim (present cell) [
  | none ↦ in_front cell (fold_block live_out c rest t)
  | some i ↦
      let (replaced, c') = fold_instruction (flags_dead_after rest live_out) i c in
      in_front (refold cell i replaced) (fold_block live_out c' rest (count_fold replaced t))
]
