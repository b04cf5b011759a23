-- ===== src/Optimizer/Peephole.antt =====
-- The passes of `Optimizer::runPasses` over a whole section: unreachable code, PUSH before POP, and
-- a jump to the label behind it.
pub mod Balance
use text.Mathlib.Text.{◌==◌ as str_eq}
use mini_tool_chain.Base.{
  ℕ, Bool, true, false, not, ◌&&◌, ◌||◌, List, [], ◌∷◌, Option, none, some, String, ◌==◌,
  if◌then◌else◌,
}
use mini_tool_chain.Base.Int.{ℤ, pos, negsuc}
use mini_tool_chain.Isa.Opcode.{Opcode, mov, push, pop, jmp}
use mini_tool_chain.Isa.Encoding as Isa
use mini_tool_chain.Ir.{
  Item, Instruction, Label, SymbolRef, instruction, label, bytes, symbol_value, space, align,
}
use mini_tool_chain.Optimizer.Queries.{is_terminator}
use mini_tool_chain.Optimizer.Cells.{
  Tally, Cell, Marked, count_unreachable, count_peepholes, kept, dropped, in_front, present,
}

-- The loop over the items, with the flag `reachable`.
unfoldable pub mark_unreachable : Bool → List Item → Tally → Marked
unfolding is_terminator
mark_unreachable reachable [] t = ([], t)
mark_unreachable reachable (label l ∷ rest) t =
    in_front (kept (label l)) (mark_unreachable true rest t)
mark_unreachable true (instruction i ∷ rest) t =
    in_front (kept (instruction i)) (mark_unreachable (not (is_terminator i.machine.opcode)) rest t)
mark_unreachable false (instruction i ∷ rest) t =
    in_front (dropped (kept (instruction i))) (mark_unreachable false rest (count_unreachable t))
mark_unreachable reachable (item ∷ rest) t =
    in_front (kept item) (mark_unreachable reachable rest t)

pub is_push : Opcode → Bool
is_push push = true
is_push _ = false

pub is_pop : Opcode → Bool
is_pop pop = true
is_pop _ = false

-- The instructions of two cells that neither is removed.
pub both_present : Cell → Cell → Option (Instruction × Instruction)
both_present first second = elim (present first) [
  | none ↦ none
  | some a ↦ elim (present second) [ none ↦ none | some b ↦ some (a, b) ]
]

-- PUSH and POP of the registers that the two cells name.
pub push_pop : Cell → Cell → Option (Instruction × Instruction)
unfolding both_present is_push is_pop
push_pop first second = elim (both_present first second) [
  | none ↦ none
  | some (a, b) ↦ if is_push a.machine.opcode && is_pop b.machine.opcode then some (a, b) else none
]

-- PUSH rX / POP rY as MOV rY, rX; the immediate stays.
abbrev pub move_through : Instruction → Instruction → Instruction
move_through a b = record a {
  machine = record a.machine { opcode = mov; dst = b.machine.dst; src = a.machine.dst };
}

-- What becomes of the first cell of such a pair, whose second is removed, and how much that counts.
pub consumed : Cell → Cell → Option (Cell × ℕ)
unfolding push_pop
consumed first second = elim (push_pop first second) [
  | none ↦ none
  | some (a, b) ↦
      if a.machine.dst == b.machine.dst
      then some (dropped first, 2)
      else some (record first { item = instruction (move_through a b) }, 1)
]

-- The loop over pairs; the first of a pair is held until the second is seen.
unfoldable pub peephole : Option Cell → List Cell → Tally → Marked
unfolding consumed
peephole none [] t = ([], t)
peephole (some first) [] t = (first ∷ [], t)
peephole none (second ∷ rest) t = peephole (some second) rest t
peephole (some first) (second ∷ rest) t = elim (consumed first second) [
  | none ↦ in_front first (peephole (some second) rest t)
  | some (first', n) ↦
      in_front first' (in_front (dropped second) (peephole none rest (count_peepholes n t)))
]

is_zero_ℤ : ℤ → Bool
is_zero_ℤ (pos n) = n == 0
is_zero_ℤ (negsuc n) = false

is_jmp : Opcode → Bool
is_jmp jmp = true
is_jmp _ = false

-- The name that a plain jump to a label goes to.
jump_label : Instruction → Option String
unfolding is_jmp is_zero_ℤ
jump_label i = elim i.symbol [
  | none ↦ none
  | some s ↦ if is_jmp i.machine.opcode && is_zero_ℤ s.addend then some s.name else none
]

pub label_name : Item → Option String
label_name (label l) = some l.name
label_name _ = none

-- The loop over the cells behind the jump, up to the first that is no label.
pub reaches_label : String → List Cell → Bool
unfolding label_name
reaches_label name [] = false
reaches_label name (c ∷ rest) =
    let later = reaches_label name rest in
    let here : Bool = elim (label_name c.item) [
      | none ↦ false
      | some l ↦ if str_eq l name then true else later
    ] in
    if c.removed then later else here

pub jumps_to_next : Cell → List Cell → Bool
unfolding jump_label reaches_label
jumps_to_next c rest = elim (present c) [
  | none ↦ false
  | some i ↦ elim (jump_label i) [ none ↦ false | some name ↦ reaches_label name rest ]
]

unfoldable pub drop_jumps : List Cell → Tally → Marked
unfolding jumps_to_next
drop_jumps [] t = ([], t)
drop_jumps (c ∷ rest) t = elim (jumps_to_next c rest) [
  | true ↦ in_front (dropped c) (drop_jumps rest (count_peepholes 1 t))
  | false ↦ in_front c (drop_jumps rest t)
]
