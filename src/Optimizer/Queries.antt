-- ===== src/Optimizer/Queries.antt =====
-- src/optimizer/optimizer.cpp: what the passes ask of an instruction.
use mini_tool_chain.Base.{Bool, true, false, Option, none, some, ◌&&◌, ◌||◌, ◌==◌, if◌then◌else◌}
use mini_tool_chain.Isa.Opcode.{Opcode, syscall, Format, reg2, mem, find_opcode}
use mini_tool_chain.Isa.Registers.{Reg}
use mini_tool_chain.Isa.Encoding.{Instruction}

is_syscall : Opcode → Bool
is_syscall syscall = true
is_syscall _ = false

unfoldable pub ends_block : Opcode → Bool
unfolding find_opcode is_syscall
ends_block op = elim (find_opcode op) [
  | none ↦ true
  | some info ↦ info.is_branch || info.is_terminator || is_syscall op
]

has_source : Format → Bool
has_source reg2 = true
has_source mem = true
has_source _ = false

unfoldable pub source_register : Instruction → Option Reg
unfolding find_opcode has_source
source_register i = elim (find_opcode i.opcode) [
  | none ↦ none
  | some info ↦ if has_source info.format then some i.src else none
]

is_reg : Option Reg → Reg → Bool
is_reg none reg = false
is_reg (some r) reg = r == reg

unfoldable pub reads_register : Instruction → Reg → Bool
unfolding find_opcode source_register is_reg
reads_register i reg = elim (find_opcode i.opcode) [
  | none ↦ true
  | some info ↦ (info.reads_dst && i.dst == reg) || is_reg (source_register i) reg
]

unfoldable pub writes_register : Instruction → Reg → Bool
unfolding find_opcode
writes_register i reg = elim (find_opcode i.opcode) [
  | none ↦ false
  | some info ↦ info.writes_dst && i.dst == reg
]

unfoldable pub writes_flags : Opcode → Bool
unfolding find_opcode
writes_flags op = elim (find_opcode op) [ none ↦ false | some info ↦ info.writes_flags ]

unfoldable pub is_terminator : Opcode → Bool
unfolding find_opcode
is_terminator op = elim (find_opcode op) [ none ↦ false | some info ↦ info.is_terminator ]
