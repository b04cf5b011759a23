-- ===== src/Optimizer/Passes.antt =====
-- `Optimizer::run`, `optimizeSection` and `runPasses` of src/optimizer/optimizer.cpp, with the
-- passes for identities and dead stores. The outcome `none` is the read past the end of `live_in`.
pub mod Removal
pub mod Layout
pub mod Total
use mini_tool_chain.Base.{
  ℕ, zero, suc, ◌-◌, Bool, true, false, not, ◌&&◌, ◌||◌, List, [], ◌∷◌, ◌++◌, Option, none, some,
  ◌==◌, if◌then◌else◌, length, get_or, take, drop,
}
use mini_tool_chain.Isa.Opcode.{Opcode, nop, mov, movi, lea, OpcodeInfo, find_opcode}
use mini_tool_chain.Isa.Registers.{Reg}
use mini_tool_chain.Isa.Encoding as Isa
use mini_tool_chain.Ir.{
  Item, Instruction, Section, Module, SectionKind, text_section, same_kind, is_symbolic,
  instruction_count,
}
use mini_tool_chain.Optimizer.Queries.{reads_register, writes_register}
use mini_tool_chain.Optimizer.Flow.{Block, Split, split_blocks, link_successors}
use mini_tool_chain.Optimizer.Liveness.{
  Liveness, settled, out_of_range, out_of_fuel, nodes_of, flag_liveness,
}
use mini_tool_chain.Optimizer.Cells.{
  OptLevel, o0, o1, OptStats, new_stats, Tally, count_identity, count_dead_store, Cell, Marked,
  dropped, in_front, items_of, kept_items, present,
}
use mini_tool_chain.Optimizer.Peephole.{mark_unreachable, peephole, drop_jumps}
use mini_tool_chain.Optimizer.Folding.{no_constants, fold_block}

is_nop : Opcode → Bool
is_nop nop = true
is_nop _ = false

is_mov : Opcode → Bool
is_mov mov = true
is_mov _ = false

-- MOV rX, rX and NOP.
pub is_identity : Instruction → Bool
unfolding is_symbolic is_mov is_nop
is_identity i =
    not (is_symbolic i)
    && ((is_mov i.machine.opcode && i.machine.dst == i.machine.src) || is_nop i.machine.opcode)

-- The loop over the cells of a block.
pub drop_identities : List Cell → Tally → Marked
unfolding is_identity
drop_identities [] t = ([], t)
drop_identities (c ∷ rest) t = elim (present c) [
  | none ↦ in_front c (drop_identities rest t)
  | some i ↦ elim (is_identity i) [
    | true ↦ in_front (dropped c) (drop_identities rest (count_identity t))
    | false ↦ in_front c (drop_identities rest t)
  ]
]

is_move : Opcode → Bool
is_move movi = true
is_move mov = true
is_move lea = true
is_move _ = false

pub is_pure_define : Opcode → Bool
unfolding find_opcode is_move
is_pure_define op = elim (find_opcode op) [
  | none ↦ false
  | some info ↦ info.writes_dst && not info.reads_dst && not info.writes_flags && is_move op
]

-- The loop over the rest of the block: the register is written again before it is read.
pub overwritten : Reg → List Cell → Bool
unfolding reads_register writes_register
overwritten reg [] = false
overwritten reg (c ∷ rest) =
    let later = overwritten reg rest in
    elim (present c) [
      | none ↦ later
      | some i ↦
          if reads_register i.machine reg
          then false
          else if writes_register i.machine reg
          then true
          else later
    ]

pub is_dead_store : Instruction → List Cell → Bool
unfolding is_pure_define overwritten
is_dead_store i rest = is_pure_define i.machine.opcode && overwritten i.machine.dst rest

-- The loop over the cells of a block.
pub drop_dead_stores : List Cell → Tally → Marked
unfolding is_dead_store
drop_dead_stores [] t = ([], t)
drop_dead_stores (c ∷ rest) t = elim (present c) [
  | none ↦ in_front c (drop_dead_stores rest t)
  | some i ↦ elim (is_dead_store i rest) [
    | true ↦ in_front (dropped c) (drop_dead_stores rest (count_dead_store t))
    | false ↦ in_front c (drop_dead_stores rest t)
  ]
]

-- A pass on the cells from `begin` to `end`.
pub on_range : ℕ → ℕ → (List Cell → Tally → Marked) → Marked → Marked
on_range begin end pass (cells, t) =
    let rest = drop begin cells in
    let (cells', t') = pass (take (end - begin) rest) t in
    (take begin cells ++ (cells' ++ drop (end - begin) rest), t')

-- A pass for every block.
pub on_blocks : (List Cell → Tally → Marked) → List Block → Marked → Marked
unfolding on_range
on_blocks pass [] m = m
on_blocks pass (b ∷ rest) m = on_blocks pass rest (on_range b.begin b.end pass m)

-- Constant folding of every block, with the index of the block.
pub fold_blocks : List Bool → ℕ → List Block → Marked → Marked
unfolding on_range fold_block
fold_blocks outs i [] m = m
fold_blocks outs i (b ∷ rest) m =
    fold_blocks outs (suc i) rest
      (on_range b.begin b.end (fold_block (get_or outs i true) no_constants) m)

-- The first three passes, which see the whole section.
pub whole_passes : List Item → OptStats → Marked
unfolding mark_unreachable peephole drop_jumps
whole_passes items stats =
    let (reached, t) = mark_unreachable true items (record { stats = stats; changed = false }) in
    let (moved, t') = peephole none reached t in drop_jumps moved t'

-- The three passes per block.
pub block_passes : List Bool → List Block → Marked → Marked
unfolding fold_blocks on_blocks drop_identities drop_dead_stores
block_passes outs blocks m =
    on_blocks drop_dead_stores blocks
      (on_blocks drop_identities blocks (fold_blocks outs 0 blocks m))

-- `ControlFlow flow(items)`
pub flow_blocks : List Item → List Block
unfolding split_blocks link_successors
flow_blocks items =
    let split = split_blocks items in link_successors items split.labels split.blocks

-- What a section comes to: its items are replaced if anything changed.
pub finished : Marked → List Item × OptStats × Bool
finished (cells, t) = (if t.changed then kept_items cells else items_of cells, t.stats, t.changed)

pub with_liveness : Marked → List Block → Liveness → Option (List Item × OptStats × Bool)
unfolding block_passes finished
with_liveness m blocks (settled outs) = some (finished (block_passes outs blocks m))
with_liveness m blocks _ = none

unfoldable pub run_passes : List Item → OptStats → Option (List Item × OptStats × Bool)
unfolding whole_passes flow_blocks nodes_of flag_liveness with_liveness
run_passes items stats =
    let m = whole_passes items stats in
    let seen = items_of m.0 in
    let blocks = flow_blocks seen in with_liveness m blocks (flag_liveness (nodes_of seen blocks))

-- The loop of `optimizeSection`, with the iterations that are left.
pub iterate : ℕ → List Item → OptStats → Option (List Item × OptStats)
unfolding run_passes
iterate zero items stats = some (items, stats)
iterate (suc left) items stats = elim (run_passes items stats) [
  | none ↦ none
  | some (items', stats', changed) ↦ elim changed [
    | true ↦ iterate left items' stats'
    | false ↦ some (items', stats')
  ]
]

pub optimize_section : Section → OptStats → Option (Section × OptStats)
unfolding iterate
optimize_section s stats = elim (iterate 8 s.items stats) [
  | none ↦ none
  | some (items', stats') ↦ some (record s { items = items' }, stats')
]

-- The body of the loop over the sections.
pub visit_section : Section → OptStats → Option (Section × OptStats)
unfolding optimize_section same_kind
visit_section s stats = elim (same_kind s.kind text_section) [
  | true ↦ optimize_section s stats
  | false ↦ some (s, stats)
]

pub optimize_sections : List Section → OptStats → Option (List Section × OptStats)
unfolding visit_section
optimize_sections [] stats = some ([], stats)
optimize_sections (s ∷ rest) stats = elim (visit_section s stats) [
  | none ↦ none
  | some (s', stats') ↦ elim (optimize_sections rest stats') [
    | none ↦ none
    | some (rest', stats'') ↦ some (s' ∷ rest', stats'')
  ]
]

-- The counts of instructions around the work on the sections.
pub counted : Module → Option (List Section × OptStats) → Option (Module × OptStats)
unfolding instruction_count
counted m none = none
counted m (some (sections', stats)) =
    let m' = record m { sections = sections' } in
    some (m', record stats { instructions_after = instruction_count m' })

abbrev pub started : Module → OptStats
started m = record new_stats { instructions_before = instruction_count m }

unfoldable pub run : OptLevel → Module → Option (Module × OptStats)
unfolding optimize_sections counted instruction_count
run level m = elim level [
  | o0 ↦ counted m (some (m.sections, started m))
  | o1 ↦ counted m (optimize_sections m.sections (started m))
]
