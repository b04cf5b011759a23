-- ===== src/Optimizer/Liveness.antt =====
-- `computeFlagLiveness` of src/optimizer/optimizer.cpp, on what it asks of each block.
pub mod Sweeps
pub mod Visits
pub mod Progress
pub mod Still
pub mod Ends
pub mod Solution
pub mod Settles
use mini_tool_chain.Base.{
  ℕ, zero, suc, ◌+◌, Bool, true, false, not, ◌&&◌, ◌||◌, List, [], ◌∷◌, Option, none, some,
  if◌then◌else◌, length, get_elem?, get_or, set, replicate,
}
use mini_tool_chain.Isa.Semantics.{same}
use mini_tool_chain.Ir.{Item}
use mini_tool_chain.Optimizer.Flow.{Block, block_items, reads_before_writing, block_writes_flags}

-- `blockReadsFlagsBeforeWriting` and `blockWritesFlags` of a block, with where control goes from
-- it.
pub record Node : Type 0 where
  pub reads : Bool
  pub writes : Bool
  pub unknown : Bool
  pub successors : List ℕ

unfoldable pub node_of : List Item → Block → Node
node_of items b = record {
  reads = reads_before_writing (block_items items b);
  writes = block_writes_flags (block_items items b);
  unknown = b.unknown_successor;
  successors = b.successors;
}

unfoldable pub nodes_of : List Item → List Block → List Node
unfolding node_of reads_before_writing block_writes_flags
nodes_of items [] = []
nodes_of items (b ∷ rest) = node_of items b ∷ nodes_of items rest

-- `live_out = live_out || live_in[successor]` for each; what is true already reads no further.
pub any_live : Bool → List ℕ → List Bool → Option Bool
any_live live [] live_in = some live
any_live true (s ∷ rest) live_in = any_live true rest live_in
any_live false (s ∷ rest) live_in = elim (get_elem? live_in s) [
  | none ↦ none
  | some b ↦ any_live b rest live_in
]

-- The state of the loops.
pub record Sweep : Type 0 where
  pub live_out : List Bool
  pub live_in : List Bool
  pub changed : Bool

abbrev pub set_out : ℕ → Bool → Sweep → Sweep
set_out i out s =
    if same out (get_or s.live_out i true)
    then s
    else record s { live_out = set s.live_out i out; changed = true }

abbrev pub set_in : ℕ → Bool → Sweep → Sweep
set_in i live s =
    if same live (get_or s.live_in i false)
    then s
    else record s { live_in = set s.live_in i live; changed = true }

abbrev pub live_before : Node → Bool → Bool
live_before node out = node.reads || (out && not node.writes)

pub updated : Node → ℕ → Sweep → Option Bool → Option Sweep
updated node i s none = none
updated node i s (some out) = some (set_in i (live_before node out) (set_out i out s))

-- The body of the inner loop for block `i`.
pub visit : List Node → ℕ → Sweep → Option Sweep
unfolding updated
visit nodes i s = elim (get_elem? nodes i) [
  | none ↦ none
  | some node ↦ updated node i s (any_live node.unknown node.successors s.live_in)
]

-- The inner loop, from block `count - 1` down to the first.
pub sweep : List Node → ℕ → Sweep → Option Sweep
sweep nodes zero s = some s
sweep nodes (suc i) s = elim (visit nodes i s) [ none ↦ none | some s' ↦ sweep nodes i s' ]

pub data Liveness : Type 0 where
  settled : List Bool → Liveness
  out_of_range out_of_fuel : Liveness

abbrev pub unchanged : Sweep → Sweep
unchanged s = record s { changed = false }

pub liveness_loop : ℕ → List Node → Sweep → Liveness
unfolding sweep
liveness_loop zero nodes s = out_of_fuel
liveness_loop (suc fuel) nodes s = elim (sweep nodes (length nodes) (unchanged s)) [
  | none ↦ out_of_range
  | some s' ↦ elim s'.changed [ true ↦ liveness_loop fuel nodes s' | false ↦ settled s'.live_out ]
]

pub initial_live : List Node → List Bool
initial_live [] = []
initial_live (node ∷ rest) = node.reads ∷ initial_live rest

-- Two rounds more than there are blocks are enough.
unfoldable pub flag_liveness : List Node → Liveness
unfolding liveness_loop initial_live any_live visit sweep updated
flag_liveness nodes = liveness_loop (length nodes + 2) nodes (record {
  live_out = replicate (length nodes) true;
  live_in = initial_live nodes;
  changed = true;
})
