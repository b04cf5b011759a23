-- ===== src/Optimizer/Cells.antt =====
-- include/minitool/optimizer/optimizer.hpp, and what the passes of src/optimizer/optimizer.cpp work
-- on: the items of a section, each beside its mark of the vector `remove`, and what they count.
pub mod Steps
use mini_tool_chain.Base.{
  ℕ, ◌+◌, ◌%◌, ◌^◌, Bool, true, false, List, [], ◌∷◌, Option, none, some, if◌then◌else◌,
}
use mini_tool_chain.Ir.{Item, Instruction, instruction}

pub data OptLevel : Type 0 where
  o0 o1 : OptLevel

pub record OptStats : Type 0 where
  pub constants_folded : ℕ
  pub identities_eliminated : ℕ
  pub dead_stores_removed : ℕ
  pub unreachable_removed : ℕ
  pub peepholes_applied : ℕ
  pub instructions_before : ℕ
  pub instructions_after : ℕ

abbrev pub new_stats : OptStats
new_stats = record {
  constants_folded = 0;
  identities_eliminated = 0;
  dead_stores_removed = 0;
  unreachable_removed = 0;
  peepholes_applied = 0;
  instructions_before = 0;
  instructions_after = 0;
}

-- `+=` on a u32.
abbrev pub add32 : ℕ → ℕ → ℕ
add32 a b = (a + b) % 4294967296

abbrev pub total : OptStats → ℕ
total s =
    add32
      (add32 (add32 (add32 s.constants_folded s.identities_eliminated) s.dead_stores_removed)
        s.unreachable_removed)
      s.peepholes_applied

-- What a pass has counted, and `changed`.
pub record Tally : Type 0 where
  pub stats : OptStats
  pub changed : Bool

abbrev pub count_folded : Tally → Tally
count_folded t = record {
  stats = record t.stats { constants_folded = add32 t.stats.constants_folded 1 };
  changed = true;
}

abbrev pub count_identity : Tally → Tally
count_identity t = record {
  stats = record t.stats { identities_eliminated = add32 t.stats.identities_eliminated 1 };
  changed = true;
}

abbrev pub count_dead_store : Tally → Tally
count_dead_store t = record {
  stats = record t.stats { dead_stores_removed = add32 t.stats.dead_stores_removed 1 };
  changed = true;
}

abbrev pub count_unreachable : Tally → Tally
count_unreachable t = record {
  stats = record t.stats { unreachable_removed = add32 t.stats.unreachable_removed 1 };
  changed = true;
}

abbrev pub count_peepholes : ℕ → Tally → Tally
count_peepholes n t = record {
  stats = record t.stats { peepholes_applied = add32 t.stats.peepholes_applied n };
  changed = true;
}

pub record Cell : Type 0 where
  pub item : Item
  pub removed : Bool

abbrev pub Marked : Type 0
Marked = List Cell × Tally

abbrev pub kept : Item → Cell
kept item = record { item = item; removed = false }

abbrev pub dropped : Cell → Cell
dropped c = record c { removed = true }

-- A cell in front of what a pass made of the rest.
abbrev pub in_front : Cell → Marked → Marked
in_front c (cells, t) = (c ∷ cells, t)

abbrev pub items_of : List Cell → List Item
items_of [] = []
items_of (c ∷ rest) = c.item ∷ items_of rest

-- The removal at the end of `runPasses`.
abbrev pub kept_items : List Cell → List Item
kept_items [] = []
kept_items (c ∷ rest) = if c.removed then kept_items rest else c.item ∷ kept_items rest

abbrev pub instruction_of : Item → Option Instruction
instruction_of (instruction i) = some i
instruction_of _ = none

-- The instruction of a cell that is not removed.
abbrev pub present : Cell → Option Instruction
present c = if c.removed then none else instruction_of c.item
