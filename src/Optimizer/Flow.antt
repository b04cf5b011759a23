-- ===== src/Optimizer/Flow.antt =====
-- `ControlFlow` of src/optimizer/optimizer.cpp: the blocks of a section and whether FLAGS is live
-- out of each. `flags_live_out` of the blocks is a list beside them. A read past the end of
-- `live_in`, which is undefined in the source, is the outcome `out_of_range`.
pub mod Ranges
pub mod Links
use text.Mathlib.Text.{◌==◌ as str_eq}
use mini_tool_chain.Base.{
  ℕ, zero, suc, ◌+◌, ◌-◌, Bool, true, false, not, ◌&&◌, ◌||◌, List, [], ◌∷◌, ◌++◌, Option, none,
  some, String, ltb, if◌then◌else◌, length, get_elem?, get_or, set, take, drop, replicate,
}
use mini_tool_chain.Isa.Opcode.{Opcode, call, OpcodeInfo, find_opcode}
use mini_tool_chain.Isa.Semantics.{reads_flags}
use mini_tool_chain.Ir.{
  Item, Instruction, Label, SymbolRef, instruction, label, bytes, symbol_value, space, align,
  is_instruction,
}
use mini_tool_chain.Optimizer.Queries.{ends_block, writes_flags}

pub record Block : Type 0 where
  pub begin : ℕ
  pub end : ℕ
  pub successors : List ℕ
  pub unknown_successor : Bool

abbrev pub new_block : ℕ → ℕ → Block
new_block begin end = record {
  begin = begin;
  end = end;
  successors = [];
  unknown_successor = false;
}

-- `label_block_`, the first entry of a name being the one that stays.
abbrev pub LabelBlocks : Type 0
LabelBlocks = List (String × ℕ)

pub find_label : LabelBlocks → String → Option ℕ
find_label [] name = none
find_label ((key, at) ∷ rest) name = if str_eq key name then some at else find_label rest name

-- The state of `splitBlocks`.
pub record Split : Type 0 where
  pub begin : ℕ
  pub blocks : List Block
  pub labels : LabelBlocks

push_block : Split → ℕ → Split
push_block s end = record s { blocks = s.blocks ++ (new_block s.begin end ∷ []) }

-- The body of the loop, for item `i`.
split_item : Item → ℕ → Split → Split
unfolding push_block ends_block
split_item (label l) i s =
    let pushed = if ltb s.begin i then push_block s i else s in
    record pushed { begin = suc i; labels = s.labels ++ ((l.name, length pushed.blocks) ∷ []) }
split_item (instruction x) i s =
    if ends_block x.machine.opcode then record (push_block s (suc i)) { begin = suc i } else s
split_item _ i s = s

split_loop : List Item → ℕ → Split → Split
unfolding split_item
split_loop [] i s = s
split_loop (item ∷ rest) i s = split_loop rest (suc i) (split_item item i s)

no_blocks : List Block → Bool
no_blocks [] = true
no_blocks (b ∷ rest) = false

unfoldable pub split_blocks : List Item → Split
unfolding split_loop push_block no_blocks
split_blocks items =
    let s = split_loop items 0 (record { begin = 0; blocks = []; labels = [] }) in
    if ltb s.begin (length items) || no_blocks s.blocks then push_block s (length items) else s

-- The items of a block.
abbrev pub block_items : {A : Type 0} → List A → Block → List A
block_items items b = take (b.end - b.begin) (drop b.begin items)

pub last_instruction : List Item → Option Instruction
last_instruction [] = none
last_instruction (item ∷ rest) = elim (last_instruction rest) [
  | some i ↦ some i
  | none ↦ elim item [ instruction i ↦ some i | _ ↦ none ]
]

is_call : Opcode → Bool
is_call call = true
is_call _ = false

info_of : Option Instruction → Option OpcodeInfo
unfolding find_opcode
info_of none = none
info_of (some i) = find_opcode i.machine.opcode

falls_through : Option OpcodeInfo → Bool
falls_through none = true
falls_through (some info) = not info.is_terminator

ends_with_branch : Option OpcodeInfo → Bool
ends_with_branch none = false
ends_with_branch (some info) = info.is_branch

-- A branch to a known label has its block as a successor; any other, and a call, an unknown one.
link_target : LabelBlocks → Instruction → Block → Block
unfolding is_call find_label
link_target labels last b =
    let unknown = record b { unknown_successor = true } in
    let found : Block = elim last.symbol [
      | none ↦ unknown
      | some symbol ↦ elim (find_label labels symbol.name) [
        | none ↦ unknown
        | some at ↦ record b { successors = b.successors ++ (at ∷ []) }
      ]
    ] in
    if is_call last.machine.opcode then unknown else found

link_branch : LabelBlocks → Option Instruction → Block → Block
unfolding link_target ends_with_branch info_of
link_branch labels none b = b
link_branch labels (some last) b =
    if ends_with_branch (info_of (some last)) then link_target labels last b else b

-- The body of the loop for block `i` of `n`.
pub link_block : List Item → LabelBlocks → ℕ → ℕ → Block → Block
unfolding link_branch falls_through info_of last_instruction
link_block items labels n i b =
    let last = last_instruction (block_items items b) in
    let next = if falls_through (info_of last) && ltb (suc i) n then suc i ∷ [] else [] in
    link_branch labels last (record b { successors = b.successors ++ next })

link_loop : List Item → LabelBlocks → ℕ → ℕ → List Block → List Block
unfolding link_block
link_loop items labels n i [] = []
link_loop items labels n i (b ∷ rest) =
    link_block items labels n i b ∷ link_loop items labels n (suc i) rest

unfoldable pub link_successors : List Item → LabelBlocks → List Block → List Block
unfolding link_loop
link_successors items labels blocks = link_loop items labels (length blocks) 0 blocks

unfoldable pub reads_before_writing : List Item → Bool
unfolding reads_flags writes_flags
reads_before_writing [] = false
reads_before_writing (instruction i ∷ rest) =
    let later = reads_before_writing rest in
    if reads_flags i.machine.opcode
    then true
    else if writes_flags i.machine.opcode
    then false
    else later
reads_before_writing (_ ∷ rest) = reads_before_writing rest

unfoldable pub block_writes_flags : List Item → Bool
unfolding writes_flags
block_writes_flags [] = false
block_writes_flags (instruction i ∷ rest) =
    let later = block_writes_flags rest in if writes_flags i.machine.opcode then true else later
block_writes_flags (_ ∷ rest) = block_writes_flags rest
