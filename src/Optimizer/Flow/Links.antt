-- ===== src/Optimizer/Flow/Links.antt =====
-- Where the successors of blocks are blocks.
use text.Mathlib.Text.{◌==◌ as str_eq}
use mini_tool_chain.Base.{
  ℕ, suc, ◌<◌, ◌≡◌, refl, ap, Bool, true, false, ◌&&◌, List, [], ◌∷◌, Option, none, some,
  some-injective, String, ltb, ltb→lt, if◌then◌else◌, length, All, All-append, Bool-cases,
  Option-cases, inl, inr,
}
use mini_tool_chain.Ir.{Item, Instruction}
use mini_tool_chain.Optimizer.Flow.{
  Block, LabelBlocks, find_label, split_blocks, link_target, link_branch, link_block, link_loop,
  link_successors, is_call, info_of, ends_with_branch, falls_through, block_items, last_instruction,
}
use mini_tool_chain.Optimizer.Flow.Ranges.{
  LabelsBelow, IsUnlinked, ends_in_label, split_blocks-IsSplitUp,
}

find_label-below :
    (n : ℕ) (labels : LabelBlocks) (name : String) (at : ℕ)
    → LabelsBelow n labels
    → find_label labels name ≡ some at
    → at < n
unfolding find_label
find_label-below n [] name at all h = cc h
find_label-below n ((key, k) ∷ rest) name at all h = elim (Bool-cases (str_eq key name)) [
  | inl here ↦ rw (← some-injective k at (rw (here, find_label) at h)) (all.0)
  | inr other ↦ find_label-below n rest name at all.1 (rw (other, find_label) at h)
]

-- Every successor is below `n`.
abbrev pub Linked : ℕ → Block → Type 0
Linked n b = All (λ s. s < n) b.successors

link_target-Linked :
    (n : ℕ) (labels : LabelBlocks) (last : Instruction) (b : Block)
    → LabelsBelow n labels
    → Linked n b
    → Linked n (link_target labels last b)
unfolding link_target
link_target-Linked n labels last b all h = elim (Bool-cases (is_call last.machine.opcode)) [
  | inl calls ↦ rw calls h
  | inr jumps ↦ elim (Option-cases last.symbol) [
    | inl literal ↦ rw (jumps, literal) h
    | inr (symbol, named) ↦ elim (Option-cases (find_label labels symbol.name)) [
      | inl missing ↦ rw (jumps, named, missing) h
      | inr (at, found) ↦
          rw (jumps, named, found)
            (All-append (λ s. s < n) b.successors (at ∷ []) h
              (find_label-below n labels symbol.name at all found, tt))
    ]
  ]
]

link_branch-Linked :
    (n : ℕ) (labels : LabelBlocks) (last : Option Instruction) (b : Block)
    → LabelsBelow n labels
    → Linked n b
    → Linked n (link_branch labels last b)
unfolding link_branch
link_branch-Linked n labels none b all h = h
link_branch-Linked n labels (some last) b all h =
    elim (Bool-cases (ends_with_branch (info_of (some last)))) [
      | inl branches ↦ rw branches (link_target-Linked n labels last b all h)
      | inr passes ↦ rw passes h
    ]

next-below :
    (n i : ℕ) (falls : Bool) → All (λ s. s < n) (if falls && ltb (suc i) n then suc i ∷ [] else [])
next-below n i falls = elim (Bool-cases (falls && ltb (suc i) n)) [
  | inl there ↦ rw there (ltb→lt (suc i) n (both falls (ltb (suc i) n) there), tt)
  | inr not_there ↦ rw not_there tt
]
  where
    both : (a b : Bool) → (a && b) ≡ true → b ≡ true
    both true b h = h
    both false b h = cc h

link_block-Linked :
    (items : List Item) (labels : LabelBlocks) (n i : ℕ) (b : Block)
    → LabelsBelow n labels
    → IsUnlinked b
    → Linked n (link_block items labels n i b)
unfolding link_block
link_block-Linked items labels n i b all fresh =
    let last = last_instruction (block_items items b) in
    link_branch-Linked n labels last _ all
      (rw fresh (next-below n i (falls_through (info_of last))))

link_loop-Linked :
    (items : List Item) (labels : LabelBlocks) (n i : ℕ) (blocks : List Block)
    → LabelsBelow n labels
    → All IsUnlinked blocks
    → All (Linked n) (link_loop items labels n i blocks)
      × (length (link_loop items labels n i blocks) ≡ length blocks)
unfolding link_loop
link_loop-Linked items labels n i [] all fresh = (tt, refl)
link_loop-Linked items labels n i (b ∷ rest) all fresh =
    let (linked, size) = link_loop-Linked items labels n (suc i) rest all fresh.1 in
    ((link_block-Linked items labels n i b all fresh.0, linked), ap suc size)

-- The blocks of a section that does not end in a label have blocks as successors.
pub link_successors-Linked :
    (items : List Item)
    → ends_in_label false items ≡ false
    → let s = split_blocks items in
      let blocks = link_successors items s.labels s.blocks in All (Linked (length blocks)) blocks
unfolding link_successors
link_successors-Linked items last =
    let s = split_blocks items in
    let up = split_blocks-IsSplitUp items last in
    let (linked, size) =
      link_loop-Linked items s.labels (length s.blocks) 0 s.blocks up.labelled up.unlinked in
    rw size linked
