-- ===== src/Optimizer/Flow/Ranges.antt =====
-- Where the labels of a section have blocks: if it does not end in a label.
use mini_tool_chain.Base.{
  ℕ, suc, ◌+◌, ◌≤◌, ◌<◌, ◌≡◌, refl, subst, arith, Bool, false, ◌||◌, List, [], ◌∷◌, String, ltb,
  length, length-append, All, All-append, Bool-cases, inl, inr,
}
use mini_tool_chain.Ir.{Item, instruction, label, is_label}
use mini_tool_chain.Optimizer.Queries.{ends_block}
use mini_tool_chain.Optimizer.Flow.{
  Block, new_block, LabelBlocks, Split, push_block, split_item, split_loop, no_blocks, split_blocks,
}

-- Every label has a block below `n`.
abbrev pub IsBelow : ℕ → String × ℕ → Type 0
IsBelow n e = e.1 < n

abbrev pub LabelsBelow : ℕ → LabelBlocks → Type 0
LabelsBelow n labels = All (IsBelow n) labels

abbrev pub IsUnlinked : Block → Type 0
IsUnlinked b = b.successors ≡ []

LabelsBelow-mono :
    (n k : ℕ) (labels : LabelBlocks) → n ≤ k → LabelsBelow n labels → LabelsBelow k labels
LabelsBelow-mono n k [] h all = all
LabelsBelow-mono n k (e ∷ rest) h all = (omega (arith, all.0), LabelsBelow-mono n k rest h all.1)

-- The state before item `i`; `open` tells whether a label came last.
record IsSplit (i : ℕ) (open_label : Bool) (s : Split) : Type 0 where
  begin_le : s.begin ≤ i
  labelled : LabelsBelow (suc (length s.blocks)) s.labels
  closed : s.begin ≡ i → open_label ≡ false → LabelsBelow (length s.blocks) s.labels
  unlinked : All IsUnlinked s.blocks

pushed-length : (s : Split) (end : ℕ) → length (push_block s end).blocks ≡ suc (length s.blocks)
unfolding push_block
pushed-length s end = omega (arith, length-append s.blocks (new_block s.begin end ∷ []))

pushed-IsUnlinked :
    (s : Split) (end : ℕ) → All IsUnlinked s.blocks → All IsUnlinked (push_block s end).blocks
unfolding push_block
pushed-IsUnlinked s end h = All-append IsUnlinked s.blocks (new_block s.begin end ∷ []) h (refl, tt)

-- The labels are the same behind a push.
pushed-labelled :
    (s : Split) (end : ℕ)
    → LabelsBelow (suc (length s.blocks)) s.labels
    → LabelsBelow (length (push_block s end).blocks) (push_block s end).labels
unfolding push_block
pushed-labelled s end h = rw (pushed-length s end) h

split_item-IsSplit :
    (item : Item) (i : ℕ) (open_label : Bool) (s : Split)
    → IsSplit i open_label s
    → IsSplit (suc i) (is_label item) (split_item item i s)
unfolding split_item is_label
split_item-IsSplit (label l) i open_label s h = elim (Bool-cases (ltb s.begin i)) [
  | inl some_before ↦ rw some_before (record {
    begin_le = omega arith;
    labelled =
        All-append (IsBelow (suc (length (push_block s i).blocks))) s.labels
          ((l.name, length (push_block s i).blocks) ∷ [])
          (LabelsBelow-mono _ _ s.labels (omega arith) (pushed-labelled s i h.labelled))
          (omega arith, tt);
    closed = λ e o. cc o;
    unlinked = pushed-IsUnlinked s i h.unlinked;
  })
  | inr none_before ↦ rw none_before (record {
    begin_le = omega arith;
    labelled =
        All-append (IsBelow (suc (length s.blocks))) s.labels ((l.name, length s.blocks) ∷ [])
          h.labelled (omega arith, tt);
    closed = λ e o. cc o;
    unlinked = h.unlinked;
  })
]
split_item-IsSplit (instruction x) i open_label s h =
    elim (Bool-cases (ends_block x.machine.opcode)) [
      | inl ends ↦ rw ends (record {
        begin_le = omega arith;
        labelled =
            LabelsBelow-mono _ _ s.labels (omega arith) (pushed-labelled s (suc i) h.labelled);
        closed = λ e o. pushed-labelled s (suc i) h.labelled;
        unlinked = pushed-IsUnlinked s (suc i) h.unlinked;
      })
      | inr goes_on ↦ rw goes_on (record {
        begin_le = omega (arith, h.begin_le);
        labelled = h.labelled;
        closed = λ e o. absurd (omega (arith, h.begin_le));
        unlinked = h.unlinked;
      })
    ]
split_item-IsSplit _ i open_label s h = record {
  begin_le = omega (arith, h.begin_le);
  labelled = h.labelled;
  closed = λ e o. absurd (omega (arith, h.begin_le));
  unlinked = h.unlinked;
}

-- A label comes last, or nothing and `open_label` says so.
unfoldable pub ends_in_label : Bool → List Item → Bool
unfolding is_label
ends_in_label open_label [] = open_label
ends_in_label open_label (item ∷ rest) = ends_in_label (is_label item) rest

split_loop-IsSplit :
    (items : List Item) (i : ℕ) (open_label : Bool) (s : Split)
    → IsSplit i open_label s
    → IsSplit (i + length items) (ends_in_label open_label items) (split_loop items i s)
unfolding split_loop ends_in_label
split_loop-IsSplit [] i open_label s h = subst (λ k. IsSplit k open_label s) (omega arith) h
split_loop-IsSplit (item ∷ rest) i open_label s h =
    subst
      (λ k.
        IsSplit k (ends_in_label (is_label item) rest)
          (split_loop rest (suc i) (split_item item i s)))
      (omega arith)
      (split_loop-IsSplit rest (suc i) (is_label item) (split_item item i s)
        (split_item-IsSplit item i open_label s h))

-- What `splitBlocks` leaves of a section that does not end in a label.
pub record IsSplitUp (s : Split) : Type 0 where
  pub labelled : LabelsBelow (length s.blocks) s.labels
  pub unlinked : All IsUnlinked s.blocks

pub split_blocks-IsSplitUp :
    (items : List Item) → ends_in_label false items ≡ false → IsSplitUp (split_blocks items)
unfolding split_blocks
split_blocks-IsSplitUp items last =
    let s = split_loop items 0 (record { begin = 0; blocks = []; labels = [] }) in
    let h : IsSplit (0 + length items) (ends_in_label false items) s =
      split_loop-IsSplit items 0 false (record { begin = 0; blocks = []; labels = [] })
        (record { begin_le = omega arith; labelled = tt; closed = λ e o. tt; unlinked = tt }) in
    elim (Bool-cases (ltb s.begin (length items) || no_blocks s.blocks)) [
      | inl rest ↦ rw rest (record {
        labelled = pushed-labelled s (length items) h.labelled;
        unlinked = pushed-IsUnlinked s (length items) h.unlinked;
      })
      | inr whole ↦ rw whole (record {
        labelled =
            h.closed
              (at_end s.begin (length items) (no_blocks s.blocks) whole (omega (arith, h.begin_le)))
              last;
        unlinked = h.unlinked;
      })
    ]
  where
    at_end :
        (begin size : ℕ) (none_yet : Bool)
        → (ltb begin size || none_yet) ≡ false
        → begin ≤ size
        → begin ≡ 0 + size
    at_end begin size none_yet h le = elim (Bool-cases (ltb begin size)) [
      | inl below ↦ cc (rw below at h)
      | inr above ↦ ground (arith, above, le)
    ]
