-- ===== src/Optimizer/Passes/Total.antt =====
-- A round of passes over a section that does not end in a label is defined.
use mini_tool_chain.Base.{
  ℕ, suc, ◌≡◌, refl, ap, ◌∙◌, Bool, true, false, List, [], ◌∷◌, Option, none, some, length, All,
  All-get_elem?, Bool-cases, Option-cases, inl, inr,
}
use mini_tool_chain.Ir.{Item, instruction, label, is_label}
use mini_tool_chain.Optimizer.Flow.{Block}
use mini_tool_chain.Optimizer.Flow.Ranges.{ends_in_label}
use mini_tool_chain.Optimizer.Flow.Links.{Linked, link_successors-Linked}
use mini_tool_chain.Optimizer.Liveness.{node_of, nodes_of}
use mini_tool_chain.Optimizer.Liveness.Settles.{InRange, flag_liveness-settles}
use mini_tool_chain.Optimizer.Cells.{
  OptStats, Tally, Cell, count_unreachable, count_peepholes, items_of,
}
use mini_tool_chain.Optimizer.Peephole.{
  mark_unreachable, consumed, peephole, jumps_to_next, drop_jumps,
}
use mini_tool_chain.Optimizer.Peephole.Balance.{held}
use mini_tool_chain.Optimizer.Passes.{whole_passes, flow_blocks, with_liveness, run_passes}

mark_unreachable-items_of :
    (reachable : Bool) (items : List Item) (t : Tally)
    → items_of (mark_unreachable reachable items t).0 ≡ items
unfolding mark_unreachable
mark_unreachable-items_of reachable [] t = refl
mark_unreachable-items_of reachable (label l ∷ rest) t =
    ap (λ xs. label l ∷ xs) (mark_unreachable-items_of true rest t)
mark_unreachable-items_of true (instruction i ∷ rest) t =
    ap (λ xs. instruction i ∷ xs) (mark_unreachable-items_of _ rest t)
mark_unreachable-items_of false (instruction i ∷ rest) t =
    ap (λ xs. instruction i ∷ xs) (mark_unreachable-items_of false rest (count_unreachable t))
mark_unreachable-items_of reachable (item ∷ rest) t =
    ap (λ xs. item ∷ xs) (mark_unreachable-items_of reachable rest t)

drop_jumps-items_of :
    (cells : List Cell) (t : Tally) → items_of (drop_jumps cells t).0 ≡ items_of cells
unfolding drop_jumps
drop_jumps-items_of [] t = refl
drop_jumps-items_of (c ∷ rest) t = elim (Bool-cases (jumps_to_next c rest)) [
  | inl gone ↦
      rw (gone, drop_jumps)
        (ap (λ xs. c.item ∷ xs) (drop_jumps-items_of rest (count_peepholes 1 t)))
  | inr stays ↦ rw (stays, drop_jumps) (ap (λ xs. c.item ∷ xs) (drop_jumps-items_of rest t))
]

peephole-ends_in_label :
    (hold : Option Cell) (cells : List Cell) (t : Tally) (open_label : Bool)
    → ends_in_label open_label (items_of (peephole hold cells t).0)
      ≡ ends_in_label open_label (items_of (held hold cells))
unfolding peephole ends_in_label
peephole-ends_in_label none [] t open_label = refl
peephole-ends_in_label (some first) [] t open_label = refl
peephole-ends_in_label none (second ∷ rest) t open_label =
    peephole-ends_in_label (some second) rest t open_label
peephole-ends_in_label (some first) (second ∷ rest) t open_label =
    elim (Option-cases (consumed first second)) [
      | inl no_pair ↦
          rw (no_pair, peephole) (peephole-ends_in_label (some second) rest t (is_label first.item))
      | inr ((first', n), found) ↦
          rw (found, peephole)
            (peephole-ends_in_label none rest (count_peepholes n t) (is_label second.item))
    ]

whole_passes-ends_in_label :
    (items : List Item) (stats : OptStats)
    → ends_in_label false (items_of (whole_passes items stats).0) ≡ ends_in_label false items
unfolding whole_passes
whole_passes-ends_in_label items stats =
    let (reached, t) = mark_unreachable true items (record { stats = stats; changed = false }) in
    let (moved, t') = peephole none reached t in
    ap (ends_in_label false) (drop_jumps-items_of moved t')
    ∙ peephole-ends_in_label none reached t false
    ∙ ap (ends_in_label false)
        (mark_unreachable-items_of true items (record { stats = stats; changed = false }))

nodes_of-length :
    (items : List Item) (blocks : List Block) → length (nodes_of items blocks) ≡ length blocks
unfolding nodes_of
nodes_of-length items [] = refl
nodes_of-length items (b ∷ rest) = ap suc (nodes_of-length items rest)

nodes_of-InRange :
    (n : ℕ) (items : List Item) (blocks : List Block)
    → All (Linked n) blocks
    → All (InRange n) (nodes_of items blocks)
unfolding nodes_of node_of
nodes_of-InRange n items [] h = tt
nodes_of-InRange n items (b ∷ rest) h = (h.0, nodes_of-InRange n items rest h.1)

-- One round of the passes gives a result for every section whose last item, if there is one, is no
-- label.
pub run_passes-total :
    (items : List Item) (stats : OptStats)
    → ends_in_label false items ≡ false
    → (r : List Item × OptStats × Bool) × (run_passes items stats ≡ some r)
unfolding run_passes with_liveness flow_blocks
run_passes-total items stats last =
    let seen = items_of (whole_passes items stats).0 in
    let blocks = flow_blocks seen in
    let linked : All (Linked (length blocks)) blocks =
      link_successors-Linked seen (whole_passes-ends_in_label items stats ∙ last) in
    let (outs, settles) = flag_liveness-settles (nodes_of seen blocks) (λ i node at.
      All-get_elem? (InRange (length (nodes_of seen blocks))) (nodes_of seen blocks) i node
        (nodes_of-InRange (length (nodes_of seen blocks)) seen blocks
          (rw (nodes_of-length seen blocks) linked))
        at) in
    (_, ap (with_liveness (whole_passes items stats) blocks) settles)
