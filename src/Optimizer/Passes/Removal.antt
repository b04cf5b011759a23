-- ===== src/Optimizer/Passes/Removal.antt =====
-- The optimizer neither loses an instruction that it does not count nor touches anything else.
use mini_tool_chain.Base.{
  ℕ, zero, suc, ◌-◌, ◌≡◌, refl, sym, ap, ◌∙◌, arith, Bool, true, false, List, [], ◌∷◌, ◌++◌, none,
  some, some-injective, Bool-cases, Option-cases, inl, inr, take, drop, get_or,
}
use mini_tool_chain.Ir.{Item}
use mini_tool_chain.Optimizer.Flow.{Block}
use mini_tool_chain.Optimizer.Liveness.{Liveness, settled}
use mini_tool_chain.Optimizer.Cells.{
  OptStats, Tally, Cell, Marked, count_identity, count_dead_store, items_of, kept_items, present,
}
use mini_tool_chain.Optimizer.Cells.Steps.{
  fixed_items, balance, Kept, Kept-same, Kept-trans, Kept-between, Kept-front, Kept-dropped,
  present-IsPresent,
}
use mini_tool_chain.Optimizer.Peephole.Balance.{
  cells_of, mark_unreachable-Kept, peephole-Kept, drop_jumps-Kept,
}
use mini_tool_chain.Optimizer.Folding.{no_constants, fold_block}
use mini_tool_chain.Optimizer.Folding.Balance.{fold_block-Kept}
use mini_tool_chain.Optimizer.Passes.{
  is_identity, drop_identities, is_dead_store, drop_dead_stores, on_range, on_blocks, fold_blocks,
  whole_passes, block_passes, finished, flow_blocks, with_liveness, run_passes, iterate,
}

drop_identities-Kept :
    (cells : List Cell) (t : Tally) → let m = drop_identities cells t in Kept cells t m.0 m.1
unfolding drop_identities
drop_identities-Kept [] t = Kept-same [] t
drop_identities-Kept (c ∷ rest) t = elim (Option-cases (present c)) [
  | inl skipped ↦
      rw (skipped, drop_identities)
        (Kept-front (Kept-same (c ∷ []) t) (drop_identities-Kept rest t))
  | inr (i, found) ↦ elim (Bool-cases (is_identity i)) [
    | inl gone ↦
        rw (found, gone, drop_identities)
          (Kept-front
            (Kept-dropped c i t (count_identity t) (present-IsPresent c i found) refl refl
              (omega arith))
            (drop_identities-Kept rest (count_identity t)))
    | inr stays ↦
        rw (found, stays, drop_identities)
          (Kept-front (Kept-same (c ∷ []) t) (drop_identities-Kept rest t))
  ]
]

drop_dead_stores-Kept :
    (cells : List Cell) (t : Tally) → let m = drop_dead_stores cells t in Kept cells t m.0 m.1
unfolding drop_dead_stores
drop_dead_stores-Kept [] t = Kept-same [] t
drop_dead_stores-Kept (c ∷ rest) t = elim (Option-cases (present c)) [
  | inl skipped ↦
      rw (skipped, drop_dead_stores)
        (Kept-front (Kept-same (c ∷ []) t) (drop_dead_stores-Kept rest t))
  | inr (i, found) ↦ elim (Bool-cases (is_dead_store i rest)) [
    | inl gone ↦
        rw (found, gone, drop_dead_stores)
          (Kept-front
            (Kept-dropped c i t (count_dead_store t) (present-IsPresent c i found) refl refl
              (omega arith))
            (drop_dead_stores-Kept rest (count_dead_store t)))
    | inr stays ↦
        rw (found, stays, drop_dead_stores)
          (Kept-front (Kept-same (c ∷ []) t) (drop_dead_stores-Kept rest t))
  ]
]

take-drop : {A : Type 0} (n : ℕ) (xs : List A) → take n xs ++ drop n xs ≡ xs
take-drop zero xs = refl
take-drop (suc n) [] = refl
take-drop (suc n) (x ∷ xs) = ap (λ ys. x ∷ ys) (take-drop n xs)

-- A pass that keeps the balance of any cells.
abbrev Keeps : (List Cell → Tally → Marked) → Type 0
Keeps pass = (cells : List Cell) (t : Tally) → let m = pass cells t in Kept cells t m.0 m.1

on_range-Kept :
    (begin end : ℕ) (pass : List Cell → Tally → Marked) (cells : List Cell) (t : Tally)
    → Keeps pass
    → let m = on_range begin end pass (cells, t) in Kept cells t m.0 m.1
unfolding on_range
on_range-Kept begin end pass cells t keeps =
    rw (take-drop (end - begin) (drop begin cells), take-drop begin cells) at
      (Kept-between (take begin cells) (drop (end - begin) (drop begin cells))
        (keeps (take (end - begin) (drop begin cells)) t))

on_blocks-Kept :
    (pass : List Cell → Tally → Marked) (blocks : List Block) (cells : List Cell) (t : Tally)
    → Keeps pass
    → let m = on_blocks pass blocks (cells, t) in Kept cells t m.0 m.1
unfolding on_blocks
on_blocks-Kept pass [] cells t keeps = Kept-same cells t
on_blocks-Kept pass (b ∷ rest) cells t keeps =
    Kept-trans (on_range-Kept b.begin b.end pass cells t keeps) (on_blocks-Kept pass rest _ _ keeps)

fold_blocks-Kept :
    (outs : List Bool) (i : ℕ) (blocks : List Block) (cells : List Cell) (t : Tally)
    → let m = fold_blocks outs i blocks (cells, t) in Kept cells t m.0 m.1
unfolding fold_blocks
fold_blocks-Kept outs i [] cells t = Kept-same cells t
fold_blocks-Kept outs i (b ∷ rest) cells t =
    Kept-trans
      (on_range-Kept b.begin b.end (fold_block (get_or outs i true) no_constants) cells t
        (fold_block-Kept (get_or outs i true) no_constants))
      (fold_blocks-Kept outs (suc i) rest _ _)

block_passes-Kept :
    (outs : List Bool) (blocks : List Block) (cells : List Cell) (t : Tally)
    → let m = block_passes outs blocks (cells, t) in Kept cells t m.0 m.1
unfolding block_passes
block_passes-Kept outs blocks cells t = Kept-trans (fold_blocks-Kept outs 0 blocks cells t) (
    Kept-trans (on_blocks-Kept drop_identities blocks _ _ drop_identities-Kept)
      (on_blocks-Kept drop_dead_stores blocks _ _ drop_dead_stores-Kept))

whole_passes-Kept :
    (items : List Item) (stats : OptStats)
    → let m = whole_passes items stats in
      Kept (cells_of items) (record { stats = stats; changed = false }) m.0 m.1
unfolding whole_passes
whole_passes-Kept items stats =
    Kept-trans (mark_unreachable-Kept true items (record { stats = stats; changed = false }))
      (Kept-trans (peephole-Kept none _ _) (drop_jumps-Kept _ _))

kept-cells_of : (items : List Item) → kept_items (cells_of items) ≡ items
kept-cells_of [] = refl
kept-cells_of (item ∷ rest) = ap (λ xs. item ∷ xs) (kept-cells_of rest)

items-cells_of : (items : List Item) → items_of (cells_of items) ≡ items
items-cells_of [] = refl
items-cells_of (item ∷ rest) = ap (λ xs. item ∷ xs) (items-cells_of rest)

-- What a round of passes, or several, leave of the items of a section.
pub record Conserved (items : List Item) (stats : OptStats) (items' : List Item) (stats' : OptStats)
    : Type 0 where
  pub fixed : fixed_items items' ≡ fixed_items items
  pub balanced : balance items' stats' ≡ balance items stats
  pub before : stats'.instructions_before ≡ stats.instructions_before

finished-Conserved :
    (items : List Item) (stats : OptStats) (cells : List Cell) (t : Tally)
    → Kept (cells_of items) (record { stats = stats; changed = false }) cells t
    → let done = finished (cells, t) in Conserved items stats done.0 done.1
unfolding finished
finished-Conserved items stats cells t k = elim (Bool-cases t.changed) [
  | inl more ↦ record {
    fixed = rw more (k.fixed ∙ ap fixed_items (kept-cells_of items));
    balanced = rw more (k.balanced ∙ ap (λ xs. balance xs stats) (kept-cells_of items));
    before = k.before;
  }
  | inr still ↦
      let same : items_of cells ≡ items = ap items_of (k.still still).1 ∙ items-cells_of items in
      let left : kept_items cells ≡ items = ap kept_items (k.still still).1 ∙ kept-cells_of items in
      record {
        fixed = rw still (ap fixed_items same);
        balanced = rw still (
            ap (λ xs. balance xs t.stats) (same ∙ sym left)
            ∙ k.balanced
            ∙ ap (λ xs. balance xs stats) (kept-cells_of items));
        before = k.before;
      }
]

with_liveness-Conserved :
    (items : List Item) (stats : OptStats) (cells : List Cell) (t : Tally) (blocks : List Block)
    (l : Liveness) (items' : List Item) (stats' : OptStats) (changed : Bool)
    → Kept (cells_of items) (record { stats = stats; changed = false }) cells t
    → with_liveness (cells, t) blocks l ≡ some (items', stats', changed)
    → Conserved items stats items' stats'
unfolding with_liveness
with_liveness-Conserved items stats cells t blocks (settled outs) items' stats' changed k h =
    let (cells', t') = block_passes outs blocks (cells, t) in
    let made : finished (cells', t') ≡ (items', stats', changed) =
      some-injective _ (items', stats', changed) h in
    rw (ap (λ p. p.0) made, ap (λ p. p.1) made) at
      (finished-Conserved items stats cells' t'
        (Kept-trans k (block_passes-Kept outs blocks cells t)))
with_liveness-Conserved items stats cells t blocks _ items' stats' changed k h = cc h

run_passes-Conserved :
    (items : List Item) (stats : OptStats) (items' : List Item) (stats' : OptStats) (changed : Bool)
    → run_passes items stats ≡ some (items', stats', changed)
    → Conserved items stats items' stats'
unfolding run_passes
run_passes-Conserved items stats items' stats' changed h =
    with_liveness-Conserved items stats _ _ (flow_blocks (items_of (whole_passes items stats).0)) _
      items' stats' changed (whole_passes-Kept items stats) h

Conserved-trans :
    {items items' items'' : List Item} {stats stats' stats'' : OptStats}
    → Conserved items stats items' stats'
    → Conserved items' stats' items'' stats''
    → Conserved items stats items'' stats''
Conserved-trans a b = record {
  fixed = b.fixed ∙ a.fixed;
  balanced = b.balanced ∙ a.balanced;
  before = b.before ∙ a.before;
}

pub iterate-Conserved :
    (left : ℕ) (items : List Item) (stats : OptStats) (items' : List Item) (stats' : OptStats)
    → iterate left items stats ≡ some (items', stats')
    → Conserved items stats items' stats'
unfolding iterate
iterate-Conserved zero items stats items' stats' h =
    let made : (items, stats) ≡ (items', stats') = some-injective _ (items', stats') h in
    record {
      fixed = ap (λ p. fixed_items p.0) (sym made);
      balanced = ap (λ p. balance p.0 p.1) (sym made);
      before = ap (λ p. p.1.instructions_before) (sym made);
    }
iterate-Conserved (suc left) items stats items' stats' h =
    elim (Option-cases (run_passes items stats)) [
      | inl failed ↦ cc (rw (failed, iterate) at h)
      | inr ((next, stats₁, changed), found) ↦
          let here = run_passes-Conserved items stats next stats₁ changed found in
          elim (Bool-cases changed) [
            | inl more ↦
                Conserved-trans here (
                  iterate-Conserved left next stats₁ items' stats' (rw (found, more, iterate) at h))
            | inr still ↦
                let made : (next, stats₁) ≡ (items', stats') =
                  some-injective _ (items', stats') (rw (found, still, iterate) at h) in
                rw (ap (λ p. p.0) made, ap (λ p. p.1) made) at here
          ]
    ]
