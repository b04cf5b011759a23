-- ===== src/Optimizer/Liveness/Settles.antt =====
-- Where every successor is a block, `computeFlagLiveness` gives a result.
use mini_tool_chain.Base.{
  ℕ, zero, suc, ◌+◌, ◌≤◌, ◌<◌, ◌≡◌, ◌≢◌, inl, inr, refl, ◌∙◌, arith, Bool, true, false, List, [],
  ◌∷◌, some, length, length-set, get_elem?, get_or, All, Bool-cases,
}
use mini_tool_chain.Isa.Semantics.{same}
use mini_tool_chain.Optimizer.Liveness.{
  Node, any_live, Sweep, set_out, set_in, live_before, updated, visit, sweep, unchanged, Liveness,
  settled, out_of_range, out_of_fuel, liveness_loop, flag_liveness,
}
use mini_tool_chain.Optimizer.Liveness.Solution.{initial_live-length, flag_liveness-ends}

-- Every successor of the block is one of the first `n`.
abbrev pub InRange : ℕ → Node → Type 0
InRange n node = All (λ s. s < n) node.successors

get_elem?-some :
    {A : Type 0} (xs : List A) (i : ℕ) → i < length xs → (x : A) × (get_elem? xs i ≡ some x)
get_elem?-some [] i h = absurd (omega arith)
get_elem?-some (x ∷ xs) zero h = (x, refl)
get_elem?-some (x ∷ xs) (suc i) h = get_elem?-some xs i (omega arith)

any_live-some :
    (live : Bool) (ss : List ℕ) (live_in : List Bool)
    → All (λ s. s < length live_in) ss
    → (out : Bool) × (any_live live ss live_in ≡ some out)
unfolding any_live
any_live-some live [] live_in h = (live, refl)
any_live-some true (s ∷ rest) live_in h = any_live-some true rest live_in h.1
any_live-some false (s ∷ rest) live_in h =
    let (b, found) = get_elem?-some live_in s h.0 in
    let (out, read) = any_live-some b rest live_in h.1 in (out, rw (found, any_live) read)

set_out-live_in :
    (i : ℕ) (out : Bool) (s : Sweep) → length (set_out i out s).live_in ≡ length s.live_in
set_out-live_in i out s = elim (Bool-cases (same out (get_or s.live_out i true))) [
  | inl equal ↦ rw equal refl
  | inr different ↦ rw different refl
]

set_in-live_in :
    (i : ℕ) (live : Bool) (s : Sweep) → length (set_in i live s).live_in ≡ length s.live_in
set_in-live_in i live s = elim (Bool-cases (same live (get_or s.live_in i false))) [
  | inl equal ↦ rw equal refl
  | inr different ↦ rw different (length-set s.live_in i live)
]

module _ (nodes : List Node)
    (ranged : (i : ℕ) (node : Node)
      → get_elem? nodes i ≡ some node
      → InRange (length nodes) node) where
  visit-some :
      (i : ℕ) (s : Sweep)
      → i < length nodes
      → length s.live_in ≡ length nodes
      → (s' : Sweep) × (visit nodes i s ≡ some s') × (length s'.live_in ≡ length nodes)
  unfolding visit updated
  visit-some i s h ins =
      let (node, at) = get_elem?-some nodes i h in
      let (out, read) =
        any_live-some node.unknown node.successors s.live_in (rw ins (ranged i node at)) in
      (
        set_in i (live_before node out) (set_out i out s),
        rw (at, visit, read) refl,
        set_in-live_in i (live_before node out) (set_out i out s) ∙ set_out-live_in i out s ∙ ins,
      )

  sweep-some :
      (k : ℕ) (s : Sweep)
      → k ≤ length nodes
      → length s.live_in ≡ length nodes
      → (s' : Sweep) × (sweep nodes k s ≡ some s') × (length s'.live_in ≡ length nodes)
  unfolding sweep
  sweep-some zero s h ins = (s, refl, ins)
  sweep-some (suc i) s h ins =
      let (s₁, visited, ins₁) = visit-some i s (omega arith) ins in
      let (s', swept, ins') = sweep-some i s₁ (omega arith) ins₁ in
      (s', rw (visited, sweep) swept, ins')

  loop-in_range :
      (fuel : ℕ) (s : Sweep)
      → length s.live_in ≡ length nodes
      → liveness_loop fuel nodes s ≢ out_of_range
  unfolding liveness_loop
  loop-in_range zero s ins h = cc h
  loop-in_range (suc fuel) s ins h =
      let (s', swept, ins') = sweep-some (length nodes) (unchanged s) (omega arith) ins in
      elim (Bool-cases s'.changed) [
        | inl more ↦ loop-in_range fuel s' ins' (rw (swept, more, liveness_loop) at h)
        | inr still ↦ cc (rw (swept, still, liveness_loop) at h)
      ]

Liveness-cases :
    (l : Liveness) → l ≢ out_of_range → l ≢ out_of_fuel → (outs : List Bool) × (l ≡ settled outs)
Liveness-cases (settled outs) a b = (outs, refl)
Liveness-cases out_of_range a b = absurd (a refl)
Liveness-cases out_of_fuel a b = absurd (b refl)

-- Where every successor of every block is the index of a block, the liveness loop settles on a
-- result.
pub flag_liveness-settles :
    (nodes : List Node)
    → ((i : ℕ) (node : Node) → get_elem? nodes i ≡ some node → InRange (length nodes) node)
    → (outs : List Bool) × (flag_liveness nodes ≡ settled outs)
unfolding flag_liveness
flag_liveness-settles nodes ranged =
    Liveness-cases (flag_liveness nodes)
      (loop-in_range nodes ranged (length nodes + 2) _ (initial_live-length nodes))
      (flag_liveness-ends nodes)
