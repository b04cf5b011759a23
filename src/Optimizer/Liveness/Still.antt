-- ===== src/Optimizer/Liveness/Still.antt =====
-- A sweep that changes nothing found the equations solved.
use mini_tool_chain.Base.{
  ℕ, zero, suc, ◌<◌, ◌≡◌, inl, inr, refl, sym, ap, ◌∙◌, subst, arith, Bool, true, false, List,
  Option, none, some, some-injective, get_elem?, get_or, Option-cases, Bool-cases,
}
use mini_tool_chain.Isa.Semantics.{same}
use mini_tool_chain.Optimizer.Liveness.{
  Node, any_live, Sweep, set_out, set_in, live_before, updated, visit, sweep,
}
use mini_tool_chain.Optimizer.Liveness.Sweeps.{any_live-any_or, out_of, in_of, same_node, IsSolved}
use mini_tool_chain.Optimizer.Liveness.Visits.{same_iff}
use mini_tool_chain.Optimizer.Liveness.Progress.{IsSolved-below}

module _ (nodes : List Node) where
  -- A visit that changes nothing found the equations to hold, and the other way round.
  module _ (i : ℕ) (s : Sweep) where
    set_out-still :
        (out : Bool)
        → (set_out i out s).changed ≡ false
        → (set_out i out s ≡ s) × (get_or s.live_out i true ≡ out)
    set_out-still out h = elim (Bool-cases (same out (get_or s.live_out i true))) [
      | inl equal ↦ (rw equal refl, sym (same_iff out _ equal))
      | inr different ↦ cc (rw different at h)
    ]

    set_in-still :
        (live : Bool)
        → (set_in i live s).changed ≡ false
        → (set_in i live s ≡ s) × (get_or s.live_in i false ≡ live)
    set_in-still live h = elim (Bool-cases (same live (get_or s.live_in i false))) [
      | inl equal ↦ (rw equal refl, sym (same_iff live _ equal))
      | inr different ↦ cc (rw different at h)
    ]

  updated-still :
      (i : ℕ) (node : Node) (s s' : Sweep) (read : Option Bool)
      → any_live node.unknown node.successors s.live_in ≡ read
      → updated node i s read ≡ some s'
      → s'.changed ≡ false
      → (s' ≡ s)
        × (get_or s.live_out i true ≡ out_of node s.live_in)
        × (get_or s.live_in i false ≡ in_of node s.live_in)
  unfolding updated
  updated-still i node s s' none r h still = cc h
  updated-still i node s s' (some out) r h still =
      let final : set_in i (live_before node out) (set_out i out s) ≡ s' = some-injective _ s' h in
      let inner =
        set_in-still i (set_out i out s) (live_before node out)
          (ap (λ t. t.changed) final ∙ still) in
      let outer =
        set_out-still i s out
          (sym (ap (λ t. t.changed) inner.0) ∙ ap (λ t. t.changed) final ∙ still) in
      let read : out ≡ out_of node s.live_in =
        any_live-any_or node.unknown node.successors s.live_in out r in
      (
        sym final ∙ inner.0 ∙ outer.0,
        outer.1 ∙ read,
        sym (ap (λ t. get_or t.live_in i false) outer.0) ∙ inner.1 ∙ ap (live_before node) read,
      )

  visit-still :
      (i : ℕ) (s s' : Sweep)
      → visit nodes i s ≡ some s'
      → s'.changed ≡ false
      → (s' ≡ s) × IsSolved nodes s.live_out s.live_in i
  unfolding visit
  visit-still i s s' h still = elim (Option-cases (get_elem? nodes i)) [
    | inl missing ↦ cc (rw (missing, visit) at h)
    | inr (node, at) ↦
        let done =
          updated-still i node s s' (any_live node.unknown node.successors s.live_in) refl
            (rw (at, visit) at h) still in
        (done.0, λ other found. rw (same_node nodes i i node other refl at found) (done.1, done.2))
  ]

  pub sweep-still :
      (k : ℕ) (s s' : Sweep)
      → sweep nodes k s ≡ some s'
      → s'.changed ≡ false
      → (s' ≡ s) × ((j : ℕ) → j < k → IsSolved nodes s.live_out s.live_in j)
  unfolding sweep
  sweep-still zero s s' h still = (sym (some-injective s s' h), λ j lt. absurd (omega arith))
  sweep-still (suc i) s s' h still = elim (Option-cases (visit nodes i s)) [
    | inl failed ↦ cc (rw (failed, sweep) at h)
    | inr (s₁, visited) ↦
        let rest = sweep-still i s₁ s' (rw (visited, sweep) at h) still in
        let here = visit-still i s s₁ visited (sym (ap (λ t. t.changed) rest.0) ∙ still) in
        (
          rest.0 ∙ here.0,
          IsSolved-below nodes i s s refl refl here.1
              (λ j lt. subst (λ t. IsSolved nodes t.live_out t.live_in j) here.0 (rest.1 j lt)),
        )
  ]
