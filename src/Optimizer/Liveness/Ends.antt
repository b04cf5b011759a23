-- ===== src/Optimizer/Liveness/Ends.antt =====
-- The loop of `computeFlagLiveness` ends.
use mini_tool_chain.Base.{
  ℕ, zero, suc, ◌+◌, ◌≤◌, ◌<◌, ◌≡◌, ◌≢◌, inl, inr, refl, sym, ap, ◌∙◌, arith, Bool, true, false,
  List, Option, none, some, some-injective, length, get_elem?, get_or, Option-cases, Bool-cases,
}
use mini_tool_chain.Isa.Semantics.{same}
use mini_tool_chain.Optimizer.Liveness.{
  Node, any_live, Sweep, set_out, set_in, live_before, updated, visit, sweep, unchanged,
  out_of_fuel, liveness_loop,
}
use mini_tool_chain.Optimizer.Liveness.Sweeps.{
  any_live-any_or, out_of, count_true, count_true-le, IsSupported, IsSolved,
}
use mini_tool_chain.Optimizer.Liveness.Progress.{Swept, sweep-Swept}

same_both : (a b : Bool) → a ≡ b → same b a ≡ true
same_both true b e = rw (← e) refl
same_both false b e = rw (← e) refl

module _ (nodes : List Node) where
  set_out-fixed :
      (i : ℕ) (out : Bool) (s : Sweep) → get_or s.live_out i true ≡ out → set_out i out s ≡ s
  set_out-fixed i out s e = rw (same_both _ out e) refl

  set_in-fixed :
      (i : ℕ) (live : Bool) (s : Sweep) → get_or s.live_in i false ≡ live → set_in i live s ≡ s
  set_in-fixed i live s e = rw (same_both _ live e) refl

  updated-fixed :
      (i : ℕ) (node : Node) (s s' : Sweep) (read : Option Bool)
      → any_live node.unknown node.successors s.live_in ≡ read
      → get_elem? nodes i ≡ some node
      → IsSolved nodes s.live_out s.live_in i
      → updated node i s read ≡ some s'
      → s' ≡ s
  unfolding updated
  updated-fixed i node s s' none r at solved h = cc h
  updated-fixed i node s s' (some out) r at solved h =
      let read : out ≡ out_of node s.live_in =
        any_live-any_or node.unknown node.successors s.live_in out r in
      let first : set_out i out s ≡ s = set_out-fixed i out s ((solved node at).0 ∙ sym read) in
      sym (some-injective _ s' h)
      ∙ ap (set_in i (live_before node out)) first
      ∙ set_in-fixed i (live_before node out) s
          ((solved node at).1 ∙ sym (ap (live_before node) read))

  sweep-fixed :
      (k : ℕ) (s s' : Sweep)
      → ((j : ℕ) → j < k → IsSolved nodes s.live_out s.live_in j)
      → sweep nodes k s ≡ some s'
      → s' ≡ s
  unfolding sweep visit
  sweep-fixed zero s s' solved h = sym (some-injective s s' h)
  sweep-fixed (suc i) s s' solved h = elim (Option-cases (visit nodes i s)) [
    | inl failed ↦ cc (rw (failed, sweep) at h)
    | inr (s₁, visited) ↦
        let kept : s₁ ≡ s = elim (Option-cases (get_elem? nodes i)) [
          | inl missing ↦ cc (rw (missing, visit) at visited)
          | inr (node, at) ↦
              updated-fixed i node s s₁ (any_live node.unknown node.successors s.live_in) refl at
                (solved i (omega arith)) (rw (at, visit) at visited)
        ] in
        sweep-fixed i s s' (λ j lt. solved j (omega arith))
          (ap (sweep nodes i) (sym kept) ∙ rw (visited, sweep) at h)
  ]

  -- A state that the loop can be in.
  pub record IsReady (s : Sweep) : Type 0 where
    pub supported : IsSupported nodes s.live_in
    pub outs : length s.live_out ≡ length nodes
    pub ins : length s.live_in ≡ length nodes

  -- Where the equations hold, one more round is the last.
  solved-ends :
      (fuel : ℕ) (s : Sweep)
      → ((j : ℕ) → j < length nodes → IsSolved nodes s.live_out s.live_in j)
      → liveness_loop (suc fuel) nodes s ≢ out_of_fuel
  unfolding liveness_loop
  solved-ends fuel s solved h = elim (Option-cases (sweep nodes (length nodes) (unchanged s))) [
    | inl failed ↦ cc (rw (failed, liveness_loop) at h)
    | inr (s', swept) ↦
        let kept : s' ≡ unchanged s = sweep-fixed (length nodes) (unchanged s) s' solved swept in
        cc (rw (swept, ap (λ t. t.changed) kept, liveness_loop) at h)
  ]

  solved_again :
      (fuel : ℕ) (s : Sweep)
      → 1 ≤ fuel
      → ((j : ℕ) → j < length nodes → IsSolved nodes s.live_out s.live_in j)
      → liveness_loop fuel nodes s ≢ out_of_fuel
  solved_again zero s h solved = absurd (omega arith)
  solved_again (suc fuel) s h solved = solved-ends fuel s solved

  next-IsReady :
      (s s' : Sweep)
      → IsReady s
      → sweep nodes (length nodes) (unchanged s) ≡ some s'
      → Swept nodes (length nodes) (unchanged s) s'
  next-IsReady s s' r swept =
      sweep-Swept nodes (length nodes) (unchanged s) s' (rw (r.ins) (omega arith))
        (rw (r.outs) (omega arith)) r.supported swept

  pub loop-ends :
      (fuel : ℕ) (s : Sweep)
      → IsReady s
      → length nodes + 2 ≤ fuel + count_true s.live_in
      → liveness_loop fuel nodes s ≢ out_of_fuel
  unfolding liveness_loop
  loop-ends zero s r enough h = absurd (omega (arith, count_true-le s.live_in, r.ins))
  loop-ends (suc fuel) s r enough h =
      elim (Option-cases (sweep nodes (length nodes) (unchanged s))) [
        | inl failed ↦ cc (rw (failed, liveness_loop) at h)
        | inr (s', swept) ↦
            let w : Swept nodes (length nodes) (unchanged s) s' = next-IsReady s s' r swept in
            let ready : IsReady s' = record {
              supported = w.supported;
              outs = w.outs_length ∙ r.outs;
              ins = w.ins_length ∙ r.ins;
            } in
            elim (Bool-cases s'.changed) [
              | inl more ↦
                  let again : liveness_loop fuel nodes s' ≡ out_of_fuel =
                    rw (swept, more, liveness_loop) at h in
                  elim w.progress [
                    | inl grew ↦ loop-ends fuel s' ready (omega (arith, grew)) again
                    | inr (kept, solved) ↦
                        solved_again fuel s' (omega (arith, count_true-le s.live_in, r.ins)) solved
                          again
                  ]
              | inr still ↦ cc (rw (swept, still, liveness_loop) at h)
            ]
      ]
