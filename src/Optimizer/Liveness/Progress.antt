-- ===== src/Optimizer/Liveness/Progress.antt =====
-- A sweep makes another block live, or leaves the equations solved.
use mini_tool_chain.Base.{
  ℕ, zero, suc, ◌≤◌, ◌<◌, ◌≡◌, ◌⊎◌, inl, inr, refl, sym, ◌∙◌, subst, arith, true, List, some,
  some-injective, length, get_or, Option-cases,
}
use mini_tool_chain.Optimizer.Liveness.{Node, Sweep, visit, sweep}
use mini_tool_chain.Optimizer.Liveness.Sweeps.{count_true, IsSupported, IsSolved}
use mini_tool_chain.Optimizer.Liveness.Visits.{Visited, visit-Visited}

-- What a sweep over the first `k` blocks can have done.
pub record Swept (nodes : List Node) (k : ℕ) (s s' : Sweep) : Type 0 where
  pub progress :
      (count_true s.live_in < count_true s'.live_in)
      ⊎ ((s'.live_in ≡ s.live_in) × ((j : ℕ) → j < k → IsSolved nodes s'.live_out s'.live_in j))
  pub supported : IsSupported nodes s'.live_in
  pub outs_behind : (j : ℕ) → k ≤ j → get_or s'.live_out j true ≡ get_or s.live_out j true
  pub outs_length : length s'.live_out ≡ length s.live_out
  pub ins_length : length s'.live_in ≡ length s.live_in

module _ (nodes : List Node) where
  pub IsSolved-below :
      (i : ℕ) (s₁ s' : Sweep)
      → s'.live_in ≡ s₁.live_in
      → get_or s'.live_out i true ≡ get_or s₁.live_out i true
      → IsSolved nodes s₁.live_out s₁.live_in i
      → ((j : ℕ) → j < i → IsSolved nodes s'.live_out s'.live_in j)
      → (j : ℕ) → j < suc i
      → IsSolved nodes s'.live_out s'.live_in j
  IsSolved-below i s₁ s' kept behind solved solved' j h = elim case [
    | inl e ↦ subst (IsSolved nodes s'.live_out s'.live_in) (sym e) at_i
    | inr below ↦ solved' j below
  ]
    where
      case : (j ≡ i) ⊎ (j < i)
      case = omega arith

      at_i : IsSolved nodes s'.live_out s'.live_in i
      at_i node found = rw (kept, behind) (solved node found)

  -- The visit of block `i`, then the sweep over those before it.
  joined :
      (i : ℕ) (node : Node) (s s₁ s' : Sweep)
      → Visited nodes i node s s₁
      → Swept nodes i s₁ s'
      → Swept nodes (suc i) s s'
  joined i node s s₁ s' v w = record {
    progress = elim v.progress [
      | inl more ↦ inl (elim w.progress [
        | inl more' ↦ omega (arith, more, more')
        | inr (kept, solved) ↦ rw kept (omega (arith, more))
      ])
      | inr (kept, solved) ↦ elim w.progress [
        | inl more' ↦ inl (rw kept at more')
        | inr (kept', solved') ↦ inr (
          kept' ∙ kept,
          IsSolved-below i s₁ s' kept' (w.outs_behind i (omega arith)) solved solved',
        )
      ]
    ];
    supported = w.supported;
    outs_behind =
        λ j h. w.outs_behind j (omega arith) ∙ v.outs_elsewhere j (λ e. absurd (omega arith));
    outs_length = w.outs_length ∙ v.outs_length;
    ins_length = w.ins_length ∙ v.ins_length;
  }

  pub sweep-Swept :
      (k : ℕ) (s s' : Sweep)
      → k ≤ length s.live_in
      → k ≤ length s.live_out
      → IsSupported nodes s.live_in
      → sweep nodes k s ≡ some s'
      → Swept nodes k s s'
  unfolding sweep
  sweep-Swept zero s s' ins outs sup h =
      subst (Swept nodes zero s) (some-injective s s' h) (record {
        progress = inr (refl, λ j lt. absurd (omega arith));
        supported = sup;
        outs_behind = λ j le. refl;
        outs_length = refl;
        ins_length = refl;
      })
  sweep-Swept (suc i) s s' ins outs sup h = elim (Option-cases (visit nodes i s)) [
    | inl failed ↦ cc (rw (failed, sweep) at h)
    | inr (s₁, visited) ↦
        let (node, v) = visit-Visited nodes i s s₁ (omega arith) (omega arith) sup visited in
        joined i node s s₁ s' v (
          sweep-Swept i s₁ s' (rw (v.ins_length) (omega arith)) (rw (v.outs_length) (omega arith))
            v.supported (rw (visited, sweep) at h))
  ]
