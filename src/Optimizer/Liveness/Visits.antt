-- ===== src/Optimizer/Liveness/Visits.antt =====
-- What the visit of one block does to the state.
use mini_tool_chain.Base.{
  ℕ, suc, ◌<◌, ◌≡◌, ◌≢◌, ◌⊎◌, inl, inr, refl, sym, ap, ◌∙◌, Bool, true, false, List, Option, none,
  some, some-injective, length, length-set, get_elem?, get_or, set, get_or-set_self, get_or-set_ne,
  Option-cases, Bool-cases,
}
use mini_tool_chain.Isa.Semantics.{same}
use mini_tool_chain.Optimizer.Liveness.{Node, any_live, Sweep, set_out, set_in, updated, visit}
use mini_tool_chain.Optimizer.Liveness.Sweeps.{
  any_live-any_or, out_of, in_of, count_true, count_true-set, same_node, IsSupported,
  IsSupported-set, IsSolved,
}

-- What a visit of block `i` can have done, where liveness was supported.
pub record Visited (nodes : List Node) (i : ℕ) (node : Node) (s s' : Sweep) : Type 0 where
  -- Either one more block is live, or the same ones are, and the equations hold at `i`.
  pub progress :
      (count_true s'.live_in ≡ suc (count_true s.live_in))
      ⊎ ((s'.live_in ≡ s.live_in) × IsSolved nodes s'.live_out s'.live_in i)
  pub supported : IsSupported nodes s'.live_in
  pub outs_elsewhere : (j : ℕ) → i ≢ j → get_or s'.live_out j true ≡ get_or s.live_out j true
  pub outs_length : length s'.live_out ≡ length s.live_out
  pub ins_length : length s'.live_in ≡ length s.live_in

pub same_iff : (a b : Bool) → same a b ≡ true → a ≡ b
same_iff true b h = sym h
same_iff false true h = cc h
same_iff false false h = refl

same-true : (a b : Bool) → a ≡ true → same a b ≡ false → b ≡ false
same-true a b h e = rw (h, same) at e

same-false : (a b : Bool) → a ≡ false → same a b ≡ false → b ≡ true
same-false true b h e = cc h
same-false false true h e = refl
same-false false false h e = cc e

set_out-live_out :
    (i : ℕ) (out : Bool) (s : Sweep)
    → i < length s.live_out
    → get_or (set_out i out s).live_out i true ≡ out
set_out-live_out i out s h = elim (Bool-cases (same out (get_or s.live_out i true))) [
  | inl equal ↦ rw equal (sym (same_iff out _ equal))
  | inr different ↦ rw different (get_or-set_self s.live_out i out true h)
]

module _ (nodes : List Node) (i : ℕ) (node : Node) (s : Sweep) (at : get_elem? nodes i ≡ some node)
    (ins : i < length s.live_in) (outs : i < length s.live_out)
    (sup : IsSupported nodes s.live_in) where
  after_out : Sweep
  after_out = set_out i (out_of node s.live_in) s

  after_in : Sweep
  unfolding after_out
  after_in = set_in i (in_of node s.live_in) after_out

  -- `set_out` leaves the rest of the state.
  after_out-live_in : after_out.live_in ≡ s.live_in
  unfolding after_out
  after_out-live_in = elim (Bool-cases (same (out_of node s.live_in) (get_or s.live_out i true))) [
    | inl equal ↦ rw equal
    | inr different ↦ rw different
  ]

  after_out-live_out : get_or after_out.live_out i true ≡ out_of node s.live_in
  unfolding after_out
  after_out-live_out = set_out-live_out i (out_of node s.live_in) s outs

  after_out-elsewhere :
      (j : ℕ) → i ≢ j → get_or after_out.live_out j true ≡ get_or s.live_out j true
  unfolding after_out
  after_out-elsewhere j apart =
      elim (Bool-cases (same (out_of node s.live_in) (get_or s.live_out i true))) [
        | inl equal ↦ rw equal
        | inr different ↦ rw different (get_or-set_ne s.live_out i j _ true apart)
      ]

  after_out-length : length after_out.live_out ≡ length s.live_out
  unfolding after_out
  after_out-length = elim (Bool-cases (same (out_of node s.live_in) (get_or s.live_out i true))) [
    | inl equal ↦ rw equal
    | inr different ↦ rw different (length-set s.live_out i _)
  ]

  after_in-live_out : after_in.live_out ≡ after_out.live_out
  unfolding after_in
  after_in-live_out =
      elim (Bool-cases (same (in_of node s.live_in) (get_or after_out.live_in i false))) [
        | inl equal ↦ rw equal
        | inr different ↦ rw different
      ]

  -- Either the value was there, or it is new.
  after_in-live_in :
      ((after_in.live_in ≡ s.live_in) × (get_or s.live_in i false ≡ in_of node s.live_in))
      ⊎ ((after_in.live_in ≡ set s.live_in i true)
          × (get_or s.live_in i false ≡ false)
          × (in_of node s.live_in ≡ true))
  unfolding after_in
  after_in-live_in =
      elim (Bool-cases (same (in_of node s.live_in) (get_or after_out.live_in i false))) [
        | inl equal ↦
            inl (rw equal after_out-live_in, sym (same_iff _ _ (rw after_out-live_in at equal)))
        | inr different ↦ elim (Bool-cases (in_of node s.live_in)) [
          | inl live ↦ inr (
            rw different (
                ap (λ bs. set bs i (in_of node s.live_in)) after_out-live_in
                ∙ ap (set s.live_in i) live),
            same-true _ _ live (rw after_out-live_in at different),
            live,
          )
          | inr dead ↦
              cc (dead, sup i node at (same-false _ _ dead (rw after_out-live_in at different)))
        ]
      ]

  after_in-Visited : Visited nodes i node s after_in
  after_in-Visited = elim after_in-live_in [
    | inl (kept, solved) ↦ record {
      progress = inr (
        kept,
        λ other found.
            rw (same_node nodes i i node other refl at found, kept, after_in-live_out)
              (after_out-live_out, solved),
      );
      supported = rw kept sup;
      outs_elsewhere = λ j apart. rw after_in-live_out (after_out-elsewhere j apart);
      outs_length = rw after_in-live_out after_out-length;
      ins_length = ap length kept;
    }
    | inr (added, low, live) ↦ record {
      progress = inl (rw added (count_true-set s.live_in i ins low));
      supported = rw added (IsSupported-set nodes s.live_in i node ins at live sup);
      outs_elsewhere = λ j apart. rw after_in-live_out (after_out-elsewhere j apart);
      outs_length = rw after_in-live_out after_out-length;
      ins_length = rw added (length-set s.live_in i true);
    }
  ]

-- The visit of a block, once its successors were read.
updated-Visited :
    (nodes : List Node) (i : ℕ) (node : Node) (s s' : Sweep) (read : Option Bool)
    → get_elem? nodes i ≡ some node
    → i < length s.live_in
    → i < length s.live_out
    → IsSupported nodes s.live_in
    → any_live node.unknown node.successors s.live_in ≡ read
    → updated node i s read ≡ some s'
    → Visited nodes i node s s'
unfolding updated after_in after_out
updated-Visited nodes i node s s' none at ins outs sup r h = cc h
updated-Visited nodes i node s s' (some out) at ins outs sup r h =
    rw (← some-injective _ s' h, any_live-any_or node.unknown node.successors s.live_in out r)
      (after_in-Visited nodes i node s at ins outs sup)

pub visit-Visited :
    (nodes : List Node) (i : ℕ) (s s' : Sweep)
    → i < length s.live_in
    → i < length s.live_out
    → IsSupported nodes s.live_in
    → visit nodes i s ≡ some s'
    → (node : Node) × Visited nodes i node s s'
unfolding visit
visit-Visited nodes i s s' ins outs sup h = elim (Option-cases (get_elem? nodes i)) [
  | inl missing ↦ cc (rw (missing, visit) at h)
  | inr (node, at) ↦ (
    node,
    updated-Visited nodes i node s s' (any_live node.unknown node.successors s.live_in) at ins outs
        sup refl (rw (at, visit) at h),
  )
]
