-- ===== src/Isa/Semantics/Branches.antt =====
-- A comparison followed by a conditional jump decides the relation that the jump is named for.
use mini_tool_chain.Base.{ℕ, ◌≡◌, refl, ◌∙◌, true, false, not, ok, arith, ltb, ◌==◌}
use mini_tool_chain.Base.Int.{ℤ, pos, ltb_ℤ, leb_ℤ, ◌-ℤ◌}
use mini_tool_chain.Word.{IsU64, sub64, to_i64}
use mini_tool_chain.Isa.Opcode.{je, jne, jg, jl, jge, jle, cmp}
use mini_tool_chain.Isa.Semantics.{
  zero_flag, sign_flag, overflow_flag, same, has_flag, compute_flags, branch_taken, AluResult,
  evaluate_binary,
}
use mini_tool_chain.Isa.Semantics.Flags.{FlagsAre, leaves_i64, compute_flags-sub64}

-- The flags that `CMP` leaves for `a` and `b`.
abbrev cmp_flags : ℕ → ℕ → ℕ
cmp_flags a b = compute_flags (sub64 a b) a b true

module _ (a b : ℕ) (ha : IsU64 a) (hb : IsU64 b) where
  -- The sign of the wrapped difference, corrected by overflow, is the sign of the true one.
  sign_and_overflow :
      same (ltb_ℤ (to_i64 (sub64 a b)) (pos 0)) (leaves_i64 (to_i64 a -ℤ to_i64 b))
      ≡ leb_ℤ (to_i64 b) (to_i64 a)
  sign_and_overflow = ground arith

  wrapped_zero : (sub64 a b == 0) ≡ (a == b)
  wrapped_zero = ground arith

not_le : (x y : ℤ) → not (leb_ℤ y x) ≡ ltb_ℤ x y
not_le x y = ground arith

-- What the flags of a comparison say to every conditional jump.
flags_taken :
    (a b : ℕ)
    → IsU64 a
    → IsU64 b
    → (branch_taken je (cmp_flags a b) ≡ (a == b))
      × (branch_taken jne (cmp_flags a b) ≡ not (a == b))
      × (branch_taken jl (cmp_flags a b) ≡ ltb_ℤ (to_i64 a) (to_i64 b))
      × (branch_taken jge (cmp_flags a b) ≡ leb_ℤ (to_i64 b) (to_i64 a))
      × (branch_taken jg (cmp_flags a b) ≡ ltb_ℤ (to_i64 b) (to_i64 a))
      × (branch_taken jle (cmp_flags a b) ≡ leb_ℤ (to_i64 a) (to_i64 b))
unfolding branch_taken
flags_taken a b ha hb =
    rw (equal, order) (refl, refl, not_le (to_i64 a) (to_i64 b), refl, ground arith, ground arith)
  where
    after :
        FlagsAre
          (cmp_flags a b)
          (sub64 a b == 0)
          (ltb_ℤ (to_i64 (sub64 a b)) (pos 0))
          (ltb a b)
          (leaves_i64 (to_i64 a -ℤ to_i64 b))
    after = compute_flags-sub64 a b ha hb

    equal : has_flag (cmp_flags a b) zero_flag ≡ (a == b)
    equal = after.is_zero ∙ wrapped_zero a b ha hb

    order :
        same (has_flag (cmp_flags a b) sign_flag) (has_flag (cmp_flags a b) overflow_flag)
        ≡ leb_ℤ (to_i64 b) (to_i64 a)
    order = rw (after.is_sign, after.is_overflow) (sign_and_overflow a b ha hb)

-- The flags of a result tell how two words compare.
pub record Compares (a b : ℕ) (r : AluResult) : Type 0 where
  pub writes_flags : r.writes_flags ≡ true
  pub keeps_value : r.writes_value ≡ false
  pub je_equal : branch_taken je r.flags ≡ (a == b)
  pub jne_unequal : branch_taken jne r.flags ≡ not (a == b)
  pub jl_less : branch_taken jl r.flags ≡ ltb_ℤ (to_i64 a) (to_i64 b)
  pub jge_at_least : branch_taken jge r.flags ≡ leb_ℤ (to_i64 b) (to_i64 a)
  pub jg_greater : branch_taken jg r.flags ≡ ltb_ℤ (to_i64 b) (to_i64 a)
  pub jle_at_most : branch_taken jle r.flags ≡ leb_ℤ (to_i64 a) (to_i64 b)

-- CMP of two u64 succeeds, writes the flags and no value, and with its flags every conditional jump
-- is taken exactly in its case: `JE` and `JNE` on equality, `JL`, `JGE`, `JG` and `JLE` on the
-- order of the two as signed numbers.
pub branch_taken-evaluate_binary :
    (a b : ℕ)
    → IsU64 a
    → IsU64 b
    → (r : AluResult) × (evaluate_binary cmp a b ≡ ok r) × Compares a b r
unfolding evaluate_binary
branch_taken-evaluate_binary a b ha hb =
    let compared : AluResult = record {
      value = a;
      flags = cmp_flags a b;
      writes_value = false;
      writes_flags = true;
    } in
    let (je_taken, jne_taken, jl_taken, jge_taken, jg_taken, jle_taken) = flags_taken a b ha hb in
    (
      compared,
      refl,
      record {
        writes_flags = refl;
        keeps_value = refl;
        je_equal = je_taken;
        jne_unequal = jne_taken;
        jl_less = jl_taken;
        jge_at_least = jge_taken;
        jg_greater = jg_taken;
        jle_at_most = jle_taken;
      },
    )
