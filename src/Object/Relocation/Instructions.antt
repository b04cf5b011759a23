-- ===== src/Object/Relocation/Instructions.antt =====
-- Relocations of instruction fields, and of 64-bit words.
use native.Mathlib.Nat.{mod-eq_of_lt}
use mini_tool_chain.Base.{ℕ, ◌+◌, ◌≤◌, ◌≡◌, ap, ◌∙◌, arith, List, ok, length}
use mini_tool_chain.Base.Int.{ℤ}
use mini_tool_chain.Word.{IsU64, IsI64, add64, to_u64, to_i64, to_i64-IsI64, to_u64-to_i64}
use mini_tool_chain.ByteOrder.Words.{IsBytes, load-store}
use mini_tool_chain.Isa.Encoding.{
  Instruction, decode, decode_from, branch_target, branch_displacement,
}
use mini_tool_chain.Isa.Encoding.RoundTrip.{decode-encode, encode-IsU64}
use mini_tool_chain.Object.Relocation.{
  imm48, pcrel48, Relocation, target_of, relocated_value, apply_value, apply_relocation,
  relocation_width,
}
use mini_tool_chain.Object.Relocation.Laws.{IsPatched, patch_instruction-ok, apply_relocation-ok}

-- The displacement computed for a branch at any address to a 64-bit target leads to that target.
pub branch_target-branch_displacement :
    (address target : ℕ)
    → IsU64 target
    → branch_target address (branch_displacement address target) ≡ target
unfolding branch_target branch_displacement
branch_target-branch_displacement address target h = ground arith

-- A patched instruction is decoded with the value in its immediate.
decode_from-IsPatched :
    (bytes after : List ℕ) (offset : ℕ) (value : ℤ) (i : Instruction)
    → IsBytes bytes
    → offset + 8 ≤ length bytes
    → IsI64 value
    → IsPatched bytes offset value after i
    → decode_from after offset 8 ≡ ok (record i { imm = value })
unfolding decode_from
decode_from-IsPatched bytes after offset value i b fits range p = rw (p.written) (
    ap decode (
      load-store 8 bytes offset p.word (omega arith) fits b
      ∙ mod-eq_of_lt (encode-IsU64 (record i { imm = value }) p.word range p.encoded))
    ∙ decode-encode (record i { imm = value }) p.word range p.encoded)

-- Instruction relocations, by what the instruction is afterwards.
module _ (bytes after : List ℕ) (base : ℕ) (r : Relocation) (symbol_address : ℕ)
    (b : IsBytes bytes) where
  -- In a section of bytes, a branch relocation (PCREL48) that succeeds leaves a branch to the
  -- symbol's address plus the addend, and the rest of the instruction as it was.
  pub apply_relocation-pcrel48 :
      apply_relocation bytes base (record r { kind = pcrel48 }) symbol_address ≡ ok after
      → (i : Instruction) × (displacement : ℤ) × (decode_from bytes r.offset 8 ≡ ok i)
        × (decode_from after r.offset 8 ≡ ok (record i { imm = displacement }))
        × (branch_target (add64 base r.offset) displacement ≡ target_of symbol_address r.addend)
  unfolding apply_value relocated_value relocation_width branch_displacement
  apply_relocation-pcrel48 h =
      let parts =
        apply_relocation-ok bytes after base (record r { kind = pcrel48 }) symbol_address h in
      let patch = patch_instruction-ok bytes after r.offset displacement parts.1 in
      (
        patch.0,
        displacement,
        patch.1.decoded,
        decode_from-IsPatched bytes after r.offset displacement patch.0 b parts.0
            (to_i64-IsI64 _ (omega arith)) patch.1,
        branch_target-branch_displacement (add64 base r.offset) (target_of symbol_address r.addend)
            (omega arith),
      )
    where
      displacement : ℤ
      displacement = branch_displacement (add64 base r.offset) (target_of symbol_address r.addend)

  -- In a section of bytes, an absolute relocation of an immediate (IMM48) that succeeds leaves the
  -- symbol's address plus the addend in the immediate, as a 64-bit number, and the rest of the
  -- instruction as it was.
  pub apply_relocation-imm48 :
      apply_relocation bytes base (record r { kind = imm48 }) symbol_address ≡ ok after
      → (i : Instruction) × (value : ℤ) × (decode_from bytes r.offset 8 ≡ ok i)
        × (decode_from after r.offset 8 ≡ ok (record i { imm = value }))
        × (to_u64 value ≡ target_of symbol_address r.addend)
  unfolding apply_value relocated_value relocation_width
  apply_relocation-imm48 h =
      let parts =
        apply_relocation-ok bytes after base (record r { kind = imm48 }) symbol_address h in
      let patch = patch_instruction-ok bytes after r.offset value parts.1 in
      (
        patch.0,
        value,
        patch.1.decoded,
        decode_from-IsPatched bytes after r.offset value patch.0 b parts.0
            (to_i64-IsI64 (target_of symbol_address r.addend) (omega arith)) patch.1,
        to_u64-to_i64 (target_of symbol_address r.addend) (omega arith),
      )
    where
      value : ℤ
      value = to_i64 (target_of symbol_address r.addend)
