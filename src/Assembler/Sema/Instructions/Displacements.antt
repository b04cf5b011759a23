-- ===== src/Assembler/Sema/Instructions/Displacements.antt =====
-- The displacement of a memory operand is not checked: `checkSignedRange` of src/assembler/sema.cpp
-- passes every operand that is no literal.
use mini_tool_chain.Base.{
  ℕ, ◌≡◌, refl, sym, ap, subst, ◌∙◌, arith, true, false, not, List, [], ◌∷◌, some, some-injective,
  length, ◌==◌, Bool-cases, inl, inr, ok, if◌then◌else◌,
}
use mini_tool_chain.Base.Int.{ℤ}
use mini_tool_chain.Word.{IsI64}
use mini_tool_chain.ByteOrder.{fits_signed}
use mini_tool_chain.Isa.Opcode.{Format, mem, OpcodeInfo, operand_count, find_opcode, find_mnemonic}
use mini_tool_chain.Isa.Opcode.Mnemonics.{find_mnemonic-IsRow}
use mini_tool_chain.Isa.Encoding as Isa
use mini_tool_chain.Isa.Encoding.{encode}
use mini_tool_chain.Isa.Encoding.Canonical.{IsEncodable, Signed48}
use mini_tool_chain.Isa.Encoding.RoundTrip.{encode_iff}
use mini_tool_chain.Ir.{Instruction, SourceLocation}
use mini_tool_chain.Ir.Lower.{operand_fields, fresh, is_store}
use mini_tool_chain.Ast.{
  OperandType, register_operand, immediate_operand, symbol_operand, memory_operand, string_operand,
  Operand, InstructionNode,
}
use mini_tool_chain.Assembler.Sema.Operands.{
  Report, is_register, is_memory, is_immediate, invalid_operand,
}
use mini_tool_chain.Assembler.Sema.Instructions.{
  check_memory, check_operands, check_found, check_instruction,
}

memory-not_literal : (t : OperandType) → is_memory t ≡ true → is_immediate t ≡ false
memory-not_literal register_operand h = cc
memory-not_literal immediate_operand h = cc
memory-not_literal symbol_operand h = cc
memory-not_literal memory_operand h = refl
memory-not_literal string_operand h = cc

check_memory-silent :
    (memory reg : Operand)
    → is_memory memory.type ≡ true
    → is_register reg.type ≡ true
    → check_memory memory reg ≡ []
unfolding check_memory
check_memory-silent memory reg m r = rw (r, m, memory-not_literal memory.type m) refl

-- The operands of a LOAD or a STORE, in their order.
abbrev pub memory_operands : OpcodeInfo → Operand → Operand → List Operand
memory_operands info memory reg =
    if is_store info.opcode then memory ∷ reg ∷ [] else reg ∷ memory ∷ []

module _ (info : OpcodeInfo) (memory reg : Operand) (is_mem : is_memory memory.type ≡ true)
    (is_reg : is_register reg.type ≡ true) where
  operands-silent : check_operands info mem (memory_operands info memory reg) ≡ []
  unfolding check_operands
  operands-silent = elim (Bool-cases (is_store info.opcode)) [
    | inl stores ↦ rw (stores, stores) (check_memory-silent memory reg is_mem is_reg)
    | inr loads ↦ rw (loads, loads) (check_memory-silent memory reg is_mem is_reg)
  ]

  two_operands : length (memory_operands info memory reg) ≡ 2
  two_operands = elim (Bool-cases (is_store info.opcode)) [
    | inl stores ↦ rw stores refl
    | inr loads ↦ rw loads refl
  ]

  found-silent :
      (n : InstructionNode)
      → info.format ≡ mem
      → n.operands ≡ memory_operands info memory reg
      → check_found n (some info) ≡ []
  unfolding check_found operand_count
  found-silent n shape operands =
      ap (λ s. reports n s n.operands) shape
      ∙ ap (reports n mem) operands
      ∙ ap
          (λ k.
            if not (k == 2)
            then (invalid_operand, n.location) ∷ []
            else check_operands info mem (memory_operands info memory reg))
          two_operands
      ∙ operands-silent
    where
      reports : InstructionNode → Format → List Operand → List Report
      reports n s os =
          if not (length os == operand_count s)
          then (invalid_operand, n.location) ∷ []
          else check_operands info s os

  -- The lowered instruction carries the displacement.
  memory_lowered :
      (at : SourceLocation)
      → (i : Instruction) × (operand_fields mem
            (memory_operands info memory reg)
            (fresh info.opcode at)
          ≡ some i)
        × (i.machine.opcode ≡ info.opcode)
        × (i.machine.imm ≡ memory.immediate)
  unfolding operand_fields
  memory_lowered at = elim (Bool-cases (is_store info.opcode)) [
    | inl stores ↦ rw (stores, stores) (_, refl, refl, refl)
    | inr loads ↦ rw (loads, loads) (_, refl, refl, refl)
  ]

Signed48-fits : (v : ℤ) → Signed48 v → fits_signed v 48 ≡ true
unfolding fits_signed
Signed48-fits v h = ground arith

beyond-not_encoded :
    (i : Isa.Instruction) (info : OpcodeInfo)
    → find_opcode i.opcode ≡ some info
    → info.format ≡ mem
    → IsI64 i.imm
    → fits_signed i.imm 48 ≡ false
    → ¬ ((w : ℕ) × (encode i ≡ ok w))
beyond-not_encoded i info row shape long beyond (w, h) =
    let (canonical, word) = (encode_iff i w long).0 h in
    let same : canonical.info ≡ info =
      some-injective canonical.info info (sym canonical.found ∙ row) in
    let fits =
      subst (λ f. IsEncodable f i) (ap (λ (r : OpcodeInfo). r.format) same ∙ shape)
        canonical.encodable in
    cc (Signed48-fits i.imm fits.immediate, beyond)

-- Of an instruction with a memory operand and a register, each where the mnemonic wants it, nothing
-- is reported, however far the displacement lies beyond 48 bits; but what such an instruction is
-- lowered to is not encoded.
pub displacement-unchecked :
    (to_upper : ℕ → ℕ) (n : InstructionNode) (info : OpcodeInfo) (memory reg : Operand)
    → find_mnemonic to_upper n.mnemonic ≡ some info
    → info.format ≡ mem
    → n.operands ≡ memory_operands info memory reg
    → is_memory memory.type ≡ true
    → is_register reg.type ≡ true
    → IsI64 memory.immediate
    → fits_signed memory.immediate 48 ≡ false
    → (check_instruction to_upper n ≡ [])
      × ((i : Instruction) × (operand_fields mem n.operands (fresh info.opcode n.location) ≡ some i)
          × ¬ ((w : ℕ) × (encode i.machine ≡ ok w)))
unfolding check_instruction
displacement-unchecked to_upper n info memory reg found shape operands m r long beyond =
    let (i, lowered, op, imm) = memory_lowered info memory reg m r n.location in
    let row = ap find_opcode op ∙ find_mnemonic-IsRow to_upper n.mnemonic info found in
    (
      ap (check_found n) found ∙ found-silent info memory reg m r n shape operands,
      (
        i,
        ap (λ os. operand_fields mem os (fresh info.opcode n.location)) operands ∙ lowered,
        beyond-not_encoded i.machine info row shape (subst IsI64 (sym imm) long)
            (ap (λ v. fits_signed v 48) imm ∙ beyond),
      ),
    )
