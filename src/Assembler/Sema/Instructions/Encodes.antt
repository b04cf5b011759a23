-- ===== src/Assembler/Sema/Instructions/Encodes.antt =====
-- An instruction that `checkInstruction` of src/assembler/sema.cpp has nothing to say of is lowered
-- to one that src/isa/encoding.cpp encodes.
use mini_tool_chain.Base.{
  ℕ, ◌<◌, ◌≡◌, ◌⊎◌, refl, sym, ap, ◌∙◌, arith, Bool, true, false, not, ◌||◌, List, [], ◌∷◌, some,
  length, ◌==◌, ==_iff, All, Bool-cases, inl, inr, ok, if◌then◌else◌,
}
use mini_tool_chain.Base.Int.{ℤ, pos, ltb_ℤ}
use mini_tool_chain.Word.{to_u64, IsI64}
use mini_tool_chain.ByteOrder.{fits_signed, fits_unsigned}
use mini_tool_chain.Isa.Opcode.{
  Opcode, Format, no_operand, reg1, reg2, reg_imm, mem, jump, sys_imm, OpcodeInfo, operand_count,
  find_opcode, find_mnemonic,
}
use mini_tool_chain.Isa.Opcode.Mnemonics.{find_mnemonic-IsRow}
use mini_tool_chain.Isa.Encoding.{encode}
use mini_tool_chain.Isa.Encoding.Canonical.{IsEncodable, instruction_word, Signed48}
use mini_tool_chain.Isa.Encoding.RoundTrip.{IsCanonical-encode}
use mini_tool_chain.Ir.{SourceLocation, Instruction}
use mini_tool_chain.Ir.Lower.{operand_fields, fresh, is_store, is_symbol, set_value}
use mini_tool_chain.Ast.{Operand, InstructionNode}
use mini_tool_chain.Assembler.Sema.Operands.{is_memory}
use mini_tool_chain.Assembler.Sema.Instructions.{
  check_memory, check_branch, check_service, check_value, check_operands, check_found,
  check_instruction,
}

-- The fields of an operand in their ranges: a register number and a 64-bit literal.
abbrev pub IsRanged : Operand → Type 0
IsRanged o = (o.reg < 16) × IsI64 o.immediate

unfoldable pub displacement_fits : Operand → Bool
displacement_fits o = not (is_memory o.type) || fits_signed o.immediate 48

abbrev pub HasShortDisplacement : Operand → Type 0
HasShortDisplacement o = displacement_fits o ≡ true

-- The lowered instruction keeps the opcode and fits its format.
abbrev Fits : Format → List Operand → Opcode → SourceLocation → Type 0
Fits shape os op at =
    (i : Instruction) × (operand_fields shape os (fresh op at) ≡ some i)
    × (i.machine.opcode ≡ op)
    × IsEncodable shape i.machine

signed-Signed48 : (v : ℤ) → fits_signed v 48 ≡ true → Signed48 v
unfolding fits_signed
signed-Signed48 v h = ground arith

-- A literal in range or a symbol.
value_checked :
    (a b : Operand)
    → check_value a b ≡ []
    → (is_symbol b.type ≡ true) ⊎ (fits_signed b.immediate 48 ≡ true)
unfolding check_value
value_checked a b h = ground arith

memory_checked :
    (memory reg : Operand) → check_memory memory reg ≡ [] → is_memory memory.type ≡ true
unfolding check_memory
memory_checked memory reg h = ground arith

branch_checked :
    (a : Operand)
    → check_branch a ≡ []
    → (is_symbol a.type ≡ true) ⊎ (fits_signed a.immediate 48 ≡ true)
unfolding check_branch
branch_checked a h = ground arith

service_checked :
    (a : Operand)
    → check_service a ≡ []
    → (ltb_ℤ a.immediate (pos 0) ≡ false) × (fits_unsigned (to_u64 a.immediate) 48 ≡ true)
unfolding check_service
service_checked a h = ground arith

-- The instruction with a checked value: the literal, or 0 for a symbol.
set_value-fields :
    (i : Instruction) (o : Operand)
    → (is_symbol o.type ≡ true) ⊎ (fits_signed o.immediate 48 ≡ true)
    → ((set_value i o).machine.opcode ≡ i.machine.opcode)
      × ((set_value i o).machine.dst ≡ i.machine.dst)
      × ((set_value i o).machine.src ≡ i.machine.src)
      × Signed48 (set_value i o).machine.imm
unfolding set_value
set_value-fields i o h = elim (Bool-cases (is_symbol o.type)) [
  | inl symbolic ↦ rw symbolic (refl, refl, refl, omega arith)
  | inr literal ↦ rw literal (refl, refl, refl, signed-Signed48 o.immediate (fits h literal))
]
  where
    fits :
        (is_symbol o.type ≡ true) ⊎ (fits_signed o.immediate 48 ≡ true)
        → is_symbol o.type ≡ false
        → fits_signed o.immediate 48 ≡ true
    fits (inl e) n = cc
    fits (inr e) n = e

short-Signed48 :
    (o : Operand) → HasShortDisplacement o → is_memory o.type ≡ true → Signed48 o.immediate
unfolding displacement_fits
short-Signed48 o h m =
    signed-Signed48 o.immediate (ap (λ b. not b || fits_signed o.immediate 48) (sym m) ∙ h)

-- The right number of operands, and nothing reported of them.
found_checked :
    (n : InstructionNode) (info : OpcodeInfo)
    → check_found n (some info) ≡ []
    → (length n.operands ≡ operand_count info.format)
      × (check_operands info info.format n.operands ≡ [])
unfolding check_found
found_checked n info h = elim (Bool-cases (length n.operands == operand_count info.format)) [
  | inl same ↦ ((==_iff _ _).0 same, rw same at h)
  | inr other ↦ cc (rw other at h)
]

module _ (info : OpcodeInfo) (at : SourceLocation) where
  reg_imm-Fits :
      (a b : Operand) → IsRanged a → check_value a b ≡ [] → Fits reg_imm (a ∷ b ∷ []) info.opcode at
  unfolding operand_fields
  reg_imm-Fits a b reg h =
      let (op, dst, src, imm) = set_value-fields (i a) b (value_checked a b h) in
      (set_value (i a) b, refl, op, record { registers = (rw dst reg.0, src); immediate = imm })
    where
      i : Operand → Instruction
      i a =
          let start = fresh info.opcode at in
          record start { machine = record start.machine { dst = a.reg } }

  jump-Fits : (a : Operand) → check_branch a ≡ [] → Fits jump (a ∷ []) info.opcode at
  unfolding operand_fields
  jump-Fits a h =
      let start = fresh info.opcode at in
      let (op, dst, src, imm) = set_value-fields start a (branch_checked a h) in
      (set_value start a, refl, op, record { registers = (dst, src); immediate = imm })

  sys_imm-Fits :
      (a : Operand)
      → IsI64 a.immediate
      → check_service a ≡ []
      → Fits sys_imm (a ∷ []) info.opcode at
  unfolding operand_fields fits_unsigned
  sys_imm-Fits a long h =
      let (positive, below) = service_checked a h in
      (_, refl, refl, record { registers = (refl, refl); immediate = ground arith })

  mem-Fits :
      (a b : Operand)
      → IsRanged a
      → IsRanged b
      → HasShortDisplacement a
      → HasShortDisplacement b
      → (if is_store info.opcode then check_memory a b else check_memory b a) ≡ []
      → Fits mem (a ∷ b ∷ []) info.opcode at
  unfolding operand_fields
  mem-Fits a b rega regb shorta shortb h = elim (Bool-cases (is_store info.opcode)) [
    | inl stores ↦
        let m = memory_checked a b (rw stores at h) in
        rw stores (
          _,
          refl,
          refl,
          record { registers = (rega.0, regb.0); immediate = short-Signed48 a shorta m },
        )
    | inr loads ↦
        let m = memory_checked b a (rw loads at h) in
        rw loads (
          _,
          refl,
          refl,
          record { registers = (rega.0, regb.0); immediate = short-Signed48 b shortb m },
        )
  ]

  operands-Fits :
      (shape : Format) (os : List Operand)
      → All IsRanged os
      → All HasShortDisplacement os
      → length os ≡ operand_count shape
      → check_operands info shape os ≡ []
      → Fits shape os info.opcode at
  unfolding check_operands operand_fields operand_count
  operands-Fits no_operand os regs short count h =
      (fresh info.opcode at, refl, refl, record { registers = (refl, refl); immediate = refl })
  operands-Fits reg1 (a ∷ []) regs short count h =
      (_, refl, refl, record { registers = (regs.0.0, refl); immediate = refl })
  operands-Fits reg2 (a ∷ b ∷ []) regs short count h =
      (_, refl, refl, record { registers = (regs.0.0, regs.1.0.0); immediate = refl })
  operands-Fits reg_imm (a ∷ b ∷ []) regs short count h = reg_imm-Fits a b regs.0 h
  operands-Fits mem (a ∷ b ∷ []) regs short count h =
      mem-Fits a b regs.0 regs.1.0 short.0 short.1.0 h
  operands-Fits jump (a ∷ []) regs short count h = jump-Fits a h
  operands-Fits sys_imm (a ∷ []) regs short count h = sys_imm-Fits a regs.0.1 h
  operands-Fits reg1 [] regs short count h = absurd (omega arith)
  operands-Fits _ os regs short count h = absurd (omega arith)

-- An instruction with a listed mnemonic of which nothing is reported, whose operands have register
-- numbers below 16 and 64-bit literals and whose memory operands have displacements of 48 bits, is
-- lowered to an instruction that is encoded.
pub checked_instruction-encodes :
    (to_upper : ℕ → ℕ) (n : InstructionNode) (info : OpcodeInfo)
    → All IsRanged n.operands
    → All HasShortDisplacement n.operands
    → find_mnemonic to_upper n.mnemonic ≡ some info
    → check_instruction to_upper n ≡ []
    → (i : Instruction) × (w : ℕ) × (operand_fields info.format n.operands
          (fresh info.opcode n.location)
        ≡ some i)
      × (encode i.machine ≡ ok w)
unfolding check_instruction
checked_instruction-encodes to_upper n info regs short found h =
    let (count, silent) = found_checked n info (ap (check_found n) (sym found) ∙ h) in
    let (i, lowered, op, fits) =
      operands-Fits info n.location info.format n.operands regs short count silent in
    let row = ap find_opcode op ∙ find_mnemonic-IsRow to_upper n.mnemonic info found in
    (
      i,
      instruction_word i.machine,
      lowered,
      IsCanonical-encode i.machine (record { info = info; found = row; encodable = fits }),
    )
