-- ===== src/Isa/Encoding/Words.antt =====
-- Every word that is decoded is the encoding of what was decoded.
use mini_tool_chain.Base.{
  ℕ, ◌/◌, ◌%◌, ◌^◌, ◌<◌, ◌≡◌, refl, sym, ap, ◌∙◌, arith, ok, some, inl, inr, Option-cases,
}
use mini_tool_chain.Word.{IsU64, IsI64, to_u64}
use mini_tool_chain.ByteOrder.{sign_extend}
use mini_tool_chain.ByteOrder.Sign.{signed_field, sign_extend-eq-signed_field}
use mini_tool_chain.Isa.Opcode.{
  Opcode, opcode_value, opcode_cast, Format, no_operand, reg1, reg2, reg_imm, mem, jump, sys_imm,
  OpcodeInfo, find_opcode,
}
use mini_tool_chain.Isa.Opcode.Table.{value-opcode_cast}
use mini_tool_chain.Isa.Encoding.{Instruction, fields_of, encode, immediate_of, decode}
use mini_tool_chain.Isa.Encoding.Canonical.{RegistersFit, ImmediateFits, Signed48, instruction_word}
use mini_tool_chain.Isa.Encoding.Decoding.{decode_parts, registers_below, immediate-IsI64}
use mini_tool_chain.Isa.Encoding.RoundTrip.{
  decode-unlisted, decode-found, IsCanonical, IsCanonical-encode,
}
use mini_tool_chain.Isa.Encoding.Fields.{word_of}

-- What a decoded instruction says of the fields that it came from.
immediate_of-fits_field :
    (m : ℕ) → m < 2 ^ 48 → Signed48 (sign_extend m 48) × (to_u64 (sign_extend m 48) % 2 ^ 48 ≡ m)
unfolding signed_field
immediate_of-fits_field m h =
    rw (sign_extend-eq-signed_field 47 m (omega arith)) (ground arith, ground arith)

pub record DecodedFrom (shape : Format) (op : Opcode) (d s m : ℕ) (i : Instruction) : Type 0 where
  pub opcode_eq : op ≡ i.opcode
  pub dst_eq : d ≡ i.dst
  pub src_eq : s ≡ i.src
  pub imm_eq : m ≡ to_u64 i.imm % 2 ^ 48
  pub registers : RegistersFit shape d s
  pub immediate : ImmediateFits shape i.imm

decode_parts-DecodedFrom :
    (shape : Format) (op : Opcode) (d s m : ℕ) (i : Instruction)
    → d < 16
    → s < 16
    → m < 2 ^ 48
    → decode_parts (fields_of shape) op d s m ≡ ok i
    → DecodedFrom shape op d s m i
unfolding fields_of immediate_of
decode_parts-DecodedFrom no_operand op d s m i hd hs hm h =
    ground (arith, immediate_of-fits_field m)
decode_parts-DecodedFrom reg1 op d s m i hd hs hm h = ground (arith, immediate_of-fits_field m)
decode_parts-DecodedFrom reg2 op d s m i hd hs hm h = ground (arith, immediate_of-fits_field m)
decode_parts-DecodedFrom reg_imm op d s m i hd hs hm h = ground (arith, immediate_of-fits_field m)
decode_parts-DecodedFrom mem op d s m i hd hs hm h = ground (arith, immediate_of-fits_field m)
decode_parts-DecodedFrom jump op d s m i hd hs hm h = ground (arith, immediate_of-fits_field m)
decode_parts-DecodedFrom sys_imm op d s m i hd hs hm h = ground (arith, immediate_of-fits_field m)

word_of_fields :
    (w : ℕ)
    → w < 2 ^ 64
    → word_of (w / 2 ^ 56 % 256) (w / 2 ^ 52 % 16) (w / 2 ^ 48 % 16) (w % 2 ^ 48) ≡ w
word_of_fields w h = omega arith

DecodedFrom-IsCanonical :
    (info : OpcodeInfo) (op : Opcode) (d s m : ℕ) (i : Instruction)
    → find_opcode op ≡ some info
    → DecodedFrom info.format op d s m i
    → IsCanonical i
DecodedFrom-IsCanonical info op d s m i found from = record {
  info = info;
  found = rw (from.opcode_eq) at found;
  encodable = record {
    registers = rw (from.dst_eq, from.src_eq) at (from.registers);
    immediate = from.immediate;
  };
}

DecodedFrom-instruction_word :
    (shape : Format) (op : Opcode) (d s m : ℕ) (i : Instruction)
    → DecodedFrom shape op d s m i
    → instruction_word i ≡ word_of (opcode_value op) d s m
DecodedFrom-instruction_word shape op d s m i from =
    rw (from.opcode_eq, from.dst_eq, from.src_eq, from.imm_eq)

-- What a decoded instruction is: allowed by its format, and the reading of its word.
pub decode-DecodedFrom :
    (w : ℕ) (i : Instruction) → IsU64 w → decode w ≡ ok i → IsCanonical i × (instruction_word i ≡ w)
decode-DecodedFrom w i small h = elim (Option-cases (find_opcode op)) [
  | inl missing ↦ cc (decode-unlisted w op refl missing)
  | inr (info, found) ↦
      let from : DecodedFrom info.format op (w / 2 ^ 52 % 16) (w / 2 ^ 48 % 16) (w % 2 ^ 48) i =
        decode_parts-DecodedFrom info.format op _ _ _ i (omega arith) (omega arith) (omega arith)
          (sym (decode-found w op refl info found) ∙ h) in
      (
        DecodedFrom-IsCanonical info op _ _ _ i found from,
        DecodedFrom-instruction_word info.format op _ _ _ i from
            ∙ rw (value-opcode_cast (w / 2 ^ 56 % 256) (omega arith)) (word_of_fields w small),
      )
]
  where
    op : Opcode
    op = opcode_cast (w / 2 ^ 56 % 256)

-- Whatever a 64-bit word is decoded to, is encoded to the same word.
pub encode-decode : (w : ℕ) (i : Instruction) → IsU64 w → decode w ≡ ok i → encode i ≡ ok w
encode-decode w i small h =
    let both : IsCanonical i × (instruction_word i ≡ w) = decode-DecodedFrom w i small h in
    IsCanonical-encode i both.0 ∙ ap ok both.1

-- The operands of an instruction decoded from a 64-bit word are in range: registers below 16, the
-- immediate an i64.
pub decode-in_range :
    (w : ℕ) (i : Instruction)
    → IsU64 w
    → decode w ≡ ok i
    → (i.dst < 16) × (i.src < 16) × IsI64 i.imm
decode-in_range w i small h =
    let c : IsCanonical i = (decode-DecodedFrom w i small h).0 in
    let regs : (i.dst < 16) × (i.src < 16) =
      registers_below c.info.format i.dst i.src c.encodable.registers in
    (regs.0, regs.1, immediate-IsI64 c.info.format i.imm c.encodable.immediate)
