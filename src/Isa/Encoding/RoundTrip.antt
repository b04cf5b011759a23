-- ===== src/Isa/Encoding/RoundTrip.antt =====
-- `encode` and `decode` are inverse to each other on what the formats allow.
use mini_tool_chain.Base.{
  ℕ, ◌/◌, ◌%◌, ◌^◌, ◌<◌, ◌≡◌, sym, ap, ◌↔◌, err, ◌∙◌, arith, ok, some, none, inl, inr, Option-cases,
}
use mini_tool_chain.Word.{IsU64, IsI64, to_u64}
use mini_tool_chain.Isa.Opcode.{Opcode, opcode_value, opcode_cast, OpcodeInfo, find_opcode}
use mini_tool_chain.Isa.Opcode.Table.{IsListed, find_opcode-IsListed}
use mini_tool_chain.Isa.Encoding.{
  Instruction, EncodeError, DecodeError, fields_of, encode_fields, encode, decode, decode_as,
}
use mini_tool_chain.Isa.Encoding.Canonical.{
  IsEncodable, instruction_word, encode_fields-ok, encode_fields-IsEncodable,
}
use mini_tool_chain.Isa.Encoding.Decoding.{
  word_op, word_dst, word_src, word_imm, decode_parts, decode_fields-parts,
  decode_parts-IsEncodable, registers_below,
}
use mini_tool_chain.Isa.Encoding.Fields.{opcode_bits}

-- The two functions once the table has answered.
module _ (i : Instruction) where
  pub encode-unlisted : find_opcode i.opcode ≡ none → encode i ≡ err EncodeError.unknown_opcode
  unfolding encode
  encode-unlisted h = rw (h, encode)

  encode-found :
      (info : OpcodeInfo)
      → find_opcode i.opcode ≡ some info
      → encode i ≡ encode_fields (fields_of info.format) i
  unfolding encode
  encode-found info h = rw (h, encode)

module _ (word : ℕ) (op : Opcode) (at : opcode_cast (word / 2 ^ 56 % 256) ≡ op) where
  decode-as : decode word ≡ decode_as op word
  unfolding decode
  decode-as = ap (λ o. decode_as o word) (rw opcode_bits at)

  pub decode-unlisted : find_opcode op ≡ none → decode word ≡ err DecodeError.unknown_opcode
  unfolding decode_as
  decode-unlisted h = decode-as ∙ rw (h, decode_as)

  pub decode-found :
      (info : OpcodeInfo)
      → find_opcode op ≡ some info
      → decode word
        ≡ decode_parts
            (fields_of info.format)
            op
            (word / 2 ^ 52 % 16)
            (word / 2 ^ 48 % 16)
            (word % 2 ^ 48)
  unfolding decode_as
  decode-found info h =
      decode-as ∙ rw (h, decode_as) (decode_fields-parts (fields_of info.format) op word)

decode-instruction_word :
    (i : Instruction) (info : OpcodeInfo)
    → find_opcode i.opcode ≡ some info
    → IsEncodable info.format i
    → decode (instruction_word i) ≡ ok i
decode-instruction_word i info listed e =
    decode-found (instruction_word i) i.opcode (ap opcode_cast op_eq ∙ back.cast_back) info listed
    ∙ rw (dst_eq, src_eq, imm_eq) (decode_parts-IsEncodable info.format i e)
  where
    op : ℕ
    op = opcode_value i.opcode

    m : ℕ
    m = to_u64 i.imm % 2 ^ 48

    low : m < 2 ^ 48
    low = omega arith

    back : IsListed i.opcode
    back = find_opcode-IsListed i.opcode info listed

    regs : (i.dst < 16) × (i.src < 16)
    regs = registers_below info.format i.dst i.src e.registers

    op_eq : instruction_word i / 2 ^ 56 % 256 ≡ op
    op_eq = word_op op i.dst i.src m regs.0 regs.1 low back.fits_byte

    dst_eq : instruction_word i / 2 ^ 52 % 16 ≡ i.dst
    dst_eq = word_dst op i.dst i.src m regs.0 regs.1 low

    src_eq : instruction_word i / 2 ^ 48 % 16 ≡ i.src
    src_eq = word_src op i.dst i.src m regs.0 regs.1 low

    imm_eq : instruction_word i % 2 ^ 48 ≡ m
    imm_eq = word_imm op i.dst i.src m regs.0 regs.1 low

-- The instructions that the formats allow.
pub record IsCanonical (i : Instruction) : Type 0 where
  pub info : OpcodeInfo
  pub found : find_opcode i.opcode ≡ some info
  pub encodable : IsEncodable info.format i

encode-IsCanonical : (i : Instruction) (w : ℕ) → IsI64 i.imm → encode i ≡ ok w → IsCanonical i
encode-IsCanonical i w r h = elim (Option-cases (find_opcode i.opcode)) [
  | inl missing ↦ cc (encode-unlisted i missing)
  | inr (info, found) ↦ record {
    info = info;
    found = found;
    encodable = encode_fields-IsEncodable info.format i w r (sym (encode-found i info found) ∙ h);
  }
]

pub IsCanonical-encode : (i : Instruction) → IsCanonical i → encode i ≡ ok (instruction_word i)
IsCanonical-encode i c =
    encode-found i c.info c.found
    ∙ encode_fields-ok c.info.format i (find_opcode-IsListed i.opcode c.info c.found).fits_byte
        c.encodable

-- With an i64 immediate, encoding gives a word exactly if the instruction has a listed opcode and
-- operands that fit its format, unused fields being 0, and the word is the four fields side by
-- side.
pub encode_iff :
    (i : Instruction) (w : ℕ)
    → IsI64 i.imm
    → (encode i ≡ ok w) ↔ (IsCanonical i × (instruction_word i ≡ w))
encode_iff i w r = (
  λ h. (encode-IsCanonical i w r h, cc (IsCanonical-encode i (encode-IsCanonical i w r h))),
  λ (c, e). IsCanonical-encode i c ∙ ap ok e,
)

-- Whatever an instruction with an i64 immediate is encoded to, is decoded to that instruction.
pub decode-encode : (i : Instruction) (w : ℕ) → IsI64 i.imm → encode i ≡ ok w → decode w ≡ ok i
decode-encode i w r h =
    let both : IsCanonical i × (instruction_word i ≡ w) = (encode_iff i w r).0 h in
    rw (← both.1) (decode-instruction_word i both.0.info both.0.found both.0.encodable)

-- An encoded word is a 64-bit number.
pub encode-IsU64 : (i : Instruction) (w : ℕ) → IsI64 i.imm → encode i ≡ ok w → IsU64 w
encode-IsU64 i w r h =
    let both : IsCanonical i × (instruction_word i ≡ w) = (encode_iff i w r).0 h in
    let op : opcode_value i.opcode < 256 =
      (find_opcode-IsListed i.opcode both.0.info both.0.found).fits_byte in
    let regs : (i.dst < 16) × (i.src < 16) =
      registers_below both.0.info.format i.dst i.src both.0.encodable.registers in
    omega (arith, both.1, op, regs.0, regs.1)
