-- ===== src/Isa/Encoding/Decoding.antt =====
-- `decode` over the values of its fields, and on the word of an instruction that a format allows.
use mini_tool_chain.Base.{
  ℕ, ◌/◌, ◌%◌, ◌^◌, ◌<◌, ◌≡◌, ◌∙◌, arith, Expected, ok, not, ◌&&◌, ◌==◌, reject_if,
}
use mini_tool_chain.Base.Int.{ℤ}
use mini_tool_chain.Word.{IsI64, to_u64}
use mini_tool_chain.ByteOrder.{fits_signed}
use mini_tool_chain.ByteOrder.Sign.{sign_extend_iff_fits, sign_extend-mod}
use mini_tool_chain.Isa.Opcode.{Opcode, Format, no_operand, reg1, reg2, reg_imm, mem, jump, sys_imm}
use mini_tool_chain.Isa.Registers.{Reg}
use mini_tool_chain.Isa.Encoding.{
  Instruction, DecodeError, FieldUse, reserved_register_field_set, reserved_immediate_field_set,
  fields_of, immediate_of, decode_fields,
}
use mini_tool_chain.Isa.Encoding.Canonical.{RegistersFit, ImmediateFits, IsEncodable}
use mini_tool_chain.Isa.Encoding.Fields.{word_of, dst_bits, src_bits, imm_bits}

-- Decoding.
immediate_of-fits :
    (shape : Format) (z : ℤ)
    → ImmediateFits shape z
    → immediate_of (fields_of shape) (to_u64 z % 2 ^ 48) ≡ z
unfolding immediate_of fields_of fits_signed
immediate_of-fits no_operand z h = cc
immediate_of-fits reg1 z h = cc
immediate_of-fits reg2 z h = cc
immediate_of-fits reg_imm z h =
    sign_extend-mod 47 (to_u64 z) (omega arith)
    ∙ (sign_extend_iff_fits 47 z (omega arith) (omega arith)).1 (ground arith)
immediate_of-fits mem z h =
    sign_extend-mod 47 (to_u64 z) (omega arith)
    ∙ (sign_extend_iff_fits 47 z (omega arith) (omega arith)).1 (ground arith)
immediate_of-fits jump z h =
    sign_extend-mod 47 (to_u64 z) (omega arith)
    ∙ (sign_extend_iff_fits 47 z (omega arith) (omega arith)).1 (ground arith)
immediate_of-fits sys_imm z h = ground arith

module _ (op dst src m : ℕ) (hd : dst < 16) (hs : src < 16) (hm : m < 2 ^ 48) where
  pub word_op : op < 256 → word_of op dst src m / 2 ^ 56 % 256 ≡ op
  word_op h = omega arith

  pub word_dst : word_of op dst src m / 2 ^ 52 % 16 ≡ dst
  word_dst = omega arith

  pub word_src : word_of op dst src m / 2 ^ 48 % 16 ≡ src
  word_src = omega arith

  pub word_imm : word_of op dst src m % 2 ^ 48 ≡ m
  word_imm = omega arith

-- The decoder over the values of the three fields.
abbrev pub decode_parts : FieldUse → Opcode → ℕ → ℕ → ℕ → Expected DecodeError Instruction
decode_parts f op d s m = reject_if (not f.uses_dst && not (d == 0)) reserved_register_field_set (
    reject_if (not f.uses_src && not (s == 0)) reserved_register_field_set (
      reject_if (not f.uses_imm && not (m == 0)) reserved_immediate_field_set
        (ok (record { opcode = op; dst = d % 2 ^ 8; src = s % 2 ^ 8; imm = immediate_of f m }))))

pub decode_fields-parts :
    (f : FieldUse) (op : Opcode) (w : ℕ)
    → decode_fields f op w ≡ decode_parts f op (w / 2 ^ 52 % 16) (w / 2 ^ 48 % 16) (w % 2 ^ 48)
unfolding decode_fields
decode_fields-parts f op w = rw (dst_bits, src_bits, imm_bits)

pub decode_parts-IsEncodable :
    (shape : Format) (i : Instruction)
    → IsEncodable shape i
    → decode_parts (fields_of shape) i.opcode i.dst i.src (to_u64 i.imm % 2 ^ 48) ≡ ok i
unfolding fields_of
decode_parts-IsEncodable no_operand i e = ground (arith, immediate_of-fits no_operand i.imm)
decode_parts-IsEncodable reg1 i e = ground (arith, immediate_of-fits reg1 i.imm)
decode_parts-IsEncodable reg2 i e = ground (arith, immediate_of-fits reg2 i.imm)
decode_parts-IsEncodable reg_imm i e = ground (arith, immediate_of-fits reg_imm i.imm)
decode_parts-IsEncodable mem i e = ground (arith, immediate_of-fits mem i.imm)
decode_parts-IsEncodable jump i e = ground (arith, immediate_of-fits jump i.imm)
decode_parts-IsEncodable sys_imm i e = ground (arith, immediate_of-fits sys_imm i.imm)

pub registers_below :
    (shape : Format) (dst src : Reg) → RegistersFit shape dst src → (dst < 16) × (src < 16)
registers_below no_operand dst src h = omega arith
registers_below reg1 dst src h = omega arith
registers_below reg2 dst src h = omega arith
registers_below reg_imm dst src h = omega arith
registers_below mem dst src h = omega arith
registers_below jump dst src h = omega arith
registers_below sys_imm dst src h = omega arith

pub immediate-IsI64 : (shape : Format) (z : ℤ) → ImmediateFits shape z → IsI64 z
immediate-IsI64 no_operand z h = rw h (omega arith, omega arith)
immediate-IsI64 reg1 z h = rw h (omega arith, omega arith)
immediate-IsI64 reg2 z h = rw h (omega arith, omega arith)
immediate-IsI64 reg_imm z h = omega arith
immediate-IsI64 mem z h = omega arith
immediate-IsI64 jump z h = omega arith
immediate-IsI64 sys_imm z h = omega arith
