-- ===== src/Isa/Encoding.antt =====
-- include/minitool/isa/instruction.hpp, include/minitool/isa/encoding.hpp, src/isa/encoding.cpp:
-- one instruction to and from its 64-bit word. An i64 is an integer.
pub mod Fields
pub mod Canonical
mod Decoding
pub mod RoundTrip
pub mod Words
use mini_tool_chain.Base.{
  ℕ, ◌+◌, ◌-◌, ◌%◌, ◌^◌, bit_and, bit_or, Bool, true, false, not, ◌&&◌, ◌||◌, Option, none, some,
  List, ltb, leb, ◌==◌, if◌then◌else◌, Expected, ok, err, ◌>>=◌, reject_if,
}
use mini_tool_chain.Base.Int.{ℤ, pos, negsuc, ltb_ℤ}
use mini_tool_chain.Word.{add64, sub64, shl64, shr64, to_u64, to_i64}
use mini_tool_chain.ByteOrder.{store, load, sign_extend, fits_signed, fits_unsigned}
use mini_tool_chain.Isa.Opcode.{
  Opcode, opcode_value, opcode_cast, Format, no_operand, reg1, reg2, reg_imm, mem, jump, sys_imm,
  OpcodeInfo, find_opcode,
}
use mini_tool_chain.Isa.Registers.{Reg, is_valid_register}

pub record Instruction : Type 0 where
  pub opcode : Opcode
  pub dst : Reg
  pub src : Reg
  pub imm : ℤ

abbrev pub instruction_size : ℕ
instruction_size = 8

abbrev pub immediate_bits : ℕ
immediate_bits = 48

abbrev pub immediate_mask : ℕ
immediate_mask = 2 ^ 48 - 1

abbrev pub register_mask : ℕ
register_mask = 0xf

pub data EncodeError : Type 0 where
  unknown_opcode invalid_register immediate_out_of_range : EncodeError
  non_canonical_operand buffer_too_small : EncodeError

pub data DecodeError : Type 0 where
  unknown_opcode reserved_register_field_set : DecodeError
  reserved_immediate_field_set truncated : DecodeError

pub record FieldUse : Type 0 where
  pub uses_dst : Bool
  pub uses_src : Bool
  pub uses_imm : Bool
  pub imm_signed : Bool

abbrev field_use : Bool → Bool → Bool → Bool → FieldUse
field_use dst src imm signed = record {
  uses_dst = dst;
  uses_src = src;
  uses_imm = imm;
  imm_signed = signed;
}

unfoldable pub fields_of : Format → FieldUse
fields_of no_operand = field_use false false false true
fields_of reg1 = field_use true false false true
fields_of reg2 = field_use true true false true
fields_of reg_imm = field_use true false true true
fields_of mem = field_use true true true true
fields_of jump = field_use false false true true
fields_of sys_imm = field_use false false true false

-- The bits of the immediate field, `0` where the format has none.
unfoldable pub immediate_field : FieldUse → ℤ → Expected EncodeError ℕ
immediate_field f imm =
    let bits = ok (bit_and (to_u64 imm) immediate_mask) in
    if not f.uses_imm
    then ok 0
    else if f.imm_signed
    then reject_if (not (fits_signed imm immediate_bits)) immediate_out_of_range bits
    else reject_if (ltb_ℤ imm (pos 0) || not (fits_unsigned (to_u64 imm) immediate_bits))
        immediate_out_of_range bits

-- `opcode << 56 | dst << 52 | src << 48 | imm_bits`
abbrev pub pack : ℕ → ℕ → ℕ → ℕ → ℕ
pack op dst src imm_bits =
    bit_or (bit_or (bit_or (shl64 op 56) (shl64 dst 52)) (shl64 src 48)) imm_bits

is_zero : ℤ → Bool
is_zero (pos n) = n == 0
is_zero (negsuc n) = false

unfoldable pub encode_fields : FieldUse → Instruction → Expected EncodeError ℕ
unfolding is_valid_register is_zero
encode_fields f i =
    reject_if (not (is_valid_register i.dst) || not (is_valid_register i.src)) invalid_register (
      reject_if (not f.uses_dst && not (i.dst == 0)) non_canonical_operand (
        reject_if (not f.uses_src && not (i.src == 0)) non_canonical_operand (
          reject_if (not f.uses_imm && not (is_zero i.imm)) non_canonical_operand (do
            imm_bits ← immediate_field f i.imm
            ok (pack (opcode_value i.opcode) i.dst i.src imm_bits)))))

unfoldable pub encode : Instruction → Expected EncodeError ℕ
encode i = elim (find_opcode i.opcode) [
  | none ↦ err EncodeError.unknown_opcode
  | some info ↦ encode_fields (fields_of info.format) i
]

unfoldable pub immediate_of : FieldUse → ℕ → ℤ
immediate_of f bits =
    if f.uses_imm
    then (if f.imm_signed then sign_extend bits immediate_bits else to_i64 bits)
    else pos 0

unfoldable pub decode_fields : FieldUse → Opcode → ℕ → Expected DecodeError Instruction
decode_fields f op word =
    let dst_bits = bit_and (shr64 word 52) register_mask in
    let src_bits = bit_and (shr64 word 48) register_mask in
    let imm_bits = bit_and word immediate_mask in
    reject_if (not f.uses_dst && not (dst_bits == 0)) reserved_register_field_set (
      reject_if (not f.uses_src && not (src_bits == 0)) reserved_register_field_set (
        reject_if (not f.uses_imm && not (imm_bits == 0)) reserved_immediate_field_set (
          ok (record {
            opcode = op;
            dst = dst_bits % 2 ^ 8;
            src = src_bits % 2 ^ 8;
            imm = immediate_of f imm_bits;
          }))))

abbrev pub opcode_field : ℕ → Opcode
opcode_field word = opcode_cast (bit_and (shr64 word 56) 0xff % 2 ^ 8)

unfoldable pub decode_as : Opcode → ℕ → Expected DecodeError Instruction
decode_as op word = elim (find_opcode op) [
  | none ↦ err DecodeError.unknown_opcode
  | some info ↦ decode_fields (fields_of info.format) op word
]

unfoldable pub decode : ℕ → Expected DecodeError Instruction
unfolding decode_as
decode word = decode_as (opcode_field word) word

-- Into the `size` bytes of a buffer from `start` on; the result is the buffer written to.
unfoldable pub encode_into : List ℕ → ℕ → ℕ → Instruction → Expected EncodeError (List ℕ)
encode_into buffer start size i =
    reject_if (ltb size instruction_size) buffer_too_small
      (do word ← encode i; ok (store 8 buffer start word))

unfoldable pub decode_from : List ℕ → ℕ → ℕ → Expected DecodeError Instruction
decode_from bytes start size =
    reject_if (ltb size instruction_size) truncated (decode (load 8 bytes start))

-- A displacement counts from the instruction after the branch.
unfoldable pub branch_target : ℕ → ℤ → ℕ
branch_target address displacement = add64 (add64 address instruction_size) (to_u64 displacement)

unfoldable pub branch_displacement : ℕ → ℕ → ℤ
branch_displacement address target = to_i64 (sub64 target (add64 address instruction_size))
