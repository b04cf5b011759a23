-- ===== src/Object/Relocation.antt =====
-- src/object/relocation.cpp, with the relocation types of include/minitool/object/object.hpp. The
-- section's bytes come back from a success; a failure comes without them, as nothing was written.
pub mod Laws
pub mod Instructions
use mini_tool_chain.Base.{
  ℕ, ◌-◌, ◌%◌, ◌^◌, bit_and, Bool, not, ◌||◌, List, ltb, leb, ◌==◌, Expected, ok, err, reject_if,
  length, if◌then◌else◌,
}
use mini_tool_chain.Base.Int.{ℤ}
use mini_tool_chain.Word.{add64, sub64, to_u64, to_i64}
use mini_tool_chain.ByteOrder.{store, fits_signed, fits_unsigned}
use mini_tool_chain.Isa.Encoding.{
  Instruction, EncodeError, DecodeError, decode_from, encode_into, branch_displacement,
  instruction_size, immediate_bits,
}

pub data RelocationType : Type 0 where
  abs32 abs64 pcrel32 imm48 pcrel48 : RelocationType

unfoldable pub is_valid_relocation_type : ℕ → Bool
is_valid_relocation_type value = leb value 4

unfoldable pub relocation_width : RelocationType → ℕ
relocation_width abs32 = 4
relocation_width abs64 = 8
relocation_width pcrel32 = 4
relocation_width imm48 = 8
relocation_width pcrel48 = 8

pub record Relocation : Type 0 where
  pub section : ℕ
  pub offset : ℕ
  pub kind : RelocationType
  pub symbol : ℕ
  pub addend : ℤ

pub data RelocationError : Type 0 where
  out_of_bounds overflow unaligned_instruction_field not_an_instruction : RelocationError

abbrev pub target_of : ℕ → ℤ → ℕ
target_of symbol_address addend = add64 symbol_address (to_u64 addend)

unfoldable pub relocated_value : RelocationType → ℕ → ℤ → ℕ → ℤ
relocated_value abs32 symbol_address addend place = to_i64 (target_of symbol_address addend)
relocated_value abs64 symbol_address addend place = to_i64 (target_of symbol_address addend)
relocated_value imm48 symbol_address addend place = to_i64 (target_of symbol_address addend)
relocated_value pcrel32 symbol_address addend place =
    to_i64 (sub64 (target_of symbol_address addend) place)
relocated_value pcrel48 symbol_address addend place =
    branch_displacement place (target_of symbol_address addend)

-- The decoded instruction takes the value and is encoded again.
encoded_again : Expected EncodeError (List ℕ) → Expected RelocationError (List ℕ)
encoded_again (err e) = err overflow
encoded_again (ok bytes) = ok bytes

patched : List ℕ → ℕ → ℕ → ℤ → Expected DecodeError Instruction → Expected RelocationError (List ℕ)
unfolding encoded_again
patched bytes offset width value (err e) = err not_an_instruction
patched bytes offset width value (ok i) =
    encoded_again (encode_into bytes offset width (record i { imm = value }))

pub patch_instruction : List ℕ → ℕ → ℕ → ℤ → Expected RelocationError (List ℕ)
unfolding patched
patch_instruction bytes offset width value =
    reject_if (not (offset % instruction_size == 0)) unaligned_instruction_field (
      reject_if (not (fits_signed value immediate_bits)) overflow
        (patched bytes offset width value (decode_from bytes offset width)))

pub apply_value : RelocationType → List ℕ → ℕ → ℕ → ℤ → Expected RelocationError (List ℕ)
unfolding patch_instruction
apply_value abs32 bytes offset width value =
    reject_if (not (fits_unsigned (to_u64 value) 32)) overflow
      (ok (store 4 bytes offset (to_u64 value % 2 ^ 32)))
apply_value abs64 bytes offset width value = ok (store 8 bytes offset (to_u64 value))
apply_value pcrel32 bytes offset width value =
    reject_if (not (fits_signed value 32)) overflow
      (ok (store 4 bytes offset (bit_and (to_u64 value) 0xffffffff % 2 ^ 32)))
apply_value imm48 bytes offset width value = patch_instruction bytes offset width value
apply_value pcrel48 bytes offset width value = patch_instruction bytes offset width value

unfoldable pub apply_relocation : List ℕ → ℕ → Relocation → ℕ → Expected RelocationError (List ℕ)
unfolding apply_value
apply_relocation bytes section_address r symbol_address =
    let width = relocation_width r.kind in
    let place = add64 section_address r.offset in
    let value = relocated_value r.kind symbol_address r.addend place in
    reject_if (ltb (length bytes) r.offset || ltb (length bytes - r.offset) width) out_of_bounds
      (apply_value r.kind bytes r.offset width value)
