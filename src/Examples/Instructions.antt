-- ===== src/Examples/Instructions.antt =====
-- Instructions, bytes, registers and flags.
use mini_tool_chain.Base.{
  ℕ, ◌≡◌, ◌↔◌, refl, arith, ok, err, true, ltb, leb, ◌==◌, List, [], ◌∷◌, ◌+◌, ◌-◌, ◌*◌, ◌≤◌, false,
  inr, ◌^◌, ◌%◌, suc, get_or, length,
}
use mini_tool_chain.Base.Int.{ℤ, pos, negsuc, ltb_ℤ, ◌+ℤ◌, ◌-ℤ◌}
use mini_tool_chain.Word.{add64, sub64, to_u64, to_i64}
use mini_tool_chain.ByteOrder.{store, load, sign_extend, fits_signed}
use mini_tool_chain.ByteOrder.Words.{IsBytes, All-IsBytes, load-store}
use mini_tool_chain.ByteOrder.Sign.{sign_extend_iff_fits}
use mini_tool_chain.Isa.Opcode
use mini_tool_chain.Isa.Opcode.{add, je, jne, jl, jge, jg, jle, jmp, find_opcode, cmp, div, mod_op}
use mini_tool_chain.Isa.Encoding.{
  Instruction, encode, decode, encode_fields, decode_as, decode_fields, fields_of, immediate_field,
  immediate_of, branch_target, branch_displacement, decode_from, encode_into, encode_into,
}
use mini_tool_chain.Isa.Encoding.Canonical.{instruction_word}
use mini_tool_chain.Isa.Encoding.RoundTrip.{decode-encode, encode_iff, IsCanonical}
use mini_tool_chain.Isa.Encoding.Words.{encode-decode}
use mini_tool_chain.Isa.Semantics.{compute_flags, evaluate_binary, AluResult, division_by_zero}
use mini_tool_chain.Isa.Semantics.Flags.{
  FlagsAre, leaves_i64, compute_flags-sub64, compute_flags-add64,
}
use mini_tool_chain.Isa.Semantics.Branches.{Compares, branch_taken-evaluate_binary}
use mini_tool_chain.Isa.Semantics.Division.{Divides, evaluate_binary-div_mod}
use mini_tool_chain.Object.Relocation.{
  Relocation, abs64, pcrel48, imm48, apply_relocation, target_of, relocation_width, relocated_value,
}
use mini_tool_chain.Object.Relocation.Laws.{apply_relocation-local}
use mini_tool_chain.Object.Relocation.Instructions.{
  apply_relocation-pcrel48, apply_relocation-imm48,
}

-- `LOAD R3, [R4 - 8]`
abbrev load_word : Instruction
load_word = record { opcode = Opcode.load; dst = 3; src = 4; imm = negsuc 7 }

abbrev load_code : ℕ
load_code = 0x1234fffffffffff8

load_word-encoded : encode load_word ≡ ok load_code
unfolding encode encode_fields find_opcode fields_of immediate_field fits_signed
load_word-encoded = refl

load_code-decoded : decode load_code ≡ ok load_word
unfolding decode decode_as decode_fields find_opcode fields_of immediate_of sign_extend
    Opcode.opcode_cast
load_code-decoded = refl

decode-encode_example : decode load_code ≡ ok load_word
decode-encode_example =
    decode-encode load_word load_code (omega arith, omega arith) load_word-encoded

encode-decode_example : encode load_word ≡ ok load_code
encode-decode_example = encode-decode load_code load_word (omega arith) load_code-decoded

encode_iff_example :
    (encode load_word ≡ ok load_code)
    ↔ (IsCanonical load_word × (instruction_word load_word ≡ load_code))
encode_iff_example = encode_iff load_word load_code (omega arith, omega arith)

-- 3 against -1: below it as numbers without sign, above it as numbers with one.
branch_taken-evaluate_binary_example :
    (r : AluResult) × (evaluate_binary cmp 3 (2 ^ 64 - 1) ≡ ok r) × Compares 3 (2 ^ 64 - 1) r
branch_taken-evaluate_binary_example =
    branch_taken-evaluate_binary 3 (2 ^ 64 - 1) (omega arith) (omega arith)

-- -7 by 2: -3 with the remainder -1.
evaluate_binary-div_mod_example :
    (evaluate_binary div (2 ^ 64 - 7) 0 ≡ err division_by_zero)
    × (evaluate_binary mod_op (2 ^ 64 - 7) 0 ≡ err division_by_zero)
    × ((q : AluResult) × (m : AluResult) × Divides (2 ^ 64 - 7) 2 q m)
evaluate_binary-div_mod_example =
    evaluate_binary-div_mod (2 ^ 64 - 7) 2 (omega arith) (omega arith) (omega arith)

compute_flags-sub64_example :
    FlagsAre
      (compute_flags (sub64 (2 ^ 63) 1) (2 ^ 63) 1 true)
      (sub64 (2 ^ 63) 1 == 0)
      (ltb_ℤ (to_i64 (sub64 (2 ^ 63) 1)) (pos 0))
      (ltb (2 ^ 63) 1)
      (leaves_i64 (to_i64 (2 ^ 63) -ℤ to_i64 1))
compute_flags-sub64_example = compute_flags-sub64 (2 ^ 63) 1 (omega arith) (omega arith)

compute_flags-add64_example :
    FlagsAre
      (compute_flags (add64 (2 ^ 63 - 1) 1) (2 ^ 63 - 1) 1 false)
      (add64 (2 ^ 63 - 1) 1 == 0)
      (ltb_ℤ (to_i64 (add64 (2 ^ 63 - 1) 1)) (pos 0))
      (leb (2 ^ 64) (2 ^ 63 - 1 + 1))
      (leaves_i64 (to_i64 (2 ^ 63 - 1) +ℤ to_i64 1))
compute_flags-add64_example = compute_flags-add64 (2 ^ 63 - 1) 1 (omega arith) (omega arith)

-- A section of ten bytes with a jump in the first eight.
abbrev section : List ℕ
section = 0 ∷ 0 ∷ 0 ∷ 0 ∷ 0 ∷ 0 ∷ 0 ∷ 0x50 ∷ 1 ∷ 2 ∷ []

section-IsBytes : IsBytes section
section-IsBytes = All-IsBytes section (ground arith)

load-store_example : load 4 (store 4 section 6 (2 ^ 32 + 7)) 6 ≡ (2 ^ 32 + 7) % 2 ^ (8 * 4)
load-store_example = load-store 4 section 6 (2 ^ 32 + 7) (omega arith) (omega arith) section-IsBytes

sign_extend_iff_fits_example :
    (sign_extend (to_u64 (negsuc 127)) (suc 7) ≡ negsuc 127)
    ↔ (fits_signed (negsuc 127) (suc 7) ≡ true)
sign_extend_iff_fits_example =
    sign_extend_iff_fits 7 (negsuc 127) (omega arith) (omega arith, omega arith)

-- With the identity for `toupper`.
-- A relocation of the jump, against a symbol at 0x800.
abbrev relocation : Relocation
relocation = record { section = 0; offset = 0; kind = abs64; symbol = 0; addend = pos 16 }

abbrev section_to_branch : List ℕ
section_to_branch = 0x08 ∷ 0xf8 ∷ 255 ∷ 255 ∷ 255 ∷ 255 ∷ 0 ∷ 0x50 ∷ 1 ∷ 2 ∷ []

abbrev section_to_address : List ℕ
section_to_address = 0x10 ∷ 0x08 ∷ 0 ∷ 0 ∷ 0 ∷ 0 ∷ 0 ∷ 0x50 ∷ 1 ∷ 2 ∷ []

abbrev branch_relocation : Relocation
branch_relocation = record relocation { kind = pcrel48 }

branch_relocation-applied :
    apply_relocation section 0x1000 branch_relocation 0x800 ≡ ok section_to_branch
unfolding apply_relocation decode_from encode_into branch_displacement store load decode decode_as
    decode_fields find_opcode fields_of immediate_of sign_extend Opcode.opcode_cast encode
    encode_fields immediate_field fits_signed relocated_value relocation_width
branch_relocation-applied = refl

address_relocation-applied :
    apply_relocation section 0x1000 (record relocation { kind = imm48 }) 0x800
    ≡ ok section_to_address
unfolding apply_relocation decode_from encode_into store load decode decode_as decode_fields
    find_opcode fields_of immediate_of sign_extend Opcode.opcode_cast encode encode_fields
    immediate_field fits_signed relocated_value relocation_width
address_relocation-applied = refl

apply_relocation-local_example :
    (0 + relocation_width pcrel48 ≤ 10)
    × (length section_to_branch ≡ length section)
    × (get_or section_to_branch 9 0 ≡ get_or section 9 0)
unfolding relocation_width
apply_relocation-local_example =
    apply_relocation-local section section_to_branch 0x1000 branch_relocation 0x800 9
      branch_relocation-applied (inr (omega arith))

apply_relocation-pcrel48_example :
    (i : Instruction) × (displacement : ℤ) × (decode_from section 0 8 ≡ ok i)
    × (decode_from section_to_branch 0 8 ≡ ok (record i { imm = displacement }))
    × (branch_target (add64 0x1000 0) displacement ≡ target_of 0x800 (pos 16))
apply_relocation-pcrel48_example =
    apply_relocation-pcrel48 section section_to_branch 0x1000 relocation 0x800 section-IsBytes
      branch_relocation-applied

apply_relocation-imm48_example :
    (i : Instruction) × (value : ℤ) × (decode_from section 0 8 ≡ ok i)
    × (decode_from section_to_address 0 8 ≡ ok (record i { imm = value }))
    × (to_u64 value ≡ target_of 0x800 (pos 16))
apply_relocation-imm48_example =
    apply_relocation-imm48 section section_to_address 0x1000 relocation 0x800 section-IsBytes
      address_relocation-applied
