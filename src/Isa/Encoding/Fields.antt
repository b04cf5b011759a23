-- ===== src/Isa/Encoding/Fields.antt =====
-- The fields of an instruction word as arithmetic.
use native.Mathlib.Nat.{mod-eq_of_lt}
use mini_tool_chain.Base.{ℕ, ◌+◌, ◌*◌, ◌/◌, ◌%◌, ◌^◌, ◌<◌, bit_and, ◌≡◌, arith}
use mini_tool_chain.Word.{shr64}
use mini_tool_chain.Word.Bits.{and_mask, or_fields}
use mini_tool_chain.Isa.Encoding.{pack, immediate_mask, register_mask}

-- The word whose fields are the four numbers.
abbrev pub word_of : ℕ → ℕ → ℕ → ℕ → ℕ
word_of op dst src imm_bits = op * 2 ^ 56 + dst * 2 ^ 52 + src * 2 ^ 48 + imm_bits

module _ (op dst src imm_bits : ℕ) (ho : op < 256) (hd : dst < 16) (hs : src < 16)
    (hi : imm_bits < 2 ^ 48) where
  pub pack-word_of : pack op dst src imm_bits ≡ word_of op dst src imm_bits
  pack-word_of =
      rw
        (
          mod-eq_of_lt {n = op * 2 ^ 56} {m = 2 ^ 64} (omega arith),
          mod-eq_of_lt {n = dst * 2 ^ 52} {m = 2 ^ 64} (omega arith),
          mod-eq_of_lt {n = src * 2 ^ 48} {m = 2 ^ 64} (omega arith),
          or_fields 56 op (dst * 2 ^ 52) (omega arith),
          upper,
          or_fields 52 (op * 16 + dst) (src * 2 ^ 48) (omega arith),
          middle,
          or_fields 48 (op * 256 + dst * 16 + src) imm_bits hi,
        )
        (omega arith)
    where
      upper : op * 2 ^ 56 + dst * 2 ^ 52 ≡ (op * 16 + dst) * 2 ^ 52
      upper = omega arith

      middle : (op * 16 + dst) * 2 ^ 52 + src * 2 ^ 48 ≡ (op * 256 + dst * 16 + src) * 2 ^ 48
      middle = omega arith

-- The four extractions of the decoder.
module _ (word : ℕ) where
  pub opcode_bits : bit_and (shr64 word 56) 0xff % 2 ^ 8 ≡ word / 2 ^ 56 % 256
  opcode_bits = rw (and_mask 8 (word / 2 ^ 56)) (omega arith)

  pub dst_bits : bit_and (shr64 word 52) register_mask ≡ word / 2 ^ 52 % 16
  dst_bits = and_mask 4 (word / 2 ^ 52)

  pub src_bits : bit_and (shr64 word 48) register_mask ≡ word / 2 ^ 48 % 16
  src_bits = and_mask 4 (word / 2 ^ 48)

  pub imm_bits : bit_and word immediate_mask ≡ word % 2 ^ 48
  imm_bits = and_mask 48 word
