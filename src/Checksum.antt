-- ===== src/Checksum.antt =====
-- include/minitool/common/checksum.hpp and src/common/checksum.cpp: CRC-32, with the table of the
-- source as the function that fills it.
use mini_tool_chain.Base.{
  ℕ, zero, suc, ◌/◌, bit_and, bit_xor, not, List, [], ◌∷◌, ◌==◌, if◌then◌else◌, ◌≡◌, refl, ◌^◌,
}

-- One round of the loop over the bits.
table_round : ℕ → ℕ
table_round v = if not (bit_and v 1 == 0) then bit_xor 0xEDB88320 (v / 2) else v / 2

-- Some rounds of it, the entry being after eight.
table_rounds : ℕ → ℕ → ℕ
unfolding table_round
table_rounds zero v = v
table_rounds (suc left) v = table_rounds left (table_round v)

table_entry : ℕ → ℕ
unfolding table_rounds
table_entry i = table_rounds 8 i

crc_loop : ℕ → List ℕ → ℕ
unfolding table_entry
crc_loop state [] = state
crc_loop state (byte ∷ rest) =
    crc_loop (bit_xor (table_entry (bit_and (bit_xor state byte) 0xff)) (state / 2 ^ 8)) rest

unfoldable pub crc32 : List ℕ → ℕ
unfolding crc_loop
crc32 bytes = bit_xor (crc_loop 0xffffffff bytes) 0xffffffff

-- The check value of CRC-32: the checksum of the digits from 1 to 9.
crc32-digits : crc32 (49 ∷ 50 ∷ 51 ∷ 52 ∷ 53 ∷ 54 ∷ 55 ∷ 56 ∷ 57 ∷ []) ≡ 0xcbf43926
unfolding crc32
crc32-digits = refl
