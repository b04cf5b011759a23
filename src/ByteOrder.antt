-- ===== src/ByteOrder.antt =====
-- include/minitool/common/byte_order.hpp: little-endian loads and stores, and the range tests.
-- A span is a list of bytes with the position `start` of its first byte.
pub mod Words
pub mod Sign
use mini_tool_chain.Base.{
  ℕ, zero, suc, ◌+◌, ◌-◌, ◌*◌, ◌/◌, ◌%◌, ◌^◌, bit_and, bit_or, bit_xor, Bool, true, ◌&&◌, List, ltb,
  leb, if◌then◌else◌, get_or, set,
}
use mini_tool_chain.Base.Int.{ℤ, pos, negsuc, leb_ℤ}
use mini_tool_chain.Word.{sub64, shl64, shr64, to_i64}

-- The loop of `store`: `left` rounds are to go, the next one writes byte `i`.
store_loop : ℕ → ℕ → ℕ → List ℕ → ℕ → List ℕ
store_loop zero i wide out start = out
store_loop (suc left) i wide out start =
    store_loop left (i + 1) wide (set out (start + i) (bit_and (shr64 wide (8 * i)) 0xff % 2 ^ 8))
      start

-- `store<T>` for a T of `width` bytes.
unfoldable pub store : ℕ → List ℕ → ℕ → ℕ → List ℕ
unfolding store_loop
store width out start value = store_loop width 0 value out start

load_loop : ℕ → ℕ → ℕ → List ℕ → ℕ → ℕ
load_loop zero i wide bytes start = wide
load_loop (suc left) i wide bytes start =
    load_loop left (i + 1) (bit_or wide (shl64 (get_or bytes (start + i) 0) (8 * i))) bytes start

-- `load<T>`, which narrows to T at its end.
unfoldable pub load : ℕ → List ℕ → ℕ → ℕ
unfolding load_loop
load width bytes start = load_loop width 0 0 bytes start % 2 ^ (8 * width)

unfoldable pub sign_extend : ℕ → ℕ → ℤ
sign_extend value bits =
    if leb 64 bits
    then to_i64 value
    else (let mask = shl64 1 bits - 1 in
        let sign = shl64 1 (bits - 1) in
        let truncated = bit_and value mask in to_i64 (sub64 (bit_xor truncated sign) sign))

unfoldable pub fits_signed : ℤ → ℕ → Bool
fits_signed value bits =
    if leb 64 bits
    then true
    else (let low = negsuc (shl64 1 (bits - 1) - 1) in
        let high = pos (shl64 1 (bits - 1) - 1) in leb_ℤ low value && leb_ℤ value high)

unfoldable pub fits_unsigned : ℕ → ℕ → Bool
fits_unsigned value bits = if leb 64 bits then true else ltb value (shl64 1 bits)
