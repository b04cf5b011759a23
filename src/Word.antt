-- ===== src/Word.antt =====
-- The machine integers of include/minitool/common/types.hpp: u8, u64 and i64, with the wrap-around
-- of C++ arithmetic written out. An i64 is an integer; the casts go by two's complement.
pub mod Bits
use mini_tool_chain.Base.{ℕ, suc, ◌+◌, ◌-◌, ◌*◌, ◌/◌, ◌%◌, ◌^◌, ◌<◌, ◌≡◌, arith, ltb, if◌then◌else◌}
use mini_tool_chain.Base.Int.{ℤ, pos, negsuc, ◌≤ℤ◌}

abbrev pub IsU64 : ℕ → Type 0
IsU64 v = v < 2 ^ 64

abbrev pub IsByte : ℕ → Type 0
IsByte v = v < 256

abbrev pub IsI64 : ℤ → Type 0
IsI64 z = (negsuc (2 ^ 63 - 1) ≤ℤ z) × (z ≤ℤ pos (2 ^ 63 - 1))

-- `a + b`, `a - b`, `a * b` and `~a` on u64.
abbrev pub add64 : ℕ → ℕ → ℕ
add64 a b = (a + b) % 2 ^ 64

abbrev pub sub64 : ℕ → ℕ → ℕ
sub64 a b = (a + (2 ^ 64 - b)) % 2 ^ 64

abbrev pub mul64 : ℕ → ℕ → ℕ
mul64 a b = a * b % 2 ^ 64

abbrev pub not64 : ℕ → ℕ
not64 a = 2 ^ 64 - 1 - a

-- `a << k` and `a >> k` for k below 64.
abbrev pub shl64 : ℕ → ℕ → ℕ
shl64 a k = a * 2 ^ k % 2 ^ 64

abbrev pub shr64 : ℕ → ℕ → ℕ
shr64 a k = a / 2 ^ k

-- `static_cast<u64>(z)`
abbrev pub to_u64 : ℤ → ℕ
to_u64 (pos n) = n % 2 ^ 64
to_u64 (negsuc n) = 2 ^ 64 - 1 - n % 2 ^ 64

-- `static_cast<i64>(w)`
abbrev pub to_i64 : ℕ → ℤ
to_i64 w = if ltb w (2 ^ 63) then pos w else negsuc (2 ^ 64 - 1 - w)

-- The cast to i64 stays in range, and casting back undoes it.
pub to_i64-IsI64 : (w : ℕ) → IsU64 w → IsI64 (to_i64 w)
to_i64-IsI64 w h = ground arith

pub to_u64-to_i64 : (w : ℕ) → IsU64 w → to_u64 (to_i64 w) ≡ w
to_u64-to_i64 w h = ground arith
