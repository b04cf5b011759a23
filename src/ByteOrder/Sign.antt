-- ===== src/ByteOrder/Sign.antt =====
-- Sign extension against the range test of two's complement.
use native.Mathlib.Nat.{
  pow-succ', one-le-pow, pow-le-pow_right, mod-eq_of_lt, one-mul, mod-lt, mul-add-mod_self_left,
  div-lt_iff_lt-mul, div-add-mod, mul_comm, mod-le, mod-mod,
}
use mini_tool_chain.Base.{
  ℕ, suc, ◌+◌, ◌-◌, ◌*◌, ◌/◌, ◌%◌, ◌^◌, ◌≤◌, ◌<◌, bit_xor, ◌≡◌, ◌⊎◌, inl, inr, true, false, ◌↔◌,
  sym, ap, ◌∙◌, arith, ltb, leb, if◌then◌else◌,
}
use mini_tool_chain.Base.Int.{ℤ, pos, negsuc}
use mini_tool_chain.Word.{IsI64, to_u64, to_i64, sub64, shl64}
use mini_tool_chain.Word.Bits.{and_mask, xor_top_low, xor_top_high, two_pow-add}
use mini_tool_chain.ByteOrder.{sign_extend, fits_signed}

iff_trans : {A B C : Type 0} → A ↔ B → C ↔ B → A ↔ C
iff_trans f g = (λ a. g.1 (f.0 a), λ c. f.1 (g.0 c))

half_word : (k : ℕ) → k < 63 → 2 ^ k ≤ 2 ^ 62
half_word k h = pow-le-pow_right {n = 2} (omega arith) {j = 62} (omega arith)

one_shifted : (k : ℕ) → k < 64 → shl64 1 k ≡ 2 ^ k
one_shifted k h =
    rw one-mul (mod-eq_of_lt (omega (arith, pow-le-pow_right {n = 2} (omega arith) {j = 63} top)))
  where
    top : k ≤ 63
    top = omega arith

-- The integer that the low `suc k` bits stand for.
unfoldable pub signed_field : ℕ → ℕ → ℤ
signed_field k v =
    let t = v % 2 ^ suc k in if ltb t (2 ^ k) then pos t else negsuc (2 ^ suc k - 1 - t)

module _ (k v : ℕ) (h : k < 63) where
  flipped :
      (t : ℕ)
      → t < 2 ^ suc k
      → to_i64 (sub64 (bit_xor t (2 ^ k)) (2 ^ k))
        ≡ (if ltb t (2 ^ k) then pos t else negsuc (2 ^ suc k - 1 - t))
  flipped t ht = elim side [
    | inl low ↦ rw (xor_top_low k t low) (ground (arith, half_word k h, pow-succ' 2 k))
    | inr high ↦ rw (xor_top_high k t high ht) (ground (arith, half_word k h, pow-succ' 2 k))
  ]
    where
      side : (t < 2 ^ k) ⊎ (2 ^ k ≤ t)
      side = omega arith

  pub sign_extend-eq-signed_field : sign_extend v (suc k) ≡ signed_field k v
  unfolding sign_extend signed_field
  sign_extend-eq-signed_field =
      rw (narrow, one_shifted (suc k) (omega arith), back, one_shifted k (omega arith), and_mask)
        (flipped (v % 2 ^ suc k) (mod-lt v (one-le-pow (suc k) 2 (omega arith))))
    where
      narrow : leb 64 (suc k) ≡ false
      narrow = ground arith

      back : suc k - 1 ≡ k
      back = omega arith

-- Complementing all bits of a word complements the low ones.
complement_mod : (m q w n : ℕ) → 0 < m → w ≡ m * q → n < w → (w - 1 - n) % m ≡ m - 1 - n % m
complement_mod m q w n p e h =
    ap (λ (t : ℕ). t % m) parts
    ∙ mul-add-mod_self_left m (q - 1 - n / m) (m - 1 - n % m)
    ∙ mod-eq_of_lt (omega arith)
  where
    fewer : n / m < q
    fewer = (div-lt_iff_lt-mul p).1 (omega (arith, mul_comm m q))

    count : q ≡ q - 1 - n / m + 1 + n / m
    count = omega (arith, fewer)

    parts : w - 1 - n ≡ m * (q - 1 - n / m) + (m - 1 - n % m)
    parts = omega (arith, div-add-mod n m, mod-lt n p, fewer, ap (λ (t : ℕ). m * t) count)

module _ (k n : ℕ) (h : k < 63) (hn : n < 2 ^ 63) where
  word_split : 2 ^ suc k * 2 ^ (63 - k) ≡ 2 ^ 64
  word_split = sym (two_pow-add (suc k) (63 - k)) ∙ ap (λ (t : ℕ). 2 ^ t) {y = 64} (omega arith)

  low_complement : (2 ^ 64 - 1 - n) % 2 ^ suc k ≡ 2 ^ suc k - 1 - n % 2 ^ suc k
  low_complement =
      complement_mod (2 ^ suc k) (2 ^ (63 - k)) (2 ^ 64) n (one-le-pow (suc k) 2 (omega arith))
        (sym word_split) (omega arith)

  narrow : leb 64 (suc k) ≡ false
  narrow = ground arith

  k_back : suc k - 1 ≡ k
  k_back = omega arith

  field_pos : (signed_field k n ≡ pos n) ↔ (n < 2 ^ k)
  unfolding signed_field
  field_pos = (
    ground (
      arith,
      pow-succ' 2 k,
      mod-lt n (one-le-pow (suc k) 2 (omega arith)),
      mod-le n (2 ^ suc k),
      mod-eq_of_lt {n = n} {m = 2 ^ suc k},
    ),
    ground (
      arith,
      pow-succ' 2 k,
      mod-lt n (one-le-pow (suc k) 2 (omega arith)),
      mod-le n (2 ^ suc k),
      mod-eq_of_lt {n = n} {m = 2 ^ suc k},
    ),
  )

  field_negsuc : (signed_field k (2 ^ 64 - 1 - n) ≡ negsuc n) ↔ (n < 2 ^ k)
  unfolding signed_field
  field_negsuc = (
    ground (
      arith,
      low_complement,
      pow-succ' 2 k,
      mod-lt n (one-le-pow (suc k) 2 (omega arith)),
      mod-le n (2 ^ suc k),
      mod-eq_of_lt {n = n} {m = 2 ^ suc k},
    ),
    ground (
      arith,
      low_complement,
      pow-succ' 2 k,
      mod-lt n (one-le-pow (suc k) 2 (omega arith)),
      mod-le n (2 ^ suc k),
      mod-eq_of_lt {n = n} {m = 2 ^ suc k},
    ),
  )

  fits_pos : (fits_signed (pos n) (suc k) ≡ true) ↔ (n < 2 ^ k)
  unfolding fits_signed
  fits_pos =
      rw (narrow, k_back, one_shifted k (omega arith))
        (ground (arith, one-le-pow k 2 (omega arith)), ground (arith, one-le-pow k 2 (omega arith)))

  fits_negsuc : (fits_signed (negsuc n) (suc k) ≡ true) ↔ (n < 2 ^ k)
  unfolding fits_signed
  fits_negsuc =
      rw (narrow, k_back, one_shifted k (omega arith))
        (ground (arith, one-le-pow k 2 (omega arith)), ground (arith, one-le-pow k 2 (omega arith)))

-- For every width from 1 to 63 bits, cutting an i64 to the width and extending its sign again gives
-- it back exactly when the range test says that it fits.
pub sign_extend_iff_fits :
    (k : ℕ) (z : ℤ)
    → k < 63
    → IsI64 z
    → (sign_extend (to_u64 z) (suc k) ≡ z) ↔ (fits_signed z (suc k) ≡ true)
sign_extend_iff_fits k (pos n) h range =
    rw (mod-eq_of_lt {n = n} {m = 2 ^ 64} (omega arith), sign_extend-eq-signed_field k n h)
      (iff_trans (field_pos k n h (omega arith)) (fits_pos k n h (omega arith)))
sign_extend_iff_fits k (negsuc n) h range =
    rw (mod-eq_of_lt {n = n} {m = 2 ^ 64} (omega arith), sign_extend-eq-signed_field k _ h)
      (iff_trans (field_negsuc k n h (omega arith)) (fits_negsuc k n h (omega arith)))

-- Only the low bits are read.
pub sign_extend-mod :
    (k v : ℕ) → k < 63 → sign_extend (v % 2 ^ suc k) (suc k) ≡ sign_extend v (suc k)
unfolding signed_field
sign_extend-mod k v h =
    rw (sign_extend-eq-signed_field k (v % 2 ^ suc k) h, sign_extend-eq-signed_field k v h, mod-mod)
