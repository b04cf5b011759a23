-- ===== src/ByteOrder/Words.antt =====
-- Loads read back what stores wrote, and stores touch the bytes of their field only.
use native.Mathlib.Nat.{div-one, div-div-eq-div-mul, pow-le-pow_right, mod-eq_of_lt}
use native.Mathlib.Numerals.{towards_suc, add-one}
use mini_tool_chain.Base.{
  ℕ, zero, suc, ◌+◌, ◌-◌, ◌*◌, ◌/◌, ◌%◌, ◌^◌, ◌≤◌, ◌<◌, bit_and, bit_or, ◌≡◌, ◌⊎◌, inl, inr, refl,
  sym, ap, ◌∙◌, List, [], ◌∷◌, All, arith, length, get_or, set, length-set, get_or-set_self,
  get_or-set_ne,
}
use mini_tool_chain.Word.{IsByte}
use mini_tool_chain.Word.Bits.{and_mask, or_fields, or_comm, mod_mul}
use mini_tool_chain.ByteOrder.{store_loop, store, load_loop, load}

-- Every element is a byte; past the end the default 0 is read, which is one too.
abbrev pub IsBytes : List ℕ → Type 0
IsBytes bytes = (j : ℕ) → IsByte (get_or bytes j 0)

pub All-IsBytes : (bytes : List ℕ) → All IsByte bytes → IsBytes bytes
All-IsBytes [] h j = omega arith
All-IsBytes (b ∷ rest) h zero = h.0
All-IsBytes (b ∷ rest) h (suc j) = All-IsBytes rest h.1 j

-- The number that `n` bytes from position `s` on stand for, lowest first.
unfoldable pub value : ℕ → List ℕ → ℕ → ℕ
value zero bytes s = 0
value (suc n) bytes s = get_or bytes s 0 + 256 * value n bytes (suc s)

pow-add_eight : (n : ℕ) → 2 ^ (n + 8) ≡ 256 * 2 ^ n
pow-add_eight n = simp towards_suc (omega arith)

pub byte_step : (i : ℕ) → 2 ^ (8 * (i + 1)) ≡ 256 * 2 ^ (8 * i)
byte_step i = rw exponent (pow-add_eight (8 * i))
  where
    exponent : 8 * (i + 1) ≡ 8 * i + 8
    exponent = omega arith

length-store_loop :
    (r i wide : ℕ) (out : List ℕ) (start : ℕ) → length (store_loop r i wide out start) ≡ length out
unfolding store_loop
length-store_loop zero i wide out start = refl
length-store_loop (suc r) i wide out start =
    length-store_loop r (i + 1) wide (set out (start + i) _) start ∙ length-set out (start + i) _

store_loop_outside :
    (r i wide : ℕ) (out : List ℕ) (start j : ℕ)
    → (j < start + i) ⊎ (start + i + r ≤ j)
    → get_or (store_loop r i wide out start) j 0 ≡ get_or out j 0
unfolding store_loop
store_loop_outside zero i wide out start j h = refl
store_loop_outside (suc r) i wide out start j h =
    store_loop_outside r (i + 1) wide (set out (start + i) _) start j (omega arith)
    ∙ get_or-set_ne out (start + i) j _ 0 (omega arith)

low_byte : (x : ℕ) → bit_and x 0xff % 2 ^ 8 ≡ x % 256
low_byte x = rw (and_mask 8 x) (omega arith)

store_loop_inside :
    (r i wide : ℕ) (out : List ℕ) (start j : ℕ)
    → i ≤ j
    → j < i + r
    → start + i + r ≤ length out
    → get_or (store_loop r i wide out start) (start + j) 0 ≡ wide / 2 ^ (8 * j) % 256
unfolding store_loop
store_loop_inside zero i wide out start j l u fits = absurd (omega arith)
store_loop_inside (suc r) i wide out start j l u fits =
    let case : (j ≡ i) ⊎ (i + 1 ≤ j) = omega arith in
    let byte : ℕ = bit_and (wide / 2 ^ (8 * i)) 0xff % 2 ^ 8 in
    elim case [
      | inl e ↦ rw e (
          store_loop_outside r (i + 1) wide (set out (start + i) byte) start (start + i)
            (inl (omega arith))
          ∙ get_or-set_self out (start + i) byte 0 (omega arith)
          ∙ low_byte (wide / 2 ^ (8 * i)))
      | inr m ↦
          store_loop_inside r (i + 1) wide (set out (start + i) byte) start j m (omega arith)
            (rw length-set (omega arith))
    ]

byte_power : (n : ℕ) → 2 ^ (8 * suc n) ≡ 256 * 2 ^ (8 * n)
byte_power n = ap (λ (t : ℕ). 2 ^ (8 * t)) (sym (add-one n)) ∙ byte_step n

-- A number whose bytes stand in the buffer.
value_of_digits :
    (n x : ℕ) (bytes : List ℕ) (s : ℕ)
    → ((j : ℕ) → j < n → get_or bytes (s + j) 0 ≡ x / 2 ^ (8 * j) % 256)
    → value n bytes s ≡ x % 2 ^ (8 * n)
unfolding value
value_of_digits zero x bytes s at = omega arith
value_of_digits (suc n) x bytes s at =
    rw (byte_power n, mod_mul x 256 (2 ^ (8 * n)), first)
      (omega (arith, value_of_digits n (x / 256) bytes (suc s) tail_digits))
  where
    first : get_or bytes s 0 ≡ x % 256
    first =
        ap (λ (t : ℕ). get_or bytes t 0) (omega arith)
        ∙ at 0 (omega arith)
        ∙ ap (λ (t : ℕ). t % 256) (div-one x)

    tail_digits : (j : ℕ) → j < n → get_or bytes (suc s + j) 0 ≡ x / 256 / 2 ^ (8 * j) % 256
    tail_digits j h =
        ap (λ (t : ℕ). get_or bytes t 0) {y = s + (j + 1)} (omega arith)
        ∙ at (j + 1) (omega arith)
        ∙ rw (byte_step j, ← div-div-eq-div-mul)

-- One round of `load`: the byte goes above what was read.
byte-power-lt : (i byte : ℕ) → byte < 256 → i < 8 → (byte + 1) * 2 ^ (8 * i) ≤ 2 ^ (8 * (i + 1))
byte-power-lt i byte hb hi = rw byte_step (grind arith)

word-power-le : (i : ℕ) → i < 8 → 2 ^ (8 * (i + 1)) ≤ 2 ^ 64
word-power-le i hi = pow-le-pow_right {n = 2} (omega arith) {j = 64} (omega arith)

module _ (i wide byte : ℕ) (hw : wide < 2 ^ (8 * i)) (hb : byte < 256) (hi : i < 8) where
  merged-lt : wide + byte * 2 ^ (8 * i) < 2 ^ (8 * (i + 1))
  merged-lt = omega (arith, byte-power-lt i byte hb hi)

  merge_byte : bit_or wide (byte * 2 ^ (8 * i) % 2 ^ 64) ≡ wide + byte * 2 ^ (8 * i)
  merge_byte =
      rw (mod-eq_of_lt fits) (or_comm wide (byte * 2 ^ (8 * i)))
      ∙ or_fields (8 * i) byte wide hw
      ∙ omega arith
    where
      fits : byte * 2 ^ (8 * i) < 2 ^ 64
      fits = omega (arith, merged-lt, word-power-le i hi)

-- What `load` computes, for a word of at most eight bytes.
load_loop-value :
    (r i wide : ℕ) (bytes : List ℕ) (start : ℕ)
    → IsBytes bytes
    → wide < 2 ^ (8 * i)
    → i + r ≤ 8
    → load_loop r i wide bytes start ≡ wide + 2 ^ (8 * i) * value r bytes (start + i)
unfolding load_loop value
load_loop-value zero i wide bytes start b h fits = omega arith
load_loop-value (suc r) i wide bytes start b h fits =
    rw (merge_byte i wide byte h (b (start + i)) (omega arith)) (
      load_loop-value r (i + 1) (wide + byte * 2 ^ (8 * i)) bytes start b
        (merged-lt i wide byte h (b (start + i)) (omega arith)) (omega arith)
      ∙ rw (byte_step, next) (omega arith))
  where
    byte : ℕ
    byte = get_or bytes (start + i) 0

    next : start + (i + 1) ≡ suc (start + i)
    next = omega arith

value-lt : (n : ℕ) (bytes : List ℕ) (s : ℕ) → IsBytes bytes → value n bytes s < 2 ^ (8 * n)
unfolding value
value-lt zero bytes s b = omega arith
value-lt (suc n) bytes s b = rw byte_power (omega (arith, b s, value-lt n bytes (suc s) b))

pub load-value :
    (width : ℕ) (bytes : List ℕ) (start : ℕ)
    → IsBytes bytes
    → width ≤ 8
    → load width bytes start ≡ value width bytes start
unfolding load
load-value width bytes start b h =
    rw (load_loop-value width 0 0 bytes start b (omega arith) (omega arith), start_eq)
      (ap (λ (t : ℕ). t % 2 ^ (8 * width)) (omega arith)
        ∙ mod-eq_of_lt (value-lt width bytes start b))
  where
    start_eq : start + 0 ≡ start
    start_eq = omega arith

pub length-store :
    (width : ℕ) (out : List ℕ) (start x : ℕ) → length (store width out start x) ≡ length out
unfolding store
length-store width out start x = length-store_loop width 0 x out start

-- A store changes no byte outside its field.
pub store_outside :
    (width : ℕ) (out : List ℕ) (start x j : ℕ)
    → (j < start) ⊎ (start + width ≤ j)
    → get_or (store width out start x) j 0 ≡ get_or out j 0
unfolding store
store_outside width out start x j h = store_loop_outside width 0 x out start j (omega arith)

pub store_inside :
    (width : ℕ) (out : List ℕ) (start x j : ℕ)
    → j < width
    → start + width ≤ length out
    → get_or (store width out start x) (start + j) 0 ≡ x / 2 ^ (8 * j) % 256
unfolding store
store_inside width out start x j h fits =
    store_loop_inside width 0 x out start j (omega arith) (omega arith) (omega arith)

-- A store keeps a buffer of bytes one.
pub store-IsBytes :
    (width : ℕ) (out : List ℕ) (start x : ℕ)
    → start + width ≤ length out
    → IsBytes out
    → IsBytes (store width out start x)
store-IsBytes width out start x fits b j = elim place [
  | inl away ↦ rw (store_outside width out start x j away) (b j)
  | inr within ↦
      rw (offset within, store_inside width out start x (j - start) (omega arith) fits)
        (omega arith)
]
  where
    place : ((j < start) ⊎ (start + width ≤ j)) ⊎ ((start ≤ j) × (j < start + width))
    place = omega arith

    offset : (start ≤ j) × (j < start + width) → j ≡ start + (j - start)
    offset h = omega arith

-- Where a field of at most eight bytes fits into a buffer of bytes, a load of the field that a
-- store wrote gives the stored number, narrowed to the width.
pub load-store :
    (width : ℕ) (out : List ℕ) (start x : ℕ)
    → width ≤ 8
    → start + width ≤ length out
    → IsBytes out
    → load width (store width out start x) start ≡ x % 2 ^ (8 * width)
load-store width out start x w fits b =
    load-value width (store width out start x) start (store-IsBytes width out start x fits b) w
    ∙ value_of_digits width x (store width out start x) start
        (λ j h. store_inside width out start x j h fits)
