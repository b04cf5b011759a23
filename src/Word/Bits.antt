-- ===== src/Word/Bits.antt =====
-- `&`, `|` and `^` of C++ as arithmetic: the law of the lowest digit, shifts, masks, fields.
use Prim.Native.Nat.{digits, bitwise, differ, bit_and-bitwise, bit_or-bitwise, bit_xor-bitwise}
use native.Mathlib.Nat.{
  pow-zero, pow-succ', div-div-eq-div-mul, div-one, zero-add, one-le-pow, div-add-mod, mod-lt,
  div-eq_of_lt,
}
use mini_tool_chain.Base.{
  ℕ, zero, suc, ◌+◌, ◌-◌, ◌*◌, ◌/◌, ◌%◌, ◌^◌, ◌≤◌, ◌<◌, min, max, bit_and, bit_or, bit_xor, ◌≡◌,
  refl, ap, ◌∙◌, arith,
}

-- Any operation on digits: `z` is what is left when the first number has run out.
module _ (z : ℕ → ℕ) (f : ℕ → ℕ → ℕ) (ends : (b : ℕ) → z b ≡ z (b / 2) * 2 + f 0 (b % 2)) where
  more_fuel : (n a b : ℕ) → a ≤ n → digits z f (suc n) a b ≡ digits z f n a b
  more_fuel zero zero b h = refl
  more_fuel zero (suc a) b h = absurd (omega arith)
  more_fuel (suc n) zero b h = refl
  more_fuel (suc n) (suc a) b h =
      ap (λ (t : ℕ). t * 2 + f (suc a % 2) (b % 2)) (more_fuel n (suc a / 2) (b / 2) (omega arith))

  spare_fuel : (k a b n : ℕ) → n ≡ k + a → digits z f n a b ≡ bitwise z f a b
  spare_fuel zero a b n h = rw h (rw zero-add)
  spare_fuel (suc k) a b n h =
      rw (fuel_eq, more_fuel (k + a) a b (omega arith)) (spare_fuel k a b (k + a) refl)
    where
      fuel_eq : n ≡ suc (k + a)
      fuel_eq = omega arith

  bitwise_step : (a b : ℕ) → bitwise z f a b ≡ bitwise z f (a / 2) (b / 2) * 2 + f (a % 2) (b % 2)
  bitwise_step zero b = ends b
  bitwise_step (suc a) b =
      ap (λ (t : ℕ). t * 2 + f (suc a % 2) (b % 2))
        (spare_fuel (a - suc a / 2) (suc a / 2) (b / 2) a (omega arith))

and_step : (m n : ℕ) → bit_and m n ≡ bit_and (m / 2) (n / 2) * 2 + min (m % 2) (n % 2)
and_step m n = simp bit_and-bitwise (bitwise_step (λ d. zero) min (λ d. omega arith) m n)

or_step : (m n : ℕ) → bit_or m n ≡ bit_or (m / 2) (n / 2) * 2 + max (m % 2) (n % 2)
or_step m n = simp bit_or-bitwise (bitwise_step (λ d. d) max (λ d. omega arith) m n)

xor_step : (m n : ℕ) → bit_xor m n ≡ bit_xor (m / 2) (n / 2) * 2 + differ (m % 2) (n % 2)
xor_step m n = simp bit_xor-bitwise (bitwise_step (λ d. d) differ (λ d. omega arith) m n)

differ-lt : (x y : ℕ) → x < 2 → y < 2 → differ x y < 2
differ-lt zero y p q = q
differ-lt (suc x) zero p q = p
differ-lt (suc x) (suc y) p q = differ-lt x y (omega arith) (omega arith)

-- An operation with such a step commutes with a shift to the right.
module _ (op f : ℕ → ℕ → ℕ) (step : (a b : ℕ) → op a b ≡ op (a / 2) (b / 2) * 2 + f (a % 2) (b % 2))
    (digit : (x y : ℕ) → x < 2 → y < 2 → f x y < 2) where
  op_half : (a b : ℕ) → op a b / 2 ≡ op (a / 2) (b / 2)
  op_half a b = omega (arith, step a b, digit (a % 2) (b % 2) (omega arith) (omega arith))

  op_shift : (k a b : ℕ) → op a b / 2 ^ k ≡ op (a / 2 ^ k) (b / 2 ^ k)
  op_shift zero a b = simp (pow-zero, div-one)
  op_shift (suc k) a b =
      rw (half_first (op a b), half_first a, half_first b, op_half a b) (op_shift k (a / 2) (b / 2))
    where
      half_first : (n : ℕ) → n / 2 ^ suc k ≡ n / 2 / 2 ^ k
      half_first n = rw (pow-succ', ← div-div-eq-div-mul n 2 (2 ^ k))

pub and_shift : (k a b : ℕ) → bit_and a b / 2 ^ k ≡ bit_and (a / 2 ^ k) (b / 2 ^ k)
and_shift = op_shift bit_and min and_step (λ x y p q. omega arith)

pub or_shift : (k a b : ℕ) → bit_or a b / 2 ^ k ≡ bit_or (a / 2 ^ k) (b / 2 ^ k)
or_shift = op_shift bit_or max or_step (λ x y p q. omega arith)

pub xor_shift : (k a b : ℕ) → bit_xor a b / 2 ^ k ≡ bit_xor (a / 2 ^ k) (b / 2 ^ k)
xor_shift = op_shift bit_xor differ xor_step differ-lt

two_pow_pos : (k : ℕ) → 0 < 2 ^ k
two_pow_pos k = one-le-pow k 2 (omega arith)

lt_of_div-zero : (n m : ℕ) → 0 < m → n / m ≡ 0 → n < m
lt_of_div-zero n m p h = omega (arith, div-add-mod n m, ap (λ (t : ℕ). m * t) h, mod-lt n p)

-- Numbers below `2 ^ k` stay below it.
module _ (k a b : ℕ) (ha : a < 2 ^ k) (hb : b < 2 ^ k) where
  pub and-lt : bit_and a b < 2 ^ k
  and-lt = lt_of_div-zero _ _ (two_pow_pos k) (rw (and_shift, div-eq_of_lt ha, div-eq_of_lt hb))

  pub or-lt : bit_or a b < 2 ^ k
  or-lt = lt_of_div-zero _ _ (two_pow_pos k) (rw (or_shift, div-eq_of_lt ha, div-eq_of_lt hb))

  pub xor-lt : bit_xor a b < 2 ^ k
  xor-lt = lt_of_div-zero _ _ (two_pow_pos k) (rw (xor_shift, div-eq_of_lt ha, div-eq_of_lt hb))

mod_double : (a m : ℕ) → a % (2 * m) ≡ a / 2 % m * 2 + a % 2
mod_double a m = omega (
  arith,
  div-add-mod a (2 * m),
  ap (λ (t : ℕ). m * t) (div-div-eq-div-mul a 2 m),
  div-add-mod (a / 2) m,
)

mask_half : (k : ℕ) → (2 ^ suc k - 1) / 2 ≡ 2 ^ k - 1
mask_half k = omega (arith, pow-succ' 2 k, two_pow_pos k)

mask_odd : (k : ℕ) → (2 ^ suc k - 1) % 2 ≡ 1
mask_odd k = omega (arith, pow-succ' 2 k, two_pow_pos k)

and-zero : (n a : ℕ) → a ≤ n → bit_and a 0 ≡ 0
and-zero zero a h = rw (a_zero)
  where
    a_zero : a ≡ 0
    a_zero = omega arith
and-zero (suc n) a h = omega (arith, and_step a 0, and-zero n (a / 2) (omega arith))

or-zero : (n a : ℕ) → a ≤ n → bit_or a 0 ≡ a
or-zero zero a h = rw (a_zero)
  where
    a_zero : a ≡ 0
    a_zero = omega arith
or-zero (suc n) a h = omega (arith, or_step a 0, or-zero n (a / 2) (omega arith))

-- `a & ((1 << k) - 1)`
pub and_mask : (k a : ℕ) → bit_and a (2 ^ k - 1) ≡ a % 2 ^ k
and_mask zero a = and-zero a a (omega arith) ∙ omega arith
and_mask (suc k) a =
    rw (pow-succ' 2 k, mod_double a (2 ^ k), ← pow-succ' 2 k)
      (and_step a (2 ^ suc k - 1) ∙ rw (mask_half k, mask_odd k, and_mask k (a / 2)) (omega arith))

double_power : (q k : ℕ) → q * 2 ^ suc k ≡ 2 * (q * 2 ^ k)
double_power q k = omega (arith, ap (λ (t : ℕ). q * t) (pow-succ' 2 k))

-- `(q << k) | r` where `r` fits the `k` bits below.
pub or_fields : (k q r : ℕ) → r < 2 ^ k → bit_or (q * 2 ^ k) r ≡ q * 2 ^ k + r
or_fields zero q r h = rw r_zero (or-zero (q * 2 ^ 0) (q * 2 ^ 0) (omega arith) ∙ omega arith)
  where
    r_zero : r ≡ 0
    r_zero = omega arith
or_fields (suc k) q r h = rw double_power (
    or_step (2 * (q * 2 ^ k)) r
    ∙ rw (halves, or_fields k q (r / 2) (omega (arith, pow-succ' 2 k))) (omega arith))
  where
    halves : 2 * (q * 2 ^ k) / 2 ≡ q * 2 ^ k
    halves = omega arith

differ-zero : (x : ℕ) → differ x 0 ≡ x
differ-zero zero = refl
differ-zero (suc x) = refl

xor_top_step : (k t : ℕ) → bit_xor t (2 ^ suc k) ≡ bit_xor (t / 2) (2 ^ k) * 2 + t % 2
xor_top_step k t = xor_step t (2 ^ suc k) ∙ rw (halves, even, differ-zero)
  where
    halves : 2 ^ suc k / 2 ≡ 2 ^ k
    halves = omega (arith, pow-succ' 2 k)

    even : 2 ^ suc k % 2 ≡ 0
    even = omega (arith, pow-succ' 2 k)

-- `t ^ (1 << k)` for a `t` of `k + 1` bits: the top bit is flipped.
pub xor_top_low : (k t : ℕ) → t < 2 ^ k → bit_xor t (2 ^ k) ≡ t + 2 ^ k
xor_top_low zero t h = rw t_zero
  where
    t_zero : t ≡ 0
    t_zero = omega arith
xor_top_low (suc k) t h =
    xor_top_step k t
    ∙ omega (arith, pow-succ' 2 k, xor_top_low k (t / 2) (omega (arith, pow-succ' 2 k)))

pub xor_top_high : (k t : ℕ) → 2 ^ k ≤ t → t < 2 ^ suc k → bit_xor t (2 ^ k) ≡ t - 2 ^ k
xor_top_high zero t l h = rw t_one
  where
    t_one : t ≡ 1
    t_one = omega arith
xor_top_high (suc k) t l h =
    xor_top_step k t
    ∙ omega (
      arith,
      pow-succ' 2 k,
      xor_top_high k (t / 2) (omega (arith, pow-succ' 2 k))
          (omega (arith, pow-succ' 2 k, pow-succ' 2 (suc k))),
    )

or_comm_below : (n a b : ℕ) → a ≤ n → b ≤ n → bit_or a b ≡ bit_or b a
or_comm_below zero a b h k = ground (arith, or_step a b)
or_comm_below (suc n) a b h k =
    omega
      (arith, or_step a b, or_step b a, or_comm_below n (a / 2) (b / 2) (omega arith) (omega arith))

pub or_comm : (a b : ℕ) → bit_or a b ≡ bit_or b a
or_comm a b = or_comm_below (a + b) a b (omega arith) (omega arith)

-- `a % (m * n)` by its two parts.
pub mod_mul : (a m n : ℕ) → a % (m * n) ≡ a / m % n * m + a % m
mod_mul a m n = omega (
  arith,
  div-add-mod a (m * n),
  ap (λ (t : ℕ). m * (n * t)) (div-div-eq-div-mul a m n),
  div-add-mod a m,
  ap (λ (t : ℕ). m * t) (div-add-mod (a / m) n),
)

pub two_pow-add : (a b : ℕ) → 2 ^ (a + b) ≡ 2 ^ a * 2 ^ b
two_pow-add zero b = rw zero-add (omega arith)
two_pow-add (suc a) b =
    ap (λ (t : ℕ). 2 ^ t) {y = suc (a + b)} (omega arith)
    ∙ omega (
      arith,
      pow-succ' 2 (a + b),
      pow-succ' 2 a,
      two_pow-add a b,
      ap (λ (t : ℕ). t * 2 ^ b) (pow-succ' 2 a),
    )
