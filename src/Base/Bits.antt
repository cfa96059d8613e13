-- ===== src/Base/Bits.antt =====
-- `x & (2^k - 1)` and the wrap of the unsigned types, as remainders.
use Prim.Native.Nat.{
  ℕ, zero, suc, ◌+◌, ◌-◌, ◌*◌, ◌/◌, ◌%◌, ◌^◌, ◌≤◌, ◌<◌, ◌∣◌, min, bit_and, digits, bit_and-bitwise,
}
use mathlib.Core.Path.{◌≡◌, sym, ap, subst, ◌∙◌}
use native.Mathlib.Nat.{
  pow-suc, one-le-pow, mul-add-mod_self_left, mod-eq_of_lt, mod-lt, div-add-mod,
}
use native.Mathlib.Nat.{zero-add, suc-add, mod-mod_of_dvd, dvd-mul_right}
use native.Mathlib.Omega.{arith}

-- A quotient and a remainder in range determine `%`.
pub mod_unique : (m q r a : ℕ) → a ≡ m * q + r → r < m → a % m ≡ r
mod_unique m q r a e h = rw e (mul-add-mod_self_left m q r ∙ mod-eq_of_lt h)

-- Doubling the divisor brings in one more low digit.
mod-double : (m a : ℕ) → 1 ≤ m → a % (2 * m) ≡ a / 2 % m * 2 + a % 2
mod-double m a h =
    mod_unique (2 * m) (a / 2 / m) (a / 2 % m * 2 + a % 2) a (omega (arith, div-add-mod (a / 2) m))
      (omega (arith, mod-lt (a / 2) h))

pow-suc_double : (k : ℕ) → 2 ^ suc k ≡ 2 * 2 ^ k
pow-suc_double k = omega (arith, pow-suc 2 k)

zero_mod : (k : ℕ) → 0 % 2 ^ k ≡ 0
zero_mod k = mod-eq_of_lt (one-le-pow k 2 (omega arith))

-- With a mask of ones, the recursion on binary digits behind `bit_and` keeps as many low digits as
-- the mask has, whatever its fuel.
keep_low : (fuel k x : ℕ) → x ≤ fuel → digits (λ y. 0) min fuel x (2 ^ k - 1) ≡ x % 2 ^ k
keep_low zero k zero h = sym (zero_mod k)
keep_low zero k (suc x) h = absurd (omega (arith, h))
keep_low (suc fuel) k zero h = sym (zero_mod k)
keep_low (suc fuel) zero (suc x) h = omega (arith, keep_low fuel 0 (suc x / 2) (omega (arith, h)))
keep_low (suc fuel) (suc k) (suc x) h = rw (pow-suc_double k) (
    ap (λ m. digits (λ y. 0) min fuel (suc x / 2) m * 2 + min (suc x % 2) ((2 * 2 ^ k - 1) % 2))
      half
    ∙ omega (
      arith,
      positive,
      keep_low fuel k (suc x / 2) (omega (arith, h)),
      mod-double (2 ^ k) (suc x) positive,
    ))
  where
    positive : 1 ≤ 2 ^ k
    positive = one-le-pow k 2 (omega arith)

    half : (2 * 2 ^ k - 1) / 2 ≡ 2 ^ k - 1
    half = omega (arith, positive)

pub bit_and_mask : (k a : ℕ) → bit_and a (2 ^ k - 1) ≡ a % 2 ^ k
bit_and_mask k a = bit_and-bitwise a (2 ^ k - 1) ∙ keep_low a k a (omega arith)

pub two-pow-add : (a b : ℕ) → 2 ^ (a + b) ≡ 2 ^ a * 2 ^ b
two-pow-add zero b = rw zero-add (omega arith)
two-pow-add (suc a) b =
    rw (suc-add, pow-suc_double, pow-suc_double) (omega (arith, two-pow-add a b))

-- `2 ^ 32` is a whole number of rings of `2 ^ k` places.
pub u32_blocks : (k : ℕ) → k ≤ 32 → 2 ^ 32 ≡ 2 ^ k * 2 ^ (32 - k)
u32_blocks k h = ap (λ n. 2 ^ n) fits ∙ two-pow-add k (32 - k)
  where
    fits : 32 ≡ k + (32 - k)
    fits = omega arith

-- Cutting to 32 bits and then masking to `k` bits is masking to `k` bits.
pub mask_u32 : (k a : ℕ) → k ≤ 32 → bit_and (a % 2 ^ 32) (2 ^ k - 1) ≡ a % 2 ^ k
mask_u32 k a h =
    bit_and_mask k (a % 2 ^ 32)
    ∙ mod-mod_of_dvd (2 ^ k) a
        (subst (λ n. 2 ^ k ∣ n) (sym (u32_blocks k h)) (dvd-mul_right (2 ^ k) (2 ^ (32 - k))))
