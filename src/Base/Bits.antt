-- ===== src/Base/Bits.antt =====
-- The native bit operations at variables: the lowest digit and the rest of each operation, masks
-- of low ones, and the or of disjoint fields as a sum.
use Prim.Native.Nat.{
  ℕ, zero, suc, ◌+◌, ◌-◌, ◌*◌, ◌/◌, ◌%◌, ◌^◌, ◌≤◌, ◌<◌, min, max, bit_and, bit_or, bit_xor, digits,
  bitwise, differ, bit_and-bitwise, bit_or-bitwise, bit_xor-bitwise,
}
use mathlib.Core.Path.{◌≡◌, refl, ap, ◌∙◌}
use native.Mathlib.Nat.{pow-suc, one-le-pow}
use native.Mathlib.Omega.{arith}

module _ (z : ℕ → ℕ) (f : ℕ → ℕ → ℕ) where
  -- Fuel beyond the first number changes nothing, one unit of it first.
  one_more : (n x y : ℕ) → x ≤ n → digits z f (suc n) x y ≡ digits z f n x y
  one_more zero zero y h = refl
  one_more (suc n) zero y h = refl
  one_more zero (suc x) y h = absurd (omega arith)
  one_more (suc n) (suc x) y h = rw (one_more n (suc x / 2) (y / 2) (omega arith))

  spare_fuel : (k n m x y : ℕ) → m ≡ n + k → x ≤ n → digits z f m x y ≡ digits z f n x y
  spare_fuel zero n m x y e h =
      let same : m ≡ n = omega arith in ap (λ fuel. digits z f fuel x y) same
  spare_fuel (suc k) n zero x y e h = absurd (omega arith)
  spare_fuel (suc k) n (suc m) x y e h =
      one_more m x y (omega arith) ∙ spare_fuel k n m x y (omega arith) h

  lowest_digit :
      (x y : ℕ)
      → bitwise z f (suc x) y ≡ 2 * bitwise z f (suc x / 2) (y / 2) + f (suc x % 2) (y % 2)
  lowest_digit x y =
      let half = suc x / 2 in
      let spare = spare_fuel (x - half) half x half (y / 2) (omega arith) (omega arith) in
      omega (arith, spare)

pub bit_or_step : (x y : ℕ) → bit_or x y ≡ 2 * bit_or (x / 2) (y / 2) + max (x % 2) (y % 2)
bit_or_step (suc x) y = simp bit_or-bitwise (lowest_digit (λ digit. digit) max x y)
bit_or_step zero y = simp bit_or-bitwise (omega arith)

pub bit_and_step : (x y : ℕ) → bit_and x y ≡ 2 * bit_and (x / 2) (y / 2) + min (x % 2) (y % 2)
bit_and_step (suc x) y = simp bit_and-bitwise (lowest_digit (λ digit. 0) min x y)
bit_and_step zero y = simp bit_and-bitwise (omega arith)

-- The exclusive or of two digits is their sum without the carry.
differ-eq-mod : (x y : ℕ) → x < 2 → y < 2 → differ x y ≡ (x + y) % 2
differ-eq-mod zero y p q = omega arith
differ-eq-mod (suc zero) zero p q = refl
differ-eq-mod (suc zero) (suc zero) p q = refl
differ-eq-mod (suc zero) (suc (suc y)) p q = absurd (omega arith)
differ-eq-mod (suc (suc x)) y p q = absurd (omega arith)

differ_digits : (a b : ℕ) → differ (a % 2) (b % 2) ≡ (a + b) % 2
differ_digits a b = omega (arith, differ-eq-mod (a % 2) (b % 2) (omega arith) (omega arith))

pub bit_xor_step : (x y : ℕ) → bit_xor x y ≡ 2 * bit_xor (x / 2) (y / 2) + (x + y) % 2
bit_xor_step zero y = simp bit_xor-bitwise (omega arith)
bit_xor_step (suc x) y =
    simp bit_xor-bitwise
      (omega (arith, lowest_digit (λ digit. digit) differ x y, differ_digits (suc x) y))

-- The lowest digit and the rest of each operation.
pub bit_or-div : (a b : ℕ) → bit_or a b / 2 ≡ bit_or (a / 2) (b / 2)
bit_or-div a b = omega (arith, bit_or_step a b)

pub bit_or-mod : (a b : ℕ) → bit_or a b % 2 ≡ max (a % 2) (b % 2)
bit_or-mod a b = omega (arith, bit_or_step a b)

pub bit_and-div : (a b : ℕ) → bit_and a b / 2 ≡ bit_and (a / 2) (b / 2)
bit_and-div a b = omega (arith, bit_and_step a b)

pub bit_and-mod : (a b : ℕ) → bit_and a b % 2 ≡ min (a % 2) (b % 2)
bit_and-mod a b = omega (arith, bit_and_step a b)

pub bit_xor-div : (a b : ℕ) → bit_xor a b / 2 ≡ bit_xor (a / 2) (b / 2)
bit_xor-div a b = omega (arith, bit_xor_step a b)

pub bit_xor-mod : (a b : ℕ) → bit_xor a b % 2 ≡ (a + b) % 2
bit_xor-mod a b = omega (arith, bit_xor_step a b)

pub ruleset bit_digits =
    (bit_or-div, bit_or-mod, bit_and-div, bit_and-mod, bit_xor-div, bit_xor-mod)

with_zero : (bound v : ℕ) → v < bound → (bit_or v 0 ≡ v) × (bit_and v 0 ≡ 0)
with_zero zero v h = absurd (omega arith)
with_zero (suc bound) zero h = (refl, refl)
with_zero (suc bound) (suc v) h =
    let half = with_zero bound (suc v / 2) (omega arith) in
    (omega (arith, half.0, bit_or_step (suc v) 0), omega (arith, half.1, bit_and_step (suc v) 0))

pub bit_or-zero : (v : ℕ) → bit_or v 0 ≡ v
bit_or-zero v = (with_zero (suc v) v (omega arith)).0

bit_and-zero : (v : ℕ) → bit_and v 0 ≡ 0
bit_and-zero v = (with_zero (suc v) v (omega arith)).1

-- `(high << k) | low` is a sum when `low` fits `k` bits.
pub bit_or_fields : (k high low : ℕ) → low < 2 ^ k → bit_or (high * 2 ^ k) low ≡ high * 2 ^ k + low
bit_or_fields zero high low h = ground (arith, bit_or-zero high)
bit_or_fields (suc k) high low h =
    let double : high * 2 ^ suc k ≡ 2 * (high * 2 ^ k) =
      omega (arith, ap (λ (power : ℕ). high * power) (pow-suc 2 k)) in
    let rest = bit_or_fields k high (low / 2) (omega (arith, pow-suc 2 k)) in
    ground (arith, bit_or_step (high * 2 ^ suc k) low, double, rest)

-- The fields of a word come apart again by a mask of `k` low bits, which is the remainder.
masked : (k high low : ℕ) → low < 2 ^ k → bit_and (high * 2 ^ k + low) (2 ^ k - 1) ≡ low
masked zero high low h = rw bit_and-zero (omega arith)
masked (suc k) high low h =
    let double : high * 2 ^ suc k ≡ 2 * (high * 2 ^ k) =
      omega (arith, ap (λ (power : ℕ). high * power) (pow-suc 2 k)) in
    let digit = bit_and_step (high * 2 ^ suc k + low) (2 ^ suc k - 1) in
    let rest = masked k high (low / 2) (omega (arith, pow-suc 2 k)) in
    ground (arith, digit, double, pow-suc 2 k, rest)

pub bit_and_mask : (k v : ℕ) → bit_and v (2 ^ k - 1) ≡ v % 2 ^ k
bit_and_mask k v =
    let parts = masked k (v / 2 ^ k) (v % 2 ^ k) in ground (arith, parts, one-le-pow k 2)

pub bit_or_comm : (k a b : ℕ) → a < 2 ^ k → b < 2 ^ k → bit_or a b ≡ bit_or b a
bit_or_comm zero a b p q = ground (arith, bit_or-zero a)
bit_or_comm (suc k) a b p q =
    let left : a / 2 < 2 ^ k = omega (arith, pow-suc 2 k) in
    let right : b / 2 < 2 ^ k = omega (arith, pow-suc 2 k) in
    omega (arith, bit_or_step a b, bit_or_step b a, bit_or_comm k (a / 2) (b / 2) left right)

pub eq_of_digits : (a b : ℕ) → a / 2 ≡ b / 2 → a % 2 ≡ b % 2 → a ≡ b
eq_of_digits a b p q = omega arith

pub bit_and_comm : (k a b : ℕ) → a < 2 ^ k → b < 2 ^ k → bit_and a b ≡ bit_and b a
bit_and_comm zero a b p q =
    let left : a ≡ 0 = omega arith in let right : b ≡ 0 = omega arith in rw (left, right)
bit_and_comm (suc k) a b p q =
    let left : a / 2 < 2 ^ k = omega (arith, pow-suc 2 k) in
    let right : b / 2 < 2 ^ k = omega (arith, pow-suc 2 k) in
    omega (arith, bit_and_step a b, bit_and_step b a, bit_and_comm k (a / 2) (b / 2) left right)

-- The operations stay within `k` bits.
pub bit_or-lt : (k a b : ℕ) → a < 2 ^ k → b < 2 ^ k → bit_or a b < 2 ^ k
bit_or-lt zero a b p q =
    let left : a ≡ 0 = omega arith in
    let right : b ≡ 0 = omega arith in rw (left, right) (omega arith)
bit_or-lt (suc k) a b p q =
    let left : a / 2 < 2 ^ k = omega (arith, pow-suc 2 k) in
    let right : b / 2 < 2 ^ k = omega (arith, pow-suc 2 k) in
    omega (arith, pow-suc 2 k, bit_or_step a b, bit_or-lt k (a / 2) (b / 2) left right)

pub bit_and-lt : (k a b : ℕ) → a < 2 ^ k → b < 2 ^ k → bit_and a b < 2 ^ k
bit_and-lt zero a b p q =
    let left : a ≡ 0 = omega arith in
    let right : b ≡ 0 = omega arith in rw (left, right) (omega arith)
bit_and-lt (suc k) a b p q =
    let left : a / 2 < 2 ^ k = omega (arith, pow-suc 2 k) in
    let right : b / 2 < 2 ^ k = omega (arith, pow-suc 2 k) in
    omega (arith, pow-suc 2 k, bit_and_step a b, bit_and-lt k (a / 2) (b / 2) left right)

pub bit_xor-lt : (k a b : ℕ) → a < 2 ^ k → b < 2 ^ k → bit_xor a b < 2 ^ k
bit_xor-lt zero a b p q =
    let left : a ≡ 0 = omega arith in
    let right : b ≡ 0 = omega arith in rw (left, right) (omega arith)
bit_xor-lt (suc k) a b p q =
    let left : a / 2 < 2 ^ k = omega (arith, pow-suc 2 k) in
    let right : b / 2 < 2 ^ k = omega (arith, pow-suc 2 k) in
    omega (arith, pow-suc 2 k, bit_xor_step a b, bit_xor-lt k (a / 2) (b / 2) left right)
