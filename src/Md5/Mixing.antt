-- ===== src/Md5/Mixing.antt =====
-- `CalcF` and `CalcG` of include/rest_rpc/md5.hpp against RFC 1321, section 3.4.
use native.Mathlib.Nat.{pow-suc}
use rest_rpc.Base.{
  ℕ, zero, suc, ◌+◌, ◌-◌, ◌*◌, ◌/◌, ◌%◌, ◌^◌, ◌≤◌, ◌<◌, bit_and, bit_or, bit_xor, ◌≡◌, arith, ltb,
  if◌then◌else◌, ◌==◌,
}
use rest_rpc.Base.Bits.{bit_and-mod, bit_xor-mod, eq_of_digits, bit_digits, bit_and_comm}
use rest_rpc.Base.Words.{not32}
use rest_rpc.Md5.{calc_f, calc_g}

-- `~x` on `k` bits.
abbrev not_bits : ℕ → ℕ → ℕ
not_bits k x = 2 ^ k - 1 - x

not_bits-div : (k x : ℕ) → x < 2 ^ suc k → not_bits (suc k) x / 2 ≡ not_bits k (x / 2)
not_bits-div k x h = omega (arith, pow-suc 2 k)

not_bits-mod : (k x : ℕ) → x < 2 ^ suc k → not_bits (suc k) x % 2 ≡ 1 - x % 2
not_bits-mod k x h = omega (arith, pow-suc 2 k)

half-lt : (k x : ℕ) → x < 2 ^ suc k → x / 2 < 2 ^ k
half-lt k x h = omega (arith, pow-suc 2 k)

-- `z ^ (x & (y ^ z))` chooses `y` where `x` has a one and `z` where it has a zero.
xor-and-xor :
    (k x y z : ℕ)
    → x < 2 ^ k
    → y < 2 ^ k
    → z < 2 ^ k
    → bit_xor z (bit_and x (bit_xor y z)) ≡ bit_or (bit_and x y) (bit_and (not_bits k x) z)
xor-and-xor zero x y z p q r =
    let ex : x ≡ 0 = omega arith in
    let ey : y ≡ 0 = omega arith in let ez : z ≡ 0 = omega arith in rw (ex, ey, ez)
xor-and-xor (suc k) x y z p q r =
    eq_of_digits _ _
      (simp (bit_digits, not_bits-div k x p)
        (xor-and-xor k (x / 2) (y / 2) (z / 2) (half-lt k x p) (half-lt k y q) (half-lt k z r)))
      (simp (bit_digits, not_bits-mod k x p)
        (omega (arith, bit_and-mod x (bit_xor y z), bit_xor-mod y z)))

-- F, G, H and I of the RFC on 32-bit words, chosen by the round.
abbrev pub rfc_mix : ℕ → ℕ → ℕ → ℕ → ℕ
rfc_mix i x y z =
    if ltb i 16
    then bit_or (bit_and x y) (bit_and (not32 x) z)
    else if ltb i 32
    then bit_or (bit_and x z) (bit_and y (not32 z))
    else if ltb i 48
    then bit_xor (bit_xor x y) z
    else bit_xor y (bit_or x (not32 z))

-- On 32-bit words the mixing function of every round, in the form with fewer operations that the
-- code uses, is the RFC's F, G, H or I.
pub calc_f-eq-rfc_mix :
    (i b c d : ℕ) → b < 2 ^ 32 → c < 2 ^ 32 → d < 2 ^ 32 → calc_f i b c d ≡ rfc_mix i b c d
unfolding calc_f
calc_f-eq-rfc_mix i b c d p q r =
    let g : bit_xor c (bit_and d (bit_xor b c)) ≡ bit_or (bit_and b d) (bit_and c (not32 d)) = rw (
      bit_and_comm 32 b d p r,
      bit_and_comm 32 c (not32 d) q (omega arith),
      xor-and-xor 32 d b c r p q,
    ) in
    ground (arith, xor-and-xor 32 b c d p q r, g)

-- The indices of the RFC's four rounds: k, 5k + 1, 3k + 5 and 7k modulo 16.
abbrev pub rfc_index : ℕ → ℕ
rfc_index i =
    if ltb i 16
    then i
    else if ltb i 32
    then (5 * i + 1) % 16
    else if ltb i 48
    then (3 * i + 5) % 16
    else 7 * i % 16

-- For the 64 steps the word index is the RFC's.
pub calc_g-eq-rfc_index : (i : ℕ) → i < 64 → calc_g i ≡ rfc_index i
unfolding calc_g
calc_g-eq-rfc_index i h = ground arith

-- The step of round `r` that reads word `j`: the inverse of the index in each round.
abbrev pub step_reading : ℕ → ℕ → ℕ
step_reading r j =
    16 * r
    + (if r == 0
        then j
        else if r == 1
        then (13 * j + 3) % 16
        else if r == 2
        then (11 * j + 9) % 16
        else 7 * j % 16)

-- Each of the four rounds reads every one of the sixteen words: word `j` in step
-- `step_reading r j`, which lies in round `r`.
pub calc_g-step_reading :
    (r j : ℕ)
    → r < 4
    → j < 16
    → (16 * r ≤ step_reading r j)
      × (step_reading r j < 16 * r + 16)
      × (calc_g (step_reading r j) ≡ j)
unfolding calc_g
calc_g-step_reading zero j p q = (omega arith, omega arith, ground arith)
calc_g-step_reading (suc zero) j p q = (omega arith, omega arith, ground arith)
calc_g-step_reading (suc (suc zero)) j p q = (omega arith, omega arith, ground arith)
calc_g-step_reading (suc (suc (suc zero))) j p q = (omega arith, omega arith, ground arith)
calc_g-step_reading (suc (suc (suc (suc r)))) j p q = absurd (omega arith)

-- No round reads a word twice: two steps of round `r` that read one word are one step.
pub calc_g-injective :
    (r i j : ℕ)
    → r < 4
    → 16 * r ≤ i
    → i < 16 * r + 16
    → 16 * r ≤ j
    → j < 16 * r + 16
    → calc_g i ≡ calc_g j
    → i ≡ j
unfolding calc_g
calc_g-injective zero i j p a b c d e = ground arith
calc_g-injective (suc zero) i j p a b c d e = ground arith
calc_g-injective (suc (suc zero)) i j p a b c d e = ground arith
calc_g-injective (suc (suc (suc zero))) i j p a b c d e = ground arith
calc_g-injective (suc (suc (suc (suc r)))) i j p a b c d e = absurd (omega arith)
