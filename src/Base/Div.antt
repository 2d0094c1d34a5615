-- ===== src/Base/Div.antt =====
-- Quotients and remainders by a power of two that is not a numeral, and products of powers.
use native.Mathlib.Nat.{
  pow-suc, mul-add-div_right, div-eq_of_lt, div-add-mod', mul_assoc, mul_comm, add-zero, add-suc,
  mod-lt, mul-lt-mul_of_pos_right, div-lt_iff_lt-mul,
}
use Prim.Native.Nat.{ℕ, zero, suc, ◌+◌, ◌-◌, ◌*◌, ◌/◌, ◌%◌, ◌^◌, ◌≤◌, ◌<◌}
use mathlib.Core.Path.{◌≡◌, sym, ap, ◌∙◌}
use native.Mathlib.Omega.{arith}

pub div_of : (k m r : ℕ) → r < m → (k * m + r) / m ≡ k
div_of k m r h = omega (arith, mul-add-div_right {m = m} (omega arith) k r, div-eq_of_lt h)

pub mod_of : (k m r : ℕ) → r < m → (k * m + r) % m ≡ r
mod_of k m r h = omega (arith, div-add-mod' (k * m + r) m, ap (λ (t : ℕ). t * m) (div_of k m r h))

pub pow_add : (a b : ℕ) → 2 ^ (a + b) ≡ 2 ^ a * 2 ^ b
pow_add a zero = rw (add-zero a) (omega arith)
pow_add a (suc b) =
    rw (add-suc a b, pow-suc 2 (a + b), pow_add a b, pow-suc 2 b) (mul_assoc (2 ^ a) (2 ^ b) 2)

pub pow_split : (k s : ℕ) → s ≤ k → 2 ^ s * 2 ^ (k - s) ≡ 2 ^ k
pow_split k s h = sym (pow_add s (k - s)) ∙ ap (λ e. 2 ^ e) (omega arith)

-- A product reduced by a multiple of its factor.
pub mul-mod-mul : (v p q : ℕ) → 0 < q → v * p % (q * p) ≡ v % q * p
mul-mod-mul v zero q h = omega arith
mul-mod-mul v (suc p) q h =
    let small : v % q * suc p < q * suc p = mul-lt-mul_of_pos_right (mod-lt v h) (omega arith) in
    let parts : v / q * (q * suc p) + v % q * suc p ≡ v * suc p =
      omega (arith, ap (λ (t : ℕ). t * suc p) (div-add-mod' v q)) in
    rw (← parts) (mod_of (v / q) (q * suc p) (v % q * suc p) small)

pub div-lt : (v p q : ℕ) → v < p * q → v / q < p
div-lt v p zero h = absurd (omega arith)
div-lt v p (suc q) h = (div-lt_iff_lt-mul (omega arith)).1 h

pub mul-mod_of : (v p q w : ℕ) → p * q ≡ w → 0 < q → v * p % w ≡ v % q * p
mul-mod_of v p q w e h = rw (← e, mul_comm p q) (mul-mod-mul v p q h)
