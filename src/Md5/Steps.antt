-- ===== src/Md5/Steps.antt =====
-- `ApplyStep` and `Add` of include/rest_rpc/md5.hpp: bounds, the step of RFC 1321, and the way back.
use rest_rpc.Base.{
  ℕ, zero, suc, ◌+◌, ◌-◌, ◌*◌, ◌/◌, ◌%◌, ◌^◌, ◌≤◌, ◌<◌, ◌≡◌, sym, ◌∙◌, ap, arith, get_or,
}
use rest_rpc.Base.Words.{u32}
use rest_rpc.Md5.{
  IntermediateData, RoundData, k_constants, calc_f, calc_g, get_shift, left_rotate, apply_step, add,
  apply_steps,
}
use rest_rpc.Md5.Mixing.{rfc_mix, rfc_index, calc_f-eq-rfc_mix, calc_g-eq-rfc_index}
use rest_rpc.Md5.Rotation.{left_rotate-eq, left_rotate_back, get_shift_bounds}

pub record IsWords (s : IntermediateData) : Type 0 where
  pub a_fits : s.a < 2 ^ 32
  pub b_fits : s.b < 2 ^ 32
  pub c_fits : s.c < 2 ^ 32
  pub d_fits : s.d < 2 ^ 32

-- "X <<< s" of the RFC, for a word.
abbrev pub rotate : ℕ → ℕ → ℕ
rotate v s = v % 2 ^ (32 - s) * 2 ^ s + v / 2 ^ (32 - s)

-- a = b + ((a + mix(b, c, d) + X[k] + T[i]) <<< s), and the registers move on by one.
abbrev pub rfc_step : ℕ → RoundData → IntermediateData → IntermediateData
rfc_step i x s = record {
  a = s.d;
  b =
      (s.b
        + rotate
            ((s.a + rfc_mix i s.b s.c s.d + get_or x (rfc_index i) 0 + get_or k_constants i 0)
              % 2 ^ 32)
            (get_shift i))
      % 2 ^ 32;
  c = s.b;
  d = s.c;
}

sum_once : (m a k x : ℕ) → (((m + a) % 2 ^ 32 + k) % 2 ^ 32 + x) % 2 ^ 32 ≡ (a + m + x + k) % 2 ^ 32
sum_once m a k x = omega arith

shift-lt : (i : ℕ) → i < 64 → get_shift i < 32
shift-lt i h = omega (arith, get_shift_bounds i h)

-- On words, each of the 64 steps is the RFC's and gives words again.
pub apply_step-rfc_step :
    (i : ℕ) (x : RoundData) (s : IntermediateData)
    → i < 64
    → IsWords s
    → (apply_step i x s ≡ rfc_step i x s) × IsWords (apply_step i x s)
unfolding apply_step
apply_step-rfc_step i x s h w = (same, words)
  where
    same : apply_step i x s ≡ rfc_step i x s
    same = rw (
      calc_g-eq-rfc_index i h,
      calc_f-eq-rfc_mix i s.b s.c s.d w.b_fits w.c_fits w.d_fits,
      sum_once (rfc_mix i s.b s.c s.d) s.a (get_or k_constants i 0) (get_or x (rfc_index i) 0),
      left_rotate-eq (get_shift i) (shift-lt i h)
          ((s.a + rfc_mix i s.b s.c s.d + get_or x (rfc_index i) 0 + get_or k_constants i 0)
            % 2 ^ 32)
          (omega arith),
    )

    words : IsWords (apply_step i x s)
    words = record { a_fits = w.d_fits; b_fits = omega arith; c_fits = w.b_fits; d_fits = w.c_fits }

abbrev step_sum : ℕ → ℕ → ℕ → ℕ → ℕ
step_sum m k x a = u32 (u32 (u32 (m + a) + k) + x)

step_sum-injective :
    (m k x b r a a' : ℕ)
    → (4 ≤ r) × (r ≤ 23)
    → a < 2 ^ 32
    → a' < 2 ^ 32
    → u32 (b + left_rotate (step_sum m k x a) r) ≡ u32 (b + left_rotate (step_sum m k x a') r)
    → a ≡ a'
step_sum-injective m k x b r a a' h p q e = omega (arith, sums)
  where
    one :
        (left_rotate (left_rotate (step_sum m k x a) r) (32 - r) ≡ step_sum m k x a)
        × (left_rotate (step_sum m k x a) r < 2 ^ 32)
    one = left_rotate_back (step_sum m k x a) r (omega arith) (omega arith) (omega arith)

    two :
        (left_rotate (left_rotate (step_sum m k x a') r) (32 - r) ≡ step_sum m k x a')
        × (left_rotate (step_sum m k x a') r < 2 ^ 32)
    two = left_rotate_back (step_sum m k x a') r (omega arith) (omega arith) (omega arith)

    rotated : left_rotate (step_sum m k x a) r ≡ left_rotate (step_sum m k x a') r
    rotated = omega (arith, e, one.1, two.1)

    sums : step_sum m k x a ≡ step_sum m k x a'
    sums = sym one.0 ∙ ap (λ y. left_rotate y (32 - r)) rotated ∙ two.0

-- No step loses anything: for the same words of the message, two states that a step takes to one
-- state are one.
pub apply_step-injective :
    (i : ℕ) (x : RoundData) (s t : IntermediateData)
    → i < 64
    → IsWords s
    → IsWords t
    → apply_step i x s ≡ apply_step i x t
    → s ≡ t
unfolding apply_step
apply_step-injective i x s t h v w e = ground (arith, same_a, same_b, same_c, same_d)
  where
    same_d : s.d ≡ t.d
    same_d = ap (λ r. r.a) e

    same_b : s.b ≡ t.b
    same_b = ap (λ r. r.c) e

    same_c : s.c ≡ t.c
    same_c = ap (λ r. r.d) e

    same_a : s.a ≡ t.a
    same_a =
        step_sum-injective (calc_f i t.b t.c t.d) (get_or k_constants i 0) (get_or x (calc_g i) 0)
          t.b (get_shift i) s.a t.a (get_shift_bounds i h) v.a_fits w.a_fits
          (rw (same_b, same_c, same_d) at (ap (λ r. r.b) e))

pub add-IsWords : (s t : IntermediateData) → IsWords (add s t)
unfolding add
add-IsWords s t = omega arith

pub apply_steps-IsWords :
    (left i : ℕ) (x : RoundData) (s : IntermediateData)
    → i + left ≤ 64
    → IsWords s
    → IsWords (apply_steps left i x s)
unfolding apply_steps
apply_steps-IsWords zero i x s h w = w
apply_steps-IsWords (suc left) i x s h w =
    apply_steps-IsWords left (i + 1) x (apply_step i x s) (omega arith)
      (apply_step-rfc_step i x s (omega arith) w).1
