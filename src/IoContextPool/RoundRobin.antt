-- ===== src/IoContextPool/RoundRobin.antt =====
-- The contexts that include/rest_rpc/io_context_pool.hpp gives out, call after call.
use native.Mathlib.Nat.{div-add-mod', mod-lt, mul-le-mul_right}
use native.Mathlib.Decide.{dec_lt}
use rest_rpc.Base.{ℕ, zero, suc, ◌+◌, ◌*◌, ◌/◌, ◌%◌, ◌^◌, ◌<◌, ◌≡◌, ◌≢◌, ◌∙◌, ap, arith}
use rest_rpc.IoContextPool.{IoContextPool, size, get_io_context}

-- The pool after so many calls.
abbrev pub calls : ℕ → IoContextPool → IoContextPool
calls zero p = p
calls (suc k) p = calls k (get_io_context p).0

calls-eq :
    (k : ℕ) (p : IoContextPool) → p.next + k < 2 ^ 64 → calls k p ≡ record p { next = p.next + k }
unfolding get_io_context
calls-eq zero p h =
    let same : p.next ≡ p.next + 0 = omega arith in ap (λ n. record p { next = n }) same
calls-eq (suc k) p h =
    let step : (p.next + 1) % 2 ^ 64 ≡ p.next + 1 = omega arith in
    let sum : p.next + 1 + k ≡ p.next + suc k = omega arith in
    ap (λ n. calls k (record p { next = n })) step
    ∙ calls-eq k (record p { next = p.next + 1 }) (omega arith)
    ∙ ap (λ n. record p { next = n }) sum

-- Numbers less than `n` apart have different remainders.
mod-injective : (n a b : ℕ) → 0 < n → a < b → b < a + n → a % n ≢ b % n
mod-injective n a b pos lt near e = elim (dec_lt (a / n) (b / n)) [
  | yes up ↦ absurd (
      omega (
        arith,
        div-add-mod' a n,
        div-add-mod' b n,
        mul-le-mul_right {m = a / n + 1} {n = b / n} n (omega arith),
        grown,
      ))
  | no up ↦ absurd (
      omega (
        arith,
        div-add-mod' a n,
        div-add-mod' b n,
        mul-le-mul_right {m = b / n} {n = a / n} n (omega arith),
      ))
]
  where
    grown : (a / n + 1) * n ≡ a / n * n + n
    grown = grind arith

-- Until the counter wraps, any two calls fewer than `size` calls apart get different contexts, and
-- both are contexts of the pool.
pub get_io_context-round_robin :
    (p : IoContextPool) (i j : ℕ)
    → 0 < size p
    → i < j
    → j < i + size p
    → p.next + j < 2 ^ 64
    → ((get_io_context (calls i p)).1 ≢ (get_io_context (calls j p)).1)
      × ((get_io_context (calls i p)).1 < size p)
      × ((get_io_context (calls j p)).1 < size p)
unfolding get_io_context size
get_io_context-round_robin p i j pos lt near fits =
    rw (calls-eq i p (omega arith), calls-eq j p fits)
      (
        mod-injective p.io_contexts (p.next + i) (p.next + j) pos (omega arith) (omega arith),
        mod-lt (p.next + i) pos,
        mod-lt (p.next + j) pos,
      )
