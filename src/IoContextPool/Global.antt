-- ===== src/IoContextPool/Global.antt =====
-- `get_global_executor` of include/rest_rpc/io_context_pool.hpp: the pool of the whole process.
use rest_rpc.Base.{
  ℕ, suc, ◌+◌, ◌%◌, ◌^◌, ◌<◌, ◌≡◌, refl, ◌∙◌, ap, arith, List, [], ◌∷◌, Option, none, some, length,
}
use rest_rpc.IoContextPool.{IoContextPool, io_context_pool, run, size, get_io_context}

-- `get_executor`, whose result stands for that of its context.
abbrev pub get_executor : IoContextPool → IoContextPool × ℕ
get_executor p = get_io_context p

-- A call with a size; the pool is a static variable, none before the first call, which makes it and
-- has a thread run it.
unfoldable pub get_global_executor : ℕ → Option IoContextPool → Option IoContextPool × ℕ
get_global_executor pool_size none =
    let given = get_executor (run (io_context_pool pool_size)).0 in (some given.0, given.1)
get_global_executor pool_size (some g_io_context_pool) =
    let given = get_executor g_io_context_pool in (some given.0, given.1)

-- Several calls, and their executors.
unfoldable pub global_executors : List ℕ → Option IoContextPool → List ℕ
global_executors [] pool = []
global_executors (n ∷ sizes) pool =
    let given = get_global_executor n pool in given.1 ∷ global_executors sizes given.0

-- The remainders by `m` of the numbers from `i` on, one for each element of a list.
abbrev pub counted : ℕ → ℕ → List ℕ → List ℕ
counted m i [] = []
counted m i (n ∷ sizes) = (i % m) ∷ counted m (suc i) sizes

later_executors :
    (sizes : List ℕ) (p : IoContextPool)
    → p.next + length sizes < 2 ^ 64
    → global_executors sizes (some p) ≡ counted p.io_contexts p.next sizes
unfolding global_executors get_global_executor get_io_context
later_executors [] p h = refl
later_executors (n ∷ sizes) p h =
    let fits : (p.next + 1) % 2 ^ 64 ≡ suc p.next = omega arith in
    ap (λ rest. (p.next % p.io_contexts) ∷ rest)
      (ap (λ next. global_executors sizes (some (record p { next = next }))) fits
        ∙ later_executors sizes (record p { next = suc p.next }) (omega arith))

-- The pool of the process has the size that the first call asks for, or one context where that is
-- none, whatever sizes the other calls ask for, and the calls get its contexts one after the other,
-- over and over, if there are fewer than 2 ^ 64 calls.
pub global_executors-counted :
    (n : ℕ) (sizes : List ℕ)
    → length (n ∷ sizes) < 2 ^ 64
    → global_executors (n ∷ sizes) none ≡ counted (size (io_context_pool n)) 0 (n ∷ sizes)
unfolding global_executors get_global_executor get_io_context run io_context_pool size
global_executors-counted n sizes h =
    later_executors (n ∷ sizes) (run (io_context_pool n)).0 (omega arith)
