-- ===== src/AsioUtil/Examples.antt =====
-- Two coroutines, of which the first throws, and a third that is waited for, for
-- include/rest_rpc/asio_util.hpp, with asio's part as a list of what has been handed to it.
use rest_rpc.Base.{ℕ, Option, none, ◌+◌, ◌≡◌, refl, arith, List, [], ◌∷◌, ◌++◌, map}
use rest_rpc.Base.Text.{codes}
use rest_rpc.Router.{Text}
use rest_rpc.IoContextPool.{io_context_pool, size}
use rest_rpc.IoContextPool.Global.{counted}
use rest_rpc.AsioUtil.{
  Outcome, Coro, Token, detached, use_future, completion, gave, raised, value_handler,
  async_start_then, async_future, sync_wait,
}
use rest_rpc.AsioUtil.Starting.{
  Submission, executors_of, work_of, start_all, sizes_of, sync_wait-start_all,
}

abbrev World : Type 0
World = List (Submission ℕ ℕ)

abbrev handed_over : ℕ → Coro ℕ ℕ → Token ℕ ℕ → World → World
handed_over e coro token w = w ++ ((e, coro, token) ∷ [])

abbrev all_of : World → World
all_of w = w

-- The last one has given 16 when it is waited for.
abbrev sixteen : World → World × Outcome ℕ
sixteen w = (w, gave 16)

abbrev throws : Coro ℕ ℕ
throws n = (n + 1, raised (codes "no"))

abbrev counts : Coro ℕ ℕ
counts n = (n + 10, gave n)

abbrev adds : Option Text → ℕ → ℕ → ℕ
adds e r n = n + r

abbrev some_coros : List (Coro ℕ ℕ)
some_coros = throws ∷ counts ∷ []

sync_wait-start_all_example :
    let before = start_all handed_over 2 some_coros (record { pool = none; world = [] }) in
    let waiting = async_future handed_over 2 counts before in
    let waited = sync_wait handed_over sixteen 2 counts before in
    (executors_of waiting.world
      ≡ [] ++ counted (size (io_context_pool 2)) 0 (sizes_of 2 (some_coros ++ (counts ∷ []))))
    × (work_of waiting.world
        ≡ [] ++ (map (λ coro. (coro, detached)) some_coros ++ ((counts, use_future) ∷ [])))
    × ((waited.0.world, waited.1) ≡ sixteen waiting.world)
    × ((async_start_then handed_over 7 counts (value_handler 0 adds) before).world
        ≡ before.world ++ ((7, counts, completion (value_handler 0 adds)) ∷ []))
sync_wait-start_all_example =
    sync_wait-start_all all_of (λ e coro token w. refl) 2 sixteen some_coros counts [] 7 0 adds
      (omega arith)
