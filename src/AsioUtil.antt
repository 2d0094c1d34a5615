-- ===== src/AsioUtil.antt =====
-- include/rest_rpc/asio_util.hpp: the ways to start a coroutine, on an executor or on the pool of the
-- process. A coroutine is a function of the state that it works on. asio's `co_spawn` is a parameter:
-- it takes an executor, a coroutine and a token, and changes the world that asio keeps; and so is `get`,
-- which waits until the future of the last coroutine that was started with `use_future` has its end.
pub mod Starting
mod Examples
use rest_rpc.Base.{ℕ, Option, none, some}
use rest_rpc.Router.{Text}
use rest_rpc.IoContextPool.{IoContextPool}
use rest_rpc.IoContextPool.Global.{get_global_executor}

-- The end of a coroutine: its value, or an exception with a text.
pub data Outcome (R : Type 0) : Type 0 where
  gave : R → Outcome R
  raised : Text → Outcome R

abbrev pub Coro : Type 0 → Type 0 → Type 0
Coro S R = S → S × Outcome R

-- What `co_spawn` is given for the end: nothing to do, a future, or a completion handler.
pub data Token (S R : Type 0) : Type 0 where
  detached : Token S R
  use_future : Token S R
  completion : (Outcome R → S → S) → Token S R

-- The handlers that `async_start` makes of a callback, where the coroutine has a value and where it has
-- none; `R` is value-initialised beside an exception.
unfoldable pub value_handler : {S R : Type 0} → R → (Option Text → R → S → S) → Outcome R → S → S
value_handler r cb (gave r') s = cb none r' s
value_handler r cb (raised e) s = cb (some e) r s

unfoldable pub void_handler : {S R : Type 0} → (Option Text → S → S) → Outcome R → S → S
void_handler cb (gave r) s = cb none s
void_handler cb (raised e) s = cb (some e) s

-- The pool of the process, once there is one, and the world of asio.
pub record Process (W : Type 0) : Type 0 where
  pub pool : Option IoContextPool
  pub world : W

module _ {W S R : Type 0} (co_spawn : ℕ → Coro S R → Token S R → W → W) where
  -- With an executor: `async_start` and `async_future` return at once.
  unfoldable pub async_start_on : ℕ → Coro S R → Process W → Process W
  async_start_on executor coro p = record p { world = co_spawn executor coro detached p.world }

  unfoldable pub async_future_on : ℕ → Coro S R → Process W → Process W
  async_future_on executor coro p = record p { world = co_spawn executor coro use_future p.world }

  -- `async_start` with a callback, by the handler made of it.
  unfoldable pub async_start_then : ℕ → Coro S R → (Outcome R → S → S) → Process W → Process W
  async_start_then executor coro handler p = record p {
    world = co_spawn executor coro (completion handler) p.world;
  }

  -- The overloads without an executor, where `get_global_executor` is called with `size`.
  unfoldable pub async_start : ℕ → Coro S R → Process W → Process W
  async_start size coro p =
      let given = get_global_executor size p.pool in
      async_start_on given.1 coro (record p { pool = given.0 })

  unfoldable pub async_future : ℕ → Coro S R → Process W → Process W
  async_future size coro p =
      let given = get_global_executor size p.pool in
      async_future_on given.1 coro (record p { pool = given.0 })

  module _ (get : W → W × Outcome R) where
    -- The value or the exception of the future.
    unfoldable pub sync_wait_on : ℕ → Coro S R → Process W → Process W × Outcome R
    sync_wait_on executor coro p =
        let waiting = async_future_on executor coro p in
        let r = get waiting.world in (record waiting { world = r.0 }, r.1)

    unfoldable pub sync_wait : ℕ → Coro S R → Process W → Process W × Outcome R
    sync_wait size coro p =
        let given = get_global_executor size p.pool in
        sync_wait_on given.1 coro (record p { pool = given.0 })
