-- ===== src/IoContextPool.antt =====
-- include/rest_rpc/io_context_pool.hpp: the class `io_context_pool`. A context is its position in
-- `io_contexts_`. What runs on a context, and the threads of `run`, are asio's and the system's.
pub mod RoundRobin
pub mod Global
mod Examples
use rest_rpc.Base.{ℕ, ◌+◌, ◌%◌, ◌^◌, ◌==◌, Bool, true, false, if◌then◌else◌}
use rest_rpc.Base.Words.{u64}

-- `works` is the number of work guards, and the flags tell whether `run` and `stop` were called.
pub record IoContextPool : Type 0 where
  pub io_contexts : ℕ
  pub works : ℕ
  pub run_flag : Bool
  pub stop_flag : Bool
  pub next : ℕ

-- The constructor.
unfoldable pub io_context_pool : ℕ → IoContextPool
io_context_pool pool_size =
    let n = if pool_size == 0 then 1 else pool_size in
    record { io_contexts = n; works = n; run_flag = false; stop_flag = false; next = 0 }

-- `run`, with the number of threads that it starts.
unfoldable pub run : IoContextPool → IoContextPool × ℕ
run p = if p.run_flag then (p, 0) else (record p { run_flag = true }, p.io_contexts)

unfoldable pub stop : IoContextPool → IoContextPool
stop p = if p.stop_flag then p else record p { stop_flag = true; works = 0 }

unfoldable pub size : IoContextPool → ℕ
size p = p.io_contexts

-- `get_io_context_ptr`.
unfoldable pub get_io_context : IoContextPool → IoContextPool × ℕ
get_io_context p = (record p { next = u64 (p.next + 1) }, p.next % p.io_contexts)
