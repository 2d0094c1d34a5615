-- ===== src/IoContextPool/Examples.antt =====
-- The theorem on include/rest_rpc/io_context_pool.hpp for a pool of four contexts.
use rest_rpc.Base.{◌<◌, ◌≢◌, arith}
use rest_rpc.IoContextPool.{IoContextPool, io_context_pool, size, get_io_context}
use rest_rpc.IoContextPool.RoundRobin.{calls, get_io_context-round_robin}

abbrev four : IoContextPool
four = io_context_pool 4

get_io_context-round_robin_example :
    ((get_io_context (calls 1 four)).1 ≢ (get_io_context (calls 4 four)).1)
    × ((get_io_context (calls 1 four)).1 < size four)
    × ((get_io_context (calls 4 four)).1 < size four)
unfolding io_context_pool size
get_io_context-round_robin_example =
    get_io_context-round_robin four 1 4 (omega arith) (omega arith) (omega arith) (omega arith)
