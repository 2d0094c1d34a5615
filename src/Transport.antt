-- ===== src/Transport.antt =====
-- What include/rest_rpc/rpc_connection.hpp and rpc_client.hpp use of asio and of the system: a
-- socket, a clock and memory. A value of `Net` is the state of all this outside the program.
pub mod Pipe
pub mod Finite
use rest_rpc.Base.{ℕ, ◌≡◌, List, length, Bool, true}
use rest_rpc.ErrorCode.{ErrorCode, is_error}

-- The end of `asio::async_read` into a buffer: its bytes, or an error.
pub data ReadResult : Type 0 where
  read : List ℕ → ReadResult
  failed : ErrorCode → ReadResult

pub record Transport : Type 1 where
  pub Net : Type 0
  -- `std::chrono::system_clock::now()`.
  pub now : Net → ℕ
  -- `asio::async_read(socket, buffer)` for a buffer of so many bytes.
  pub async_read : ℕ → Net → Net × ReadResult
  -- `asio::async_write(socket, buffers)`, the buffers one after the other.
  pub async_write : List ℕ → Net → Net × ErrorCode
  -- `shutdown` and `close`.
  pub close_socket : Net → Net
  -- The longest string that can be allocated.
  pub max_size : ℕ
  -- A read ends well only when the buffer is full.
  pub async_read-length :
      (n : ℕ) (w w' : Net) (bytes : List ℕ) → async_read n w ≡ (w', read bytes) → length bytes ≡ n
