-- ===== src/Transport/Pipe.antt =====
-- A transport that can be run: the bytes that the peer has sent, and those that it will get.
use rest_rpc.Base.{
  ℕ, ◌≡◌, ap, ◌∙◌, arith, List, [], ◌++◌, length, length-append, take, drop, length-take, Bool,
  true, false, ltb, if◌then◌else◌, take-append, drop-append,
}
use rest_rpc.ErrorCode.{ErrorCode, success, asio_misc}
use rest_rpc.Transport.{Transport, ReadResult, read, failed}

pub record Pipe : Type 0 where
  pub incoming : List ℕ
  pub outgoing : List ℕ
  pub clock : ℕ
  pub is_open : Bool

-- `asio::error::eof`.
abbrev pub eof : ErrorCode
eof = record { value = 2; category = asio_misc }

unfoldable pub pipe_read : ℕ → Pipe → Pipe × ReadResult
pipe_read n p =
    if ltb (length p.incoming) n
    then (record p { incoming = [] }, failed eof)
    else (record p { incoming = drop n p.incoming }, read (take n p.incoming))

-- A write to a closed pipe fails with "bad descriptor".
unfoldable pub pipe_write : List ℕ → Pipe → Pipe × ErrorCode
pipe_write bytes p =
    if p.is_open
    then (record p { outgoing = p.outgoing ++ bytes }, success)
    else (p, record { value = 9; category = asio_misc })

unfoldable pub pipe_close : Pipe → Pipe
pipe_close p = record p { is_open = false }

pub pipe_read-length :
    (n : ℕ) (p p' : Pipe) (bytes : List ℕ) → pipe_read n p ≡ (p', read bytes) → length bytes ≡ n
unfolding pipe_read
pipe_read-length n p p' bytes h = ground (arith, length-take n p.incoming)

abbrev pub pipe_transport : Transport
pipe_transport = record {
  Net = Pipe;
  now = λ p. p.clock;
  async_read = pipe_read;
  async_write = pipe_write;
  close_socket = pipe_close;
  max_size = 0x7fffffff;
  async_read-length = pipe_read-length;
}

-- A read of what the peer has sent first takes that off the front.
pub pipe_read-append :
    (bytes rest : List ℕ) (p : Pipe)
    → p.incoming ≡ bytes ++ rest
    → pipe_read (length bytes) p ≡ (record p { incoming = rest }, read bytes)
unfolding pipe_read
pipe_read-append bytes rest p h = ground (
  arith,
  ap length h,
  length-append bytes rest,
  ap (take (length bytes)) h ∙ take-append bytes rest,
  ap (drop (length bytes)) h ∙ drop-append bytes rest,
)

-- A write to an open pipe is appended to what the peer will get.
pub pipe_write_open :
    (bytes : List ℕ) (p : Pipe)
    → p.is_open ≡ true
    → pipe_write bytes p ≡ (record p { outgoing = p.outgoing ++ bytes }, success)
unfolding pipe_write
pipe_write_open bytes p e =
    ap {A = Bool}
      (λ b.
        if b
        then (record p { outgoing = p.outgoing ++ bytes }, success)
        else (p, record { value = 9; category = asio_misc }))
      e
