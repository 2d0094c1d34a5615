-- ===== src/Transport/Finite.antt =====
-- Networks over which a bounded number of bytes is still to come, for the loops of
-- include/rest_rpc/rpc_connection.hpp that read until an error.
use rest_rpc.Base.{
  ℕ, zero, suc, [], ◌∷◌, ◌+◌, ◌≤◌, arith, ltb, length, List, drop, Bool-cases, inl, inr,
}
use rest_rpc.Transport.{Transport, ReadResult, read, failed}
use rest_rpc.Transport.Pipe.{Pipe, pipe_transport, pipe_read, pipe_write, pipe_close}

-- What a read of so many bytes leaves, of so many that were still to come.
abbrev pub IsLeft : {N : Type 0} → (N → ℕ) → ℕ → ℕ → N × ReadResult → Type 0
IsLeft pending n before (net', read bytes) = pending net' + n ≤ before
IsLeft pending n before (net', failed ec) = pending net' ≤ before

pub IsLeft-trans :
    {N : Type 0} (pending : N → ℕ) (n before most : ℕ) (r : N × ReadResult)
    → IsLeft pending n before r
    → before ≤ most
    → IsLeft pending n most r
IsLeft-trans pending n before most (net', read bytes) h le = omega (arith, h)
IsLeft-trans pending n before most (net', failed ec) h le = omega (arith, h)

pub record Finite (t : Transport) : Type 0 where
  pub pending : t.Net → ℕ
  pub async_read_left : (n : ℕ) (w : t.Net) → IsLeft pending n (pending w) (t.async_read n w)
  pub async_write_left :
      (bytes : List ℕ) (w : t.Net) → pending (t.async_write bytes w).0 ≤ pending w
  pub close_socket_left : (w : t.Net) → pending (t.close_socket w) ≤ pending w

length-drop : (n : ℕ) (bytes : List ℕ) → n ≤ length bytes → length (drop n bytes) + n ≤ length bytes
length-drop zero bytes h = omega arith
length-drop (suc n) [] h = absurd (omega arith)
length-drop (suc n) (x ∷ bytes) h = omega (arith, length-drop n bytes)

pub pipe_read-IsLeft :
    (n : ℕ) (p : Pipe)
    → IsLeft (λ (q : Pipe). length q.incoming) n (length p.incoming) (pipe_read n p)
unfolding pipe_read
pipe_read-IsLeft n p = elim (Bool-cases (ltb (length p.incoming) n)) [
  | inl e ↦ rw e (omega arith)
  | inr e ↦ rw e (length-drop n p.incoming (ground arith))
]

pub pipe_write_left :
    (bytes : List ℕ) (p : Pipe) → length (pipe_write bytes p).0.incoming ≤ length p.incoming
unfolding pipe_write
pipe_write_left bytes p = ground arith

pub pipe_close_left : (p : Pipe) → length (pipe_close p).incoming ≤ length p.incoming
unfolding pipe_close
pipe_close_left p = omega arith

abbrev pub pipe_finite : Finite pipe_transport
pipe_finite = record {
  pending = λ p. length p.incoming;
  async_read_left = pipe_read-IsLeft;
  async_write_left = pipe_write_left;
  close_socket_left = pipe_close_left;
}
