-- ===== src/Connection/Ending.antt =====
-- The loop of `rpc_connection::start` in include/rest_rpc/rpc_connection.hpp ends with its input:
-- each pass that goes on has read a header.
use rest_rpc.Base.{
  ℕ, zero, suc, ◌+◌, ◌*◌, ◌≤◌, ◌<◌, ◌≡◌, ◌≢◌, refl, subst, sym, arith, Bool, true, ◌==◌, ltb,
  if◌then◌else◌, Bool-cases, Option-cases, if_elim, inl, inr,
}
use rest_rpc.ErrorCode.{ErrorCode, is_error}
use rest_rpc.Protocol.{
  Host, RestRpcHeader, header_of_bytes, rest_magic_num, header_size, parse_recieved,
}
use rest_rpc.Router.{Text, RpcResult, RpcRouter, route}
use rest_rpc.Transport.{Transport, ReadResult, read, failed}
use rest_rpc.Transport.Finite.{Finite, IsLeft, IsLeft-trans}
use rest_rpc.Connection.{
  Next, again, ended, escaped, Session, set_last_time, close, response, response_bytes, after_write,
  after_response, after_route, start_route, after_body, start_body, start_header, after_header,
  start_pass, start, resume,
}
use rest_rpc.Connection.Loop.{set_last_time-eq}

ended≢again : ended ≢ again
ended≢again e = ground arith

module _ (host : Host) (t : Transport) (App : Type 0) (finite : Finite t) where
  open t use {Net, async_read, async_write, max_size}
  open finite use {pending, async_read_left, async_write_left, close_socket_left}

  abbrev Here : Type 0
  Here = Session host t App

  -- At most so many bytes are still to come.
  abbrev pub Within : ℕ → Here → Type 0
  Within n s = pending s.net ≤ n

  set_last_time-Within : (n : ℕ) (s : Here) → Within n s → Within n (set_last_time host t App s)
  set_last_time-Within n s h = subst (λ w. pending w ≤ n) (sym (set_last_time-eq host t App s).0) h

  close-Within : (n : ℕ) (b : Bool) (s : Here) → Within n s → Within n (close host t App b s)
  unfolding close
  close-Within n b s h = ground (arith, close_socket_left s.net)

  after_write-Within :
      (n : ℕ) (s : Here) (w : Net × ErrorCode)
      → pending w.0 ≤ n
      → Within n (after_write host t App s w).0
  unfolding after_write
  after_write-Within n s (net', ec) h = elim (Bool-cases (is_error ec)) [
    | inl e ↦ rw e (close-Within n true (record s { net = net' }) h)
    | inr e ↦ rw e h
  ]

  response-Within :
      (n : ℕ) (result : RpcResult) (func_id : ℕ) (s : Here)
      → Within n s
      → Within n (response host t App result func_id s).0
  unfolding response
  response-Within n result func_id s h =
      let s' = set_last_time host t App s in
      let bytes = response_bytes host t App s'.connection.cross_ending result func_id in
      after_write-Within n s' (async_write bytes s'.net)
        (omega (arith, async_write_left bytes s'.net, set_last_time-Within n s h))

  -- The router's functions leave the bytes that are still to come to the loop.
  abbrev pub KeepsWithin : RpcRouter Here → Type 0
  KeepsWithin router =
      (n key : ℕ) (body : Text) (s : Here) → Within n s → Within n (route router key body s).0

  module _ (router : RpcRouter Here) (keeps : KeepsWithin router) where
    after_route-Within :
        (n : ℕ) (r : Here × RpcResult) → Within n r.0 → Within n (after_route host t App r).0
    unfolding after_route after_response
    after_route-Within n (s, result) h =
        if_elim (λ (r : Here × Next). Within n r.0) s.tls.delay _ _ h
          (response-Within n result 0 s h)

    start_route-Within :
        (n : ℕ) (header : RestRpcHeader) (s : Here)
        → Within n s
        → Within n (start_route host t App router header s).0
    unfolding start_route
    start_route-Within n header s h =
        after_route-Within n _ (keeps n header.function_id s.connection.body _ h)

    after_body-Within :
        (n k : ℕ) (header : RestRpcHeader) (s : Here) (r : Net × ReadResult)
        → IsLeft pending k n r
        → Within n (after_body host t App router header s r).0
    unfolding after_body
    after_body-Within n k header s (net', failed ec) h = close-Within n true _ h
    after_body-Within n k header s (net', read bytes) h =
        start_route-Within n header _ (omega (arith, h))

    start_body-Within :
        (n : ℕ) (header : RestRpcHeader) (s : Here)
        → Within n s
        → Within n (start_body host t App router header s).0
    unfolding start_body
    start_body-Within n header s h =
        if_elim (λ (r : Here × Next). Within n r.0) (ltb max_size header.body_len) _ _ h
          (if_elim (λ (r : Here × Next). Within n r.0) (header.body_len == 0) _ _
            (start_route-Within n header _ h)
            (after_body-Within n header.body_len header (set_last_time host t App s) _ (
              IsLeft-trans pending header.body_len _ n
                (async_read header.body_len (set_last_time host t App s).net)
                (async_read_left header.body_len _) (set_last_time-Within n s h))))

    start_header-Within :
        (n : ℕ) (header : RestRpcHeader) (s : Here)
        → Within n s
        → Within n (start_header host t App router header s).0
    unfolding start_header
    start_header-Within n received s h =
        let header = if s.connection.cross_ending then parse_recieved host received else received in
        if_elim (λ (r : Here × Next). Within n r.0) (header.magic == rest_magic_num) _ _
          (if_elim (λ (r : Here × Next). Within n r.0) (header.msg_type == 1) _ _ h
            (start_body-Within n header s h))
          h

    after_header_left :
        (n k : ℕ) (s : Here) (r : Net × ReadResult)
        → IsLeft pending k n r
        → (after_header host t App router s r).1 ≡ again
        → pending (after_header host t App router s r).0.net + k ≤ n
    unfolding after_header
    after_header_left n k s (net', failed ec) h e = absurd (ended≢again e)
    after_header_left n k s (net', read bytes) h e =
        elim (Option-cases (header_of_bytes host.endian bytes)) [
          | inl p ↦ rw (p, after_header) h
          | inr (header, p) ↦
              rw (p, after_header)
                (omega (
                  arith,
                  h,
                  start_header-Within (pending net') header (record s { net = net' }) (omega arith),
                ))
        ]

    -- A pass that goes on has read a header.
    start_pass_left :
        (s : Here)
        → (start_pass host t App router s).1 ≡ again
        → pending (start_pass host t App router s).0.net + header_size ≤ pending s.net
    unfolding start_pass
    start_pass_left s e =
        let s' = set_last_time host t App s in
        after_header_left (pending s.net) header_size s' (async_read header_size s'.net)
          (IsLeft-trans pending header_size _ (pending s.net) (async_read header_size s'.net)
            (async_read_left header_size s'.net)
            (set_last_time-Within (pending s.net) s (omega arith)))
          e

    resume-ends :
        (loop more : Here → Here × Next) (r : Here × Next)
        → ((r.1 ≡ again) → ((loop r.0).1 ≢ again) × (more r.0 ≡ loop r.0))
        → ((resume host t App loop r).1 ≢ again)
          × (resume host t App more r ≡ resume host t App loop r)
    unfolding resume
    resume-ends loop more (s, again) h = h refl
    resume-ends loop more (s, ended) h = (ended≢again, refl)
    resume-ends loop more (s, escaped) h = (λ e. ground arith, refl)

    -- The loop ends, by the end of the input at the latest: as many passes as there are headers
    -- in what is still to come, and one more, lead to its end, and more passes to the same end.
    pub start_terminates :
        (passes more : ℕ) (s : Here)
        → pending s.net < header_size * passes
        → passes ≤ more
        → ((start host t App passes router s).1 ≢ again)
          × (start host t App more router s ≡ start host t App passes router s)
    unfolding start
    start_terminates zero more s h le = absurd (omega arith)
    start_terminates (suc passes) zero s h le = absurd (omega arith)
    start_terminates (suc passes) (suc more) s h le =
        resume-ends (start host t App passes router) (start host t App more router)
          (start_pass host t App router s)
          (λ e.
            start_terminates passes more (start_pass host t App router s).0
              (omega (arith, start_pass_left s e)) (omega arith))
