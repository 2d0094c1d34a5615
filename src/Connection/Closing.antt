-- ===== src/Connection/Closing.antt =====
-- `close` of include/rest_rpc/rpc_connection.hpp: a connection reports its end at most once.
use rest_rpc.Base.{
  ℕ, zero, suc, ◌≤◌, ◌≡◌, arith, Bool, true, ◌==◌, ltb, if◌then◌else◌, length, Bool-cases,
  Option-cases, if_elim, inl, inr,
}
use rest_rpc.ErrorCode.{ErrorCode, is_error}
use rest_rpc.Protocol.{
  Host, RestRpcHeader, header_of_bytes, rest_magic_num, header_size, parse_recieved,
}
use rest_rpc.Router.{Text, RpcResult, RpcRouter, route}
use rest_rpc.Transport.{Transport, ReadResult, read, failed}
use rest_rpc.Connection.{
  Next, again, ended, escaped, Session, set_last_time, close, response, response_bytes, after_write,
  after_response, after_route, start_route, after_body, start_body, start_header, after_header,
  start_pass, start, resume,
}

module _ (host : Host) (t : Transport) (App : Type 0) where
  open t use {Net, async_read, async_write, max_size}

  abbrev Here : Type 0
  Here = Session host t App

  -- The quit callback has been called at most once, and not before the connection was closed.
  abbrev pub IsQuitOnce : Here → Type 0
  IsQuitOnce s = length s.quits ≤ (if s.connection.has_closed then 1 else 0)

  -- Closing a closed connection does nothing, with the callback or without.
  pub close-close :
      (a b : Bool) (s : Here) → close host t App b (close host t App a s) ≡ close host t App a s
  unfolding close
  close-close a b s = ground arith

  set_last_time-IsQuitOnce : (s : Here) → IsQuitOnce s → IsQuitOnce (set_last_time host t App s)
  unfolding set_last_time
  set_last_time-IsQuitOnce s h = ground arith

  close-IsQuitOnce : (b : Bool) (s : Here) → IsQuitOnce s → IsQuitOnce (close host t App b s)
  unfolding close
  close-IsQuitOnce b s h = ground arith

  after_write-IsQuitOnce :
      (s : Here) (w : Net × ErrorCode) → IsQuitOnce s → IsQuitOnce (after_write host t App s w).0
  unfolding after_write
  after_write-IsQuitOnce s (net', ec) h = elim (Bool-cases (is_error ec)) [
    | inl e ↦ rw e (close-IsQuitOnce true (record s { net = net' }) h)
    | inr e ↦ rw e h
  ]

  response-IsQuitOnce :
      (result : RpcResult) (func_id : ℕ) (s : Here)
      → IsQuitOnce s
      → IsQuitOnce (response host t App result func_id s).0
  unfolding response
  response-IsQuitOnce result func_id s h =
      after_write-IsQuitOnce (set_last_time host t App s)
        (async_write
          (response_bytes host t App (set_last_time host t App s).connection.cross_ending result
            func_id)
          (set_last_time host t App s).net)
        (set_last_time-IsQuitOnce s h)

  -- What the router's functions do keeps the condition.
  abbrev pub KeepsQuitOnce : RpcRouter Here → Type 0
  KeepsQuitOnce router =
      (key : ℕ) (body : Text) (s : Here) → IsQuitOnce s → IsQuitOnce (route router key body s).0

  module _ (router : RpcRouter Here) (keeps : KeepsQuitOnce router) where
    after_route-IsQuitOnce :
        (r : Here × RpcResult) → IsQuitOnce r.0 → IsQuitOnce (after_route host t App r).0
    unfolding after_route after_response
    after_route-IsQuitOnce (s, result) h =
        if_elim (λ (r : Here × Next). IsQuitOnce r.0) s.tls.delay _ _ h
          (response-IsQuitOnce result 0 s h)

    start_route-IsQuitOnce :
        (header : RestRpcHeader) (s : Here)
        → IsQuitOnce s
        → IsQuitOnce (start_route host t App router header s).0
    unfolding start_route
    start_route-IsQuitOnce header s h =
        after_route-IsQuitOnce _ (keeps header.function_id s.connection.body _ h)

    after_body-IsQuitOnce :
        (header : RestRpcHeader) (s : Here) (r : Net × ReadResult)
        → IsQuitOnce s
        → IsQuitOnce (after_body host t App router header s r).0
    unfolding after_body
    after_body-IsQuitOnce header s (net', failed ec) h = close-IsQuitOnce true _ h
    after_body-IsQuitOnce header s (net', read bytes) h = start_route-IsQuitOnce header _ h

    start_body-IsQuitOnce :
        (header : RestRpcHeader) (s : Here)
        → IsQuitOnce s
        → IsQuitOnce (start_body host t App router header s).0
    unfolding start_body
    start_body-IsQuitOnce header s h =
        if_elim (λ (r : Here × Next). IsQuitOnce r.0) (ltb max_size header.body_len) _ _ h
          (if_elim (λ (r : Here × Next). IsQuitOnce r.0) (header.body_len == 0) _ _
            (start_route-IsQuitOnce header _ h)
            (after_body-IsQuitOnce header (set_last_time host t App s) _
              (set_last_time-IsQuitOnce s h)))

    start_header-IsQuitOnce :
        (header : RestRpcHeader) (s : Here)
        → IsQuitOnce s
        → IsQuitOnce (start_header host t App router header s).0
    unfolding start_header
    start_header-IsQuitOnce received s h =
        let header = if s.connection.cross_ending then parse_recieved host received else received in
        if_elim (λ (r : Here × Next). IsQuitOnce r.0) (header.magic == rest_magic_num) _ _
          (if_elim (λ (r : Here × Next). IsQuitOnce r.0) (header.msg_type == 1) _ _ h
            (start_body-IsQuitOnce header s h))
          h

    after_header-IsQuitOnce :
        (s : Here) (r : Net × ReadResult)
        → IsQuitOnce s
        → IsQuitOnce (after_header host t App router s r).0
    unfolding after_header
    after_header-IsQuitOnce s (net', failed ec) h = close-IsQuitOnce true _ h
    after_header-IsQuitOnce s (net', read bytes) h =
        elim (Option-cases (header_of_bytes host.endian bytes)) [
          | inl e ↦ rw (e, after_header) h
          | inr (header, e) ↦ rw (e, after_header) (start_header-IsQuitOnce header _ h)
        ]

    start_pass-IsQuitOnce :
        (s : Here) → IsQuitOnce s → IsQuitOnce (start_pass host t App router s).0
    unfolding start_pass
    start_pass-IsQuitOnce s h =
        after_header-IsQuitOnce (set_last_time host t App s)
          (async_read header_size (set_last_time host t App s).net) (set_last_time-IsQuitOnce s h)

    resume-IsQuitOnce :
        (loop : Here → Here × Next)
        → ((s : Here) → IsQuitOnce s → IsQuitOnce (loop s).0)
        → (r : Here × Next) → IsQuitOnce r.0
        → IsQuitOnce (resume host t App loop r).0
    unfolding resume
    resume-IsQuitOnce loop keep (s, again) h = keep s h
    resume-IsQuitOnce loop keep (s, ended) h = h
    resume-IsQuitOnce loop keep (s, escaped) h = h

    -- However many passes the loop makes, the quit callback has been called at most once, and not
    -- before the connection was closed, if it was so at the start and the functions keep it.
    pub start-IsQuitOnce :
        (passes : ℕ) (s : Here) → IsQuitOnce s → IsQuitOnce (start host t App passes router s).0
    unfolding start
    start-IsQuitOnce zero s h = h
    start-IsQuitOnce (suc passes) s h =
        resume-IsQuitOnce (start host t App passes router) (start-IsQuitOnce passes)
          (start_pass host t App router s) (start_pass-IsQuitOnce s h)
