-- ===== src/Connection/Answers.antt =====
-- How `rpc_connection::start` in include/rest_rpc/rpc_connection.hpp answers a routed request.
use rest_rpc.Base.{ℕ, ◌≡◌, ◌∙◌, ap, true, false, if◌then◌else◌, some}
use rest_rpc.ErrorCode.{ErrorCode, is_error}
use rest_rpc.Protocol.{Host, RestRpcHeader}
use rest_rpc.Router.{RpcRouter, RpcResult, route}
use rest_rpc.Transport.{Transport}
use rest_rpc.Connection.{
  again, ended, Session, set_last_time, close, response, response_bytes, start_route, after_route,
  after_response, after_write,
}
use rest_rpc.Connection.Loop.{set_last_time-eq}

module _ (host : Host) (t : Transport) (App : Type 0) where
  open t use {Net, async_write}

  -- The session that the handler is called in: the thread knows the connection.
  abbrev pub called : Session host t App → Session host t App
  called s = record s { tls = record (s.tls) { conn = some s.connection.conn_id } }

  pub response_written :
      (result : RpcResult) (func_id : ℕ) (s : Session host t App) (w : Net × ErrorCode)
      → async_write (response_bytes host t App s.connection.cross_ending result func_id) s.net ≡ w
      → response host t App result func_id s ≡ after_write host t App (set_last_time host t App s) w
  unfolding response
  response_written result func_id s w e =
      ap (after_write host t App (set_last_time host t App s))
        (rw ((set_last_time-eq host t App s).0, (set_last_time-eq host t App s).1) e)

  module _ (router : RpcRouter (Session host t App)) (header : RestRpcHeader)
      (s s' : Session host t App) (result : RpcResult)
      (routed : route router header.function_id s.connection.body (called s) ≡ (s', result)) where
    -- A handler that has made an `rpc_context` answers later: the loop writes nothing, takes the
    -- flag back and goes on.
    pub start_route_delayed :
        s'.tls.delay ≡ true
        → start_route host t App router header s
          ≡ (record s' { tls = record (s'.tls) { delay = false } }, again)
    unfolding start_route after_route
    start_route_delayed e = ap (after_route host t App) routed ∙ rw e

    module _ (net' : Net) (ec : ErrorCode) (prompt : s'.tls.delay ≡ false)
        (written : async_write
            (response_bytes host t App s'.connection.cross_ending result 0)
            s'.net
          ≡ (net', ec)) where
      answered :
          start_route host t App router header s
          ≡ after_response host t App
              (after_write host t App (set_last_time host t App s') (net', ec))
      unfolding start_route after_route
      answered =
          ap (after_route host t App) routed
          ∙ ap
              (λ delay.
                if delay
                then (record s' { tls = record (s'.tls) { delay = false } }, again)
                else after_response host t App (response host t App result 0 s'))
              prompt
          ∙ ap (after_response host t App) (response_written result 0 s' (net', ec) written)

      -- The handler's result is written as one response frame, and the loop goes on.
      pub start_route_answered :
          is_error ec ≡ false
          → start_route host t App router header s
            ≡ (record (set_last_time host t App s') { net = net' }, again)
      unfolding after_response after_write
      start_route_answered e = answered ∙ rw e

      -- An error in the write of a response ends the coroutine, with the connection closed.
      pub start_route_write_error :
          is_error ec ≡ true
          → start_route host t App router header s
            ≡ (close host t App true (record (set_last_time host t App s') { net = net' }), ended)
      unfolding after_response after_write
      start_route_write_error e = answered ∙ rw e
