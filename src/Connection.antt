-- ===== src/Connection.antt =====
-- include/rest_rpc/rpc_connection.hpp: `tls_data`, `rpc_context` and the class `rpc_connection`.
-- A session is one connection with what its coroutine and its handlers touch: the network, the
-- thread's `tls_data`, and the application's own state. A handler is an invoker on sessions.
pub mod Loop
pub mod Requests
pub mod Passes
pub mod Answers
pub mod Context
pub mod Closing
pub mod Ending
mod Examples
use rest_rpc.Base.{
  ℕ, zero, suc, ◌+◌, ◌%◌, ◌^◌, ◌≡◌, Bool, true, false, not, ◌==◌, ltb, if◌then◌else◌, ◌&&◌, List,
  [], ◌∷◌, ◌++◌, Option, none, some,
}
use mathlib.Core.Option
use rest_rpc.Base.Map.{Map, find, update}
use rest_rpc.Base.Words.{u64}
use rest_rpc.ErrorCode.{
  RpcErrc, ok, has_response, rpc_context_init_failed, errc_value, ErrorCode, make_error_code,
  is_error, success,
}
use rest_rpc.Protocol.{
  Host, RestRpcHeader, rest_magic_num, empty_header, header_size, header_bytes, header_of_bytes,
  prepare_for_send, parse_recieved,
}
use rest_rpc.Router.{
  Text, RpcResult, result_of_string, result_empty, result_size, result_data, RpcRouter, route,
}
use rest_rpc.Transport.{Transport, ReadResult, read, failed}

-- The fields of `rpc_connection`; `quit_cb` tells whether a callback is set.
pub record RpcConnection : Type 0 where
  pub conn_id : ℕ
  pub body : Text
  pub quit_cb : Bool
  pub has_closed : Bool
  pub last_rwtime : ℕ
  pub checkout_timeout : Bool
  pub cross_ending : Bool
  pub topic_id : ℕ

-- `tls_data`: the connection, by its id, and the flag that a handler answers later.
pub record TlsData : Type 0 where
  pub conn : Option ℕ
  pub delay : Bool

-- `rpc_context`: the connection that the thread was serving, and whether it has been answered.
pub record RpcContext : Type 0 where
  pub conn : Option ℕ
  pub responded : Bool

-- How a pass of the loop in `start` ends: with another pass, with the coroutine's end, or with an
-- exception that leaves it.
pub data Next : Type 0 where
  again ended escaped : Next

module _ (host : Host) (t : Transport) (App : Type 0) where
  open t use {Net, now, async_read, async_write, close_socket, max_size}

  -- `quits` lists the ids that the quit callback has been called with, the last first.
  pub record Session : Type 0 where
    pub net : Net
    pub connection : RpcConnection
    pub tls : TlsData
    pub app : App
    pub quits : List ℕ

  -- The constructor; the application's state is what the handlers find.
  abbrev pub rpc_connection : Net → ℕ → Bool → App → Session
  rpc_connection socket conn_id cross_ending app = record {
    net = socket;
    connection = record {
      conn_id = conn_id;
      body = [];
      quit_cb = false;
      has_closed = false;
      last_rwtime = now socket;
      checkout_timeout = false;
      cross_ending = cross_ending;
      topic_id = 0;
    };
    tls = record { conn = none; delay = false };
    app = app;
    quits = [];
  }

  abbrev pub set_check_timeout : Bool → Session → Session
  set_check_timeout r s = record s { connection = record (s.connection) { checkout_timeout = r } }

  abbrev pub set_quit_callback : Session → Session
  set_quit_callback s = record s { connection = record (s.connection) { quit_cb = true } }

  unfoldable pub set_last_time : Session → Session
  set_last_time s =
      if s.connection.checkout_timeout
      then record s { connection = record (s.connection) { last_rwtime = now s.net } }
      else s

  -- `close`, called on the connection's own executor, so that the dispatched part runs at once.
  unfoldable pub close : Bool → Session → Session
  close need_cb s = if s.connection.has_closed then s else record s {
    net = close_socket s.net;
    connection = record (s.connection) { has_closed = true };
    quits = if need_cb && s.connection.quit_cb then s.connection.conn_id ∷ s.quits else s.quits;
  }

  -- The header of a response: that of a message to a topic's subscribers if `func_id` is not 0.
  unfoldable pub response_header : Bool → RpcResult → ℕ → RestRpcHeader
  response_header cross result func_id =
      let header = record empty_header {
        msg_type = if func_id == 0 then 0 else 1;
        function_id = func_id;
        body_len = u64 (result_size result + 1);
      } in
      if cross then prepare_for_send host header else header

  -- The buffers of `response`: the header, the code's byte, and the data if there are any.
  unfoldable pub response_bytes : Bool → RpcResult → ℕ → List ℕ
  response_bytes cross result func_id =
      header_bytes host.endian (response_header cross result func_id)
      ++ (errc_value result.ec ∷ (if result_empty result then [] else result_data result))

  unfoldable pub after_write : Session → Net × ErrorCode → Session × ErrorCode
  after_write s (net', ec) =
      let s' = record s { net = net' } in (if is_error ec then close true s' else s', ec)

  unfoldable pub response : RpcResult → ℕ → Session → Session × ErrorCode
  unfolding after_write
  response result func_id s =
      let s' = set_last_time s in
      after_write s' (async_write (response_bytes s'.connection.cross_ending result func_id) s'.net)

  after_response : Session × ErrorCode → Session × Next
  after_response (s, ec) = (s, if is_error ec then ended else again)

  after_route : Session × RpcResult → Session × Next
  unfolding after_response
  after_route (s, result) =
      if s.tls.delay
      then (record s { tls = record (s.tls) { delay = false } }, again)
      else after_response (response result 0 s)

  -- One pass of `start` from `set_connection` and the route on.
  unfoldable pub start_route : RpcRouter Session → RestRpcHeader → Session → Session × Next
  unfolding after_route
  start_route router header s =
      let called = record s { tls = record (s.tls) { conn = some s.connection.conn_id } } in
      after_route (route router header.function_id s.connection.body called)

  after_body : RpcRouter Session → RestRpcHeader → Session → Net × ReadResult → Session × Next
  after_body router header s (net', failed ec) = (close true (record s { net = net' }), ended)
  after_body router header s (net', read bytes) =
      start_route router header
        (record s { net = net'; connection = record (s.connection) { body = bytes } })

  -- ... from the read of the body on, with `detail::resize` before it.
  unfoldable pub start_body : RpcRouter Session → RestRpcHeader → Session → Session × Next
  unfolding after_body
  start_body router header s =
      if ltb max_size header.body_len
      then (s, escaped)
      else if header.body_len == 0
      then start_route router header (record s { connection = record (s.connection) { body = [] } })
      else let s' = set_last_time s in
        after_body router header s' (async_read header.body_len s'.net)

  -- ... from the check of the header on.
  unfoldable pub start_header : RpcRouter Session → RestRpcHeader → Session → Session × Next
  start_header router received s =
      let header = if s.connection.cross_ending then parse_recieved host received else received in
      if header.magic == rest_magic_num
      then (if header.msg_type == 1
          then (
            record s { connection = record (s.connection) { topic_id = header.function_id } },
            again,
          )
          else start_body router header s)
      else (s, ended)

  after_header : RpcRouter Session → Session → Net × ReadResult → Session × Next
  after_header router s (net', failed ec) = (close true (record s { net = net' }), ended)
  after_header router s (net', read bytes) = elim (header_of_bytes host.endian bytes) [
    | none ↦ (record s { net = net' }, escaped)
    | some header ↦ start_header router header (record s { net = net' })
  ]

  -- One whole pass of the loop in `start`. (The buffer is 32 bytes long, so that it always makes
  -- up a header.)
  unfoldable pub start_pass : RpcRouter Session → Session → Session × Next
  unfolding after_header
  start_pass router s =
      let s' = set_last_time s in after_header router s' (async_read header_size s'.net)

  -- What follows a pass, where `loop` stands for the passes to come.
  resume : (Session → Session × Next) → Session × Next → Session × Next
  resume loop (s, again) = loop s
  resume loop (s, ended) = (s, ended)
  resume loop (s, escaped) = (s, escaped)

  -- `start`, at most so many passes of it.
  unfoldable pub start : ℕ → RpcRouter Session → Session → Session × Next
  unfolding resume
  start zero router s = (s, again)
  start (suc passes) router s = resume (start passes router) (start_pass router s)

  -- The constructor, which has the loop leave the answer to the handler.
  unfoldable pub rpc_context : Session → Session × RpcContext
  rpc_context s = (
    record s { tls = record (s.tls) { delay = true } },
    record { conn = s.tls.conn; responded = false },
  )

  -- The connection that a context holds, among the connections of the process by their ids.
  connection_of : Option ℕ → Map Session → Option (ℕ × Session)
  connection_of none conns = none
  connection_of (some id) conns = Option.map (λ s. (id, s)) (find id conns)

  context_answer :
      RpcContext
      → RpcResult
      → Map Session
      → Option (ℕ × Session)
      → Map Session × RpcContext × ErrorCode
  context_answer c packed conns none = (conns, c, make_error_code rpc_context_init_failed)
  context_answer c packed conns (some (id, s)) =
      let r = response packed 0 s in
      (update id (λ old. r.0) conns, record c { responded = true }, r.1)

  -- `rpc_context::response` with packed arguments.
  unfoldable pub context_response :
      RpcContext → RpcResult → Map Session → Map Session × RpcContext × ErrorCode
  unfolding connection_of context_answer
  context_response c packed conns =
      if c.responded
      then (conns, c, make_error_code has_response)
      else context_answer c packed conns (connection_of c.conn conns)
