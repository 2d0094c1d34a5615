-- ===== src/Connection/Passes.antt =====
-- The ways in which a pass of the loop of `rpc_connection::start` in include/rest_rpc/rpc_connection.hpp
-- can go, as a step relation.
pub mod Exactly
use rest_rpc.Base.{
  ℕ, ◌≤◌, ◌<◌, ◌≡◌, ◌≢◌, refl, sym, ◌∙◌, ap, subst, arith, ◌↔◌, inl, inr, true, false, ltb, ltb→lt,
  Bool-cases, Option-cases, List, [], none, some,
}
use rest_rpc.ErrorCode.{ErrorCode, is_error}
use rest_rpc.Protocol.{Host, RestRpcHeader, rest_magic_num, header_size, header_of_bytes}
use rest_rpc.Router.{Text, RpcRouter, RpcResult, route}
use rest_rpc.Transport.{Transport, ReadResult, read, failed}
use rest_rpc.Connection.{
  Next, again, ended, escaped, Session, set_last_time, close, response_bytes, start_route,
  start_pass,
}
use rest_rpc.Connection.Loop.{
  headed, bodied, converted, start_pass_no_header, start_pass_unreadable,
}
use rest_rpc.Connection.Requests.{
  start_pass_wrong_magic, start_pass_subscription, start_pass_oversized, start_pass_empty_body,
  start_pass_body, start_pass_no_body,
}
use rest_rpc.Connection.Answers.{
  called, start_route_delayed, start_route_answered, start_route_write_error,
}

module _ (host : Host) (t : Transport) (App : Type 0) where
  open t use {Net, async_read, async_write, max_size}

  abbrev Here : Type 0
  Here = Session host t App

  -- A header that is read, one of a request or a subscription, and one of a request.
  pub record IsReceived (s : Here) (net1 : Net) (h : RestRpcHeader) : Type 0 where
    pub bytes : List ℕ
    pub head : async_read header_size s.net ≡ (net1, read bytes)
    pub parsed : header_of_bytes host.endian bytes ≡ some h

  pub record IsRequest (s : Here) (net1 : Net) (h : RestRpcHeader) : Type 0 where
    pub received : IsReceived s net1 h
    pub magic : h.magic ≡ rest_magic_num
    pub request : (converted host t App s h).msg_type ≢ 1

  module _ (router : RpcRouter Here) where
    -- From the route on: the answer is left to the handler, is written, or cannot be written.
    pub data Answer : RestRpcHeader → Here → Here × Next → Type 0 where
      left :
          (h : RestRpcHeader) (s s' : Here) (result : RpcResult)
          → route router h.function_id s.connection.body (called host t App s) ≡ (s', result)
          → s'.tls.delay ≡ true
          → Answer h s (record s' { tls = record (s'.tls) { delay = false } }, again)
      written :
          (h : RestRpcHeader) (s s' : Here) (result : RpcResult) (net' : Net) (ec : ErrorCode)
          → route router h.function_id s.connection.body (called host t App s) ≡ (s', result)
          → s'.tls.delay ≡ false
          → async_write (response_bytes host t App s'.connection.cross_ending result 0) s'.net
            ≡ (net', ec)
          → is_error ec ≡ false
          → Answer h s (record (set_last_time host t App s') { net = net' }, again)
      unwritten :
          (h : RestRpcHeader) (s s' : Here) (result : RpcResult) (net' : Net) (ec : ErrorCode)
          → route router h.function_id s.connection.body (called host t App s) ≡ (s', result)
          → s'.tls.delay ≡ false
          → async_write (response_bytes host t App s'.connection.cross_ending result 0) s'.net
            ≡ (net', ec)
          → is_error ec ≡ true
          → Answer h s
              (close host t App true (record (set_last_time host t App s') { net = net' }), ended)

    pub data Pass : Here → Here × Next → Type 0 where
      no_header :
          (s : Here) (net1 : Net) (ec : ErrorCode)
          → async_read header_size s.net ≡ (net1, failed ec)
          → Pass s (close host t App true (headed host t App s net1), ended)
      unreadable :
          (s : Here) (net1 : Net) (bytes : List ℕ)
          → async_read header_size s.net ≡ (net1, read bytes)
          → header_of_bytes host.endian bytes ≡ none
          → Pass s (headed host t App s net1, escaped)
      wrong_magic :
          (s : Here) (net1 : Net) (h : RestRpcHeader)
          → IsReceived s net1 h
          → h.magic ≢ rest_magic_num
          → Pass s (headed host t App s net1, ended)
      subscribes :
          (s : Here) (net1 : Net) (h : RestRpcHeader)
          → IsReceived s net1 h
          → h.magic ≡ rest_magic_num
          → (converted host t App s h).msg_type ≡ 1
          → Pass s (
            record (headed host t App s net1) {
              connection = record ((headed host t App s net1).connection) {
                topic_id = (converted host t App s h).function_id;
              };
            },
            again,
          )
      oversized :
          (s : Here) (net1 : Net) (h : RestRpcHeader)
          → IsRequest s net1 h
          → max_size < (converted host t App s h).body_len
          → Pass s (headed host t App s net1, escaped)
      no_body :
          (s : Here) (net1 net2 : Net) (h : RestRpcHeader) (ec : ErrorCode)
          → IsRequest s net1 h
          → 0 < (converted host t App s h).body_len
          → (converted host t App s h).body_len ≤ max_size
          → async_read (converted host t App s h).body_len net1 ≡ (net2, failed ec)
          → Pass s (
            close host t App true
                (record (set_last_time host t App (headed host t App s net1)) { net = net2 }),
            ended,
          )
      routes_empty :
          (s : Here) (net1 : Net) (h : RestRpcHeader) (r : Here × Next)
          → IsRequest s net1 h
          → (converted host t App s h).body_len ≡ 0
          → Answer
              (converted host t App s h)
              (record (headed host t App s net1) {
                connection = record ((headed host t App s net1).connection) { body = [] };
              })
              r
          → Pass s r
      routes :
          (s : Here) (net1 net2 : Net) (h : RestRpcHeader) (body : Text) (r : Here × Next)
          → IsRequest s net1 h
          → 0 < (converted host t App s h).body_len
          → (converted host t App s h).body_len ≤ max_size
          → async_read (converted host t App s h).body_len net1 ≡ (net2, read body)
          → Answer
              (converted host t App s h)
              (bodied host t App (headed host t App s net1) net2 body)
              r
          → Pass s r

    pub Answer-start_route :
        (h : RestRpcHeader) (s : Here) (r : Here × Next)
        → Answer h s r
        → start_route host t App router h s ≡ r
    Answer-start_route h s _ (left _ _ s' result e d) =
        start_route_delayed host t App router h s s' result e d
    Answer-start_route h s _ (written _ _ s' result net' ec e d w n) =
        start_route_answered host t App router h s s' result e net' ec d w n
    Answer-start_route h s _ (unwritten _ _ s' result net' ec e d w n) =
        start_route_write_error host t App router h s s' result e net' ec d w n

    pub Pass-start_pass :
        (s : Here) (r : Here × Next) → Pass s r → start_pass host t App router s ≡ r
    Pass-start_pass s _ (no_header _ net1 ec e) = start_pass_no_header host t App router s net1 ec e
    Pass-start_pass s _ (unreadable _ net1 bytes e p) =
        start_pass_unreadable host t App router s net1 bytes e p
    Pass-start_pass s _ (wrong_magic _ net1 h i ne) =
        start_pass_wrong_magic host t App router s net1 i.bytes h i.head i.parsed ne
    Pass-start_pass s _ (subscribes _ net1 h i m e) =
        start_pass_subscription host t App router s net1 i.bytes h i.head i.parsed m e
    Pass-start_pass s _ (oversized _ net1 h q big) =
        let i = q.received in
        start_pass_oversized host t App router s net1 i.bytes h i.head i.parsed q.magic q.request
          big
    Pass-start_pass s _ (no_body _ net1 net2 h ec q pos fits e) =
        let i = q.received in
        start_pass_no_body host t App router s net1 i.bytes h i.head i.parsed q.magic q.request pos
          fits net2 ec e
    Pass-start_pass s r (routes_empty _ net1 h _ q z a) =
        let i = q.received in
        start_pass_empty_body host t App router s net1 i.bytes h i.head i.parsed q.magic q.request z
        ∙ Answer-start_route _ _ r a
    Pass-start_pass s r (routes _ net1 net2 h body _ q pos fits e a) =
        let i = q.received in
        start_pass_body host t App router s net1 i.bytes h i.head i.parsed q.magic q.request pos
          fits net2 body e
        ∙ Answer-start_route _ _ r a
