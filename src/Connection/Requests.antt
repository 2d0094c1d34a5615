-- ===== src/Connection/Requests.antt =====
-- The passes of the loop of `rpc_connection::start` in include/rest_rpc/rpc_connection.hpp whose
-- header has been read.
use rest_rpc.Base.{
  ℕ, ◌≤◌, ◌<◌, ◌≡◌, sym, ◌∙◌, ap, ◌≢◌, arith, true, ◌==◌, ne→==_false, lt→ltb, le→ltb_false,
  if◌then◌else◌, List, [], some,
}
use rest_rpc.ErrorCode.{ErrorCode}
use rest_rpc.Protocol.{Host, RestRpcHeader, rest_magic_num, header_size, header_of_bytes}
use rest_rpc.Router.{Text, RpcRouter}
use rest_rpc.Transport.{Transport, read, failed}
use rest_rpc.Connection.{
  again, ended, escaped, Session, set_last_time, close, start_route, start_body, start_header,
  start_pass, after_body,
}
use rest_rpc.Connection.Loop.{
  set_last_time-eq, headed, bodied, converted, converted-headed, converted-magic, header_pass,
}

module _ (host : Host) (t : Transport) (App : Type 0) where
  open t use {Net, now, async_read, async_write, close_socket, max_size}

  abbrev Here : Type 0
  Here = Session host t App

  module _ (router : RpcRouter Here) (s : Here) (net1 : Net) (bytes : List ℕ) (h : RestRpcHeader)
      (head : async_read header_size s.net ≡ (net1, read bytes))
      (parsed : header_of_bytes host.endian bytes ≡ some h) where
    -- A header with another magic number ends the coroutine: nothing is written, and the
    -- connection is neither closed nor reported to the quit callback.
    pub start_pass_wrong_magic :
        h.magic ≢ rest_magic_num
        → start_pass host t App router s ≡ (headed host t App s net1, ended)
    unfolding start_header
    start_pass_wrong_magic ne =
        header_pass host t App router s net1 bytes h head parsed
        ∙ rw (
            ne→==_false _ rest_magic_num
              (λ e. ne (sym (converted-magic host t App (headed host t App s net1) h) ∙ e)))

    module _ (magic : h.magic ≡ rest_magic_num) where
      started : start_pass host t App router s ≡ (
          if (converted host t App s h).msg_type == 1
          then (
            record (headed host t App s net1) {
              connection = record ((headed host t App s net1).connection) {
                topic_id = (converted host t App s h).function_id;
              };
            },
            again,
          )
          else start_body host t App router (converted host t App s h) (headed host t App s net1))
      unfolding start_header
      started =
          header_pass host t App router s net1 bytes h head parsed
          ∙ rw (converted-magic host t App (headed host t App s net1) h ∙ magic)
              (rw (converted-headed host t App s net1 h))

      -- A subscription (message type 1) sets the connection's topic and nothing else: nothing is
      -- routed or written, and the loop goes on.
      pub start_pass_subscription :
          (converted host t App s h).msg_type ≡ 1
          → start_pass host t App router s ≡ (
            record (headed host t App s net1) {
              connection = record ((headed host t App s net1).connection) {
                topic_id = (converted host t App s h).function_id;
              };
            },
            again,
          )
      start_pass_subscription e = started ∙ rw e

      -- A body length beyond what can be allocated makes an exception leave the coroutine: the
      -- connection is not closed.
      pub start_pass_oversized :
          (converted host t App s h).msg_type ≢ 1
          → max_size < (converted host t App s h).body_len
          → start_pass host t App router s ≡ (headed host t App s net1, escaped)
      unfolding start_body
      start_pass_oversized ne big_body =
          started
          ∙ rw (ne→==_false _ 1 ne, lt→ltb max_size (converted host t App s h).body_len big_body)

      -- A request with no body is routed on the empty body.
      pub start_pass_empty_body :
          (converted host t App s h).msg_type ≢ 1
          → (converted host t App s h).body_len ≡ 0
          → start_pass host t App router s
            ≡ start_route host t App router
                (converted host t App s h)
                (record (headed host t App s net1) {
                  connection = record ((headed host t App s net1).connection) { body = [] };
                })
      unfolding start_body
      start_pass_empty_body ne e =
          started ∙ rw (ne→==_false _ 1 ne, e, le→ltb_false 0 max_size (omega arith))

      module _ (request : (converted host t App s h).msg_type ≢ 1)
          (pos : 0 < (converted host t App s h).body_len)
          (fits : (converted host t App s h).body_len ≤ max_size) where
        body_pass :
            start_pass host t App router s
            ≡ after_body host t App router
                (converted host t App s h)
                (set_last_time host t App (headed host t App s net1))
                (async_read
                  (converted host t App s h).body_len
                  (set_last_time host t App (headed host t App s net1)).net)
        unfolding start_body
        body_pass =
            started
            ∙ rw (
              ne→==_false _ 1 request,
              le→ltb_false (converted host t App s h).body_len max_size fits,
              ne→==_false (converted host t App s h).body_len 0 (λ e. omega arith),
            )

        -- A request whose body has been read is routed on that body.
        pub start_pass_body :
            (net2 : Net) (body : Text)
            → async_read (converted host t App s h).body_len net1 ≡ (net2, read body)
            → start_pass host t App router s
              ≡ start_route host t App router
                  (converted host t App s h)
                  (bodied host t App (headed host t App s net1) net2 body)
        unfolding after_body
        start_pass_body net2 body e =
            body_pass
            ∙ ap
                (after_body host t App router (converted host t App s h)
                  (set_last_time host t App (headed host t App s net1)))
                (ap (async_read (converted host t App s h).body_len)
                    (set_last_time-eq host t App (headed host t App s net1)).0
                  ∙ e)

        -- An error in the read of a body ends the coroutine, with the connection closed and nothing
        -- routed.
        pub start_pass_no_body :
            (net2 : Net) (ec : ErrorCode)
            → async_read (converted host t App s h).body_len net1 ≡ (net2, failed ec)
            → start_pass host t App router s ≡ (
              close host t App true
                  (record (set_last_time host t App (headed host t App s net1)) { net = net2 }),
              ended,
            )
        unfolding after_body
        start_pass_no_body net2 ec e =
            body_pass
            ∙ ap
                (after_body host t App router (converted host t App s h)
                  (set_last_time host t App (headed host t App s net1)))
                (ap (async_read (converted host t App s h).body_len)
                    (set_last_time-eq host t App (headed host t App s net1)).0
                  ∙ e)
