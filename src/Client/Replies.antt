-- ===== src/Client/Replies.antt =====
-- `wait_response` and `call_impl` of include/rest_rpc/rpc_client.hpp on a reply and on every error.
pub mod Ways
pub mod Exactly
use rest_rpc.Base.{
  ℕ, ◌≤◌, ◌<◌, ◌≡◌, ◌∙◌, ap, ◌≢◌, arith, true, false, ◌==◌, ne→==_false, ltb, lt→ltb, le→ltb_false,
  eq→==, if◌then◌else◌, List, [], ◌∷◌, Option, none, some,
}
use rest_rpc.Base.Text.{codes}
use rest_rpc.ErrorCode.{write_error, read_error, protocol_error, errc_of_value, ErrorCode, is_error}
use rest_rpc.Protocol.{
  Host, RestRpcHeader, rest_magic_num, header_size, header_of_bytes, parse_recieved,
}
use rest_rpc.Router.{Text}
use rest_rpc.Transport.{Transport, read, failed}
use rest_rpc.Client.{
  Unpacked, value, bad, returned, threw, out_of_bounds, RpcClient, shut, comple_all, request_bytes,
  deliver, after_unpack, after_reply_body, after_reply_header, wait_response, after_request,
  call_impl,
}

module _ (host : Host) (t : Transport) {V : Type 0} (unpack : Option (Text → Unpacked V)) where
  open t use {Net, async_read, async_write, max_size}

  -- A request that cannot be written ends with `write_error`, and the socket is closed.
  pub call_impl_write_error :
      (h : RestRpcHeader) (args : Option Text) (c : RpcClient host t) (net' : Net) (ec : ErrorCode)
      → async_write (request_bytes host t c.cross_ending h args) c.net ≡ (net', ec)
      → is_error ec ≡ true
      → call_impl host t unpack h args c
        ≡ (shut host t (record c { net = net' }), returned write_error none)
  unfolding call_impl
  call_impl_write_error h args c net' ec e f = ap (after_request host t unpack c) e ∙ rw f

  -- A request that has been written is followed by the wait for its response.
  pub call_impl_written :
      (h : RestRpcHeader) (args : Option Text) (c : RpcClient host t) (net' : Net) (ec : ErrorCode)
      → async_write (request_bytes host t c.cross_ending h args) c.net ≡ (net', ec)
      → is_error ec ≡ false
      → call_impl host t unpack h args c ≡ wait_response host t unpack (record c { net = net' })
  unfolding call_impl
  call_impl_written h args c net' ec e f = ap (after_request host t unpack c) e ∙ rw f

  module _ (c : RpcClient host t) (net1 : Net) where
    -- An error in the read of a response's header ends the call with `read_error`: the socket is
    -- closed, and every subscription's operation is completed with false.
    pub wait_response_no_header :
        (ec : ErrorCode)
        → async_read header_size c.net ≡ (net1, failed ec)
        → wait_response host t unpack c
          ≡ (comple_all host t (shut host t (record c { net = net1 })), returned read_error none)
    unfolding wait_response
    wait_response_no_header ec e = ap (after_reply_header host t unpack c) e

    module _ (bytes : List ℕ) (received : RestRpcHeader)
        (head : async_read header_size c.net ≡ (net1, read bytes))
        (parsed : header_of_bytes host.endian bytes ≡ some received) where
      abbrev converted : RestRpcHeader
      converted = if c.cross_ending then parse_recieved host received else received

      header_read : wait_response host t unpack c ≡ (
          if received.magic == rest_magic_num
          then (if ltb max_size converted.body_len
              then (record c { net = net1 }, threw (codes "length_error"))
              else after_reply_body host t unpack converted
                  (record c { net = net1 })
                  (async_read converted.body_len net1))
          else (comple_all host t (record c { net = net1 }), returned protocol_error none))
      unfolding wait_response after_reply_header
      header_read = ap (after_reply_header host t unpack c) head ∙ rw (parsed, after_reply_header)

      -- A body longer than can be allocated ends the call with an exception; nothing is closed.
      pub wait_response_oversized :
          received.magic ≡ rest_magic_num
          → max_size < converted.body_len
          → wait_response host t unpack c ≡ (record c { net = net1 }, threw (codes "length_error"))
      wait_response_oversized magic big =
          header_read ∙ rw (eq→== received.magic 39 magic, lt→ltb max_size converted.body_len big)

      -- A response with another magic number ends the call with `protocol_error` and completes
      -- every subscription's operation with false; the socket stays open.
      pub wait_response_wrong_magic :
          received.magic ≢ rest_magic_num
          → wait_response host t unpack c
            ≡ (comple_all host t (record c { net = net1 }), returned protocol_error none)
      wait_response_wrong_magic ne = header_read ∙ rw (ne→==_false received.magic 39 ne)

      module _ (magic : received.magic ≡ rest_magic_num)
          (fits : converted.body_len ≤ max_size) where
        body_wanted :
            wait_response host t unpack c
            ≡ after_reply_body host t unpack converted
                (record c { net = net1 })
                (async_read converted.body_len net1)
        body_wanted =
            header_read
            ∙ rw (eq→== received.magic 39 magic, le→ltb_false converted.body_len max_size fits)

        -- An error in the read of a response's body ends the call with `read_error`: the socket is
        -- closed, and every subscription's operation is completed with false.
        pub wait_response_no_body :
            (net2 : Net) (ec : ErrorCode)
            → async_read converted.body_len net1 ≡ (net2, failed ec)
            → wait_response host t unpack c ≡ (
              comple_all host t (shut host t (record c { net = net2 })),
              returned read_error none,
            )
        unfolding after_reply_body
        wait_response_no_body net2 ec e =
            body_wanted ∙ ap (after_reply_body host t unpack converted (record c { net = net1 })) e

        body_read :
            (net2 : Net) (body : Text)
            → async_read converted.body_len net1 ≡ (net2, read body)
            → wait_response host t unpack c
              ≡ after_reply_body host t unpack converted (record c { net = net1 }) (net2, read body)
        body_read net2 body e =
            body_wanted ∙ ap (after_reply_body host t unpack converted (record c { net = net1 })) e

-- A response to a function with a result.
module _ (host : Host) (t : Transport) {V : Type 0} (u : Text → Unpacked V) (c : RpcClient host t)
    (net1 : t.Net) (bytes : List ℕ) (received : RestRpcHeader)
    (head : t.async_read header_size c.net ≡ (net1, read bytes))
    (parsed : header_of_bytes host.endian bytes ≡ some received)
    (magic : received.magic ≡ rest_magic_num) where
  open t use {Net, async_read, max_size}

  abbrev reply : RestRpcHeader
  reply = if c.cross_ending then parse_recieved host received else received

  module _ (net2 : Net) (b : ℕ) (packed : Text) (pos : 0 < reply.body_len)
      (fits : reply.body_len ≤ max_size)
      (body : async_read reply.body_len net1 ≡ (net2, read (b ∷ packed))) where
    -- A reply with a body goes on with what its data unpack to.
    pub unpacked :
        wait_response host t (some u) c
        ≡ after_unpack host t
            (some u)
            reply
            (errc_of_value b)
            (record c { net = net2; body = b ∷ packed })
            (u packed)
    unfolding after_reply_body
    unpacked =
        body_read host t (some u) c net1 bytes received head parsed magic fits net2 (b ∷ packed)
          body
        ∙ rw (ne→==_false reply.body_len 0 (λ e. omega arith))

    -- A reply whose data are a value's gives that value with the code of the first byte.
    pub wait_response_value :
        (v : V)
        → reply.msg_type ≢ 1
        → u packed ≡ value v
        → wait_response host t (some u) c
          ≡ (record c { net = net2; body = b ∷ packed }, returned (errc_of_value b) (some v))
    unfolding after_unpack deliver
    wait_response_value v request e =
        unpacked
        ∙ ap
            (after_unpack host t (some u) reply (errc_of_value b)
              (record c { net = net2; body = b ∷ packed }))
            e
        ∙ rw (ne→==_false reply.msg_type 1 request)
