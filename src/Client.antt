-- ===== src/Client.antt =====
-- include/rest_rpc/rpc_client.hpp: a call's request, the wait for its response, and the time limit.
-- `R` of `call_result<R>` is `V` with the way in which `rpc_codec::unpack` reads it, or none where
-- `R` is void.
pub mod Replies
pub mod Arguments
pub mod Connecting
pub mod Subscriptions
pub mod Waking
pub mod Running
pub mod Completing
mod Examples
use rest_rpc.Base.{
  ℕ, zero, suc, ◌%◌, ◌^◌, ◌≡◌, Bool, true, false, ◌==◌, ltb, if◌then◌else◌, List, [], ◌∷◌, ◌++◌,
  map, Option, none, some, length, drop, get_or,
}
use rest_rpc.Base.Words.{u64}
use rest_rpc.Base.Map.{Map, find, emplace, contains}
use rest_rpc.Base.Text.{codes}
use rest_rpc.ErrorCode.{
  RpcErrc, ok, write_error, read_error, protocol_error, request_timeout, errc_of_value, ErrorCode,
  is_error,
}
use rest_rpc.Protocol.{
  Host, RestRpcHeader, rest_magic_num, empty_header, header_size, header_bytes, header_of_bytes,
  prepare_for_send, parse_recieved,
}
use rest_rpc.Router.{Text, key_of}
pub use rest_rpc.Codec.{Unpacked, value, bad}
use rest_rpc.Transport.{Transport, ReadResult, read, failed}

-- The end of a call: a `call_result` with a code and a value (none is the value-initialised one),
-- an exception with a text, or a read outside the body, which C++ leaves undefined.
pub data CallEnd (V : Type 0) : Type 0 where
  returned : RpcErrc → Option V → CallEnd V
  threw : Text → CallEnd V
  out_of_bounds : CallEnd V

-- What a watchdog of the call ends with: the call ended first, or the timer did.
pub data Race : Type 0 where
  call_first timer_first : Race

-- Where a call is when its watchdog cancels it: in the write of the request, in a read of the response
-- with these bytes in the buffer, or at its end, and what the network is.
pub data Cancelled (Net : Type 0) : Type 0 where
  in_write : Net → Cancelled Net
  in_read : Net → Text → Cancelled Net
  at_end : Cancelled Net

module _ (host : Host) (t : Transport) where
  open t use {Net, async_read, async_write, close_socket, max_size}

  -- `rpc_client` with its `socket_t`. `sub_ops` has the topics that are subscribed to, and
  -- `completions` lists what their operations were completed with, the last first.
  pub record RpcClient : Type 0 where
    pub net : Net
    pub has_closed : Bool
    pub body : Text
    pub sub_ops : Map (Unit {0})
    pub completions : List (ℕ × Bool)
    pub cross_ending : Bool
    pub tcp_no_delay : Bool
    pub should_reset : Bool

  -- `close_socket`.
  unfoldable pub shut : RpcClient → RpcClient
  shut c = record c { net = close_socket c.net; has_closed = true }

  unfoldable pub complete : ℕ → Bool → RpcClient → RpcClient
  complete topic r c = record c { completions = (topic, r) ∷ c.completions }

  complete_each : Map (Unit {0}) → RpcClient → RpcClient
  complete_each [] c = c
  complete_each ((topic, op) ∷ ops) c = complete_each ops (complete topic false c)

  -- `comple_all`.
  unfoldable pub comple_all : RpcClient → RpcClient
  unfolding complete_each complete
  comple_all c = complete_each c.sub_ops c

  -- The buffers of `call_impl` for packed arguments, none where the function takes none.
  unfoldable pub request_header : Bool → RestRpcHeader → Option Text → RestRpcHeader
  request_header cross header none =
      let h = record header { body_len = 0 } in if cross then prepare_for_send host h else h
  request_header cross header (some buf) =
      let h = record header { body_len = u64 (length buf) } in
      if cross then prepare_for_send host h else h

  unfoldable pub request_bytes : Bool → RestRpcHeader → Option Text → List ℕ
  unfolding request_header
  request_bytes cross header none = header_bytes host.endian (request_header cross header none)
  request_bytes cross header (some buf) =
      header_bytes host.endian (request_header cross header (some buf)) ++ buf

  module _ {V : Type 0} (unpack : Option (Text → Unpacked V)) where
    -- A message to subscribers (type 1) completes the operation of its topic.
    unfoldable pub deliver : RestRpcHeader → RpcErrc → Option V → RpcClient → RpcClient × CallEnd V
    deliver header ec v c =
        if header.msg_type == 1
        then (
          if contains header.function_id c.sub_ops then complete header.function_id true c else c,
          returned ec v,
        )
        else (c, returned ec v)

    unfoldable pub after_unpack :
        RestRpcHeader → RpcErrc → RpcClient → Unpacked V → RpcClient × CallEnd V
    unfolding deliver
    after_unpack header ec c (value v) = deliver header ec (some v) c
    after_unpack header ec c (bad what) = (c, threw what)

    after_reply_body : RestRpcHeader → RpcClient → Net × ReadResult → RpcClient × CallEnd V
    unfolding after_unpack
    after_reply_body header c (net', failed ec) =
        (comple_all (shut (record c { net = net' })), returned read_error none)
    after_reply_body header c (net', read bytes) =
        let c' = record c { net = net'; body = bytes } in
        let ec = errc_of_value (get_or bytes 0 0) in
        elim unpack [
          | none ↦ deliver header ec none c'
          | some u ↦
              if header.body_len == 0
              then (c', out_of_bounds)
              else after_unpack header ec c' (u (drop 1 bytes))
        ]

    after_reply_header : RpcClient → Net × ReadResult → RpcClient × CallEnd V
    unfolding after_reply_body
    after_reply_header c (net', failed ec) =
        (comple_all (shut (record c { net = net' })), returned read_error none)
    after_reply_header c (net', read bytes) =
        let c' = record c { net = net' } in
        elim (header_of_bytes host.endian bytes) [
          | none ↦ (c', out_of_bounds)
          | some received ↦
              if received.magic == rest_magic_num
              then (let header =
                    if c.cross_ending then parse_recieved host received else received in
                  if ltb max_size header.body_len
                  then (c', threw (codes "length_error"))
                  else after_reply_body header c' (async_read header.body_len net'))
              else (comple_all c', returned protocol_error none)
        ]

    unfoldable pub wait_response : RpcClient → RpcClient × CallEnd V
    unfolding after_reply_header
    wait_response c = after_reply_header c (async_read header_size c.net)

    unfoldable pub after_request : RpcClient → Net × ErrorCode → RpcClient × CallEnd V
    after_request c (net', ec) =
        let c' = record c { net = net' } in
        if is_error ec then (shut c', returned write_error none) else wait_response c'

    unfoldable pub call_impl : RestRpcHeader → Option Text → RpcClient → RpcClient × CallEnd V
    unfolding after_request
    call_impl header args c =
        after_request c (async_write (request_bytes c.cross_ending header args) c.net)

    -- What a call has left that the watchdog cancels: its write or its read has ended with
    -- `operation_aborted` and its path for that error is taken, or it had ended before.
    unfoldable pub cancelled_call :
        Cancelled Net → RestRpcHeader → Option Text → RpcClient → RpcClient
    unfolding call_impl
    cancelled_call (in_write net') header args c = shut (record c { net = net' })
    cancelled_call (in_read net' bytes) header args c =
        comple_all (shut (record c { net = net'; body = bytes }))
    cancelled_call at_end header args c = (call_impl header args c).0

    -- What `||` of a watchdog and a call makes of the call's end, where it ends first. An exception
    -- does not end `||`, which goes on to wait for the watchdog; that closes the socket when its time
    -- is up, and has succeeded.
    unfoldable pub after_call : RpcClient × CallEnd V → RpcClient × CallEnd V
    after_call (c, returned ec v) = (c, returned ec v)
    after_call (c, threw what) = (shut c, returned request_timeout none)
    after_call (c, out_of_bounds) = (c, out_of_bounds)

    -- `call_for` with the key of the function: the call runs beside a watchdog. Where the timer is
    -- first, the socket is closed, and the client is what the cancelled call has left, `partial`
    -- (of `cancelled_call`).
    unfoldable pub call_for : Race → RpcClient → ℕ → Option Text → RpcClient → RpcClient × CallEnd V
    unfolding after_call
    call_for call_first partial key args c =
        after_call (call_impl (record empty_header { function_id = key }) args c)
    call_for timer_first partial key args c = (shut partial, returned request_timeout none)
