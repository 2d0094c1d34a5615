-- ===== src/Client/Running/Calls.antt =====
-- Calls and subscriptions of include/rest_rpc/rpc_client.hpp keep what `IsClient` tells of a client.
use rest_rpc.Base.{
  ℕ, ◌≡◌, Bool, true, false, ◌==◌, ltb, if◌then◌else◌, Bool-cases, Option-cases, if_elim, ◌⊎◌, inl,
  inr, List, Option, none, some, drop,
}
use rest_rpc.Base.Map.{contains}
use rest_rpc.ErrorCode.{ErrorCode, RpcErrc, is_error}
use rest_rpc.Protocol.{
  Host, RestRpcHeader, header_size, header_of_bytes, parse_recieved, rest_magic_num,
}
use rest_rpc.Router.{Text, key_of}
use rest_rpc.Transport.{Transport, ReadResult, read, failed}
use rest_rpc.Client.{
  Unpacked, value, bad, CallEnd, returned, threw, out_of_bounds, RpcClient, complete, deliver,
  after_unpack, after_reply_body, after_reply_header, wait_response, after_request, call_impl,
  after_call, request_bytes,
}
use rest_rpc.Client.Subscriptions.{subscription, subscribe}
use rest_rpc.Client.Running.{
  all_known-emplace, IsClient, shut-IsClient, net-IsClient, complete-IsClient, comple_all-IsClient,
  filled,
}

module _ (host : Host) (t : Transport) (is_open : t.Net → Bool)
    (async_read-is_open : (n : ℕ) (w : t.Net) → is_open (t.async_read n w).0 ≡ is_open w)
    (async_write-is_open : (bytes : List ℕ) (w : t.Net)
      → is_open (t.async_write bytes w).0 ≡ is_open w) where
  open t use {Net, async_read, async_write, max_size}

  abbrev Client : Type 0
  Client = RpcClient host t

  module _ {V : Type 0} where
    abbrev IsLeft : Client × CallEnd V → Type 0
    IsLeft r = IsClient host t is_open r.0

    deliver-IsClient :
        (unpack : Option (Text → Unpacked V)) (header : RestRpcHeader) (ec : RpcErrc) (v : Option V)
        (c : Client)
        → IsClient host t is_open c
        → IsClient host t is_open (deliver host t unpack header ec v c).0
    unfolding deliver
    deliver-IsClient unpack header ec v c w = elim (Bool-cases (header.msg_type == 1)) [
      | inl e ↦ rw e (told (Bool-cases (contains header.function_id c.sub_ops)))
      | inr e ↦ rw e w
    ]
      where
        told :
            (contains header.function_id c.sub_ops ≡ true)
              ⊎ (contains header.function_id c.sub_ops ≡ false)
            → IsClient host t is_open (
                if contains header.function_id c.sub_ops
                then complete host t header.function_id true c
                else c)
        told (inl e) = rw e (complete-IsClient host t is_open header.function_id true c e w)
        told (inr e) = rw e w

    after_unpack-IsClient :
        (unpack : Option (Text → Unpacked V)) (header : RestRpcHeader) (ec : RpcErrc) (c : Client)
        (u : Unpacked V)
        → IsClient host t is_open c
        → IsClient host t is_open (after_unpack host t unpack header ec c u).0
    unfolding after_unpack
    after_unpack-IsClient unpack header ec c (value v) w =
        deliver-IsClient unpack header ec (some v) c w
    after_unpack-IsClient unpack header ec c (bad what) w = w

    after_reply_body-IsClient :
        (unpack : Option (Text → Unpacked V)) (header : RestRpcHeader) (c : Client)
        (r : Net × ReadResult)
        → is_open r.0 ≡ is_open c.net
        → IsClient host t is_open c
        → IsClient host t is_open (after_reply_body host t unpack header c r).0
    unfolding after_reply_body
    after_reply_body-IsClient unpack header c (net', failed ec) same w =
        comple_all-IsClient host t is_open _
          (shut-IsClient host t is_open _ (net-IsClient host t is_open c net' same w))
    after_reply_body-IsClient none header c (net', read bytes) same w =
        deliver-IsClient none header _ none _ (filled host t is_open c net' bytes same w)
    after_reply_body-IsClient (some u) header c (net', read bytes) same w =
        elim (Bool-cases (header.body_len == 0)) [
          | inl e ↦ rw e (filled host t is_open c net' bytes same w)
          | inr e ↦ rw e (
              after_unpack-IsClient (some u) header _ _ (u (drop 1 bytes))
                (filled host t is_open c net' bytes same w))
        ]

    after_reply_header-IsClient :
        (unpack : Option (Text → Unpacked V)) (c : Client) (r : Net × ReadResult)
        → is_open r.0 ≡ is_open c.net
        → IsClient host t is_open c
        → IsClient host t is_open (after_reply_header host t unpack c r).0
    unfolding after_reply_header
    after_reply_header-IsClient unpack c (net', failed ec) same w =
        comple_all-IsClient host t is_open _
          (shut-IsClient host t is_open _ (net-IsClient host t is_open c net' same w))
    after_reply_header-IsClient unpack c (net', read bytes) same w =
        elim (Option-cases (header_of_bytes host.endian bytes)) [
          | inl e ↦ rw (e, after_reply_header) (net-IsClient host t is_open c net' same w)
          | inr (received, e) ↦
              rw (e, after_reply_header)
                (let stays = net-IsClient host t is_open c net' same w in
                  let header = if c.cross_ending then parse_recieved host received else received in
                  if_elim IsLeft (received.magic == rest_magic_num) _ _
                    (if_elim IsLeft (ltb max_size header.body_len) _ _ stays (
                      after_reply_body-IsClient unpack header _ (async_read header.body_len net')
                        (async_read-is_open header.body_len net') stays))
                    (comple_all-IsClient host t is_open _ stays))
        ]

    wait_response-IsClient :
        (unpack : Option (Text → Unpacked V)) (c : Client)
        → IsClient host t is_open c
        → IsLeft (wait_response host t unpack c)
    unfolding wait_response
    wait_response-IsClient unpack c w =
        after_reply_header-IsClient unpack c (async_read header_size c.net)
          (async_read-is_open header_size c.net) w

    after_request-IsClient :
        (unpack : Option (Text → Unpacked V)) (c : Client) (r : Net × ErrorCode)
        → is_open r.0 ≡ is_open c.net
        → IsClient host t is_open c
        → IsLeft (after_request host t unpack c r)
    unfolding after_request
    after_request-IsClient unpack c (net', ec) same w =
        let stays = net-IsClient host t is_open c net' same w in
        if_elim IsLeft (is_error ec) _ _ (shut-IsClient host t is_open _ stays)
          (wait_response-IsClient unpack _ stays)

    pub call_impl-IsClient :
        (unpack : Option (Text → Unpacked V)) (header : RestRpcHeader) (args : Option Text)
        (c : Client)
        → IsClient host t is_open c
        → IsLeft (call_impl host t unpack header args c)
    unfolding call_impl
    call_impl-IsClient unpack header args c w =
        let bytes = request_bytes host t c.cross_ending header args in
        after_request-IsClient unpack c (async_write bytes c.net) (async_write-is_open bytes c.net)
          w

    pub after_call-IsClient :
        (unpack : Option (Text → Unpacked V)) (r : Client × CallEnd V)
        → IsLeft r
        → IsLeft (after_call host t unpack r)
    unfolding after_call
    after_call-IsClient unpack (c, returned ec v) w = w
    after_call-IsClient unpack (c, threw what) w = shut-IsClient host t is_open c w
    after_call-IsClient unpack (c, out_of_bounds) w = w

    pub subscribe-IsClient :
        (unpack : Option (Text → Unpacked V)) (topic : Text) (c : Client)
        → IsClient host t is_open c
        → IsLeft (subscribe host t unpack topic c)
    unfolding subscribe
    subscribe-IsClient unpack topic c w =
        if_elim IsLeft (contains (key_of topic) c.sub_ops) _ _ (wait_response-IsClient unpack c w) (
          call_impl-IsClient unpack (subscription host t unpack topic) none _ (record {
            is_live = w.is_live;
            is_fresh = w.is_fresh;
            is_known = all_known-emplace (key_of topic) c.sub_ops c.completions w.is_known;
          }))
