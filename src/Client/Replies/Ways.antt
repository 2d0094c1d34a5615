-- ===== src/Client/Replies/Ways.antt =====
-- The ways in which `call_impl` and `wait_response` of include/rest_rpc/rpc_client.hpp can go, as
-- relations of a client before and a client afterwards, with the end of the call.
use rest_rpc.Base.{
  ℕ, ◌≤◌, ◌<◌, ◌≡◌, ◌≢◌, ◌∙◌, ap, true, false, ne→==_false, eq→==, if◌then◌else◌, List, drop,
  get_or, Option, none, some,
}
use rest_rpc.Base.Map.{contains}
use rest_rpc.Base.Text.{codes}
use rest_rpc.ErrorCode.{write_error, read_error, protocol_error, errc_of_value, ErrorCode, is_error}
use rest_rpc.Protocol.{
  Host, RestRpcHeader, rest_magic_num, header_size, header_of_bytes, parse_recieved,
}
use rest_rpc.Router.{Text}
use rest_rpc.Transport.{Transport, read, failed}
use rest_rpc.Client.{
  Unpacked, value, bad, CallEnd, returned, threw, out_of_bounds, RpcClient, shut, complete,
  comple_all, request_bytes, deliver, after_unpack, after_reply_body, after_reply_header,
  wait_response, call_impl,
}
use rest_rpc.Client.Replies.{
  body_read, call_impl_write_error, call_impl_written, wait_response_no_header,
  wait_response_wrong_magic, wait_response_oversized, wait_response_no_body,
}

module _ (host : Host) (t : Transport) {V : Type 0} (unpack : Option (Text → Unpacked V)) where
  open t use {Net, async_read, async_write, max_size}

  abbrev Here : Type 0
  Here = RpcClient host t

  -- The header that the code goes by, from the one that was read.
  abbrev pub taken : Here → RestRpcHeader → RestRpcHeader
  taken c h = if c.cross_ending then parse_recieved host h else h

  -- A header that is read; and a reply, whose body is read too.
  pub record IsReceived (c : Here) (net1 : Net) (h : RestRpcHeader) : Type 0 where
    pub bytes : List ℕ
    pub head : async_read header_size c.net ≡ (net1, read bytes)
    pub parsed : header_of_bytes host.endian bytes ≡ some h

  pub record IsReply (c : Here) (net2 : Net) (h : RestRpcHeader) (body : Text) : Type 0 where
    pub net1 : Net
    pub received : IsReceived c net1 h
    pub magic : h.magic ≡ rest_magic_num
    pub fits : (taken c h).body_len ≤ max_size
    pub whole : async_read (taken c h).body_len net1 ≡ (net2, read body)

  -- The value that is had from a body: none where the function has no result.
  pub data Gives (n : ℕ) (body : Text) : Option V → Type 0 where
    no_value : unpack ≡ none → Gives n body none
    one_value :
        (u : Text → Unpacked V) (v : V)
        → unpack ≡ some u
        → n ≢ 0
        → u (drop 1 body) ≡ value v
        → Gives n body (some v)

  pub data Wait : Here → Here × CallEnd V → Type 0 where
    no_header :
        (c : Here) (net1 : Net) (ec : ErrorCode)
        → async_read header_size c.net ≡ (net1, failed ec)
        → Wait c
            (comple_all host t (shut host t (record c { net = net1 })), returned read_error none)
    unreadable :
        (c : Here) (net1 : Net) (bytes : List ℕ)
        → async_read header_size c.net ≡ (net1, read bytes)
        → header_of_bytes host.endian bytes ≡ none
        → Wait c (record c { net = net1 }, out_of_bounds)
    wrong_magic :
        (c : Here) (net1 : Net) (h : RestRpcHeader)
        → IsReceived c net1 h
        → h.magic ≢ rest_magic_num
        → Wait c (comple_all host t (record c { net = net1 }), returned protocol_error none)
    oversized :
        (c : Here) (net1 : Net) (h : RestRpcHeader)
        → IsReceived c net1 h
        → h.magic ≡ rest_magic_num
        → max_size < (taken c h).body_len
        → Wait c (record c { net = net1 }, threw (codes "length_error"))
    no_body :
        (c : Here) (net1 net2 : Net) (h : RestRpcHeader) (ec : ErrorCode)
        → IsReceived c net1 h
        → h.magic ≡ rest_magic_num
        → (taken c h).body_len ≤ max_size
        → async_read (taken c h).body_len net1 ≡ (net2, failed ec)
        → Wait c
            (comple_all host t (shut host t (record c { net = net2 })), returned read_error none)
    empty :
        (c : Here) (net2 : Net) (h : RestRpcHeader) (body : Text) (u : Text → Unpacked V)
        → IsReply c net2 h body
        → unpack ≡ some u
        → (taken c h).body_len ≡ 0
        → Wait c (record c { net = net2; body = body }, out_of_bounds)
    unusable :
        (c : Here) (net2 : Net) (h : RestRpcHeader) (body : Text) (u : Text → Unpacked V)
        (what : Text)
        → IsReply c net2 h body
        → unpack ≡ some u
        → (taken c h).body_len ≢ 0
        → u (drop 1 body) ≡ bad what
        → Wait c (record c { net = net2; body = body }, threw what)
    answers :
        (c : Here) (net2 : Net) (h : RestRpcHeader) (body : Text) (v : Option V)
        → IsReply c net2 h body
        → Gives (taken c h).body_len body v
        → (taken c h).msg_type ≢ 1
        → Wait c
            (record c { net = net2; body = body }, returned (errc_of_value (get_or body 0 0)) v)
    publishes :
        (c : Here) (net2 : Net) (h : RestRpcHeader) (body : Text) (v : Option V)
        → IsReply c net2 h body
        → Gives (taken c h).body_len body v
        → (taken c h).msg_type ≡ 1
        → Wait c (
          if contains (taken c h).function_id c.sub_ops
              then complete host t
                  (taken c h).function_id
                  true
                  (record c { net = net2; body = body })
              else record c { net = net2; body = body },
          returned (errc_of_value (get_or body 0 0)) v,
        )

  pub data Call (h : RestRpcHeader) (args : Option Text) (c : Here)
      : Here × CallEnd V → Type 0 where
    unwritten :
        (net' : Net) (ec : ErrorCode)
        → async_write (request_bytes host t c.cross_ending h args) c.net ≡ (net', ec)
        → is_error ec ≡ true
        → Call h args c (shut host t (record c { net = net' }), returned write_error none)
    waits :
        (net' : Net) (ec : ErrorCode) (r : Here × CallEnd V)
        → async_write (request_bytes host t c.cross_ending h args) c.net ≡ (net', ec)
        → is_error ec ≡ false
        → Wait (record c { net = net' }) r
        → Call h args c r

  replied :
      (c : Here) (net2 : Net) (h : RestRpcHeader) (body : Text) (i : IsReply c net2 h body)
      → wait_response host t unpack c
        ≡ after_reply_body host t unpack (taken c h) (record c { net = i.net1 }) (net2, read body)
  replied c net2 h body i =
      body_read host t unpack c i.net1 i.received.bytes h i.received.head i.received.parsed i.magic
        i.fits net2 body i.whole

  Gives-deliver :
      (c : Here) (net2 : Net) (h : RestRpcHeader) (body : Text) (v : Option V)
      → Gives h.body_len body v
      → after_reply_body host t unpack h c (net2, read body)
        ≡ deliver host t unpack h
            (errc_of_value (get_or body 0 0))
            v
            (record c { net = net2; body = body })
  unfolding after_reply_body after_unpack
  Gives-deliver c net2 h body _ (no_value e) = rw (e, after_reply_body)
  Gives-deliver c net2 h body _ (one_value u v e pos reads) =
      rw (e, after_reply_body) (rw (ne→==_false h.body_len 0 pos, reads))

  pub Wait-wait_response :
      (c : Here) (r : Here × CallEnd V) → Wait c r → wait_response host t unpack c ≡ r
  unfolding wait_response after_reply_header after_reply_body after_unpack deliver
  Wait-wait_response c _ (no_header _ net1 ec e) = wait_response_no_header host t unpack c net1 ec e
  Wait-wait_response c _ (unreadable _ net1 bytes e p) =
      ap (after_reply_header host t unpack c) e ∙ rw (p, after_reply_header)
  Wait-wait_response c _ (wrong_magic _ net1 h i ne) =
      wait_response_wrong_magic host t unpack c net1 i.bytes h i.head i.parsed ne
  Wait-wait_response c _ (oversized _ net1 h i m big) =
      wait_response_oversized host t unpack c net1 i.bytes h i.head i.parsed m big
  Wait-wait_response c _ (no_body _ net1 net2 h ec i m fits e) =
      wait_response_no_body host t unpack c net1 i.bytes h i.head i.parsed m fits net2 ec e
  Wait-wait_response c _ (empty _ net2 h body u i e z) =
      replied c net2 h body i ∙ rw (e, after_reply_body) (rw (eq→== (taken c h).body_len 0 z))
  Wait-wait_response c _ (unusable _ net2 h body u what i e pos reads) =
      replied c net2 h body i
      ∙ rw (e, after_reply_body) (rw (ne→==_false (taken c h).body_len 0 pos, reads))
  Wait-wait_response c _ (answers _ net2 h body v i g ne) =
      replied c net2 h body i
      ∙ Gives-deliver (record c { net = i.net1 }) net2 (taken c h) body v g
      ∙ rw (ne→==_false (taken c h).msg_type 1 ne)
  Wait-wait_response c _ (publishes _ net2 h body v i g e) =
      replied c net2 h body i
      ∙ Gives-deliver (record c { net = i.net1 }) net2 (taken c h) body v g
      ∙ rw (eq→== (taken c h).msg_type 1 e)

  pub Call-call_impl :
      (h : RestRpcHeader) (args : Option Text) (c : Here) (r : Here × CallEnd V)
      → Call h args c r
      → call_impl host t unpack h args c ≡ r
  Call-call_impl h args c _ (unwritten net' ec e n) =
      call_impl_write_error host t unpack h args c net' ec e n
  Call-call_impl h args c r (waits net' ec _ e n w) =
      call_impl_written host t unpack h args c net' ec e n
      ∙ Wait-wait_response (record c { net = net' }) r w
