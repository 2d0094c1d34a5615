-- ===== src/Client/Replies/Exactly.antt =====
-- That `call_impl` and `wait_response` of include/rest_rpc/rpc_client.hpp go in one of the ways of the
-- relations, and in no other.
use native.Mathlib.Decide.{ℕ_discrete}
use Prim.{yes, no}
use rest_rpc.Base.{
  ◌≤◌, ◌≡◌, ◌≢◌, refl, sym, subst, arith, ◌↔◌, inl, inr, ltb, ltb→lt, Bool-cases, Option-cases,
  drop, Option, none, some,
}
use rest_rpc.ErrorCode.{is_error}
use rest_rpc.Protocol.{Host, RestRpcHeader, rest_magic_num, header_size, header_of_bytes}
use rest_rpc.Router.{Text}
use rest_rpc.Transport.{Transport, ReadResult, read, failed}
use rest_rpc.Client.{
  Unpacked, value, bad, CallEnd, RpcClient, request_bytes, wait_response, call_impl,
}
use rest_rpc.Client.Replies.Ways.{
  taken, IsReceived, IsReply, Gives, no_value, one_value, Wait, no_header, unreadable, wrong_magic,
  oversized, no_body, empty, unusable, answers, publishes, Call, unwritten, waits,
  Wait-wait_response, Call-call_impl,
}

module _ (host : Host) (t : Transport) {V : Type 0} (unpack : Option (Text → Unpacked V)) where
  open t use {Net, async_read, async_write, max_size}

  abbrev Here : Type 0
  Here = RpcClient host t

  abbrev Goes : Here → Type 0
  Goes c = Wait host t unpack c (wait_response host t unpack c)

  same_way : {c : Here} {r : Here × CallEnd V} → Wait host t unpack c r → Goes c
  same_way {c} {r} w = subst (Wait host t unpack c) (sym (Wait-wait_response host t unpack c r w)) w

  value-Goes :
      (c : Here) (net2 : Net) (h : RestRpcHeader) (body : Text) (v : Option V)
      → IsReply host t unpack c net2 h body
      → Gives host t unpack (taken host t unpack c h).body_len body v
      → Goes c
  value-Goes c net2 h body v i g = elim (ℕ_discrete (taken host t unpack c h).msg_type 1) [
    | yes e ↦ same_way (publishes c net2 h body v i g e)
    | no ne ↦ same_way (answers c net2 h body v i g ne)
  ]

  unpacked-Goes :
      (c : Here) (net2 : Net) (h : RestRpcHeader) (body : Text) (u : Text → Unpacked V)
      → IsReply host t unpack c net2 h body
      → unpack ≡ some u
      → (taken host t unpack c h).body_len ≢ 0
      → (x : Unpacked V) → u (drop 1 body) ≡ x
      → Goes c
  unpacked-Goes c net2 h body u i e pos (value v) reads =
      value-Goes c net2 h body (some v) i (one_value u v e pos reads)
  unpacked-Goes c net2 h body u i e pos (bad what) reads =
      same_way (unusable c net2 h body u what i e pos reads)

  reply-Goes :
      (c : Here) (net2 : Net) (h : RestRpcHeader) (body : Text)
      → IsReply host t unpack c net2 h body
      → Goes c
  reply-Goes c net2 h body i = elim (Option-cases unpack) [
    | inl e ↦ value-Goes c net2 h body none i (no_value e)
    | inr (u, e) ↦ elim (ℕ_discrete (taken host t unpack c h).body_len 0) [
      | yes z ↦ same_way (empty c net2 h body u i e z)
      | no pos ↦ unpacked-Goes c net2 h body u i e pos _ refl
    ]
  ]

  body-Goes :
      (c : Here) (net1 : Net) (h : RestRpcHeader)
      → IsReceived host t unpack c net1 h
      → h.magic ≡ rest_magic_num
      → (taken host t unpack c h).body_len ≤ max_size
      → (x : Net × ReadResult) → async_read (taken host t unpack c h).body_len net1 ≡ x
      → Goes c
  body-Goes c net1 h i m fits (net2, failed ec) e = same_way (no_body c net1 net2 h ec i m fits e)
  body-Goes c net1 h i m fits (net2, read body) e =
      reply-Goes c net2 h body
        (record { net1 = net1; received = i; magic = m; fits = fits; whole = e })

  header-Goes :
      (c : Here) (net1 : Net) (h : RestRpcHeader) → IsReceived host t unpack c net1 h → Goes c
  header-Goes c net1 h i = elim (ℕ_discrete h.magic rest_magic_num) [
    | yes m ↦ elim (Bool-cases (ltb max_size (taken host t unpack c h).body_len)) [
      | inl big ↦ same_way (oversized c net1 h i m (ltb→lt max_size _ big))
      | inr fits ↦ body-Goes c net1 h i m (ground (arith, fits)) _ refl
    ]
    | no ne ↦ same_way (wrong_magic c net1 h i ne)
  ]

  read-Goes : (c : Here) (x : Net × ReadResult) → async_read header_size c.net ≡ x → Goes c
  read-Goes c (net1, failed ec) e = same_way (no_header c net1 ec e)
  read-Goes c (net1, read bytes) e = elim (Option-cases (header_of_bytes host.endian bytes)) [
    | inl p ↦ same_way (unreadable c net1 bytes e p)
    | inr (h, p) ↦ header-Goes c net1 h (record { bytes = bytes; head = e; parsed = p })
  ]

  calls_in_a_way :
      (h : RestRpcHeader) (args : Option Text) (c : Here)
      → Call host t unpack h args c (call_impl host t unpack h args c)
  calls_in_a_way h args c =
      let w = async_write (request_bytes host t c.cross_ending h args) c.net in
      elim (Bool-cases (is_error w.1)) [
        | inl n ↦ same (unwritten w.0 w.1 refl n)
        | inr n ↦ same (waits w.0 w.1 _ refl n (read-Goes (record c { net = w.0 }) _ refl))
      ]
    where
      same :
          {r : Here × CallEnd V}
          → Call host t unpack h args c r
          → Call host t unpack h args c (call_impl host t unpack h args c)
      same {r} a =
          subst (Call host t unpack h args c) (sym (Call-call_impl host t unpack h args c r a)) a

  -- A call ends with a client and a result exactly if one of these leads there: the request cannot be
  -- written, which closes the socket; the response's header or its body cannot be read, which closes
  -- the socket and completes every operation with false; the header's bytes make up none; it has
  -- another magic number, which completes every operation with false and leaves the socket as it is;
  -- its body is longer than can be allocated, which throws; the function has a result and the body is
  -- empty, which is read outside of; its data are no value's, which throws; or the code of its first
  -- byte is returned with the value, and a message to subscribers completes its topic's operation
  -- with true, if there is one.
  pub call_impl-Call :
      (h : RestRpcHeader) (args : Option Text) (c : Here) (r : Here × CallEnd V)
      → Call host t unpack h args c r ↔ (call_impl host t unpack h args c ≡ r)
  call_impl-Call h args c r = (
    Call-call_impl host t unpack h args c r,
    λ e. subst (Call host t unpack h args c) e (calls_in_a_way h args c),
  )
