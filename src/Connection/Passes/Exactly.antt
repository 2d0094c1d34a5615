-- ===== src/Connection/Passes/Exactly.antt =====
-- That a pass of the loop of `rpc_connection::start` in include/rest_rpc/rpc_connection.hpp goes in one
-- of the ways of the step relation, and in no other.
use native.Mathlib.Decide.{ℕ_discrete}
use Prim.{yes, no}
use rest_rpc.Base.{
  ◌≤◌, ◌<◌, ◌≡◌, refl, sym, subst, arith, ◌↔◌, inl, inr, ltb, ltb→lt, Bool-cases, Option-cases,
}
use rest_rpc.ErrorCode.{is_error}
use rest_rpc.Protocol.{Host, RestRpcHeader, rest_magic_num, header_size, header_of_bytes}
use rest_rpc.Router.{RpcRouter, route}
use rest_rpc.Transport.{Transport, ReadResult, read, failed}
use rest_rpc.Connection.{Next, Session, response_bytes, start_route, start_pass}
use rest_rpc.Connection.Loop.{converted}
use rest_rpc.Connection.Answers.{called}
use rest_rpc.Connection.Passes.{
  IsReceived, IsRequest, Answer, left, written, unwritten, Pass, no_header, unreadable, wrong_magic,
  subscribes, oversized, no_body, routes_empty, routes, Answer-start_route, Pass-start_pass,
}

module _ (host : Host) (t : Transport) (App : Type 0) where
  open t use {Net, async_read, async_write, max_size}

  abbrev Here : Type 0
  Here = Session host t App

  module _ (router : RpcRouter Here) where
    abbrev Ways : Here → Here × Next → Type 0
    Ways = Pass host t App router

    abbrev Answers : RestRpcHeader → Here → Here × Next → Type 0
    Answers = Answer host t App router

    abbrev Request : Here → Net → RestRpcHeader → Type 0
    Request = IsRequest host t App

    abbrev Received : Here → Net → RestRpcHeader → Type 0
    Received = IsReceived host t App

    start_route-Answer :
        (h : RestRpcHeader) (s : Here) → Answers h s (start_route host t App router h s)
    start_route-Answer h s =
        let r = route router h.function_id s.connection.body (called host t App s) in
        let w = async_write (response_bytes host t App r.0.connection.cross_ending r.1 0) r.0.net in
        elim (Bool-cases r.0.tls.delay) [
          | inl d ↦ same (left h s r.0 r.1 refl d)
          | inr d ↦ elim (Bool-cases (is_error w.1)) [
            | inl n ↦ same (unwritten h s r.0 r.1 w.0 w.1 refl d refl n)
            | inr n ↦ same (written h s r.0 r.1 w.0 w.1 refl d refl n)
          ]
        ]
      where
        same : {r : Here × Next} → Answers h s r → Answers h s (start_route host t App router h s)
        same {r} a = subst (Answers h s) (sym (Answer-start_route host t App router h s r a)) a

    abbrev Goes : Here → Type 0
    Goes s = Ways s (start_pass host t App router s)

    same_pass : {s : Here} {r : Here × Next} → Ways s r → Goes s
    same_pass {s} {r} p = subst (Ways s) (sym (Pass-start_pass host t App router s r p)) p

    body-Goes :
        (s : Here) (net1 : Net) (h : RestRpcHeader)
        → Request s net1 h
        → 0 < (converted host t App s h).body_len
        → (converted host t App s h).body_len ≤ max_size
        → (x : Net × ReadResult) → async_read (converted host t App s h).body_len net1 ≡ x
        → Goes s
    body-Goes s net1 h q pos fits (net2, failed ec) e =
        same_pass (no_body s net1 net2 h ec q pos fits e)
    body-Goes s net1 h q pos fits (net2, read body) e =
        same_pass (routes s net1 net2 h body _ q pos fits e (start_route-Answer _ _))

    message-Goes : (s : Here) (net1 : Net) (h : RestRpcHeader) → Request s net1 h → Goes s
    message-Goes s net1 h q = elim (Bool-cases (ltb max_size (converted host t App s h).body_len)) [
      | inl big ↦ same_pass (oversized s net1 h q (ltb→lt max_size _ big))
      | inr fits ↦ elim (ℕ_discrete (converted host t App s h).body_len 0) [
        | yes z ↦ same_pass (routes_empty s net1 h _ q z (start_route-Answer _ _))
        | no nz ↦ body-Goes s net1 h q (ground (arith, nz)) (ground (arith, fits)) _ refl
      ]
    ]

    header-Goes : (s : Here) (net1 : Net) (h : RestRpcHeader) → Received s net1 h → Goes s
    header-Goes s net1 h i = elim (ℕ_discrete h.magic rest_magic_num) [
      | yes m ↦ elim (ℕ_discrete (converted host t App s h).msg_type 1) [
        | yes e ↦ same_pass (subscribes s net1 h i m e)
        | no ne ↦ message-Goes s net1 h (record { received = i; magic = m; request = ne })
      ]
      | no ne ↦ same_pass (wrong_magic s net1 h i ne)
    ]

    read-Goes : (s : Here) (x : Net × ReadResult) → async_read header_size s.net ≡ x → Goes s
    read-Goes s (net1, failed ec) e = same_pass (no_header s net1 ec e)
    read-Goes s (net1, read bytes) e = elim (Option-cases (header_of_bytes host.endian bytes)) [
      | inl p ↦ same_pass (unreadable s net1 bytes e p)
      | inr (h, p) ↦ header-Goes s net1 h (record { bytes = bytes; head = e; parsed = p })
    ]

    -- A pass of the loop ends in a state exactly if one of these leads there: the header cannot be
    -- read, which closes the connection and ends the loop; its bytes make up none; it has another
    -- magic number, which ends the loop and leaves the connection as it is, open too; it is a
    -- subscription, which sets the topic; its body is longer than can be allocated, which lets an
    -- exception out of the loop and closes nothing; its body cannot be read, which closes the
    -- connection and ends the loop; or its body, empty or read, is routed, and then the handler has
    -- taken over the answer, the answer is written, or it cannot be written, which closes the
    -- connection and ends the loop.
    pub start_pass-Pass :
        (s : Here) (r : Here × Next)
        → Pass host t App router s r ↔ (start_pass host t App router s ≡ r)
    start_pass-Pass s r =
        (Pass-start_pass host t App router s r, λ e. subst (Ways s) e (read-Goes s _ refl))
