-- ===== src/Connection/Loop.antt =====
-- The loop of `rpc_connection::start` in include/rest_rpc/rpc_connection.hpp, pass by pass.
use rest_rpc.Base.{
  ℕ, suc, ◌≡◌, refl, ◌∙◌, ap, arith, Bool, true, false, if◌then◌else◌, List, none, some,
}
use rest_rpc.ErrorCode.{ErrorCode}
use rest_rpc.Protocol.{
  Host, RestRpcHeader, IsHeader, header_size, header_of_bytes, prepare_for_send, parse_recieved,
}
use rest_rpc.Protocol.Order.{parse_recieved-prepare_for_send}
use rest_rpc.Protocol.Wire.{prepare_for_send-IsHeader}
use rest_rpc.Router.{Text, RpcRouter}
use rest_rpc.Transport.{Transport, read, failed}
use rest_rpc.Connection.{
  again, ended, escaped, Session, set_last_time, close, start_header, start_pass, after_header,
  resume, start,
}

-- The header as it goes over the wire, with and without conversion.
abbrev pub sent_header : Host → Bool → RestRpcHeader → RestRpcHeader
sent_header host cross h = if cross then prepare_for_send host h else h

pub sent_header-IsHeader :
    (host : Host) (cross : Bool) (h : RestRpcHeader)
    → IsHeader h
    → IsHeader (sent_header host cross h)
sent_header-IsHeader host true h w = prepare_for_send-IsHeader host h w
sent_header-IsHeader host false h w = w

-- The receiver gets the sender's header back if both convert or neither does.
pub parse_sent_header :
    (host : Host) (cross : Bool) (h : RestRpcHeader)
    → IsHeader h
    → (if cross then parse_recieved host (sent_header host cross h) else sent_header host cross h)
      ≡ h
parse_sent_header host true h w = parse_recieved-prepare_for_send host h w
parse_sent_header host false h w = refl

module _ (host : Host) (t : Transport) (App : Type 0) where
  open t use {Net, now, async_read, async_write, close_socket, max_size}

  abbrev Here : Type 0
  Here = Session host t App

  pub set_last_time-eq :
      (s : Here)
      → ((set_last_time host t App s).net ≡ s.net)
        × ((set_last_time host t App s).connection.cross_ending ≡ s.connection.cross_ending)
        × ((set_last_time host t App s).connection.has_closed ≡ s.connection.has_closed)
        × ((set_last_time host t App s).connection.topic_id ≡ s.connection.topic_id)
        × ((set_last_time host t App s).quits ≡ s.quits)
        × ((set_last_time host t App s).tls ≡ s.tls)
        × ((set_last_time host t App s).app ≡ s.app)
  unfolding set_last_time
  set_last_time-eq s = ground arith

  after_header_parsed :
      (router : RpcRouter Here) (s : Here) (net1 : Net) (bytes : List ℕ) (h : RestRpcHeader)
      → header_of_bytes host.endian bytes ≡ some h
      → after_header host t App router s (net1, read bytes)
        ≡ start_header host t App router h (record s { net = net1 })
  unfolding after_header
  after_header_parsed router s net1 bytes h p = rw (p, after_header)

  -- What the header's bytes leave for the rest of a pass.
  pub header_pass :
      (router : RpcRouter Here) (s : Here) (net1 : Net) (bytes : List ℕ) (h : RestRpcHeader)
      → async_read header_size s.net ≡ (net1, read bytes)
      → header_of_bytes host.endian bytes ≡ some h
      → start_pass host t App router s
        ≡ start_header host t App router h (record (set_last_time host t App s) { net = net1 })
  unfolding start_pass
  header_pass router s net1 bytes h e p =
      let same : async_read header_size (set_last_time host t App s).net ≡ (net1, read bytes) =
        ap (async_read header_size) (set_last_time-eq s).0 ∙ e in
      ap (after_header host t App router (set_last_time host t App s)) same
      ∙ after_header_parsed router (set_last_time host t App s) net1 bytes h p

  -- The header that the code goes by, from the one that was read.
  abbrev pub converted : Here → RestRpcHeader → RestRpcHeader
  converted s h = if s.connection.cross_ending then parse_recieved host h else h

  -- A session after the read of a header, and after the read of a body.
  abbrev pub headed : Here → Net → Here
  headed s net1 = record (set_last_time host t App s) { net = net1 }

  -- An error in the read of a header ends the coroutine, with the connection closed.
  pub start_pass_no_header :
      (router : RpcRouter Here) (s : Here) (net1 : Net) (ec : ErrorCode)
      → async_read header_size s.net ≡ (net1, failed ec)
      → start_pass host t App router s ≡ (close host t App true (headed s net1), ended)
  unfolding start_pass after_header
  start_pass_no_header router s net1 ec e =
      ap (after_header host t App router (set_last_time host t App s))
        (ap (async_read header_size) (set_last_time-eq s).0 ∙ e)

  -- Bytes that are no header, of which there are none, would end it by an exception.
  pub start_pass_unreadable :
      (router : RpcRouter Here) (s : Here) (net1 : Net) (bytes : List ℕ)
      → async_read header_size s.net ≡ (net1, read bytes)
      → header_of_bytes host.endian bytes ≡ none
      → start_pass host t App router s ≡ (headed s net1, escaped)
  unfolding start_pass after_header
  start_pass_unreadable router s net1 bytes e p =
      ap (after_header host t App router (set_last_time host t App s))
        (ap (async_read header_size) (set_last_time-eq s).0 ∙ e)
      ∙ rw (p, after_header)

  abbrev pub bodied : Here → Net → Text → Here
  bodied s net2 body =
      let s' = set_last_time host t App s in
      record s' { net = net2; connection = record (s'.connection) { body = body } }

  pub converted-headed :
      (s : Here) (net1 : Net) (h : RestRpcHeader) → converted (headed s net1) h ≡ converted s h
  converted-headed s net1 h = rw (set_last_time-eq s).1

  pub converted-magic : (s : Here) (h : RestRpcHeader) → (converted s h).magic ≡ h.magic
  unfolding parse_recieved
  converted-magic s h = ground arith

  -- A pass after which the loop goes on.
  pub start_again :
      (router : RpcRouter Here) (passes : ℕ) (s s' : Here)
      → start_pass host t App router s ≡ (s', again)
      → start host t App (suc passes) router s ≡ start host t App passes router s'
  unfolding start resume
  start_again router passes s s' e = ap (resume host t App (start host t App passes router)) e
