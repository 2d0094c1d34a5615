-- ===== src/Client/Running.antt =====
-- A client of include/rest_rpc/rpc_client.hpp that does one thing after the other: connecting, calls,
-- subscriptions and closing, with any ends.
pub mod Calls
pub mod Runs
mod Examples
use rest_rpc.Base.{
  ℕ, ◌≡◌, refl, ◌∙◌, ap, arith, Bool, true, false, ◌==◌, ltb, if◌then◌else◌, Bool-cases,
  Option-cases, if_elim, ◌⊎◌, inl, inr, ◌&&◌, ◌||◌, List, [], ◌∷◌, Option, none, some, drop, get_or,
}
use rest_rpc.Base.Map.{Map, contains, emplace, contains-emplace}
use rest_rpc.ErrorCode.{ErrorCode, RpcErrc, is_error, errc_of_value}
use rest_rpc.Protocol.{
  Host, RestRpcHeader, empty_header, header_size, header_of_bytes, parse_recieved, rest_magic_num,
}
use rest_rpc.Router.{Text, key_of}
use rest_rpc.Transport.{Transport, ReadResult, read, failed}
use rest_rpc.Client.{
  Unpacked, value, bad, CallEnd, returned, threw, out_of_bounds, Race, call_first, timer_first,
  RpcClient, shut, complete, complete_each, comple_all, deliver, after_unpack, after_reply_body,
  after_reply_header, wait_response, after_request, call_impl, after_call, call_for, request_bytes,
}
use rest_rpc.Client.Connecting.{
  Timed, timed_out, finished, reset, close, after_connect, after_resolve, connect,
  connect-has_closed, rpc_client, enable_tcp_no_delay, enable_cross_ending,
}
use rest_rpc.Client.Subscriptions.{subscription, subscribe}

-- Whether each operation that has been completed is one of a topic that is subscribed to.
unfoldable pub all_known : Map (Unit {0}) → List (ℕ × Bool) → Bool
all_known ops [] = true
all_known ops ((k, r) ∷ completions) = contains k ops && all_known ops completions

all_known-emplace :
    (k : ℕ) (ops : Map (Unit {0})) (completions : List (ℕ × Bool))
    → all_known ops completions ≡ true
    → all_known (emplace k tt ops) completions ≡ true
unfolding all_known
all_known-emplace k ops [] h = refl
all_known-emplace k ops ((j, r) ∷ more) h =
    ground (arith, all_known-emplace k ops more, contains-emplace k j tt ops)

module _ (host : Host) (t : Transport) (is_open : t.Net → Bool) where
  open t use {Net}

  abbrev Client : Type 0
  Client = RpcClient host t

  -- The client is open only where its socket is, it has been closed if it has not been used, and the
  -- completed operations are those of its topics.
  pub record IsClient (c : Client) : Type 0 where
    pub is_live : (c.has_closed || is_open c.net) ≡ true
    pub is_fresh : (c.should_reset || c.has_closed) ≡ true
    pub is_known : all_known c.sub_ops c.completions ≡ true

  -- An operation that ends well leaves a socket that is open.
  abbrev pub opens : Timed Net → Bool
  opens timed_out = true
  opens (finished net' ec) = is_error ec || is_open net'

  shut-IsClient : (c : Client) → IsClient c → IsClient (shut host t c)
  unfolding shut
  shut-IsClient c w = record {
    is_live = refl;
    is_fresh = ground (arith, w.is_fresh);
    is_known = w.is_known;
  }

  net-IsClient :
      (c : Client) (net' : Net)
      → is_open net' ≡ is_open c.net
      → IsClient c
      → IsClient (record c { net = net' })
  net-IsClient c net' same w = record {
    is_live = rw same w.is_live;
    is_fresh = w.is_fresh;
    is_known = w.is_known;
  }

  complete-IsClient :
      (k : ℕ) (r : Bool) (c : Client)
      → contains k c.sub_ops ≡ true
      → IsClient c
      → IsClient (complete host t k r c)
  unfolding complete all_known
  complete-IsClient k r c subscribed w = record {
    is_live = w.is_live;
    is_fresh = w.is_fresh;
    is_known = rw subscribed w.is_known;
  }

  complete_each-IsClient :
      (ops : Map (Unit {0})) (c : Client)
      → ((k : ℕ) → contains k ops ≡ true → contains k c.sub_ops ≡ true)
      → IsClient c
      → IsClient (complete_each host t ops c)
  unfolding complete_each contains complete
  complete_each-IsClient [] c inside w = w
  complete_each-IsClient ((j, op) ∷ ops) c inside w =
      complete_each-IsClient ops (complete host t j false c) (λ k h. inside k (ground (arith, h)))
        (complete-IsClient j false c (inside j (ground arith)) w)

  comple_all-IsClient : (c : Client) → IsClient c → IsClient (comple_all host t c)
  unfolding comple_all
  comple_all-IsClient c w = complete_each-IsClient c.sub_ops c (λ k h. h) w

  -- A closed client that has been used before, whatever its socket is.
  closed-IsClient :
      (c : Client) (net' : Net)
      → c.has_closed ≡ true
      → all_known c.sub_ops c.completions ≡ true
      → IsClient (record c { net = net' })
  closed-IsClient c net' closed known = record {
    is_live = rw closed refl;
    is_fresh = ground (arith, closed);
    is_known = known;
  }

  after_connect-IsClient :
      (c : Client) (connected : Timed Net)
      → opens connected ≡ true
      → c.should_reset ≡ true
      → c.has_closed ≡ true
      → all_known c.sub_ops c.completions ≡ true
      → IsClient (after_connect host t c connected).0
  unfolding after_connect
  after_connect-IsClient c timed_out h used closed known =
      shut-IsClient c (closed-IsClient c c.net closed known)
  after_connect-IsClient c (finished net' ec) h used closed known =
      elim (Bool-cases (is_error ec)) [
        | inl e ↦ rw e (closed-IsClient c net' closed known)
        | inr e ↦
            rw e
              (record { is_live = ground (e, arith, h); is_fresh = rw used refl; is_known = known })
      ]

  after_resolve-IsClient :
      (c : Client) (resolved connected : Timed Net)
      → opens connected ≡ true
      → c.should_reset ≡ true
      → c.has_closed ≡ true
      → all_known c.sub_ops c.completions ≡ true
      → IsClient (after_resolve host t c resolved connected).0
  unfolding after_resolve
  after_resolve-IsClient c timed_out connected h used closed known =
      shut-IsClient c (closed-IsClient c c.net closed known)
  after_resolve-IsClient c (finished net' ec) connected h used closed known =
      elim (Bool-cases (is_error ec)) [
        | inl e ↦ rw e (closed-IsClient c net' closed known)
        | inr e ↦
            rw e (after_connect-IsClient (record c { net = net' }) connected h used closed known)
      ]

  connect-IsClient :
      (opened : Net) (resolved connected : Timed Net) (c : Client)
      → opens connected ≡ true
      → IsClient c
      → IsClient (connect host t opened resolved connected c).0
  unfolding connect reset shut
  connect-IsClient opened resolved connected c h w =
      after_resolve-IsClient _ resolved connected h (ground arith) (ground (arith, w.is_fresh))
        (ground (arith, w.is_known))

  -- A network that a read has left, with what was read.
  filled :
      (c : Client) (net' : Net) (bytes : Text)
      → is_open net' ≡ is_open c.net
      → IsClient c
      → IsClient (record c { net = net'; body = bytes })
  filled c net' bytes same w = record {
    is_live = rw same w.is_live;
    is_fresh = w.is_fresh;
    is_known = w.is_known;
  }
