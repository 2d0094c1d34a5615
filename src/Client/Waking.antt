-- ===== src/Client/Waking.antt =====
-- `comple_all` of include/rest_rpc/rpc_client.hpp: no subscription waits on after a read error.
use rest_rpc.Base.{
  ℕ, ◌≡◌, refl, ◌∙◌, ap, arith, Bool, true, false, not, ◌==◌, Bool-cases, inl, inr, ◌&&◌, ◌||◌,
  List, [], ◌∷◌, Option, none,
}
use rest_rpc.Base.Map.{Map, contains, emplace}
use rest_rpc.ErrorCode.{ErrorCode, read_error, is_error}
use rest_rpc.Protocol.{Host, header_size}
use rest_rpc.Router.{Text, key_of}
use rest_rpc.Transport.{Transport, failed}
use rest_rpc.Client.{
  Unpacked, returned, RpcClient, shut, complete, complete_each, comple_all, request_bytes,
}
use rest_rpc.Client.Replies.{call_impl_written, wait_response_no_header}
use rest_rpc.Client.Subscriptions.{subscription, subscribe, subscribe_new}

-- Whether a topic's operation has been completed with false.
unfoldable pub woken : ℕ → List (ℕ × Bool) → Bool
woken k [] = false
woken k ((j, r) ∷ completions) = (j == k && not r) || woken k completions

module _ (host : Host) (t : Transport) where
  woken_before :
      (k : ℕ) (ops : Map (Unit {0})) (c : RpcClient host t)
      → woken k c.completions ≡ true
      → woken k (complete_each host t ops c).completions ≡ true
  unfolding complete_each complete woken
  woken_before k [] c h = h
  woken_before k ((j, op) ∷ ops) c h = woken_before k ops (complete host t j false c) (ground arith)

  woken_each :
      (k : ℕ) (ops : Map (Unit {0})) (c : RpcClient host t)
      → contains k ops ≡ true
      → woken k (complete_each host t ops c).completions ≡ true
  unfolding complete_each complete woken contains
  woken_each k [] c h = ground arith
  woken_each k ((j, op) ∷ ops) c h = elim (Bool-cases (j == k)) [
    | inl e ↦ woken_before k ops (complete host t j false c) (rw e refl)
    | inr e ↦ woken_each k ops (complete host t j false c) (ground arith)
  ]

  -- Every subscription's operation is completed, with false.
  pub comple_all-wakes :
      (k : ℕ) (c : RpcClient host t)
      → contains k c.sub_ops ≡ true
      → woken k (comple_all host t c).completions ≡ true
  unfolding comple_all
  comple_all-wakes k c h = woken_each k c.sub_ops c h

  complete_each-has_closed :
      (ops : Map (Unit {0})) (c : RpcClient host t)
      → (complete_each host t ops c).has_closed ≡ c.has_closed
  unfolding complete_each complete
  complete_each-has_closed [] c = refl
  complete_each-has_closed ((j, op) ∷ ops) c =
      complete_each-has_closed ops (complete host t j false c)

  comple_all-has_closed : (c : RpcClient host t) → (comple_all host t c).has_closed ≡ c.has_closed
  unfolding comple_all
  comple_all-has_closed c = complete_each-has_closed c.sub_ops c

module _ (host : Host) (t : Transport) {V : Type 0} (unpack : Option (Text → Unpacked V))
    (topic : Text) (c : RpcClient host t) (net1 net2 : t.Net) (written ec : ErrorCode) where
  open t use {async_read, async_write}

  abbrev begun : RpcClient host t
  begun = record c { sub_ops = emplace (key_of topic) tt c.sub_ops }

  -- Where a new subscription's request is written and the connection fails before a message comes,
  -- the call ends with `read_error`, the socket is closed, and the operation of each topic that is
  -- subscribed to, the new one included, is completed with false, so that no subscriber waits on.
  pub subscribe-wakes :
      (k : ℕ)
      → contains k (emplace (key_of topic) tt c.sub_ops) ≡ true
      → contains (key_of topic) c.sub_ops ≡ false
      → async_write
          (request_bytes host t c.cross_ending (subscription host t unpack topic) none)
          c.net
        ≡ (net1, written)
      → is_error written ≡ false
      → async_read header_size net1 ≡ (net2, failed ec)
      → ((subscribe host t unpack topic c).1 ≡ returned read_error none)
        × ((subscribe host t unpack topic c).0.has_closed ≡ true)
        × (woken k (subscribe host t unpack topic c).0.completions ≡ true)
  unfolding shut
  subscribe-wakes k subscribed new sent fine broken = (
    ap (λ r. r.1) ended,
    ap (λ r. r.0.has_closed) ended
        ∙ comple_all-has_closed host t (shut host t (record begun { net = net2 })),
    ap (λ r. woken k r.0.completions) ended
        ∙ comple_all-wakes host t k (shut host t (record begun { net = net2 })) subscribed,
  )
    where
      ended : subscribe host t unpack topic c ≡ (
        comple_all host t (shut host t (record begun { net = net2 })),
        returned read_error none,
      )
      ended =
          subscribe_new host t unpack topic c new
          ∙ call_impl_written host t unpack (subscription host t unpack topic) none begun net1
              written sent fine
          ∙ wait_response_no_header host t unpack (record begun { net = net1 }) net2 ec broken
