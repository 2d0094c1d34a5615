-- ===== src/Client/Running/Runs.antt =====
-- Runs of a client's operations, for include/rest_rpc/rpc_client.hpp, and what they keep.
use rest_rpc.Base.{
  ℕ, ◌≡◌, refl, arith, sym, not, Bool, true, false, if_elim, ◌||◌, List, ◌∷◌, ◌++◌, Option, none,
  some, length, ◌<◌,
}
use rest_rpc.Base.Text.{codes}
use rest_rpc.Base.Views.{npos, first_at}
use rest_rpc.ErrorCode.{is_error}
use rest_rpc.Protocol.{Host, RestRpcHeader, empty_header}
use rest_rpc.Router.{Text}
use rest_rpc.Transport.{Transport}
use rest_rpc.Client.{
  Unpacked, call_first, timer_first, RpcClient, call_for, Cancelled, in_write, in_read, at_end,
  cancelled_call,
}
use rest_rpc.Client.Connecting.{
  Timed, close, connect, connect_at, connect_at-has_closed, rpc_client, enable_tcp_no_delay,
  enable_cross_ending,
}
use rest_rpc.Client.Subscriptions.{subscribe}
use rest_rpc.Client.Running.{
  all_known, IsClient, opens, shut-IsClient, net-IsClient, comple_all-IsClient, filled,
  connect-IsClient,
}
use rest_rpc.Client.Running.Calls.{after_call-IsClient, call_impl-IsClient, subscribe-IsClient}

abbrev same_bit : Bool → Bool → Bool
same_bit true b = b
same_bit false b = not b

module _ (host : Host) (t : Transport) (is_open : t.Net → Bool)
    (async_read-is_open : (n : ℕ) (w : t.Net) → is_open (t.async_read n w).0 ≡ is_open w)
    (async_write-is_open : (bytes : List ℕ) (w : t.Net)
      → is_open (t.async_write bytes w).0 ≡ is_open w) where
  open t use {Net}

  abbrev Client : Type 0
  Client = RpcClient host t

  -- A cancelled write or read leaves the socket as open as before.
  abbrev pub stays_open : Cancelled Net → Client → Bool
  stays_open (in_write net') c = same_bit (is_open net') (is_open c.net)
  stays_open (in_read net' bytes) c = same_bit (is_open net') (is_open c.net)
  stays_open at_end c = true

  -- The operations one after the other, whatever their ends are. A call's timer may be first wherever
  -- the call is.
  pub data Step : Client → Client → Type 1 where
    connects :
        (opened : Net) (resolved connected : Timed Net) (c : Client)
        → opens host t is_open connected ≡ true
        → Step c (connect host t opened resolved connected c).0
    calls :
        {V : Type 0} (unpack : Option (Text → Unpacked V)) (key : ℕ) (args : Option Text)
        (c : Client)
        → Step c (call_for host t unpack call_first c key args c).0
    times_out :
        {V : Type 0} (unpack : Option (Text → Unpacked V)) (key : ℕ) (args : Option Text)
        (where_it_is : Cancelled Net) (c : Client)
        → stays_open where_it_is c ≡ true
        → Step c
            (call_for host t unpack timer_first
              (cancelled_call host t unpack where_it_is
                (record empty_header { function_id = key })
                args
                c)
              key
              args
              c).0
    subscribes :
        {V : Type 0} (unpack : Option (Text → Unpacked V)) (topic : Text) (c : Client)
        → Step c (subscribe host t unpack topic c).0
    closes : (c : Client) → Step c (close host t c)
    sets_no_delay : (r : Bool) (c : Client) → Step c (enable_tcp_no_delay host t r c)
    sets_cross_ending : (r : Bool) (c : Client) → Step c (enable_cross_ending host t r c)

  pub data Run : Client → Client → Type 1 where
    still : (c : Client) → Run c c
    steps : {c c' c'' : Client} → Step c c' → Run c' c'' → Run c c''

  same_bit-eq : (a b : Bool) → same_bit a b ≡ true → a ≡ b
  same_bit-eq true b h = sym h
  same_bit-eq false b h = ground (arith, h)

  cancelled_call-IsClient :
      {V : Type 0} (unpack : Option (Text → Unpacked V)) (h : RestRpcHeader) (args : Option Text)
      (cancelled : Cancelled Net) (c : Client)
      → stays_open cancelled c ≡ true
      → IsClient host t is_open c
      → IsClient host t is_open (cancelled_call host t unpack cancelled h args c)
  unfolding cancelled_call
  cancelled_call-IsClient unpack h args (in_write net') c same w =
      shut-IsClient host t is_open _ (net-IsClient host t is_open c net' (same_bit-eq _ _ same) w)
  cancelled_call-IsClient unpack h args (in_read net' bytes) c same w =
      comple_all-IsClient host t is_open _ (
        shut-IsClient host t is_open _
          (filled host t is_open c net' bytes (same_bit-eq _ _ same) w))
  cancelled_call-IsClient unpack h args at_end c same w =
      call_impl-IsClient host t is_open async_read-is_open async_write-is_open unpack h args c w

  Step-IsClient :
      (c c' : Client) → Step c c' → IsClient host t is_open c → IsClient host t is_open c'
  unfolding call_for close enable_tcp_no_delay enable_cross_ending
  Step-IsClient c c' (connects opened resolved connected d h) w =
      connect-IsClient host t is_open opened resolved connected d h w
  Step-IsClient c c' (calls unpack key args d) w =
      after_call-IsClient host t is_open async_read-is_open async_write-is_open unpack _ (
        call_impl-IsClient host t is_open async_read-is_open async_write-is_open unpack
          (record empty_header { function_id = key }) args d w)
  Step-IsClient c c' (times_out unpack key args cancelled d same) w =
      shut-IsClient host t is_open _ (
        cancelled_call-IsClient unpack (record empty_header { function_id = key }) args cancelled d
          same w)
  Step-IsClient c c' (subscribes unpack topic d) w =
      subscribe-IsClient host t is_open async_read-is_open async_write-is_open unpack topic d w
  Step-IsClient c c' (closes d) w =
      if_elim (IsClient host t is_open) d.has_closed _ _ w (shut-IsClient host t is_open d w)
  Step-IsClient c c' (sets_no_delay r d) w = record {
    is_live = w.is_live;
    is_fresh = w.is_fresh;
    is_known = w.is_known;
  }
  Step-IsClient c c' (sets_cross_ending r d) w = record {
    is_live = w.is_live;
    is_fresh = w.is_fresh;
    is_known = w.is_known;
  }

  Run-IsClient : (c c' : Client) → Run c c' → IsClient host t is_open c → IsClient host t is_open c'
  Run-IsClient c c' (still d) w = w
  Run-IsClient c c' (steps {c' = m} one more) w = Run-IsClient m c' more (Step-IsClient c m one w)

  -- After any run of a new client's operations it is open only where its socket is, and each
  -- operation that has been completed is one of a topic that is subscribed to. When it then connects
  -- to an address, it asks the resolver for the part before the first colon and the part after it,
  -- and it is open afterwards exactly if no error is returned, whichever of the resolver, the
  -- connection and their timers ended first. The socket is as open after a read or a write as before,
  -- and open after it was connected without an error.
  pub Run-connect_at :
      (net : Net) (c : Client) (host_name port : Text) (resolve : Text → Text → Timed Net)
      (opened : Net) (connected : Timed Net)
      → Run (rpc_client host t net) c
      → first_at (codes ":") host_name ≡ none
      → length (host_name ++ (58 ∷ port)) < npos
      → let r = connect host t opened (resolve host_name port) connected c in
        ((c.has_closed || is_open c.net) ≡ true)
        × (all_known c.sub_ops c.completions ≡ true)
        × (connect_at host t (host_name ++ (58 ∷ port)) resolve opened connected c ≡ some r)
        × (r.0.has_closed ≡ is_error r.1)
  unfolding all_known
  Run-connect_at net c host_name port resolve opened connected run plain fits =
      let w =
        Run-IsClient (rpc_client host t net) c run
          (record { is_live = refl; is_fresh = refl; is_known = refl }) in
      let told =
        connect_at-has_closed host t host_name port resolve opened connected c plain fits
          (λ e. ground (arith, w.is_fresh, e)) in
      (w.is_live, w.is_known, told.0, told.1)
