-- ===== src/Server/Serving.antt =====
-- Runs of the server of include/rest_rpc/rpc_server.hpp: its steps in any order, and what they keep.
use rest_rpc.Base.{
  ℕ, ◌+◌, ◌^◌, ◌<◌, ◌≡◌, refl, sym, ◌∙◌, arith, Bool, true, false, if◌then◌else◌, List, [], ◌∷◌,
}
use rest_rpc.Base.Map.{Map, find, update, update_all, contains, contains-assign}
use rest_rpc.Protocol.{Host}
use rest_rpc.Router.{RpcRouter, Text, RpcResult}
use rest_rpc.Transport.{Transport}
use rest_rpc.Connection.{Session, close}
use rest_rpc.Server.{
  RpcServer, arrived, accept_pass, quit_callback, stop, publish, is_idle, check_each, check_timeout,
  new_connection,
}
use rest_rpc.Server.Members.{member, no_repeats, member-remove, no_repeats-remove}

pub contains-update {ℓ} :
    {V : Type ℓ} (k j : ℕ) (f : V → V) (m : Map V) → contains j (update k f m) ≡ contains j m
unfolding contains update
contains-update k j f [] = refl
contains-update k j f ((i, w) ∷ m) = ground (arith, contains-update k j f m)

pub contains-update_all {ℓ} :
    {V : Type ℓ} (ks : List ℕ) (j : ℕ) (f : V → V) (m : Map V)
    → contains j (update_all ks f m) ≡ contains j m
unfolding update_all
contains-update_all [] j f m = refl
contains-update_all (k ∷ ks) j f m =
    contains-update_all ks j f (update k f m) ∙ contains-update k j f m

module _ (host : Host) (t : Transport) (App : Type 0) where
  open t use {Net}

  abbrev Server : Type 0
  Server = RpcServer host t App

  -- No id is served twice, each id that is served is that of an accepted connection, and the ids
  -- given out are those before `conn_id`.
  pub record IsServer (s : Server) : Type 0 where
    pub once : no_repeats s.conns ≡ true
    pub known : (k : ℕ) → member k s.conns ≡ true → contains k s.made ≡ true
    pub before : (k : ℕ) → contains k s.made ≡ true → k < s.conn_id

  -- The steps: a socket is accepted, where the counter does not wrap; a connection's coroutine or a
  -- handler changes that connection in any way `f`; the quit callback; a message to subscribers; a
  -- check for idle connections; the stop; a change of the registered functions.
  pub data Step : Server → Server → Type 0 where
    accepts :
        (net : Net) (option_set : Bool) (app : App) (s : Server)
        → s.conn_id + 1 < 2 ^ 64
        → Step s (accept_pass host t App (arrived net option_set) app s).0
    serves :
        (id : ℕ) (f : Session host t App → Session host t App) (s : Server)
        → Step s (record s { made = update id f s.made })
    quits : (id : ℕ) (s : Server) → Step s (quit_callback host t App id s)
    publishes :
        (topic : Text) (packed : RpcResult) (s : Server)
        → Step s (publish host t App topic packed s)
    checks : (cur_time : ℕ) (s : Server) → Step s (check_timeout host t App cur_time s)
    stops : (s : Server) → Step s (stop host t App s)
    registers :
        (router : RpcRouter (Session host t App)) (s : Server)
        → Step s (record s { router = router })

  pub data Run : Server → Server → Type 0 where
    still : (s : Server) → Run s s
    steps : {s s' s'' : Server} → Step s s' → Run s' s'' → Run s s''

  check_each-contains :
      (limit cur_time : ℕ) (ids : List ℕ) (made : Map (Session host t App)) (k : ℕ)
      → contains k (check_each host t App limit cur_time ids made).1 ≡ contains k made
  unfolding check_each
  check_each-contains limit cur_time [] made k = refl
  check_each-contains limit cur_time (id ∷ ids) made k = ground (
    arith,
    check_each-contains limit cur_time ids
        (if is_idle host t App limit cur_time (find id made)
          then update id (close host t App false) made
          else made)
        k,
    contains-update id k (close host t App false) made,
  )

  check_each-subset :
      (limit cur_time : ℕ) (ids : List ℕ) (made : Map (Session host t App)) (k : ℕ)
      → member k (check_each host t App limit cur_time ids made).0 ≡ true
      → member k ids ≡ true
  unfolding check_each member
  check_each-subset limit cur_time [] made k h = h
  check_each-subset limit cur_time (id ∷ ids) made k h = ground (
    arith,
    check_each-subset limit cur_time ids
        (if is_idle host t App limit cur_time (find id made)
          then update id (close host t App false) made
          else made)
        k,
  )

  check_each-once :
      (limit cur_time : ℕ) (ids : List ℕ) (made : Map (Session host t App))
      → no_repeats ids ≡ true
      → no_repeats (check_each host t App limit cur_time ids made).0 ≡ true
  unfolding check_each no_repeats
  check_each-once limit cur_time [] made h = h
  check_each-once limit cur_time (id ∷ ids) made h = ground (
    arith,
    check_each-once limit cur_time ids (
        if is_idle host t App limit cur_time (find id made)
        then update id (close host t App false) made
        else made),
    check_each-subset limit cur_time ids
        (if is_idle host t App limit cur_time (find id made)
          then update id (close host t App false) made
          else made)
        id,
  )

  accept_pass-IsServer :
      (net : Net) (option_set : Bool) (app : App) (s : Server)
      → s.conn_id + 1 < 2 ^ 64
      → IsServer s
      → IsServer (accept_pass host t App (arrived net option_set) app s).0
  unfolding accept_pass no_repeats member
  accept_pass-IsServer net option_set app s fits w = record {
    once = ground (arith, w.once, w.known s.conn_id, w.before s.conn_id);
    known = λ k h. ground (
      arith,
      w.known k,
      contains-assign s.conn_id k (new_connection host t App s net app) s.made,
    );
    before = λ k h. ground (
      arith,
      w.before k,
      contains-assign s.conn_id k (new_connection host t App s net app) s.made,
    );
  }

  quit_callback-IsServer :
      (id : ℕ) (s : Server) → IsServer s → IsServer (quit_callback host t App id s)
  unfolding quit_callback
  quit_callback-IsServer id s w = record {
    once = no_repeats-remove id s.conns w.once;
    known = λ k h. ground (
      arith,
      w.known k,
      member-remove k id s.conns,
      contains-update id k (close host t App false) s.made,
    );
    before =
        λ k h. ground (arith, w.before k, contains-update id k (close host t App false) s.made);
  }

  pub Step-IsServer : (s s' : Server) → Step s s' → IsServer s → IsServer s'
  unfolding publish check_timeout stop no_repeats member
  Step-IsServer s s' (accepts net option_set app r fits) w =
      accept_pass-IsServer net option_set app r fits w
  Step-IsServer s s' (serves id f r) w = record {
    once = w.once;
    known = λ k h. contains-update id k f r.made ∙ w.known k h;
    before = λ k h. w.before k (sym (contains-update id k f r.made) ∙ h);
  }
  Step-IsServer s s' (quits id r) w = quit_callback-IsServer id r w
  Step-IsServer s s' (publishes topic packed r) w = record {
    once = w.once;
    known = λ k h. contains-update_all r.conns k _ r.made ∙ w.known k h;
    before = λ k h. w.before k (sym (contains-update_all r.conns k _ r.made) ∙ h);
  }
  Step-IsServer s s' (checks cur_time r) w = record {
    once = check_each-once r.timeout_duration cur_time r.conns r.made w.once;
    known = λ k h.
        check_each-contains r.timeout_duration cur_time r.conns r.made k
        ∙ w.known k (check_each-subset r.timeout_duration cur_time r.conns r.made k h);
    before = λ k h.
        w.before k (sym (check_each-contains r.timeout_duration cur_time r.conns r.made k) ∙ h);
  }
  Step-IsServer s s' (stops r) w = record {
    once = ground (arith, w.once);
    known = λ k h.
        ground (arith, w.known k, contains-update_all r.conns k (close host t App false) r.made);
    before = λ k h.
        ground (arith, w.before k, contains-update_all r.conns k (close host t App false) r.made);
  }
  Step-IsServer s s' (registers router r) w = record {
    once = w.once;
    known = w.known;
    before = w.before;
  }

  Run-IsServer : (s s' : Server) → Run s s' → IsServer s → IsServer s'
  Run-IsServer s s' (still r) w = w
  Run-IsServer s s' (steps {s' = m} one more) w = Run-IsServer m s' more (Step-IsServer s m one w)

  -- After any run of the server's steps from a state that `IsServer` describes, that description
  -- holds, and the id that the next connection gets is that of no connection accepted before, so
  -- that accepting it replaces none.
  pub Run-fresh :
      (s s' : Server)
      → Run s s'
      → IsServer s
      → IsServer s' × (contains s'.conn_id s'.made ≡ false) × (member s'.conn_id s'.conns ≡ false)
  Run-fresh s s' run w =
      let w' = Run-IsServer s s' run w in
      (
        w',
        ground (arith, w'.before s'.conn_id),
        ground (arith, w'.known s'.conn_id, w'.before s'.conn_id),
      )
