-- ===== src/Server/Table.antt =====
-- The table of connections of include/rest_rpc/rpc_server.hpp, operation by operation.
use mathlib.Core.Option
use rest_rpc.Base.{
  ℕ, ◌≡◌, refl, arith, true, false, not, ◌==◌, if◌then◌else◌, ◌&&◌, ◌||◌, Bool, List, [], ◌∷◌,
}
use rest_rpc.Base.Map.{Map, find, update, find-update}
use rest_rpc.Protocol.{Host}
use rest_rpc.Router.{Text, RpcResult, key_of}
use rest_rpc.Transport.{Transport}
use rest_rpc.Connection.{Session, close, again, ended}
use rest_rpc.Server.{
  RpcServer, stop, publish_to, publish, is_idle, check_each, check_timeout, check_timer_pass,
}
use rest_rpc.Server.Members.{member, no_repeats, find-update_all}

module _ (host : Host) (t : Transport) (App : Type 0) where
  abbrev Table : Type 0
  Table = Map (Session host t App)

  -- Publishing to a topic sends the packed value once to each connection that is served and is on
  -- the topic, and leaves every other connection as it is; no id stands twice among those served.
  pub publish-reaches :
      (topic : Text) (packed : RpcResult) (s : RpcServer host t App) (k : ℕ)
      → no_repeats s.conns ≡ true
      → find k (publish host t App topic packed s).made ≡ (
          if member k s.conns
          then Option.map (publish_to host t App (key_of topic) packed) (find k s.made)
          else find k s.made)
  unfolding publish
  publish-reaches topic packed s k h = find-update_all s.conns k _ s.made h

  -- Stopping closes each connection that is served, without its quit callback, leaves the others as
  -- they are, and serves none; a second stop changes nothing.
  pub stop-closes :
      (s : RpcServer host t App) (k : ℕ)
      → no_repeats s.conns ≡ true
      → s.has_stop ≡ false
      → let s' = stop host t App s in
        (s'.conns ≡ [])
        × (find k s'.made ≡ (
            if member k s.conns
            then Option.map (close host t App false) (find k s.made)
            else find k s.made))
        × (stop host t App s' ≡ s')
  unfolding stop
  stop-closes s k h running =
      rw running (refl, find-update_all s.conns k (close host t App false) s.made h, refl)

  -- What a key that stands before others without repeats is not.
  tail_repeats :
      (j : ℕ) (js : List ℕ)
      → no_repeats (j ∷ js) ≡ true
      → (member j js ≡ false) × (no_repeats js ≡ true)
  unfolding no_repeats
  tail_repeats j js h = ground arith

  abbrev idle_closed : ℕ → ℕ → ℕ → Table → Table
  idle_closed limit cur_time j made =
      if is_idle host t App limit cur_time (find j made)
      then update j (close host t App false) made
      else made

  find-idle_closed :
      (limit cur_time j k : ℕ) (made : Table)
      → find k (idle_closed limit cur_time j made) ≡ (
          if j == k && is_idle host t App limit cur_time (find j made)
          then Option.map (close host t App false) (find k made)
          else find k made)
  find-idle_closed limit cur_time j k made =
      ground (arith, find-update j k (close host t App false) made)

  -- The ids that a check keeps, and the connections that it closes.
  check_each-keeps :
      (limit cur_time : ℕ) (ids : List ℕ) (made : Table) (k : ℕ)
      → no_repeats ids ≡ true
      → member k (check_each host t App limit cur_time ids made).0
        ≡ (member k ids && not (is_idle host t App limit cur_time (find k made)))
  unfolding check_each member
  check_each-keeps limit cur_time [] made k h = refl
  check_each-keeps limit cur_time (j ∷ js) made k h = ground (
    arith,
    tail_repeats j js h,
    find-idle_closed limit cur_time j k made,
    check_each-keeps limit cur_time js (idle_closed limit cur_time j made) k
        (tail_repeats j js h).1,
  )

  check_each-closes :
      (limit cur_time : ℕ) (ids : List ℕ) (made : Table) (k : ℕ)
      → no_repeats ids ≡ true
      → find k (check_each host t App limit cur_time ids made).1 ≡ (
          if member k ids && is_idle host t App limit cur_time (find k made)
          then Option.map (close host t App false) (find k made)
          else find k made)
  unfolding check_each member
  check_each-closes limit cur_time [] made k h = refl
  check_each-closes limit cur_time (j ∷ js) made k h = ground (
    arith,
    tail_repeats j js h,
    find-idle_closed limit cur_time j k made,
    check_each-closes limit cur_time js (idle_closed limit cur_time j made) k
        (tail_repeats j js h).1,
  )

  -- What a check keeps and closes.
  pub check_timeout-keeps :
      (cur_time : ℕ) (s : RpcServer host t App) (k : ℕ)
      → no_repeats s.conns ≡ true
      → let idle = is_idle host t App s.timeout_duration cur_time (find k s.made) in
        (member k (check_timeout host t App cur_time s).conns ≡ (member k s.conns && not idle))
        × (find k (check_timeout host t App cur_time s).made ≡ (
            if member k s.conns && idle
            then Option.map (close host t App false) (find k s.made)
            else find k s.made))
  unfolding check_timeout
  check_timeout-keeps cur_time s k h = (
    check_each-keeps s.timeout_duration cur_time s.conns s.made k h,
    check_each-closes s.timeout_duration cur_time s.conns s.made k h,
  )

  -- Where no id stands twice among those served, a pass of the timer after whose wait there is no
  -- error, before the timer is stopped, goes on serving exactly the connections that have not been
  -- idle for longer than the limit; those that have are closed, without their quit callback, every
  -- other connection stays as it is, and there is another pass. After an error, or once the timer is
  -- stopped, a pass is the last, and closes none.
  pub check_timer_pass-keeps :
      (failed : Bool) (cur_time : ℕ) (s : RpcServer host t App) (k : ℕ)
      → no_repeats s.conns ≡ true
      → let r = check_timer_pass host t App failed cur_time s in
        let last = failed || s.stop_timer in
        let idle = not last && is_idle host t App s.timeout_duration cur_time (find k s.made) in
        (r.1 ≡ (if last then ended else again))
        × (member k r.0.conns ≡ (member k s.conns && not idle))
        × (find k r.0.made ≡ (
            if member k s.conns && idle
            then Option.map (close host t App false) (find k s.made)
            else find k s.made))
  unfolding check_timer_pass
  check_timer_pass-keeps failed cur_time s k h = ground (arith, check_timeout-keeps cur_time s k h)
