-- ===== src/Exchange/Delivery.antt =====
-- What a subscriber is sent while the server of include/rest_rpc/rpc_server.hpp does other things as
-- well: its connection in any run of the server's steps.
use mathlib.Core.Option
use mathlib.Core.List.{append_assoc, append-nil}
use rest_rpc.Base.{
  ℕ, ◌≡◌, ◌≢◌, refl, ◌∙◌, ap, sym, arith, ne→==_false, ==→eq, Bool-cases, inl, inr, Bool, true,
  false, ◌==◌, if◌then◌else◌, List, [], ◌∷◌, ◌++◌, some,
}
use rest_rpc.Base.Map.{find, find-assign, find-update}
use rest_rpc.Server.Members.{member-remove}
use rest_rpc.Server.Table.{publish-reaches, check_timeout-keeps}
use rest_rpc.Protocol.{Host}
use rest_rpc.Router.{Text, RpcResult, key_of}
use rest_rpc.Transport.Pipe.{Pipe, pipe_transport}
use rest_rpc.Connection.{Session, close}
use rest_rpc.Server.{
  RpcServer, publish_to, publish, is_idle, arrived, accept_pass, quit_callback, stop,
  new_connection,
}
use rest_rpc.Server.Members.{member}
use rest_rpc.Server.Serving.{
  IsServer, Step, Step-IsServer, accepts, serves, quits, publishes, checks, stops, registers, Run,
  still, steps,
}
use rest_rpc.Exchange.Telling.{IsOnTopic, frame_of, told-eq, told-IsOnTopic, told_ne}

module _ (host : Host) (cross : Bool) (App : Type 0) (k key : ℕ) where
  abbrev Server : Type 0
  Server = RpcServer host pipe_transport App

  -- A step that leaves the connection `k` to the messages that it is sent: no pass of its own loop, no
  -- quit of it, no check that finds it idle, and no stop of a running server.
  abbrev pub Leaves : {s s' : Server} → Step host pipe_transport App s s' → Type 0
  Leaves (accepts net option_set app s fits) = Unit {0}
  Leaves (serves id f s) = id ≢ k
  Leaves (quits id s) = id ≢ k
  Leaves (publishes topic packed s) = Unit {0}
  Leaves (checks cur_time s) =
      is_idle host pipe_transport App s.timeout_duration cur_time (find k s.made) ≡ false
  Leaves (stops s) = s.has_stop ≡ true
  Leaves (registers router s) = Unit {0}

  abbrev pub AllLeave : {s s' : Server} → Run host pipe_transport App s s' → Type 0
  AllLeave (still s) = Unit {0}
  AllLeave (steps one more) = Leaves one × AllLeave more

  -- The messages of a run to the topic whose key is `key`, in their order.
  abbrev pub messages_of : {s s' : Server} → Run host pipe_transport App s s' → List RpcResult
  messages_of (still s) = []
  messages_of (steps (publishes topic packed s) more) =
      if key_of topic == key then packed ∷ messages_of more else messages_of more
  messages_of (steps one more) = messages_of more

  -- The connection `k` of a server, which serves it.
  abbrev Serves : Server → Session host pipe_transport App → Type 0
  Serves s c =
      IsServer host pipe_transport App s × (member k s.conns ≡ true) × (find k s.made ≡ some c)

  -- What a step that leaves the connection alone makes of it.
  abbrev heard :
      {s s' : Server}
      → Step host pipe_transport App s s'
      → Session host pipe_transport App
      → Session host pipe_transport App
  heard (publishes topic packed s) c = publish_to host pipe_transport App (key_of topic) packed c
  heard one c = c

  accepts-Serves :
      (net : Pipe) (option_set : Bool) (app : App) (r : Server)
      (c : Session host pipe_transport App)
      → IsServer host pipe_transport App r
      → member k r.conns ≡ true
      → find k r.made ≡ some c
      → let s' = (accept_pass host pipe_transport App (arrived net option_set) app r).0 in
        (member k s'.conns ≡ true) × (find k s'.made ≡ some c)
  unfolding accept_pass member
  accepts-Serves net option_set app r c w served found = (
    ground (arith, served),
    ground (
      arith,
      found,
      w.before k (w.known k served),
      find-assign r.conn_id k (new_connection host pipe_transport App r net app) r.made,
    ),
  )

  Step-Serves :
      (s s' : Server) (one : Step host pipe_transport App s s')
      (c : Session host pipe_transport App)
      → Leaves one
      → Serves s c
      → (member k s'.conns ≡ true) × (find k s'.made ≡ some (heard one c))
  unfolding publish quit_callback stop
  Step-Serves s s' (accepts net option_set app r fits) c alone h =
      accepts-Serves net option_set app r c h.0 h.1 h.2
  Step-Serves s s' (serves id f r) c alone h =
      (h.1, find-update id k f r.made ∙ rw (ne→==_false id k alone) h.2)
  Step-Serves s s' (quits id r) c alone h =
      let apart = ne→==_false id k alone in
      (
        member-remove k id r.conns ∙ rw apart h.1,
        ground (arith, apart, h.2, find-update id k (close host pipe_transport App false) r.made),
      )
  Step-Serves s s' (publishes topic packed r) c alone h =
      (h.1, publish-reaches host pipe_transport App topic packed r k h.0.once ∙ rw (h.1, h.2))
  Step-Serves s s' (checks cur_time r) c alone h =
      let kept = check_timeout-keeps host pipe_transport App cur_time r k h.0.once in
      (kept.0 ∙ rw (h.1, alone), kept.1 ∙ rw (h.1, alone) h.2)
  Step-Serves s s' (stops r) c alone h = rw alone (h.1, h.2)
  Step-Serves s s' (registers router r) c alone h = (h.1, h.2)

  abbrev pub frames_of : List RpcResult → List ℕ
  frames_of [] = []
  frames_of (packed ∷ more) = frame_of host cross App key packed ++ frames_of more

  abbrev sent : Session host pipe_transport App → List ℕ
  sent c = c.net.outgoing

  -- A message to any topic, before those of `more`.
  heard_topic :
      (topic : Text) (packed : RpcResult) (more : List RpcResult)
      (c : Session host pipe_transport App)
      → IsOnTopic host cross App key c
      → let c' = publish_to host pipe_transport App (key_of topic) packed c in
        IsOnTopic host cross App key c'
        × (sent c' ++ frames_of more
            ≡ sent c ++ frames_of (if key_of topic == key then packed ∷ more else more))
  heard_topic topic packed more c h = elim (Bool-cases (key_of topic == key)) [
    | inl same ↦
        (let same_key = ==→eq (key_of topic) key same in
          rw (same, same_key)
            (
              told-IsOnTopic host cross App key packed c h,
              rw (told-eq host cross App key packed c h) (
                  append_assoc c.net.outgoing (frame_of host cross App key packed)
                    (frames_of more)),
            ))
    | inr apart ↦
        (let ne : key_of topic ≢ key = λ e. ground (arith, apart, e) in
          rw (apart, told_ne host cross App key (key_of topic) packed c h ne) (h, refl))
  ]

  heard-eq :
      (s m s' : Server) (one : Step host pipe_transport App s m)
      (more : Run host pipe_transport App m s') (c : Session host pipe_transport App)
      → IsOnTopic host cross App key c
      → IsOnTopic host cross App key (heard one c)
        × (sent (heard one c) ++ frames_of (messages_of more)
            ≡ sent c ++ frames_of (messages_of (steps one more)))
  heard-eq s m s' (publishes topic packed r) more c h =
      heard_topic topic packed (messages_of more) c h
  heard-eq s m s' (accepts net option_set app r fits) more c h = (h, refl)
  heard-eq s m s' (serves id f r) more c h = (h, refl)
  heard-eq s m s' (quits id r) more c h = (h, refl)
  heard-eq s m s' (checks cur_time r) more c h = (h, refl)
  heard-eq s m s' (stops r) more c h = (h, refl)
  heard-eq s m s' (registers router r) more c h = (h, refl)

  pub Run-messages_of :
      (s s' : Server) (run : Run host pipe_transport App s s') (c : Session host pipe_transport App)
      → AllLeave run
      → IsServer host pipe_transport App s
      → member k s.conns ≡ true
      → find k s.made ≡ some c
      → IsOnTopic host cross App key c
      → (member k s'.conns ≡ true)
        × (Option.map sent (find k s'.made) ≡ some (c.net.outgoing ++ frames_of (messages_of run)))
  Run-messages_of s s' (still r) c alone w served found h =
      (served, ap (Option.map sent) found ∙ ap some (sym (append-nil c.net.outgoing)))
  Run-messages_of s s' (steps {s' = m} one more) c alone w served found h =
      let next = Step-Serves s m one c alone.0 (w, served, found) in
      let told = heard-eq s m s' one more c h in
      let rest =
        Run-messages_of m s' more (heard one c) alone.1
          (Step-IsServer host pipe_transport App s m one w) next.0 next.1 told.0 in
      (rest.0, rest.1 ∙ ap some told.1)
