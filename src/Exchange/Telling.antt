-- ===== src/Exchange/Telling.antt =====
-- A message of `publish` in include/rest_rpc/rpc_server.hpp to a connection over a pipe.
use rest_rpc.Base.{ℕ, ◌≡◌, ◌≢◌, ◌∙◌, ap, sym, Bool, true, List, ◌++◌, eq→==, ne→==_false}
use rest_rpc.ErrorCode.{success}
use rest_rpc.Protocol.{Host}
use rest_rpc.Router.{RpcResult}
use rest_rpc.Transport.Pipe.{pipe_transport, pipe_write, pipe_write_open}
use rest_rpc.Connection.{Session, response_bytes, set_last_time, after_write}
use rest_rpc.Connection.Loop.{set_last_time-eq}
use rest_rpc.Connection.Answers.{response_written}
use rest_rpc.Server.{publish_to}

module _ (host : Host) (cross : Bool) (App : Type 0) (key : ℕ) where
  -- A connection that is on the topic, and can be written to.
  abbrev pub IsOnTopic : Session host pipe_transport App → Type 0
  IsOnTopic c =
      (c.connection.topic_id ≡ key) × (c.connection.cross_ending ≡ cross) × (c.net.is_open ≡ true)

  abbrev pub frame_of : RpcResult → List ℕ
  frame_of packed = response_bytes host pipe_transport App cross packed key

  abbrev pub told : RpcResult → Session host pipe_transport App → Session host pipe_transport App
  told packed c = publish_to host pipe_transport App key packed c

  -- The connection after it has been told a message.
  pub told-eq :
      (packed : RpcResult) (c : Session host pipe_transport App)
      → IsOnTopic c
      → told packed c ≡ record (set_last_time host pipe_transport App c) {
        net = record (c.net) { outgoing = c.net.outgoing ++ frame_of packed };
      }
  unfolding publish_to after_write
  told-eq packed c h =
      let written : pipe_write
            (response_bytes host pipe_transport App c.connection.cross_ending packed key) c.net
          ≡ (record (c.net) { outgoing = c.net.outgoing ++ frame_of packed }, success) =
        rw h.1 (pipe_write_open (frame_of packed) c.net h.2) in
      rw (eq→== c.connection.topic_id key h.0)
        (ap (λ r. r.0) (response_written host pipe_transport App packed key c _ written))

  pub told-IsOnTopic :
      (packed : RpcResult) (c : Session host pipe_transport App)
      → IsOnTopic c
      → IsOnTopic (told packed c)
  told-IsOnTopic packed c h =
      let same = set_last_time-eq host pipe_transport App c in
      rw (told-eq packed c h) (same.3 ∙ h.0, same.1 ∙ h.1, h.2)

  -- A message to another topic.
  pub told_ne :
      (other : ℕ) (packed : RpcResult) (c : Session host pipe_transport App)
      → IsOnTopic c
      → other ≢ key
      → publish_to host pipe_transport App other packed c ≡ c
  unfolding publish_to
  told_ne other packed c h ne = rw (h.0, ne→==_false key other (λ e. ne (sym e)))
