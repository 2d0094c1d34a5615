-- ===== src/Exchange/Hearing.antt =====
-- A subscriber from its request on: the pass of its connection's loop in
-- include/rest_rpc/rpc_connection.hpp, and what the server of rpc_server.hpp sends it afterwards.
use mathlib.Core.Option
use rest_rpc.Base.{
  ℕ, ◌^◌, ◌<◌, ◌≡◌, refl, ◌∙◌, ap, Bool, true, List, ◌++◌, Option, none, some, ==_refl,
}
use rest_rpc.Base.Map.{find, find-update, update}
use rest_rpc.Protocol.{Host}
use rest_rpc.Router.{Text, key_of}
use rest_rpc.Transport.Pipe.{pipe_transport}
use rest_rpc.Connection.{Session, start_pass}
use rest_rpc.Connection.Loop.{set_last_time-eq}
use rest_rpc.Client.{Unpacked, request_bytes}
use rest_rpc.Client.Subscriptions.{subscription}
use rest_rpc.Server.{RpcServer}
use rest_rpc.Server.Members.{member}
use rest_rpc.Server.Serving.{IsServer, Run, serves, Step-IsServer}
use rest_rpc.Exchange.Publishing.{on_topic, subscribed}
use rest_rpc.Exchange.Delivery.{AllLeave, messages_of, frames_of, Run-messages_of}

module _ (host : Host) (cross : Bool) (App : Type 0) (k : ℕ) where
  abbrev Server : Type 0
  Server = RpcServer host pipe_transport App

  -- The server after a pass of the loop of the connection `k`.
  abbrev pub passed : Server → Server
  passed s = record s {
    made = update k (λ c. (start_pass host pipe_transport App s.router c).0) s.made;
  }

  -- A connection whose peer subscribes to a topic is sent, from the pass of its loop on the request
  -- on, one frame for each message that the server publishes to the topic, in their order, and
  -- nothing else, in any run of the server's steps, and goes on being served. In the run, it makes no
  -- other pass and does not quit, no check finds it idle, and the server is not stopped; it is open,
  -- and both ends agree on conversion.
  pub subscriber_hears :
      (topic : Text) {V : Type 0} (unpack : Option (Text → Unpacked V)) (s s' : Server)
      (c : Session host pipe_transport App) (rest : List ℕ)
      → key_of topic < 2 ^ 32
      → IsServer host pipe_transport App s
      → member k s.conns ≡ true
      → find k s.made ≡ some c
      → c.connection.cross_ending ≡ cross
      → c.net.is_open ≡ true
      → c.net.incoming
        ≡ request_bytes host pipe_transport cross
            (subscription host pipe_transport unpack topic)
            none
          ++ rest
      → (run : Run host pipe_transport App (passed s) s')
      → AllLeave host cross App k (key_of topic) run
      → (member k s'.conns ≡ true)
        × (Option.map (λ (d : Session host pipe_transport App). d.net.outgoing) (find k s'.made)
            ≡ some (
                c.net.outgoing
                ++ frames_of host cross App k
                    (key_of topic)
                    (messages_of host cross App k (key_of topic) run)))
  subscriber_hears topic unpack s s' c rest topic_fits w served found conversion is_open sent run
        alone =
      let pass = λ (d : Session host pipe_transport App).
        (start_pass host pipe_transport App s.router d).0 in
      let listening =
        on_topic host cross App s.router topic unpack c rest topic_fits conversion sent in
      let there : find k (passed s).made ≡ some listening =
        find-update k k pass s.made
        ∙ rw (==_refl k, found)
            (ap some (
              ap (λ r. r.0)
                (subscribed host cross App s.router topic unpack c rest topic_fits conversion
                  sent))) in
      Run-messages_of host cross App k (key_of topic) (passed s) s' run listening alone
        (Step-IsServer host pipe_transport App s (passed s) (serves k pass s) w) served there
        (refl, (set_last_time-eq host pipe_transport App c).1 ∙ conversion, is_open)
