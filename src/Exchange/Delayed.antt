-- ===== src/Exchange/Delayed.antt =====
-- A call whose handler answers later, with the context of include/rest_rpc/rpc_connection.hpp, and the
-- caller's end of it in rpc_client.hpp.
use mathlib.Core.Option
use rest_rpc.Base.Map.{Map, find}
use rest_rpc.Base.{Option, ℕ, ◌^◌, ◌<◌, ◌≡◌, Bool, true, false, List, ◌++◌, some, length}
use rest_rpc.Protocol.{Host}
use rest_rpc.Router.{Text, RpcResult, RpcRouter}
use rest_rpc.Transport.Pipe.{Pipe, pipe_transport}
use rest_rpc.Connection.{Session, RpcContext, response_bytes, rpc_context}
use rest_rpc.Connection.Answers.{called}
use rest_rpc.Exchange.{request_frame, delivered, request_gone}

module _ {host : Host} {App : Type 0} where
  -- What the connection of an id has sent.
  abbrev pub outgoing_of : ℕ → Map (Session host pipe_transport App) → Option (List ℕ)
  outgoing_of k conns =
      Option.map (λ (d : Session host pipe_transport App). d.net.outgoing) (find k conns)

module _ (host : Host) (cross : Bool) (App : Type 0) (key : ℕ) (buf : Text)
    (key_fits : key < 2 ^ 32) (pos : 0 < length buf) (short : length buf < 0x7fffffff)
    (router : RpcRouter (Session host pipe_transport App))
    (s asking : Session host pipe_transport App) (result : RpcResult) (rest : List ℕ)
    (conversion : s.connection.cross_ending ≡ cross)
    (sent : s.net.incoming ≡ request_frame host cross key buf key_fits pos short ++ rest) where
  abbrev pub taken : Session host pipe_transport App
  taken = called host pipe_transport App (
      delivered host cross key buf key_fits pos short App router s asking result rest conversion
        sent)

  -- The session that the handler leaves, and its context.
  abbrev made : Session host pipe_transport App × RpcContext
  made = rpc_context host pipe_transport App asking

  after_pass : Session host pipe_transport App
  after_pass = record (made.0) { tls = record (made.0.tls) { delay = false } }

  module _ (packed : RpcResult) (serving : asking.tls.conn ≡ some s.connection.conn_id)
      (kept : asking.connection.cross_ending ≡ cross)
      (alone : asking.net
        ≡ request_gone host cross key buf key_fits pos short App router s asking result rest
            conversion sent)
      (is_open : s.net.is_open ≡ true) where
    abbrev answered : Pipe
    answered = record (asking.net) {
      outgoing = asking.net.outgoing ++ response_bytes host pipe_transport App cross packed 0;
    }
