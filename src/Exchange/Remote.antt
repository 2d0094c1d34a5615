-- ===== src/Exchange/Remote.antt =====
-- Calls between one client and one connection of a server that their pipes join: rpc_client.hpp's
-- `call_for`, cut where it waits for the response, and rpc_connection.hpp's pass of the loop, of
-- include/rest_rpc.
pub mod Local
pub mod Serving
mod Examples
use rest_rpc.Base.{◌++◌, ℕ, [], some}
use rest_rpc.ErrorCode.{ErrorCode}
use rest_rpc.Protocol.{Host, empty_header}
use rest_rpc.Router.{Text, RpcRouter}
use rest_rpc.Transport.Pipe.{Pipe, pipe_transport, pipe_write}
use rest_rpc.Connection.{Session, start_pass}
use rest_rpc.Client.{Unpacked, RpcClient, CallEnd, request_bytes, after_request, after_call}

module _ (host : Host) (App : Type 0) (router : RpcRouter (Session host pipe_transport App)) where
  -- A client and the session of its connection.
  abbrev pub Link : Type 0
  Link = RpcClient host pipe_transport × Session host pipe_transport App

  -- The caller goes on when what the server has sent has come in.
  unfoldable pub replied :
      {V : Type 0}
      → (Text → Unpacked V)
      → RpcClient host pipe_transport
      → Pipe × ErrorCode
      → Session host pipe_transport App
      → Link × CallEnd V
  replied u c (net', ec) s =
      let net'' = record net' { incoming = net'.incoming ++ s.net.outgoing; outgoing = [] } in
      let r =
        after_call host pipe_transport (some u)
          (after_request host pipe_transport (some u) c (net'', ec)) in
      ((r.0, record s { net = record (s.net) { outgoing = [] } }), r.1)

  -- What the caller has written comes in at the server, whose loop makes a pass.
  unfoldable pub carried :
      {V : Type 0} → (Text → Unpacked V) → Link → Pipe × ErrorCode → Link × CallEnd V
  unfolding replied
  carried u (c, s) (net', ec) =
      replied u c (net', ec)
        (start_pass host pipe_transport App router
          (record s { net = record (s.net) { incoming = s.net.incoming ++ net'.outgoing } })).0

  -- `call_for` of the function with this key, where the answer comes before the timer.
  unfoldable pub remote_call :
      {V : Type 0} → (Text → Unpacked V) → ℕ → Text → Link → Link × CallEnd V
  unfolding carried
  remote_call u key buf (c, s) =
      carried u (c, s)
        (pipe_write
          (request_bytes host pipe_transport c.cross_ending
            (record empty_header { function_id = key }) (some buf))
          c.net)
