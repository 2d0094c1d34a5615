-- ===== src/Demo/Program/Prints.antt =====
-- What `basict_usage` of examples/server.cpp writes.
use mathlib.Core.Option
use rest_rpc.Base.{◌≡◌, sym, Bool, true, false, if◌then◌else◌, List, [], ◌∷◌, ◌++◌, Option, none}
use rest_rpc.Base.Text.{codes}
use rest_rpc.ErrorCode.{ErrorCode}
use rest_rpc.Protocol.{Host}
use rest_rpc.Router.{Text, RpcRouter}
use rest_rpc.Logger.{Level, info}
use rest_rpc.Transport.Pipe.{Pipe, pipe_transport}
use rest_rpc.Connection.{Session}
use rest_rpc.Client.{RpcClient}
use rest_rpc.Client.Connecting.{rpc_client}
use rest_rpc.Server.{RpcServer}
use rest_rpc.Server.Constructing.{rpc_server}
use rest_rpc.Demo.Functions.{StructPack}
use rest_rpc.Demo.Reporting.{Ran}
use rest_rpc.Demo.Reporting
use rest_rpc.Demo.Program.{home, port, World}

-- A pipe that is open, and on which nothing has been sent.
pub record IsQuiet (p : Pipe) : Type 0 where
  pub heard : p.incoming ≡ []
  pub sent : p.outgoing ≡ []
  pub live : p.is_open ≡ true

-- The statements of a run in which all goes well.
abbrev pub usage_statements : List (Level × List Text)
usage_statements =
    (info, codes "call result: " ∷ codes "test" ∷ [])
    ∷ (info, codes "call result: " ∷ codes "3" ∷ [])
    ∷ (info, codes "call result: " ∷ codes "jack" ∷ [])
    ∷ []

abbrev pub usage_lines : Bool → Text
usage_lines true = []
usage_lines false =
    codes "call result: test"
    ++ (10 ∷ (codes "call result: 3" ++ (10 ∷ (codes "call result: jack" ++ (10 ∷ [])))))

module _ (host : Host) (App : Type 0) (pack : StructPack) (w : World App)
    (router : RpcRouter (Session host pipe_transport App)) where
  abbrev pub server : RpcServer host pipe_transport App
  server = record (rpc_server host pipe_transport App home port 4) { router = router }

  abbrev client : Pipe → RpcClient host pipe_transport
  client quiet = record (rpc_client host pipe_transport quiet) {
    has_closed = false;
    should_reset = true;
  }
