-- ===== src/Server/Starting/Waiting.antt =====
-- What the two ways of starting a server of include/rest_rpc/rpc_server.hpp return, and when.
use rest_rpc.Base.{◌≡◌, Bool, true, false, not, if◌then◌else◌}
use rest_rpc.Protocol.{Host}
use rest_rpc.Transport.{Transport}
use rest_rpc.ErrorCode.{ErrorCode, is_error}
use rest_rpc.Server.{RpcServer}
use rest_rpc.Server.Starting.{ListenEnds, operation_canceled, start_impl}

module _ (host : Host) (t : Transport) (App : Type 0) where
  abbrev Server : Type 0
  Server = RpcServer host t App

  -- A started server's acceptor is open until the server is stopped.
  record IsStarted (s : Server) : Type 0 where
    once : s.start_flag ≡ true
    live : s.acceptor_open ≡ not s.has_stop

  module _ (async : Bool) (again : ListenEnds) (waited others : Server → Server) where
    -- What is claimed of an asynchronous start, another start, and a second start after each.
    abbrev Ends : Server × ErrorCode × ErrorCode → Server × ErrorCode × ErrorCode → Type 0
    Ends one sync =
        (one.0.acceptor_open ≡ not (is_error one.2))
        × (start_impl host t App async again others one.1 one.0 ≡ (one.0, one.1, one.2))
        × (sync.2 ≡ one.2)
        × (sync.0.acceptor_open ≡ false)
        × (start_impl host t App async again others sync.1 sync.0
            ≡ (sync.0, sync.1, if is_error one.2 then one.2 else operation_canceled))

    abbrev code : Server → ErrorCode → Bool → Server × ErrorCode × ErrorCode
    code s ec b = (s, ec, if b then ec else operation_canceled)
