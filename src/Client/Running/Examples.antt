-- ===== src/Client/Running/Examples.antt =====
-- A client that connects, subscribes and closes over a pipe, for include/rest_rpc/rpc_client.hpp.
use rest_rpc.Base.{ℕ, ◌≡◌, refl, arith, Bool, true, false, ◌||◌, List, [], ◌∷◌, ◌++◌, some}
use rest_rpc.Base.Text.{codes}
use rest_rpc.ErrorCode.{success, is_error}
use rest_rpc.Protocol.Hosts.{little_host}
use rest_rpc.Router.{Text}
use rest_rpc.Transport.Pipe.{Pipe, pipe_transport, pipe_read, pipe_write}
use rest_rpc.Client.{Unpacked, value, RpcClient}
use rest_rpc.Client.Connecting.{Timed, finished, timed_out, connect, connect_at, close, rpc_client}
use rest_rpc.Client.Subscriptions.{subscribe}
use rest_rpc.Client.Running.{all_known}
use rest_rpc.Client.Running.Runs.{still, steps, connects, subscribes, closes, Run-connect_at}

abbrev open_pipe : Pipe → Bool
open_pipe p = p.is_open

pipe_read-is_open : (n : ℕ) (p : Pipe) → (pipe_read n p).0.is_open ≡ p.is_open
unfolding pipe_read
pipe_read-is_open n p = ground arith

pipe_write-is_open : (bytes : List ℕ) (p : Pipe) → (pipe_write bytes p).0.is_open ≡ p.is_open
unfolding pipe_write
pipe_write-is_open bytes p = ground arith

abbrev pipe : Bool → Pipe
pipe b = record { incoming = []; outgoing = []; clock = 0; is_open = b }

abbrev done : Timed Pipe
done = finished (pipe true) success

abbrev as_text : Text → Unpacked Text
as_text bytes = value bytes

abbrev Client : Type 0
Client = RpcClient little_host pipe_transport

abbrev new : Client
new = rpc_client little_host pipe_transport (pipe false)

abbrev connected : Client
connected = (connect little_host pipe_transport (pipe true) done done new).0

abbrev subscribed : Client
subscribed = (subscribe little_host pipe_transport (some as_text) (codes "abc") connected).0

abbrev closed : Client
closed = close little_host pipe_transport subscribed

abbrev home : Text
home = codes "127.0.0.1"

abbrev http : Text
http = codes "9004"

abbrev resolve : Text → Text → Timed Pipe
resolve host_name port = done

Run-connect_at_example :
    let r = connect little_host pipe_transport (pipe true) done timed_out closed in
    ((closed.has_closed || closed.net.is_open) ≡ true)
    × (all_known closed.sub_ops closed.completions ≡ true)
    × (connect_at little_host pipe_transport
          (home ++ (58 ∷ http))
          resolve
          (pipe true)
          timed_out
          closed
        ≡ some r)
    × (r.0.has_closed ≡ is_error r.1)
unfolding rest_rpc.Base.Views.first_at rest_rpc.Base.Views.starts_with
Run-connect_at_example =
    Run-connect_at little_host pipe_transport open_pipe pipe_read-is_open pipe_write-is_open
      (pipe false) closed home http resolve (pipe true) timed_out
      (steps (connects (pipe true) done done new refl) (
        steps (subscribes (some as_text) (codes "abc") connected)
          (steps (closes subscribed) (still closed))))
      refl (omega arith)
