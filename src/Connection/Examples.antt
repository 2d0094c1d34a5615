-- ===== src/Connection/Examples.antt =====
-- The theorems on include/rest_rpc/rpc_connection.hpp for a connection over a pipe.
use rest_rpc.Base.Map.{Map, find}
use rest_rpc.Base.{
  ◌==◌, if◌then◌else◌, ℕ, suc, ◌+◌, ◌^◌, ◌≤◌, ◌<◌, ◌≡◌, ◌≢◌, ◌↔◌, refl, arith, Bool, true, false,
  List, [], ◌∷◌, ◌++◌, Option, none, some,
}
use rest_rpc.ErrorCode.{has_response, make_error_code}
use rest_rpc.Protocol.{RestRpcHeader, empty_header, header_bytes, little}
use rest_rpc.Protocol.Hosts.{little_host}
use rest_rpc.Router.{default_result, RpcResult, RpcRouter, empty_router, route}
use rest_rpc.Transport.Pipe.{Pipe, pipe_transport}
use rest_rpc.Connection.{
  RpcConnection, Session, again, ended, response, start_pass, start, rpc_context, context_response,
}
use rest_rpc.Connection.Loop.{headed}
use rest_rpc.Connection.Passes.{Pass}
use rest_rpc.Connection.Passes.Exactly.{start_pass-Pass}
use rest_rpc.Connection.Answers.{called}
use rest_rpc.Connection.Context.{context_response_once}
use rest_rpc.Transport.Finite.{pipe_finite}
use rest_rpc.Connection.Ending.{KeepsWithin, start_terminates}
use rest_rpc.Connection.Closing.{IsQuitOnce, KeepsQuitOnce, start-IsQuitOnce}

abbrev Here : Type 0
Here = Session little_host pipe_transport ℕ

abbrev quiet : List ℕ → Pipe
quiet bytes = record { incoming = bytes; outgoing = []; clock = 9; is_open = true }

abbrev broken : Pipe
broken = record { incoming = []; outgoing = []; clock = 9; is_open = false }

abbrev accepted : RpcConnection
accepted = record {
  conn_id = 3;
  body = [];
  quit_cb = true;
  has_closed = false;
  last_rwtime = 0;
  checkout_timeout = true;
  cross_ending = false;
  topic_id = 0;
}

abbrev over : Pipe → Here
over pipe = record {
  net = pipe;
  connection = accepted;
  tls = record { conn = none; delay = false };
  app = 0;
  quits = [];
}

abbrev nothing : RpcRouter Here
nothing = empty_router

nothing-KeepsQuitOnce : KeepsQuitOnce little_host pipe_transport ℕ nothing
unfolding route rest_rpc.Base.Map.find
nothing-KeepsQuitOnce key body s h = h

-- A frame, and what is read of it.
abbrev frame : RestRpcHeader → List ℕ
frame h = header_bytes little h ++ []

abbrev stranger : RestRpcHeader
stranger = record empty_header { magic = 40 }

abbrev subscription : RestRpcHeader
subscription = record empty_header { msg_type = 1; function_id = 77 }

abbrev from_stranger : Here
from_stranger = over (quiet (frame stranger))

start_pass-Pass_example :
    Pass little_host pipe_transport ℕ nothing from_stranger
      (headed little_host pipe_transport ℕ from_stranger (quiet []), ended)
    ↔ (start_pass little_host pipe_transport ℕ nothing from_stranger
        ≡ (headed little_host pipe_transport ℕ from_stranger (quiet []), ended))
start_pass-Pass_example =
    start_pass-Pass little_host pipe_transport ℕ nothing from_stranger
      (headed little_host pipe_transport ℕ from_stranger (quiet []), ended)

start-IsQuitOnce_example :
    IsQuitOnce little_host pipe_transport ℕ
      (start little_host pipe_transport ℕ 3 nothing (over (quiet (frame subscription)))).0
start-IsQuitOnce_example =
    start-IsQuitOnce little_host pipe_transport ℕ nothing nothing-KeepsQuitOnce 3
      (over (quiet (frame subscription))) (omega arith)

abbrev serving : Here
serving = record (over (quiet [])) { tls = record { conn = some 3; delay = false } }

-- The connection of the context, and another one.
abbrev connections : Map Here
connections = (4, over broken) ∷ (3, over (quiet [])) ∷ []

context_response_once_example :
    let made = rpc_context little_host pipe_transport ℕ serving in
    let one = context_response little_host pipe_transport ℕ made.1 default_result connections in
    (made.0.tls.delay ≡ true)
    × (find 3 one.0 ≡ (
        if 3 == 3
        then some (response little_host pipe_transport ℕ default_result 0 (over (quiet []))).0
        else find 3 connections))
    × (one.2 ≡ (response little_host pipe_transport ℕ default_result 0 (over (quiet []))).1)
    × (context_response little_host pipe_transport ℕ one.1 default_result one.0
        ≡ (one.0, one.1, make_error_code has_response))
unfolding find
context_response_once_example =
    context_response_once little_host pipe_transport ℕ (over (quiet [])) serving (over (quiet []))
      connections 3 default_result default_result refl refl

-- The router's answer to a request for a function that it does not have.
abbrev unknown : Here × RpcResult
unknown = route nothing 77 [] (called little_host pipe_transport ℕ (over broken))

nothing-KeepsWithin : KeepsWithin little_host pipe_transport ℕ pipe_finite nothing
unfolding route rest_rpc.Base.Map.find
nothing-KeepsWithin n key body s h = h

start_terminates_example :
    ((start little_host pipe_transport ℕ 2 nothing (over (quiet (frame subscription)))).1 ≢ again)
    × (start little_host pipe_transport ℕ 9 nothing (over (quiet (frame subscription)))
        ≡ start little_host pipe_transport ℕ 2 nothing (over (quiet (frame subscription))))
unfolding header_bytes
start_terminates_example =
    start_terminates little_host pipe_transport ℕ pipe_finite nothing nothing-KeepsWithin 2 9
      (over (quiet (frame subscription))) (omega arith) (omega arith)
