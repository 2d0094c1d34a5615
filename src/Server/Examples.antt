-- ===== src/Server/Examples.antt =====
-- The theorems on include/rest_rpc/rpc_server.hpp for a server with one connection.
use mathlib.Core.Option
use rest_rpc.Base.{
  ℕ, ◌≡◌, refl, ap, arith, true, false, not, if◌then◌else◌, ◌&&◌, ◌||◌, [], ◌∷◌, none, some,
}
use rest_rpc.Base.Map.{find, contains}
use rest_rpc.Base.Text.{codes}
use rest_rpc.Protocol.Hosts.{little_host}
use rest_rpc.Router.{empty_router, Text, key_of}
use rest_rpc.Transport.Pipe.{pipe_transport}
use rest_rpc.IoContextPool.{io_context_pool}
use rest_rpc.Connection.{Session, close, again, ended}
use rest_rpc.Server.{
  RpcServer, arrived, accept_pass, quit_callback, stop, is_idle, check_timer_pass,
}
use rest_rpc.Server.Members.{member, no_repeats}
use rest_rpc.Server.Table.{stop-closes, check_timer_pass-keeps}
use rest_rpc.ErrorCode.{ErrorCode, success, is_error, system}
use rest_rpc.Server.Starting.{ListenEnds, listen, start_impl}
use rest_rpc.Base.Endpoint.{endpoint_of-append}
use rest_rpc.Server.Constructing.{rpc_server, rpc_server_at, rpc_server_at-fresh}
use rest_rpc.Server.Serving.{IsServer, Run, accepts, quits, steps, still}

abbrev Server : Type 0
Server = RpcServer little_host pipe_transport ℕ

abbrev topic : Text
topic = codes "abc"

abbrev subscriber : Session little_host pipe_transport ℕ
subscriber = record {
  net = record { incoming = []; outgoing = []; clock = 30; is_open = true };
  connection = record {
    conn_id = 0;
    body = [];
    quit_cb = true;
    has_closed = false;
    last_rwtime = 2;
    checkout_timeout = true;
    cross_ending = false;
    topic_id = key_of topic;
  };
  tls = record { conn = none; delay = false };
  app = 0;
  quits = [];
}

abbrev started : Server
started = record {
  io_context_pool = io_context_pool 4;
  acceptor_open = true;
  bound = some 5;
  has_stop = false;
  start_flag = true;
  conns = [];
  made = [];
  conn_id = 0;
  check_duration = 12;
  timeout_duration = 10;
  stop_timer = false;
  need_check = true;
  tcp_no_delay = true;
  cross_ending = false;
  router = empty_router;
  host_name = codes "127.0.0.1";
  port = codes "9000";
}

abbrev serving : Server
serving = record started { conns = 0 ∷ []; made = (0, subscriber) ∷ []; conn_id = 1 }

serving_once : no_repeats serving.conns ≡ true
unfolding no_repeats member
serving_once = refl

stop-closes_example :
    let s' = stop little_host pipe_transport ℕ serving in
    (s'.conns ≡ [])
    × (find 0 s'.made ≡ (
        if member 0 serving.conns
        then Option.map (close little_host pipe_transport ℕ false) (find 0 serving.made)
        else find 0 serving.made))
    × (stop little_host pipe_transport ℕ s' ≡ s')
stop-closes_example = stop-closes little_host pipe_transport ℕ serving 0 serving_once refl

check_timer_pass-keeps_example :
    let r = check_timer_pass little_host pipe_transport ℕ false 30 serving in
    let last = false || serving.stop_timer in
    let idle = not last && is_idle little_host pipe_transport ℕ 10 30 (find 0 serving.made) in
    (r.1 ≡ (if last then ended else again))
    × (member 0 r.0.conns ≡ (member 0 serving.conns && not idle))
    × (find 0 r.0.made ≡ (
        if member 0 serving.conns && idle
        then Option.map (close little_host pipe_transport ℕ false) (find 0 serving.made)
        else find 0 serving.made))
check_timer_pass-keeps_example =
    check_timer_pass-keeps little_host pipe_transport ℕ false 30 serving 0 serving_once

abbrev home : Text
home = codes "127.0.0.1"

abbrev http : Text
http = codes "9000"

abbrev constructed : Server
constructed = rpc_server little_host pipe_transport ℕ home http 4

-- A socket is accepted, and its connection quits.
abbrev after_accept : Server
after_accept =
    (accept_pass little_host pipe_transport ℕ (arrived subscriber.net true) 0 constructed).0

abbrev after_quit : Server
after_quit = quit_callback little_host pipe_transport ℕ 0 after_accept

two_steps-Run : Run little_host pipe_transport ℕ constructed after_quit
unfolding rpc_server
two_steps-Run =
    steps (accepts subscriber.net true 0 constructed (omega arith))
      (steps (quits 0 after_accept) (still after_quit))

abbrev address_in_use : ErrorCode
address_in_use = record { value = 98; category = system }

abbrev all_well : ListenEnds
all_well = record {
  resolve = λ host_name port. (5, success);
  open_ec = success;
  bind_ec = success;
  listen_ec = success;
}

abbrev taken : ListenEnds
taken = record all_well { bind_ec = address_in_use }

rpc_server_at-fresh_example :
    let listening = listen little_host pipe_transport ℕ all_well constructed in
    (listening.0.bound
      ≡ (if is_error listening.1 then none else some (all_well.resolve home http).0))
    × (listening.0.acceptor_open ≡ not (is_error listening.1))
    × IsServer little_host pipe_transport ℕ after_quit
    × (contains after_quit.conn_id after_quit.made ≡ false)
    × (member after_quit.conn_id after_quit.conns ≡ false)
unfolding rest_rpc.Base.Views.first_at rest_rpc.Base.Views.starts_with rpc_server_at
rpc_server_at-fresh_example =
    rpc_server_at-fresh little_host pipe_transport ℕ all_well home http 4 constructed after_quit
      refl (omega arith)
      (ap (Option.map (λ e. rpc_server little_host pipe_transport ℕ e.0 e.1 4))
        (endpoint_of-append home http refl (omega arith)))
      two_steps-Run

abbrev idle : Server
idle = record started { start_flag = false; acceptor_open = false; bound = none }

abbrev not_waited : Server → Server
not_waited s = s

-- A server that is stopped while it waits.
abbrev waited : Server → Server
waited s = stop little_host pipe_transport ℕ s

abbrev begun : Server
begun = (start_impl little_host pipe_transport ℕ true all_well waited success idle).0
