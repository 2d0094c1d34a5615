-- ===== src/Exchange/Delivered.antt =====
-- A subscriber over a pipe while the server of include/rest_rpc/rpc_server.hpp accepts, publishes
-- and loses connections.
use mathlib.Core.Option
use rest_rpc.Base.{ℕ, ◌≡◌, refl, arith, true, false, [], ◌∷◌, ◌++◌, some, none, ◌<◌, ◌^◌}
use rest_rpc.Base.Map.{find, contains}
use rest_rpc.Base.Text.{codes}
use rest_rpc.Protocol.Hosts.{little_host}
use rest_rpc.Router.{Text, RpcResult, result_of_string, key_of, empty_router}
use rest_rpc.Transport.Pipe.{Pipe, pipe_transport}
use rest_rpc.IoContextPool.{io_context_pool}
use rest_rpc.Connection.{Session}
use rest_rpc.Server.{RpcServer, accept_pass, arrived, publish, quit_callback}
use rest_rpc.Server.Members.{member, no_repeats}
use rest_rpc.Server.Serving.{IsServer, Run, still, steps, accepts, publishes, quits}
use rest_rpc.Exchange.Delivery.{messages_of, frames_of}
use rest_rpc.Exchange.Hearing.{passed, subscriber_hears}
use rest_rpc.Client.{Unpacked, value, request_bytes}
use rest_rpc.Client.Subscriptions.{subscription}
use rest_rpc.Md5.Examples.{md5_hash32_vectors}

abbrev topic : Text
topic = codes "abc"

abbrev as_text : Text → Unpacked Text
as_text bytes = value bytes

abbrev pipe : Pipe
pipe = record { incoming = []; outgoing = []; clock = 30; is_open = true }

abbrev subscriber : Session little_host pipe_transport ℕ
subscriber = record {
  net = record pipe {
    incoming =
        request_bytes little_host pipe_transport true
          (subscription little_host pipe_transport (some as_text) topic) none
        ++ [];
  };
  connection = record {
    conn_id = 0;
    body = [];
    quit_cb = true;
    has_closed = false;
    last_rwtime = 30;
    checkout_timeout = true;
    cross_ending = true;
    topic_id = 0;
  };
  tls = record { conn = none; delay = false };
  app = 0;
  quits = [];
}

abbrev server : RpcServer little_host pipe_transport ℕ
server = record {
  io_context_pool = io_context_pool 4;
  acceptor_open = true;
  bound = some 5;
  has_stop = false;
  start_flag = true;
  conns = 0 ∷ [];
  made = (0, subscriber) ∷ [];
  conn_id = 1;
  check_duration = 12;
  timeout_duration = 10;
  stop_timer = false;
  need_check = true;
  tcp_no_delay = false;
  cross_ending = true;
  router = empty_router;
  host_name = codes "127.0.0.1";
  port = codes "9000";
}

server-IsServer : IsServer little_host pipe_transport ℕ server
unfolding no_repeats member contains
server-IsServer = record { once = refl; known = λ k h. h; before = λ k h. ground (arith, h) }

server_serves : member 0 server.conns ≡ true
unfolding member
server_serves = refl

server_found : find 0 server.made ≡ some subscriber
unfolding find
server_found = refl

abbrev message : RpcResult
message = result_of_string (codes "hello")

abbrev begun : RpcServer little_host pipe_transport ℕ
begun = passed little_host true ℕ 0 server

abbrev accepted : RpcServer little_host pipe_transport ℕ
accepted = (accept_pass little_host pipe_transport ℕ (arrived pipe true) 0 begun).0

abbrev told : RpcServer little_host pipe_transport ℕ
told = publish little_host pipe_transport ℕ topic message accepted

abbrev lost : RpcServer little_host pipe_transport ℕ
lost = quit_callback little_host pipe_transport ℕ 1 told

abbrev last : RpcServer little_host pipe_transport ℕ
last = publish little_host pipe_transport ℕ topic (result_of_string (codes "bye")) lost

abbrev run : Run little_host pipe_transport ℕ begun last
run = steps (accepts pipe true 0 begun (omega arith)) (
    steps (publishes topic message accepted) (
      steps (quits 1 told)
        (steps (publishes topic (result_of_string (codes "bye")) lost) (still last))))

topic_fits : key_of topic < 2 ^ 32
topic_fits = omega (arith, md5_hash32_vectors.1)

subscriber_hears_example :
    (member 0 last.conns ≡ true)
    × (Option.map (λ (d : Session little_host pipe_transport ℕ). d.net.outgoing) (find 0 last.made)
        ≡ some (
            []
            ++ frames_of little_host true ℕ 0
                (key_of topic)
                (messages_of little_host true ℕ 0 (key_of topic) run)))
subscriber_hears_example =
    subscriber_hears little_host true ℕ 0 topic (some as_text) server last subscriber [] topic_fits
      server-IsServer server_serves server_found refl refl refl run
      (tt, (tt, ((λ e. ground (arith, e)), (tt, tt))))
