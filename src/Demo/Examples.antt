-- ===== src/Demo/Examples.antt =====
-- Two messages from the publisher to the subscriber over pipes, for examples/server.cpp and
-- examples/client.cpp.
use mathlib.Core.Option
use rest_rpc.Base.{
  ℕ, suc, ◌≡◌, refl, arith, true, false, List, [], ◌∷◌, ◌++◌, none, some, length, All,
}
use rest_rpc.Base.Map.{find, contains}
use rest_rpc.Base.Text.{codes}
use rest_rpc.Protocol.Hosts.{little_host}
use rest_rpc.Router.{Text, key_of, empty_router}
use rest_rpc.Transport.Pipe.{Pipe, pipe_transport}
use rest_rpc.IoContextPool.{io_context_pool}
use rest_rpc.Connection.{Session, ended}
use rest_rpc.Client.{RpcClient}
use rest_rpc.Server.{RpcServer}
use rest_rpc.Server.Members.{member, no_repeats}
use rest_rpc.Base.Views.{same_text}
use rest_rpc.Demo.{topic, pub_loop, sub_loop}
use rest_rpc.Demo.Subscriber.{frames, IsLogged}
use rest_rpc.Demo.Publisher.{IsMessage, close_word, sub_loop-pub_loop}

abbrev messages : List Text
messages = codes "one" ∷ codes "two" ∷ []

messages-IsMessage : All IsMessage messages
unfolding same_text
messages-IsMessage = (refl, (refl, tt))

messages-IsLogged : All IsLogged messages
unfolding same_text
messages-IsLogged = ((omega arith, refl), ((omega arith, refl), tt))

abbrev pipe_of : List ℕ → Pipe
pipe_of bytes = record { incoming = bytes; outgoing = []; clock = 30; is_open = true }

abbrev listener : Session little_host pipe_transport ℕ
listener = record {
  net = pipe_of [];
  connection = record {
    conn_id = 0;
    body = [];
    quit_cb = true;
    has_closed = false;
    last_rwtime = 2;
    checkout_timeout = true;
    cross_ending = false;
    topic_id = key_of topic;
  };
  tls = record { conn = none; delay = false };
  app = 0;
  quits = [];
}

abbrev server : RpcServer little_host pipe_transport ℕ
server = record {
  io_context_pool = io_context_pool 4;
  acceptor_open = true;
  bound = some 5;
  has_stop = false;
  start_flag = true;
  conns = 0 ∷ [];
  made = (0, listener) ∷ [];
  conn_id = 1;
  check_duration = 12;
  timeout_duration = 10;
  stop_timer = false;
  need_check = true;
  tcp_no_delay = true;
  cross_ending = false;
  router = empty_router;
  host_name = codes "127.0.0.1";
  port = codes "9004";
}

server_once : no_repeats server.conns ≡ true
unfolding no_repeats member
server_once = refl

server_serves : member 0 server.conns ≡ true
unfolding member
server_serves = refl

listener_found : find 0 server.made ≡ some listener
unfolding find
listener_found = refl

abbrev sent : List ℕ
sent = frames little_host false ℕ (messages ++ close_word)

abbrev client : RpcClient little_host pipe_transport
client = record {
  net = pipe_of (sent ++ []);
  has_closed = false;
  body = [];
  sub_ops = [];
  completions = [];
  cross_ending = false;
  tcp_no_delay = true;
  should_reset = false;
}

sub_loop-pub_loop_example :
    let p =
      pub_loop little_host pipe_transport ℕ
        ((messages ++ close_word) ++ (codes "quit" ∷ []))
        server in
    let r = sub_loop little_host pipe_transport (suc (length messages)) client in
    (p.1 ≡ ended)
    × (Option.map (λ (d : Session little_host pipe_transport ℕ). d.net.outgoing) (find 0 p.0.made)
        ≡ some ([] ++ sent))
    × (r.1 ≡ messages)
    × (r.2 ≡ ended)
unfolding contains
sub_loop-pub_loop_example =
    sub_loop-pub_loop little_host false ℕ messages [] server 0 listener client [] messages-IsMessage
      messages-IsLogged server_once server_serves listener_found (refl, refl, refl)
      (refl, refl, refl)
