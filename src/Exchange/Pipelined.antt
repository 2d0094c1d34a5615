-- ===== src/Exchange/Pipelined.antt =====
-- Two requests in a row on a pipe, for the loop of include/rest_rpc/rpc_connection.hpp.
use rest_rpc.Base.{
  ℕ, ◌^◌, ◌<◌, ◌≡◌, refl, arith, true, false, List, [], ◌∷◌, ◌++◌, none, length, All,
}
use rest_rpc.Base.Map.{contains}
use rest_rpc.Base.Text.{codes}
use rest_rpc.Md5.Examples.{md5_hash32_vectors}
use rest_rpc.ErrorCode.{ok}
use rest_rpc.Protocol.Hosts.{little_host}
use rest_rpc.Router.{
  Text, Invoker, returned, RpcRouter, done, key_of, empty_router, register_handler,
}
use rest_rpc.Router.Registry.{registered, register_handler_free}
use rest_rpc.Router.Routing.{route-register_handler}
use rest_rpc.Transport.Pipe.{pipe_transport}
use rest_rpc.Connection.{Session, again, start}
use rest_rpc.Exchange.Pipelining.{Request, IsAnswered, frames_of, answers_of, start-answers_of}

abbrev Here : Type 0
Here = Session little_host pipe_transport ℕ

abbrev name : Text
name = codes "abc"

-- A function that gives its arguments back.
abbrev echo : Invoker Here
echo body ret s = (s, record ret { result = body }, returned)

abbrev router : RpcRouter Here
router = registered name echo empty_router

router_registered : register_handler name echo empty_router ≡ done router
unfolding contains
router_registered = register_handler_free name echo empty_router refl

key_fits : key_of name < 2 ^ 32
key_fits = omega (arith, md5_hash32_vectors.1)

abbrev echo_of : Text → Request little_host true ℕ router
echo_of body = record {
  key = key_of name;
  buf = body;
  result = record { ec = ok; result = body; view = [] };
}

echo_of-IsAnswered :
    (body : Text)
    → 0 < length body
    → length body < 0x7fffffff
    → IsAnswered little_host true ℕ router (echo_of body)
echo_of-IsAnswered body body_pos body_short = record {
  key_fits = key_fits;
  pos = body_pos;
  short = body_short;
  answers = λ x. route-register_handler name echo empty_router router body x router_registered;
}

abbrev requests : List (Request little_host true ℕ router)
requests = echo_of (5 ∷ []) ∷ echo_of (6 ∷ 7 ∷ []) ∷ []

requests-IsAnswered : All (IsAnswered little_host true ℕ router) requests
requests-IsAnswered = (
  echo_of-IsAnswered (5 ∷ []) (omega arith) (omega arith),
  (echo_of-IsAnswered (6 ∷ 7 ∷ []) (omega arith) (omega arith), tt),
)

abbrev waiting : Here
waiting = record {
  net = record {
    incoming = frames_of little_host true ℕ router requests ++ (1 ∷ []);
    outgoing = [];
    clock = 9;
    is_open = true;
  };
  connection = record {
    conn_id = 3;
    body = [];
    quit_cb = true;
    has_closed = false;
    last_rwtime = 0;
    checkout_timeout = true;
    cross_ending = true;
    topic_id = 0;
  };
  tls = record { conn = none; delay = false };
  app = 0;
  quits = [];
}

start-answers_of_example :
    let r = start little_host pipe_transport ℕ 2 router waiting in
    (r.1 ≡ again)
    × (r.0.net ≡ record {
      incoming = 1 ∷ [];
      outgoing = [] ++ answers_of little_host true ℕ router requests;
      clock = 9;
      is_open = true;
    })
start-answers_of_example =
    start-answers_of little_host true ℕ router requests waiting (1 ∷ []) requests-IsAnswered
      (refl, refl, refl, refl)
