-- ===== src/Exchange/Later.antt =====
-- One call over pipes of a handler that makes an `rpc_context` of include/rest_rpc/rpc_connection.hpp and
-- answers through it.
use rest_rpc.Base.{
  ℕ, ◌+◌, ◌^◌, ◌<◌, refl, arith, true, false, List, [], ◌∷◌, ◌++◌, none, some, length,
}
use rest_rpc.Base.Map.{Map}
use rest_rpc.Base.Text.{codes}
use rest_rpc.Md5.Examples.{md5_hash32_vectors}
use rest_rpc.Protocol.Hosts.{little_host}
use rest_rpc.Router.{
  Text, RpcResult, result_of_view, Invoker, returned, RpcRouter, default_result, key_of,
  empty_router,
}
use rest_rpc.Router.Registry.{registered}
use rest_rpc.Transport.Pipe.{Pipe, pipe_transport}
use rest_rpc.Connection.{Session, response_bytes, start_pass, rpc_context}
use rest_rpc.Client.{Unpacked, value, RpcClient}
use rest_rpc.Exchange.{request_frame}
use rest_rpc.Exchange.Delayed.{taken}

abbrev Here : Type 0
Here = Session little_host pipe_transport ℕ

abbrev name : Text
name = codes "abc"

-- A handler that makes a context and leaves the answer to it.
abbrev later : Invoker Here
later body ret s =
    ((rpc_context little_host pipe_transport ℕ (record s { app = s.app + 1 })).0, ret, returned)

abbrev router : RpcRouter Here
router = registered name later empty_router

key_fits : key_of name < 2 ^ 32
key_fits = omega (arith, md5_hash32_vectors.1)

abbrev arguments : Text
arguments = 5 ∷ 6 ∷ []

arguments_pos : 0 < length arguments
arguments_pos = omega arith

arguments_short : length arguments < 0x7fffffff
arguments_short = omega arith

abbrev pipe_of : List ℕ → Pipe
pipe_of bytes = record { incoming = bytes; outgoing = []; clock = 9; is_open = true }

abbrev waiting : Here
waiting = record {
  net = pipe_of (
      request_frame little_host true (key_of name) arguments key_fits arguments_pos arguments_short
      ++ []);
  connection = record {
    conn_id = 3;
    body = [];
    quit_cb = true;
    has_closed = false;
    last_rwtime = 0;
    checkout_timeout = false;
    cross_ending = true;
    topic_id = 0;
  };
  tls = record { conn = none; delay = false };
  app = 0;
  quits = [];
}

abbrev asking : Here
asking = record waiting {
  net = pipe_of [];
  connection = record (waiting.connection) { body = arguments };
  tls = record { conn = some 3; delay = false };
  app = 1;
}

abbrev arrived : Here
arrived =
    taken little_host true ℕ (key_of name) arguments key_fits arguments_pos arguments_short router
      waiting asking default_result [] refl refl

abbrev packed : RpcResult
packed = result_of_view (codes "late")

abbrev as_text : Text → Unpacked Text
as_text bytes = value bytes

abbrev caller : RpcClient little_host pipe_transport
caller = record {
  net = pipe_of (response_bytes little_host pipe_transport ℕ true packed 0 ++ []);
  has_closed = false;
  body = [];
  sub_ops = [];
  completions = [];
  cross_ending = true;
  tcp_no_delay = true;
  should_reset = false;
}

-- The connection after the pass, and another one.
abbrev connections : Map Here
connections = (3, (start_pass little_host pipe_transport ℕ router waiting).0) ∷ (4, waiting) ∷ []
