-- ===== src/Exchange/Remote/Examples.antt =====
-- Two calls over a link of a function that counts them, for include/rest_rpc/rpc_client.hpp and
-- rpc_connection.hpp.
use rest_rpc.Base.{
  ℕ, ◌+◌, ◌^◌, ◌≤◌, ◌<◌, ◌≡◌, refl, arith, true, false, List, [], ◌∷◌, none, length, map, All,
}
use rest_rpc.Base.Map.{contains}
use rest_rpc.Base.Text.{codes}
use rest_rpc.Base.Integers.{IntegerType, pos}
use rest_rpc.Md5.Examples.{md5_hash32_vectors}
use rest_rpc.Protocol.Hosts.{little_host}
use rest_rpc.Router.{Text, RpcRouter, result_size, empty_router, done, register_handler}
use rest_rpc.Router.Handlers.{invoker}
use rest_rpc.Router.Registry.{registered, register_handler_free}
use rest_rpc.Codec.{Datum, basic, number, integer, kind_of, packed_bytes, pack_args}
use rest_rpc.Codec.Tagged.{tagged_packer}
use rest_rpc.Transport.Pipe.{Pipe, pipe_transport}
use rest_rpc.Connection.{Session}
use rest_rpc.Client.Arguments.{get_buffer}
use rest_rpc.Exchange.Remote.{Link}
use rest_rpc.Exchange.Remote.Serving.{on_session, register_handler-IsRegistered}
use rest_rpc.Exchange.Remote.Local.{
  Call, IsServed, IsJoined, ok_end, local_calls, remote_calls, remote_calls-local_calls,
}

abbrev int : IntegerType
int = record { is_signed = true; bits = 32 }

abbrev number_of : ℕ → Datum ℕ
number_of n = basic (number int (pos n))

-- Gives its first argument back, and counts its calls.
abbrev first : List (Datum ℕ) → ℕ → Datum ℕ × ℕ
first (d ∷ ds) a = (d, a + 1)
first [] a = (number_of 0, a)

abbrev name : Text
name = codes "abc"

abbrev two : List (Datum ℕ)
two = number_of 7 ∷ number_of 8 ∷ []

abbrev router : RpcRouter (Session little_host pipe_transport ℕ)
router =
    registered name
      (invoker tagged_packer (map kind_of two) (on_session little_host ℕ tagged_packer first))
      empty_router

router_registered :
    register_handler name
      (invoker tagged_packer (map kind_of two) (on_session little_host ℕ tagged_packer first))
      empty_router
    ≡ done router
unfolding contains
router_registered = register_handler_free name _ empty_router refl

abbrev call : Call little_host true ℕ tagged_packer router
call = record { name = name; is_lvalue = false; arguments = two; kind = integer int; f = first }

call-IsServed : IsServed little_host true ℕ tagged_packer router call
unfolding get_buffer rest_rpc.Codec.pack_tuple rest_rpc.Codec.Tagged.tagged result_size pack_args
    rest_rpc.Codec.pack_one rest_rpc.Base.Integers.integer_to_string rest_rpc.Base.Decimal.to_string
    rest_rpc.Base.Decimal.print_digits
call-IsServed = record {
  key_fits = omega (arith, md5_hash32_vectors.1);
  pos = omega arith;
  short = omega arith;
  registered =
      register_handler-IsRegistered little_host ℕ tagged_packer name false two first empty_router
        router tt router_registered;
  typed = λ a. refl;
  sendable = λ a. (omega arith, omega arith);
  fits = λ a. omega arith;
}

abbrev quiet : Pipe
quiet = record { incoming = []; outgoing = []; clock = 9; is_open = true }

abbrev link : Link little_host ℕ router
link = (
  record {
    net = quiet;
    has_closed = false;
    body = [];
    sub_ops = [];
    completions = [];
    cross_ending = true;
    tcp_no_delay = true;
    should_reset = false;
  },
  record {
    net = quiet;
    connection = record {
      conn_id = 3;
      body = [];
      quit_cb = true;
      has_closed = false;
      last_rwtime = 0;
      checkout_timeout = true;
      cross_ending = true;
      topic_id = 0;
    };
    tls = record { conn = none; delay = false };
    app = 0;
    quits = [];
  },
)

link-IsJoined : IsJoined little_host true ℕ tagged_packer router link
link-IsJoined = record {
  client_conversion = refl;
  client_heard = refl;
  client_sent = refl;
  client_open = refl;
  server_conversion = refl;
  server_heard = refl;
  server_sent = refl;
  server_open = refl;
  prompt = refl;
}

remote_calls-local_calls_example :
    let remote = remote_calls little_host true ℕ tagged_packer router (call ∷ call ∷ []) link in
    let locally = local_calls little_host true ℕ tagged_packer router (call ∷ call ∷ []) 0 in
    (remote.0 ≡ map (ok_end little_host true ℕ tagged_packer router) locally.0)
    × (remote.1.1.app ≡ locally.1)
    × IsJoined little_host true ℕ tagged_packer router remote.1
remote_calls-local_calls_example =
    remote_calls-local_calls little_host true ℕ tagged_packer router (call ∷ call ∷ []) link
      (call-IsServed, (call-IsServed, tt)) link-IsJoined
