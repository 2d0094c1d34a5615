-- ===== src/Exchange/Sum.antt =====
-- One call over pipes, of a function that adds two numbers, for the exchange of
-- include/rest_rpc/rpc_client.hpp and rpc_connection.hpp.
use rest_rpc.Base.{
  ℕ, ◌+◌, ◌^◌, ◌≤◌, ◌<◌, ◌≡◌, refl, arith, true, false, List, [], ◌∷◌, ◌++◌, none, some, length,
  map,
}
use rest_rpc.Base.Map.{contains}
use rest_rpc.Base.Text.{codes}
use rest_rpc.Base.Integers.{ℤ, pos, IntegerType}
use rest_rpc.Md5.Examples.{md5_hash32_vectors}
use rest_rpc.ErrorCode.{ok}
use rest_rpc.Protocol.Hosts.{little_host}
use rest_rpc.Router.{Text, RpcRouter, result_size, empty_router, done, register_handler, key_of}
use rest_rpc.Router.Handlers.{Function, gave, raised, invoker}
use rest_rpc.Router.Registry.{registered, register_handler_free}
use rest_rpc.Codec.{Datum, basic, number, integer, kind_of, packed_bytes, pack_args, unpack}
use rest_rpc.Codec.Tagged.{tagged_packer}
use rest_rpc.Transport.Pipe.{Pipe, pipe_transport}
use rest_rpc.Connection.{Session, response_bytes, start_pass, again}
use rest_rpc.Client.{RpcClient, returned, call_for, call_first}
use rest_rpc.Client.Arguments.{get_buffer}
use rest_rpc.Exchange.Whole.{result_of, frame, call_runs_function}

abbrev Here : Type 0
Here = Session little_host pipe_transport ℕ

abbrev int : IntegerType
int = record { is_signed = true; bits = 32 }

abbrev number_of : ℕ → Datum ℕ
number_of n = basic (number int (pos n))

-- Adds two numbers that are not negative, and counts its calls.
abbrev add : Function tagged_packer Here
add (basic (number t (pos a)) ∷ basic (number u (pos b)) ∷ []) s =
    (record s { app = s.app + 1 }, gave (some (number_of (a + b))))
add ds s = (s, raised [])

abbrev name : Text
name = codes "abc"

abbrev arguments : List (Datum ℕ)
arguments = number_of 1 ∷ number_of 2 ∷ []

abbrev router : RpcRouter Here
router = registered name (invoker tagged_packer (map kind_of arguments) add) empty_router

router_registered :
    register_handler name (invoker tagged_packer (map kind_of arguments) add) empty_router
    ≡ done router
router_registered =
    register_handler_free name (invoker tagged_packer (map kind_of arguments) add) empty_router free
  where
    free : contains (key_of name) (empty_router {S = Here}).key2func_name ≡ false
    free = unfold contains in refl

key_fits : key_of name < 2 ^ 32
key_fits = omega (arith, md5_hash32_vectors.1)

buf_pos : 0 < length (packed_bytes (get_buffer tagged_packer false arguments))
unfolding get_buffer rest_rpc.Codec.pack_tuple rest_rpc.Codec.Tagged.tagged
buf_pos = omega arith

buf_short : length (packed_bytes (get_buffer tagged_packer false arguments)) < 0x7fffffff
unfolding get_buffer rest_rpc.Codec.pack_tuple rest_rpc.Codec.Tagged.tagged
buf_short = omega arith

sum_fits : result_size (result_of tagged_packer (number_of 3)) + 1 ≤ 0x7fffffff
unfolding result_size pack_args rest_rpc.Codec.pack_one rest_rpc.Base.Integers.integer_to_string
    rest_rpc.Base.Decimal.to_string rest_rpc.Base.Decimal.print_digits
sum_fits = omega arith

abbrev pipe_of : List ℕ → Pipe
pipe_of bytes = record { incoming = bytes; outgoing = []; clock = 9; is_open = true }

abbrev asking : List ℕ
asking =
    frame little_host true ℕ tagged_packer name add empty_router router false arguments
      (number_of 3) router_registered tt (omega arith, omega arith) key_fits buf_pos buf_short
      sum_fits

abbrev waiting : Here
waiting = record {
  net = pipe_of (asking ++ []);
  connection = record {
    conn_id = 3;
    body = [];
    quit_cb = true;
    has_closed = false;
    last_rwtime = 0;
    checkout_timeout = false;
    cross_ending = true;
    topic_id = 0;
  };
  tls = record { conn = none; delay = false };
  app = 0;
  quits = [];
}

abbrev summed : Here
summed = record waiting {
  net = pipe_of [];
  connection = record (waiting.connection) {
    body = packed_bytes (get_buffer tagged_packer false arguments);
  };
  tls = record { conn = some 3; delay = false };
  app = 1;
}

abbrev answer : List ℕ
answer = response_bytes little_host pipe_transport ℕ true (result_of tagged_packer (number_of 3)) 0

abbrev caller : RpcClient little_host pipe_transport
caller = record {
  net = pipe_of (answer ++ []);
  has_closed = false;
  body = [];
  sub_ops = [];
  completions = [];
  cross_ending = true;
  tcp_no_delay = true;
  should_reset = false;
}

call_runs_function_example :
    let pass = start_pass little_host pipe_transport ℕ router waiting in
    (pass.1 ≡ again)
    × (pass.0.net.outgoing ≡ [] ++ answer)
    × ((call_for little_host pipe_transport
          (some (unpack tagged_packer (kind_of (number_of 3))))
          call_first
          caller
          (key_of name)
          (some (packed_bytes (get_buffer tagged_packer false arguments)))
          caller).1
        ≡ returned ok (some (number_of 3)))
unfolding rest_rpc.Connection.set_last_time
call_runs_function_example =
    call_runs_function little_host true ℕ tagged_packer name add empty_router router false arguments
      (number_of 3) router_registered tt (omega arith, omega arith) key_fits buf_pos buf_short
      sum_fits waiting summed [] refl refl caller caller [] refl refl refl refl refl refl refl refl
