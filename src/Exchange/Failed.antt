-- ===== src/Exchange/Failed.antt =====
-- The answer to a call of an unknown function, as a caller that expects a number gets it, for
-- include/rest_rpc/rpc_client.hpp.
use rest_rpc.Base.{
  ℕ, ◌+◌, ◌^◌, ◌≤◌, ◌<◌, ◌≡◌, refl, arith, true, false, [], ◌∷◌, ◌++◌, none, some, length,
}
use rest_rpc.Base.Text.{codes}
use rest_rpc.Base.Integers.{IntegerType}
use rest_rpc.Md5.Examples.{md5_hash32_vectors}
use rest_rpc.ErrorCode.{no_such_function, request_timeout}
use rest_rpc.Protocol.Hosts.{little_host}
use rest_rpc.Router.{Text, RpcResult, result_size, result_data, key_of}
use rest_rpc.Transport.Pipe.{pipe_transport}
use rest_rpc.Connection.{response_bytes}
use rest_rpc.Codec.{Datum, Unpacked, bad, integer, unpack}
use rest_rpc.Codec.Tagged.{tagged_packer}
use rest_rpc.Client.{RpcClient, returned, call_first, call_for}
use rest_rpc.Exchange.Calling.{call_for_bad}

abbrev name : Text
name = codes "abc"

key_fits : key_of name < 2 ^ 32
key_fits = omega (arith, md5_hash32_vectors.1)

abbrev arguments : Text
arguments = 5 ∷ 6 ∷ []

-- What the server answers.
abbrev unknown : RpcResult
unknown = record { ec = no_such_function; result = codes "unknown function: 7"; view = [] }

unknown_fits : result_size unknown + 1 ≤ 0x7fffffff
unfolding result_size
unknown_fits = omega arith

abbrev int : IntegerType
int = record { is_signed = true; bits = 32 }

abbrev as_int : Text → Unpacked (Datum ℕ)
as_int data_in = unpack tagged_packer (integer int) data_in

no_number : as_int (result_data unknown) ≡ bad (codes "unpack failed: Args not match!")
unfolding unpack result_data rest_rpc.Base.Integers.from_chars rest_rpc.Base.Integers.magnitude
no_number = refl

abbrev caller : RpcClient little_host pipe_transport
caller = record {
  net = record {
    incoming = response_bytes little_host pipe_transport ℕ true unknown 0 ++ [];
    outgoing = [];
    clock = 9;
    is_open = true;
  };
  has_closed = false;
  body = [];
  sub_ops = [];
  completions = [];
  cross_ending = true;
  tcp_no_delay = true;
  should_reset = false;
}

call_for_bad_example :
    let r =
      call_for little_host pipe_transport
        (some as_int)
        call_first
        caller
        (key_of name)
        (some arguments)
        caller in
    (r.1 ≡ returned request_timeout none) × (r.0.has_closed ≡ true) × (r.0.net.is_open ≡ false)
call_for_bad_example =
    call_for_bad little_host true ℕ unknown unknown_fits (key_of name) arguments key_fits
      (omega arith) (omega arith) as_int caller [] refl refl caller
      (codes "unpack failed: Args not match!") refl tt no_number
