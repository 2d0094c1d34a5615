-- ===== src/Exchange/Published.antt =====
-- Messages to a subscriber over pipes, for the publishing of include/rest_rpc/rpc_server.hpp.
use rest_rpc.Base.{
  ℕ, ◌+◌, ◌^◌, ◌≤◌, ◌<◌, ◌≡◌, ◌≢◌, refl, arith, true, false, List, [], ◌∷◌, ◌++◌, none, some,
}
use rest_rpc.Base.Map.{contains, emplace}
use rest_rpc.Base.Text.{codes}
use rest_rpc.Md5.Examples.{md5_hash32_vectors}
use rest_rpc.ErrorCode.{errc_value, ok, read_error}
use rest_rpc.Protocol.Hosts.{little_host}
use rest_rpc.Router.{Text, RpcResult, result_of_string, result_size, result_data, key_of}
use rest_rpc.Transport.Pipe.{Pipe, pipe_transport}
use rest_rpc.Connection.{response_bytes}
use rest_rpc.Client.{
  Unpacked, value, returned, CallEnd, RpcClient, complete, request_bytes, call_impl,
}
use rest_rpc.Client.Subscriptions.{subscription, subscribe}
use rest_rpc.Client.Completing.{times_completed}
use rest_rpc.Protocol.{RestRpcHeader, empty_header}
use rest_rpc.Exchange.Completing.{completes_again}
use rest_rpc.Exchange.Publishing.{subscriber_gets_message}

abbrev topic : Text
topic = codes "abc"

topic_fits : key_of topic < 2 ^ 32
topic_fits = omega (arith, md5_hash32_vectors.1)

topic_ne : key_of topic ≢ 0
topic_ne e = omega (arith, e, md5_hash32_vectors.1)

abbrev message : RpcResult
message = result_of_string (codes "hello")

message_fits : result_size message + 1 ≤ 0x7fffffff
unfolding result_size
message_fits = omega arith

abbrev as_text : Text → Unpacked Text
as_text bytes = value bytes

abbrev pipe_of : List ℕ → Pipe
pipe_of bytes = record { incoming = bytes; outgoing = []; clock = 9; is_open = true }

abbrev subscriber : RpcClient little_host pipe_transport
subscriber = record {
  net = pipe_of (response_bytes little_host pipe_transport ℕ true message (key_of topic) ++ []);
  has_closed = false;
  body = [];
  sub_ops = [];
  completions = [];
  cross_ending = true;
  tcp_no_delay = true;
  should_reset = false;
}

abbrev subscription_frame : List ℕ
subscription_frame =
    request_bytes little_host pipe_transport true
      (subscription little_host pipe_transport (some as_text) topic) none

subscriber_gets_message_example :
    subscribe little_host pipe_transport (some as_text) topic subscriber ≡ (
      complete little_host pipe_transport (key_of topic) true (record subscriber {
        net = record {
          incoming = [];
          outgoing = [] ++ subscription_frame;
          clock = 9;
          is_open = true;
        };
        body = errc_value ok ∷ result_data message;
        sub_ops = emplace (key_of topic) tt [];
      }),
      returned ok (some (result_data message)),
    )
unfolding contains
subscriber_gets_message_example =
    subscriber_gets_message little_host true ℕ message topic topic_fits topic_ne message_fits
      as_text subscriber [] refl refl (result_data message) tt refl refl refl

-- A call after the message, when the peer has closed the connection.
abbrev asking : RestRpcHeader
asking = record empty_header { function_id = 5 }

abbrev told : RpcClient little_host pipe_transport
told = (subscribe little_host pipe_transport (some as_text) topic subscriber).0

abbrev broken : RpcClient little_host pipe_transport × CallEnd Text
broken = call_impl little_host pipe_transport (some as_text) asking none told

completes_again_example :
    ((subscribe little_host pipe_transport (some as_text) topic subscriber).1
      ≡ returned ok (some (result_data message)))
    × (times_completed (key_of topic) told.completions
        ≡ times_completed (key_of topic) subscriber.completions + 1)
    × (broken.1 ≡ returned read_error none)
    × (times_completed (key_of topic) told.completions + 1
        ≤ times_completed (key_of topic) broken.0.completions)
unfolding contains
completes_again_example =
    completes_again little_host true ℕ message topic as_text subscriber (result_data message)
      (some as_text) asking none topic_fits topic_ne message_fits refl refl tt refl refl refl
