-- ===== src/Exchange/Publishing.antt =====
-- Publishing over a pair of pipes: the subscription of include/rest_rpc/rpc_client.hpp, the server's
-- pass on it and its `publish`, and the message's way back to the subscriber.
use rest_rpc.Base.{
  ℕ, ◌+◌, ◌^◌, ◌≤◌, ◌<◌, ◌≡◌, ◌≢◌, refl, ◌∙◌, ap, arith, Bool, true, false, List, ◌∷◌, ◌++◌, Option,
  none, some, ==_refl, ne→==_false,
}
use rest_rpc.Base.Map.{contains, emplace, contains-emplace}
use rest_rpc.ErrorCode.{errc_value, success}
use rest_rpc.ErrorCode.Laws.{IsErrc}
use rest_rpc.Protocol.{Host, RestRpcHeader, IsHeader, header_bytes}
use rest_rpc.Router.{Text, RpcResult, RpcRouter, result_size, result_data, key_of}
use rest_rpc.Transport.Pipe.{pipe_transport, pipe_write, pipe_write_open}
use rest_rpc.Connection.{Session, response_bytes, start_pass, again}
use rest_rpc.Connection.Loop.{sent_header, parse_sent_header, headed, converted}
use rest_rpc.Connection.Requests.{start_pass_subscription}
use rest_rpc.Client.{
  Unpacked, value, returned, RpcClient, complete, wait_response, request_bytes, after_unpack,
  deliver,
}
use rest_rpc.Client.Replies.{call_impl_written}
use rest_rpc.Client.Subscriptions.{subscription, subscribe, subscribe_new}
use rest_rpc.Exchange.{read_header, header_parsed, sent_magic}
use rest_rpc.Exchange.Frames.{answer, response_received}

-- The subscriber's end, for the topic whose key is not 0, which stands for answers to requests.
module _ (host : Host) (cross : Bool) (App : Type 0) (result : RpcResult) (topic : Text)
    (topic_fits : key_of topic < 2 ^ 32) (topic_ne : key_of topic ≢ 0)
    (fits : result_size result + 1 ≤ 0x7fffffff) {V : Type 0} (u : Text → Unpacked V)
    (c : RpcClient host pipe_transport) (tail : List ℕ) (conversion : c.cross_ending ≡ cross)
    (sent : c.net.incoming
      ≡ response_bytes host pipe_transport App cross result (key_of topic) ++ tail)
    (v : V) (named : IsErrc result.ec) (unpacks : u (result_data result) ≡ value v) where
  -- A message is delivered to the operation of its topic.
  pub message_received :
      contains (key_of topic) c.sub_ops ≡ true
      → wait_response host pipe_transport (some u) c ≡ (
        complete host pipe_transport (key_of topic) true (record c {
          net = record (c.net) { incoming = tail };
          body = errc_value result.ec ∷ result_data result;
        }),
        returned result.ec (some v),
      )
  unfolding after_unpack deliver
  message_received h =
      response_received host cross App result (key_of topic) topic_fits fits u c tail conversion
        sent named
      ∙ ap
          (after_unpack host pipe_transport (some u)
            (answer host cross App result (key_of topic) topic_fits fits) result.ec
            (record c {
              net = record (c.net) { incoming = tail };
              body = errc_value result.ec ∷ result_data result;
            }))
          unpacks
      ∙ rw (ne→==_false (key_of topic) 0 topic_ne, h)

-- A new subscription over an open socket sends one request frame, and when the next message of the
-- topic arrives, the topic's operation is completed with true, and the call returns the code of the
-- message with the value that its data unpack to. Both ends agree on conversion, the lengths fit,
-- and the topic's key is not 0, which stands for answers to requests.
pub subscriber_gets_message :
    (host : Host) (cross : Bool) (App : Type 0) (result : RpcResult) (topic : Text)
    → key_of topic < 2 ^ 32
    → key_of topic ≢ 0
    → result_size result + 1 ≤ 0x7fffffff
    → {V : Type 0} (u : Text → Unpacked V) (c : RpcClient host pipe_transport) (tail : List ℕ)
    → c.cross_ending ≡ cross
    → c.net.incoming ≡ response_bytes host pipe_transport App cross result (key_of topic) ++ tail
    → (v : V) → IsErrc result.ec
    → u (result_data result) ≡ value v
    → contains (key_of topic) c.sub_ops ≡ false
    → c.net.is_open ≡ true
    → subscribe host pipe_transport (some u) topic c ≡ (
      complete host pipe_transport (key_of topic) true (record c {
        net = record (c.net) {
          incoming = tail;
          outgoing =
              c.net.outgoing
              ++ request_bytes host pipe_transport cross
                  (subscription host pipe_transport (some u) topic)
                  none;
        };
        body = errc_value result.ec ∷ result_data result;
        sub_ops = emplace (key_of topic) tt c.sub_ops;
      }),
      returned result.ec (some v),
    )
subscriber_gets_message host cross App result topic topic_fits topic_ne fits {V} u c tail conversion
      sent v named unpacks new is_open =
    let asked = subscription host pipe_transport (some u) topic in
    let begun = record c { sub_ops = emplace (key_of topic) tt c.sub_ops } in
    let asking = record (c.net) {
      outgoing = c.net.outgoing ++ request_bytes host pipe_transport cross asked none;
    } in
    let written : pipe_write (request_bytes host pipe_transport c.cross_ending asked none) c.net
        ≡ (asking, success) =
      ap (λ b. pipe_write (request_bytes host pipe_transport b asked none) c.net) conversion
      ∙ pipe_write_open (request_bytes host pipe_transport cross asked none) c.net is_open in
    subscribe_new host pipe_transport (some u) topic c new
    ∙ call_impl_written host pipe_transport (some u) asked none begun asking success written refl
    ∙ message_received host cross App result topic topic_fits topic_ne fits u
        (record begun { net = asking }) tail conversion sent v named unpacks
        (contains-emplace (key_of topic) (key_of topic) tt c.sub_ops ∙ rw (==_refl (key_of topic)))

-- The server's end: a pass of the loop of a connection whose peer subscribes to a topic.
module _ (host : Host) (cross : Bool) (App : Type 0)
    (router : RpcRouter (Session host pipe_transport App)) (topic : Text) {V : Type 0}
    (unpack : Option (Text → Unpacked V)) (s : Session host pipe_transport App) (rest : List ℕ)
    (topic_fits : key_of topic < 2 ^ 32) (conversion : s.connection.cross_ending ≡ cross)
    (sent : s.net.incoming
      ≡ request_bytes host pipe_transport cross (subscription host pipe_transport unpack topic) none
        ++ rest) where
  abbrev asked : RestRpcHeader
  asked = subscription host pipe_transport unpack topic

  asked-IsHeader : IsHeader asked
  asked-IsHeader = omega arith

  abbrev net_gone : Session host pipe_transport App
  net_gone = headed host pipe_transport App s (record (s.net) { incoming = rest })

  abbrev pub on_topic : Session host pipe_transport App
  on_topic = record net_gone {
    connection = record (net_gone.connection) { topic_id = key_of topic };
  }

  received : converted host pipe_transport App s (sent_header host cross asked) ≡ asked
  received = rw conversion (parse_sent_header host cross asked asked-IsHeader)

  front : s.net.incoming ≡ header_bytes host.endian (sent_header host cross asked) ++ rest
  unfolding request_bytes
  front = sent

  pub subscribed : start_pass host pipe_transport App router s ≡ (on_topic, again)
  subscribed =
      start_pass_subscription host pipe_transport App router s (record (s.net) { incoming = rest })
        (header_bytes host.endian (sent_header host cross asked)) (sent_header host cross asked)
        (read_header host cross asked asked-IsHeader s.net rest front)
        (header_parsed host cross asked asked-IsHeader) (sent_magic host cross asked asked-IsHeader)
        (ap (λ h. h.msg_type) received)
      ∙ ap
          (λ k.
            (record net_gone { connection = record (net_gone.connection) { topic_id = k } }, again))
          (ap (λ h. h.function_id) received)
