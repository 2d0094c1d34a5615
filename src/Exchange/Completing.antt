-- ===== src/Exchange/Completing.antt =====
-- The operation of one subscription of include/rest_rpc/rpc_client.hpp, whose handler `complete` keeps:
-- a message completes it, and a read error afterwards completes it again.
use rest_rpc.Base.{
  ◌+◌, ◌^◌, ◌≤◌, ◌<◌, ◌≡◌, ◌≢◌, refl, ◌∙◌, ap, subst, sym, arith, Bool, true, false, ◌==◌,
  if◌then◌else◌, [], ◌∷◌, ◌++◌, Option, none, some, ==_refl,
}
use rest_rpc.Base.Map.{contains, emplace, contains-emplace}
use rest_rpc.ErrorCode.{errc_value, success, read_error}
use rest_rpc.ErrorCode.Laws.{IsErrc}
use rest_rpc.Protocol.{Host, RestRpcHeader}
use rest_rpc.Router.{Text, RpcResult, result_size, result_data, key_of}
use rest_rpc.Transport.Pipe.{pipe_transport, pipe_read, pipe_write_open, eof}
use rest_rpc.Connection.{response_bytes}
use rest_rpc.Client.{
  Unpacked, value, returned, RpcClient, shut, complete, comple_all, request_bytes, call_impl,
}
use rest_rpc.Client.Completing.{times_completed, comple_all-completes}
use rest_rpc.Client.Replies.{call_impl_written, wait_response_no_header}
use rest_rpc.Client.Subscriptions.{subscription, subscribe}
use rest_rpc.Exchange.Publishing.{subscriber_gets_message}

module _ (host : Host) (cross : Bool) (App : Type 0) (result : RpcResult) (topic : Text)
    {V : Type 0} (u : Text → Unpacked V) (c : RpcClient host pipe_transport) (v : V) where
  abbrev asked : RestRpcHeader
  asked = subscription host pipe_transport (some u) topic

  -- The client when the message has come, and the peer has closed the connection.
  abbrev told : RpcClient host pipe_transport
  told = complete host pipe_transport (key_of topic) true (record c {
    net = record (c.net) {
      incoming = [];
      outgoing = c.net.outgoing ++ request_bytes host pipe_transport cross asked none;
    };
    body = errc_value result.ec ∷ result_data result;
    sub_ops = emplace (key_of topic) tt c.sub_ops;
  })

  -- A call on that connection.
  broken_call :
      {W : Type 0} (unpack : Option (Text → Unpacked W)) (header : RestRpcHeader)
      (args : Option Text)
      → c.net.is_open ≡ true
      → let asking = record (told.net) {
        outgoing =
            told.net.outgoing ++ request_bytes host pipe_transport told.cross_ending header args;
      } in
        call_impl host pipe_transport unpack header args told ≡ (
          comple_all host pipe_transport (shut host pipe_transport (record told { net = asking })),
          returned read_error none,
        )
  unfolding complete pipe_read
  broken_call unpack header args is_open =
      call_impl_written host pipe_transport unpack header args told _ success
        (pipe_write_open (request_bytes host pipe_transport told.cross_ending header args) told.net
          is_open)
        refl
      ∙ wait_response_no_header host pipe_transport unpack _ _ eof refl

  -- A new subscription's operation is completed when a message of its topic comes, and its call
  -- returns; and when the peer then closes the connection, the next call completes the same operation
  -- again, though no other has been made. The socket is open, both ends agree on conversion, the
  -- lengths fit, and the topic's key is not 0.
  pub completes_again :
      {W : Type 0} (unpack : Option (Text → Unpacked W)) (header : RestRpcHeader)
      (args : Option Text)
      → key_of topic < 2 ^ 32
      → key_of topic ≢ 0
      → result_size result + 1 ≤ 0x7fffffff
      → c.cross_ending ≡ cross
      → c.net.incoming ≡ response_bytes host pipe_transport App cross result (key_of topic) ++ []
      → IsErrc result.ec
      → u (result_data result) ≡ value v
      → contains (key_of topic) c.sub_ops ≡ false
      → c.net.is_open ≡ true
      → let first = subscribe host pipe_transport (some u) topic c in
        let second = call_impl host pipe_transport unpack header args first.0 in
        (first.1 ≡ returned result.ec (some v))
        × (times_completed (key_of topic) first.0.completions
            ≡ times_completed (key_of topic) c.completions + 1)
        × (second.1 ≡ returned read_error none)
        × (times_completed (key_of topic) first.0.completions + 1
            ≤ times_completed (key_of topic) second.0.completions)
  unfolding complete times_completed shut
  completes_again unpack header args topic_fits topic_ne fits conversion sent named unpacks new
        is_open =
      let first : subscribe host pipe_transport (some u) topic c
          ≡ (told, returned result.ec (some v)) =
        subscriber_gets_message host cross App result topic topic_fits topic_ne fits u c []
          conversion sent v named unpacks new is_open in
      let second = broken_call unpack header args is_open in
      subst
        (λ r.
          let again = call_impl host pipe_transport unpack header args r.0 in
          (r.1 ≡ returned result.ec (some v))
          × (times_completed (key_of topic) r.0.completions
              ≡ times_completed (key_of topic) c.completions + 1)
          × (again.1 ≡ returned read_error none)
          × (times_completed (key_of topic) r.0.completions + 1
              ≤ times_completed (key_of topic) again.0.completions))
        (sym first)
        (
          refl,
          once,
          ap (λ r. r.1) second,
          subst
              (λ r.
                times_completed (key_of topic) told.completions + 1
                ≤ times_completed (key_of topic) r.0.completions)
              (sym second) (comple_all-completes host pipe_transport (key_of topic) _ subscribed),
        )
    where
      subscribed : contains (key_of topic) (emplace (key_of topic) tt c.sub_ops) ≡ true
      subscribed =
          contains-emplace (key_of topic) (key_of topic) tt c.sub_ops ∙ rw (==_refl (key_of topic))

      once :
          (if key_of topic == key_of topic then 1 else 0)
            + times_completed (key_of topic) c.completions
          ≡ times_completed (key_of topic) c.completions + 1
      once = rw (==_refl (key_of topic)) (omega arith)
