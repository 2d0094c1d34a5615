-- ===== src/Client/Subscriptions.antt =====
-- `subscribe` of include/rest_rpc/rpc_client.hpp. The coroutine ends when the call has ended and the
-- topic's operation has been completed, which `completions` tells.
use rest_rpc.Base.{◌≡◌, ◌∙◌, ap, true, false, if◌then◌else◌, Option, none}
use rest_rpc.Base.Map.{contains, emplace}
use rest_rpc.ErrorCode.{ErrorCode, write_error, is_error}
use rest_rpc.Protocol.{Host, RestRpcHeader, empty_header}
use rest_rpc.Router.{Text, key_of}
use rest_rpc.Transport.{Transport}
use rest_rpc.Client.{
  Unpacked, CallEnd, returned, RpcClient, shut, request_bytes, wait_response, call_impl,
}
use rest_rpc.Client.Replies.{call_impl_write_error}

module _ (host : Host) (t : Transport) {V : Type 0} (unpack : Option (Text → Unpacked V)) where
  open t use {Net, async_write}

  abbrev pub subscription : Text → RestRpcHeader
  subscription topic = record empty_header { msg_type = 1; function_id = key_of topic }

  unfoldable pub subscribe : Text → RpcClient host t → RpcClient host t × CallEnd V
  subscribe topic c =
      if contains (key_of topic) c.sub_ops
      then wait_response host t unpack c
      else call_impl host t unpack (subscription topic) none
          (record c { sub_ops = emplace (key_of topic) tt c.sub_ops })

  -- A new subscription sends its request.
  pub subscribe_new :
      (topic : Text) (c : RpcClient host t)
      → contains (key_of topic) c.sub_ops ≡ false
      → subscribe topic c
        ≡ call_impl host t unpack
            (subscription topic)
            none
            (record c { sub_ops = emplace (key_of topic) tt c.sub_ops })
  unfolding subscribe
  subscribe_new topic c new =
      ap
        (λ b.
          if b
          then wait_response host t unpack c
          else call_impl host t unpack (subscription topic) none
              (record c { sub_ops = emplace (key_of topic) tt c.sub_ops }))
        new

  -- A topic that is subscribed to sends nothing more.
  pub subscribe_known :
      (topic : Text) (c : RpcClient host t)
      → contains (key_of topic) c.sub_ops ≡ true
      → subscribe topic c ≡ wait_response host t unpack c
  unfolding subscribe
  subscribe_known topic c known =
      ap
        (λ b.
          if b
          then wait_response host t unpack c
          else call_impl host t unpack (subscription topic) none
              (record c { sub_ops = emplace (key_of topic) tt c.sub_ops }))
        known

  -- Where the request of a new subscription cannot be written, the call ends with `write_error`, the
  -- socket is closed and the topic stays among the subscriptions, and no operation is completed, the
  -- topic's included, for which the coroutine goes on to wait.
  pub subscribe_write_error :
      (topic : Text) (c : RpcClient host t) (net' : Net) (ec : ErrorCode)
      → contains (key_of topic) c.sub_ops ≡ false
      → async_write (request_bytes host t c.cross_ending (subscription topic) none) c.net
        ≡ (net', ec)
      → is_error ec ≡ true
      → let c' = record c { sub_ops = emplace (key_of topic) tt c.sub_ops; net = net' } in
        (subscribe topic c ≡ (shut host t c', returned write_error none))
        × ((subscribe topic c).0.completions ≡ c.completions)
  subscribe_write_error topic c net' ec new written failed =
      (ended, unfold shut in ap (λ r. r.0.completions) ended)
    where
      begun : RpcClient host t
      begun = record c { sub_ops = emplace (key_of topic) tt c.sub_ops }

      ended :
          subscribe topic c ≡ (shut host t (record begun { net = net' }), returned write_error none)
      ended =
          subscribe_new topic c new
          ∙ call_impl_write_error host t unpack (subscription topic) none begun net' ec written
              failed
