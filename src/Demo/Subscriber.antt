-- ===== src/Demo/Subscriber.antt =====
-- The subscriber of examples/client.cpp over a pipe: it logs the messages in their order.
use rest_rpc.Base.{
  ℕ, suc, ◌+◌, ◌^◌, ◌≤◌, ◌<◌, ◌≡◌, ◌≢◌, refl, ◌∙◌, ap, arith, Bool, true, false, ◌||◌, ==_refl,
  List, [], ◌∷◌, ◌++◌, some, length, All,
}
use mathlib.Core.List.{append_assoc}
use rest_rpc.Base.Map.{contains, emplace, contains-emplace}
use rest_rpc.Base.Text.{codes}
use rest_rpc.Md5.Examples.{md5_hash32_topic1}
use rest_rpc.ErrorCode.{errc_value, ok}
use rest_rpc.Protocol.{Host}
use rest_rpc.Router.{Text, result_of_view, result_size, result_data, key_of}
use rest_rpc.Transport.Pipe.{pipe_transport}
use rest_rpc.Connection.{ended, response_bytes}
use rest_rpc.Client.{RpcClient, CallEnd, returned, complete}
use rest_rpc.Client.Subscriptions.{subscribe, subscribe_known}
use rest_rpc.Exchange.Publishing.{message_received, subscriber_gets_message}
use rest_rpc.Base.Views.{same_text}
use rest_rpc.Demo.{topic, as_string, sub_result, sub_next, log_more, sub_loop}

topic_fits : key_of topic < 2 ^ 32
topic_fits = omega (arith, md5_hash32_topic1)

topic_ne : key_of topic ≢ 0
topic_ne e = omega (arith, e, md5_hash32_topic1)

-- The frames of the messages that are published.
unfoldable pub frames : (host : Host) → Bool → Type 0 → List Text → List ℕ
frames host cross App [] = []
frames host cross App (str ∷ words) =
    response_bytes host pipe_transport App cross (result_of_view str) (key_of topic)
    ++ frames host cross App words

-- A message that is logged.
abbrev pub IsLogged : Text → Type 0
IsLogged str = (length str < 0x7fffffff) × (same_text str (codes "close") ≡ false)

module _ (host : Host) (cross : Bool) (App : Type 0) where
  abbrev frame : Text → List ℕ
  frame str = response_bytes host pipe_transport App cross (result_of_view str) (key_of topic)

  abbrev subscribed : RpcClient host pipe_transport → RpcClient host pipe_transport × CallEnd Text
  subscribed c = subscribe host pipe_transport (some (as_string host pipe_transport)) topic c

  -- A subscriber, old or new, whose next bytes are these.
  abbrev pub Hears : RpcClient host pipe_transport → List ℕ → Type 0
  Hears c bytes =
      ((contains (key_of topic) c.sub_ops || c.net.is_open) ≡ true)
      × (c.cross_ending ≡ cross)
      × (c.net.incoming ≡ bytes)

  view_fits :
      (str : Text) → length str < 0x7fffffff → result_size (result_of_view str) + 1 ≤ 0x7fffffff
  unfolding result_size
  view_fits str h = omega arith

  -- The pass that gets a message.
  abbrev Got : RpcClient host pipe_transport → Text → List ℕ → Type 0
  Got c str tail = ((subscribed c).1 ≡ returned ok (some str)) × Hears (subscribed c).0 tail

  pass_of_known :
      (c : RpcClient host pipe_transport) (str : Text) (tail : List ℕ)
      → length str < 0x7fffffff
      → contains (key_of topic) c.sub_ops ≡ true
      → c.cross_ending ≡ cross
      → c.net.incoming ≡ frame str ++ tail
      → Got c str tail
  unfolding complete result_data
  pass_of_known c str tail short known conversion incoming =
      rw
        (subscribe_known host pipe_transport (some (as_string host pipe_transport)) topic c known
          ∙ message_received host cross App (result_of_view str) topic topic_fits topic_ne
              (view_fits str short) (as_string host pipe_transport) c tail conversion incoming str
              tt refl known)
        (refl, (ap (λ b. b || c.net.is_open) known, conversion, refl))

  pass_of_new :
      (c : RpcClient host pipe_transport) (str : Text) (tail : List ℕ)
      → length str < 0x7fffffff
      → contains (key_of topic) c.sub_ops ≡ false
      → c.net.is_open ≡ true
      → c.cross_ending ≡ cross
      → c.net.incoming ≡ frame str ++ tail
      → Got c str tail
  unfolding complete result_data
  pass_of_new c str tail short new is_open conversion incoming =
      let known : contains (key_of topic) (emplace (key_of topic) tt c.sub_ops) ≡ true =
        contains-emplace (key_of topic) (key_of topic) tt c.sub_ops ∙ rw (==_refl (key_of topic)) in
      rw
        (subscriber_gets_message host cross App (result_of_view str) topic topic_fits topic_ne
          (view_fits str short) (as_string host pipe_transport) c tail conversion incoming str tt
          refl new is_open)
        (refl, (ap (λ b. b || c.net.is_open) known, conversion, refl))

  pass_of_any :
      (c : RpcClient host pipe_transport) (str : Text) (tail : List ℕ)
      → length str < 0x7fffffff
      → Hears c (frame str ++ tail)
      → Got c str tail
  pass_of_any c str tail short h = by_case (contains (key_of topic) c.sub_ops) refl h.0
    where
      by_case :
          (b : Bool)
          → contains (key_of topic) c.sub_ops ≡ b
          → (b || c.net.is_open) ≡ true
          → Got c str tail
      by_case true known e = pass_of_known c str tail short known h.1 h.2
      by_case false new e = pass_of_new c str tail short new e h.1 h.2

  sub_loop_close :
      (c : RpcClient host pipe_transport) (tail : List ℕ)
      → Hears c (frame (codes "close") ++ tail)
      → let r = sub_loop host pipe_transport 1 c in (r.1 ≡ []) × (r.2 ≡ ended)
  unfolding sub_loop sub_result sub_next same_text errc_value
  sub_loop_close c tail h = rw (pass_of_any c (codes "close") tail (omega arith) h).0 (refl, refl)

  sub_loop_message :
      (c : RpcClient host pipe_transport) (str : Text) (tail : List ℕ) (passes : ℕ)
      → IsLogged str
      → Hears c (frame str ++ tail)
      → sub_loop host pipe_transport (suc passes) c
        ≡ log_more host pipe_transport str (sub_loop host pipe_transport passes (subscribed c).0)
  unfolding sub_loop sub_result sub_next errc_value
  sub_loop_message c str tail passes m h = rw ((pass_of_any c str tail m.0 h).0, m.1)

  -- The loop on published messages.
  pub sub_loop-frames :
      (ms : List Text) (c : RpcClient host pipe_transport) (tail : List ℕ)
      → All IsLogged ms
      → Hears c (frames host cross App ms ++ (frame (codes "close") ++ tail))
      → let r = sub_loop host pipe_transport (suc (length ms)) c in (r.1 ≡ ms) × (r.2 ≡ ended)
  unfolding frames log_more
  sub_loop-frames [] c tail m h = sub_loop_close c tail h
  sub_loop-frames (str ∷ ms) c tail m h =
      let after = frames host cross App ms ++ (frame (codes "close") ++ tail) in
      let now : Hears c (frame str ++ after) = (
        h.0,
        h.1,
        h.2 ∙ append_assoc (frame str) (frames host cross App ms) (frame (codes "close") ++ tail),
      ) in
      let rest =
        sub_loop-frames ms (subscribed c).0 tail m.1 (pass_of_any c str after m.0.0 now).1 in
      rw (sub_loop_message c str after (suc (length ms)) m.0 now) (ap (λ l. str ∷ l) rest.0, rest.1)
