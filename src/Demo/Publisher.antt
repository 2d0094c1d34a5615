-- ===== src/Demo/Publisher.antt =====
-- The publisher of examples/server.cpp over pipes: what it writes to a connection on its topic.
use mathlib.Core.Option
use mathlib.Core.List.{append_assoc, append-nil}
use rest_rpc.Base.{
  ℕ, ◌≡◌, refl, ◌∙◌, ap, sym, Bool, true, false, List, [], ◌∷◌, ◌++◌, some, All, suc, length,
}
use rest_rpc.Base.Map.{find}
use rest_rpc.Base.Text.{codes}
use rest_rpc.Protocol.{Host}
use rest_rpc.Router.{Text, result_of_view, key_of}
use rest_rpc.Transport.Pipe.{pipe_transport}
use rest_rpc.Connection.{Session, ended, response_bytes}
use rest_rpc.Client.{RpcClient}
use rest_rpc.Server.{RpcServer, publish_to, publish}
use rest_rpc.Server.Members.{member, no_repeats}
use rest_rpc.Server.Table.{publish-reaches}
use rest_rpc.Exchange.Telling.{IsOnTopic, told-eq, told-IsOnTopic}
use rest_rpc.Base.Views.{same_text}
use rest_rpc.Demo.{topic, pub_loop, sub_loop}
use rest_rpc.Demo.Subscriber.{frames, IsLogged, Hears, sub_loop-frames}

-- A word that does not end the loop.
abbrev pub IsMessage : Text → Type 0
IsMessage str = same_text str (codes "quit") ≡ false

abbrev pub close_word : List Text
close_word = codes "close" ∷ []

module _ (host : Host) (cross : Bool) (App : Type 0) where
  abbrev frame : Text → List ℕ
  frame str = response_bytes host pipe_transport App cross (result_of_view str) (key_of topic)

  abbrev told : Text → Session host pipe_transport App → Session host pipe_transport App
  told str c = publish_to host pipe_transport App (key_of topic) (result_of_view str) c

  told-outgoing :
      (str : Text) (ms : List Text) (c : Session host pipe_transport App)
      → IsOnTopic host cross App (key_of topic) c
      → (told str c).net.outgoing ++ frames host cross App ms
        ≡ c.net.outgoing ++ (frame str ++ frames host cross App ms)
  told-outgoing str ms c h =
      rw (told-eq host cross App (key_of topic) (result_of_view str) c h)
        (append_assoc c.net.outgoing (frame str) (frames host cross App ms))

  -- The loop on messages and then "quit", for a served connection on the topic.
  pub pub_loop-frames :
      (ms more : List Text) (s : RpcServer host pipe_transport App) (k : ℕ)
      (c : Session host pipe_transport App)
      → All IsMessage ms
      → no_repeats s.conns ≡ true
      → member k s.conns ≡ true
      → find k s.made ≡ some c
      → IsOnTopic host cross App (key_of topic) c
      → let r = pub_loop host pipe_transport App (ms ++ (codes "quit" ∷ more)) s in
        (r.1 ≡ ended)
        × (Option.map (λ (d : Session host pipe_transport App). d.net.outgoing) (find k r.0.made)
            ≡ some (c.net.outgoing ++ frames host cross App ms))
  unfolding pub_loop frames same_text publish
  pub_loop-frames [] more s k c m once served found h = (
    refl,
    ap (Option.map (λ (d : Session host pipe_transport App). d.net.outgoing)) found
        ∙ ap some (sym (append-nil c.net.outgoing)),
  )
  pub_loop-frames (str ∷ ms) more s k c m once served found h =
      let s' = publish host pipe_transport App topic (result_of_view str) s in
      let reached : find k s'.made ≡ some (told str c) =
        publish-reaches host pipe_transport App topic (result_of_view str) s k once
        ∙ rw (served, found) in
      let rest =
        pub_loop-frames ms more s' k (told str c) m.1 once served reached
          (told-IsOnTopic host cross App (key_of topic) (result_of_view str) c h) in
      rw m.0 (rest.0, rest.1 ∙ ap some (told-outgoing str ms c h))

  frames-append :
      (ms ns : List Text)
      → frames host cross App (ms ++ ns) ≡ frames host cross App ms ++ frames host cross App ns
  unfolding frames
  frames-append [] ns = refl
  frames-append (str ∷ ms) ns =
      ap (λ bytes. frame str ++ bytes) (frames-append ms ns)
      ∙ sym (append_assoc (frame str) (frames host cross App ms) (frames host cross App ns))

  All-append : (ms ns : List Text) → All IsMessage ms → All IsMessage ns → All IsMessage (ms ++ ns)
  All-append [] ns m n = n
  All-append (str ∷ ms) ns m n = (m.0, All-append ms ns m.1 n)

  -- The publisher's loop on some messages, then "close" and then "quit" ends, and it has appended to
  -- what a served connection on the topic has sent one frame for each of these words but the last;
  -- and the subscriber's loop, when these frames come in, logs exactly the messages, in their order,
  -- and ends. No message is "close" or "quit" or 2 ^ 31 - 1 bytes long or longer, no id stands twice
  -- among those served, both ends agree on conversion, and the connection is open, and so is the
  -- subscriber's socket unless it has subscribed before.
  pub sub_loop-pub_loop :
      (ms more : List Text) (s : RpcServer host pipe_transport App) (k : ℕ)
      (c : Session host pipe_transport App) (client : RpcClient host pipe_transport) (tail : List ℕ)
      → All IsMessage ms
      → All IsLogged ms
      → no_repeats s.conns ≡ true
      → member k s.conns ≡ true
      → find k s.made ≡ some c
      → IsOnTopic host cross App (key_of topic) c
      → Hears host cross App client (frames host cross App (ms ++ close_word) ++ tail)
      → let p = pub_loop host pipe_transport App ((ms ++ close_word) ++ (codes "quit" ∷ more)) s in
        let r = sub_loop host pipe_transport (suc (length ms)) client in
        (p.1 ≡ ended)
        × (Option.map (λ (d : Session host pipe_transport App). d.net.outgoing) (find k p.0.made)
            ≡ some (c.net.outgoing ++ frames host cross App (ms ++ close_word)))
        × (r.1 ≡ ms)
        × (r.2 ≡ ended)
  unfolding same_text frames
  sub_loop-pub_loop ms more s k c client tail m logged once served found on_topic hears =
      let published =
        pub_loop-frames (ms ++ close_word) more s k c (All-append ms close_word m (refl, tt)) once
          served found on_topic in
      let incoming : client.net.incoming
          ≡ frames host cross App ms ++ (frame (codes "close") ++ tail) =
        hears.2
        ∙ ap (λ bytes. bytes ++ tail) (frames-append ms close_word)
        ∙ append_assoc (frames host cross App ms) (frame (codes "close") ++ []) tail
        ∙ ap (λ bytes. frames host cross App ms ++ bytes)
            (append_assoc (frame (codes "close")) [] tail) in
      let heard =
        sub_loop-frames host cross App ms client tail logged (hears.0, hears.1, incoming) in
      (published.0, published.1, heard.0, heard.1)
