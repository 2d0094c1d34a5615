-- ===== src/Client/Examples.antt =====
-- The theorems on include/rest_rpc/rpc_client.hpp for a client over a pipe.
use rest_rpc.Base.{ℕ, ◌≡◌, ◌↔◌, ◌∙◌, ==_refl, refl, true, false, List, [], ◌∷◌, none, some}
use rest_rpc.Base.Text.{codes}
use rest_rpc.Base.Map.{contains, contains-emplace}
use rest_rpc.ErrorCode.{read_error, write_error, success}
use rest_rpc.Client.Waking.{woken, subscribe-wakes}
use rest_rpc.Client.Subscriptions.{subscribe}
use rest_rpc.Client.Replies.Ways.{Call}
use rest_rpc.Client.Replies.Exactly.{call_impl-Call}
use rest_rpc.Protocol.{empty_header}
use rest_rpc.Protocol.Hosts.{little_host}
use rest_rpc.Router.{Text, key_of}
use rest_rpc.Transport.Pipe.{
  Pipe, pipe_transport, pipe_write, pipe_write_open, eof, pipe_read-append,
}
use rest_rpc.Client.{Unpacked, bad, returned, RpcClient, shut, call_impl}

abbrev quiet : List ℕ → Pipe
quiet bytes = record { incoming = bytes; outgoing = []; clock = 9; is_open = true }

-- A client with one subscription.
abbrev over : Pipe → RpcClient little_host pipe_transport
over pipe = record {
  net = pipe;
  has_closed = false;
  body = [];
  sub_ops = (77, tt) ∷ [];
  completions = [];
  cross_ending = false;
  tcp_no_delay = true;
  should_reset = false;
}

abbrev unpack_nothing : Text → Unpacked ℕ
unpack_nothing body = bad (codes "unpack failed")

abbrev broken : Pipe
broken = record { incoming = []; outgoing = []; clock = 9; is_open = false }

abbrev fresh : RpcClient little_host pipe_transport
fresh = record (over broken) { sub_ops = [] }

call_impl-Call_example :
    Call little_host pipe_transport
      (some unpack_nothing)
      empty_header
      none
      (over broken)
      (shut little_host pipe_transport (over broken), returned write_error none)
    ↔ (call_impl little_host pipe_transport (some unpack_nothing) empty_header none (over broken)
        ≡ (shut little_host pipe_transport (over broken), returned write_error none))
call_impl-Call_example =
    call_impl-Call little_host pipe_transport (some unpack_nothing) empty_header none (over broken)
      (shut little_host pipe_transport (over broken), returned write_error none)

none_subscribed : contains (key_of (codes "abc")) fresh.sub_ops ≡ false
unfolding contains
none_subscribed = refl

-- The peer closes the connection before it has sent a message.
subscribe-wakes_example :
    let r =
      subscribe little_host pipe_transport
        (some unpack_nothing)
        (codes "abc")
        (record fresh { net = quiet [] }) in
    (r.1 ≡ returned read_error none)
    × (r.0.has_closed ≡ true)
    × (woken (key_of (codes "abc")) r.0.completions ≡ true)
unfolding rest_rpc.Transport.Pipe.pipe_read
subscribe-wakes_example =
    subscribe-wakes little_host pipe_transport (some unpack_nothing) (codes "abc")
      (record fresh { net = quiet [] }) _ _ success eof (key_of (codes "abc"))
      (contains-emplace (key_of (codes "abc")) (key_of (codes "abc")) tt []
        ∙ rw (==_refl (key_of (codes "abc"))))
      none_subscribed (pipe_write_open _ (quiet []) refl) refl refl
