-- ===== src/Exchange/Remote/Local.antt =====
-- Remote calls are local calls: what the calls over a link of Exchange/Remote return, and what they do
-- to the application's state, through include/rest_rpc/rpc_client.hpp, rpc_connection.hpp,
-- rpc_router.hpp and codec.h.
use mathlib.Core.List.{append-nil}
use rest_rpc.Base.{
  ℕ, ◌+◌, ◌^◌, ◌≤◌, ◌<◌, ◌≡◌, refl, ◌∙◌, ap, ap₂, subst, sym, arith, Bool, true, false, List, [],
  ◌∷◌, ◌++◌, some, length, map, All,
}
use rest_rpc.ErrorCode.{errc_value, ok, success}
use rest_rpc.Protocol.{Host}
use rest_rpc.Router.{Text, RpcResult, RpcRouter, result_size, result_data, key_of}
use rest_rpc.Codec.{Kind, Datum, kind_of, Packer, packed_bytes, pack_args, unpack, value}
use rest_rpc.Codec.RoundTrip.{Sendable, unpack-pack_args}
use rest_rpc.Transport.Pipe.{Pipe, pipe_transport, pipe_write, pipe_write_open}
use rest_rpc.Connection.{Session, response_bytes, start_pass, again, set_last_time}
use rest_rpc.Connection.Loop.{set_last_time-eq}
use rest_rpc.Connection.Answers.{called}
use rest_rpc.Client.{
  RpcClient, CallEnd, returned, request_bytes, after_request, after_call, deliver, after_unpack,
  wait_response,
}
use rest_rpc.Client.Arguments.{get_buffer}
use rest_rpc.Exchange.{asked, request_frame, delivered, delivered-eq, server_answers}
use rest_rpc.Exchange.Frames.{answer, response_received}
use rest_rpc.Exchange.Whole.{result_of, result_data-result_of}
use rest_rpc.Exchange.Remote.Serving.{IsRegistered, route-IsRegistered}
use rest_rpc.Exchange.Remote.{Link, replied, carried, remote_call}

-- What comes in over two empty pipes.
after_nothing : (a b bytes : List ℕ) → a ≡ [] → b ≡ [] → a ++ (b ++ bytes) ≡ bytes ++ []
after_nothing a b bytes e f = rw (e, f) (sym (append-nil bytes))

module _ (host : Host) (cross : Bool) (App : Type 0) (p : Packer)
    (router : RpcRouter (Session host pipe_transport App)) where
  -- A call: a function of the arguments and the application's state that returns a value, its name,
  -- the arguments, and the type of its result.
  pub record Call : Type 0 where
    pub name : Text
    pub is_lvalue : Bool
    pub arguments : List (Datum p.Object)
    pub kind : Kind
    pub f : List (Datum p.Object) → App → Datum p.Object × App

  abbrev pub run : Call → App → Datum p.Object × App
  run q a = q.f q.arguments a

  abbrev pub buf_of : Call → Text
  buf_of q = packed_bytes (get_buffer p q.is_lvalue q.arguments)

  -- The call's function is registered for its arguments, which can be sent and make up some bytes, its
  -- results are numbers in their type's
  -- range, strings or objects; the lengths fit.
  pub record IsServed (q : Call) : Type 0 where
    pub key_fits : key_of q.name < 2 ^ 32
    pub pos : 0 < length (buf_of q)
    pub short : length (buf_of q) < 0x7fffffff
    pub registered : IsRegistered host App p router q.name q.is_lvalue q.arguments q.f
    pub typed : (a : App) → kind_of (run q a).0 ≡ q.kind
    pub sendable : (a : App) → Sendable (run q a).0
    pub fits : (a : App) → result_size (result_of p (run q a).0) + 1 ≤ 0x7fffffff

  -- The pipes of a link are open and empty, both ends agree on conversion, and no answer is put off.
  pub record IsJoined (l : Link host App router) : Type 0 where
    pub client_conversion : l.0.cross_ending ≡ cross
    pub client_heard : l.0.net.incoming ≡ []
    pub client_sent : l.0.net.outgoing ≡ []
    pub client_open : l.0.net.is_open ≡ true
    pub server_conversion : l.1.connection.cross_ending ≡ cross
    pub server_heard : l.1.net.incoming ≡ []
    pub server_sent : l.1.net.outgoing ≡ []
    pub server_open : l.1.net.is_open ≡ true
    pub prompt : l.1.tls.delay ≡ false

  module _ (q : Call) (w : IsServed q) (c : RpcClient host pipe_transport)
      (s : Session host pipe_transport App) (j : IsJoined (c, s)) where
    abbrev frame : List ℕ
    frame = request_frame host cross (key_of q.name) (buf_of q) w.key_fits w.pos w.short

    abbrev written : Pipe
    written = record (c.net) { outgoing = c.net.outgoing ++ frame }

    abbrev arrived : Session host pipe_transport App
    arrived = record s { net = record (s.net) { incoming = s.net.incoming ++ written.outgoing } }

    abbrev before : App
    before = s.app

    front : arrived.net.incoming ≡ frame ++ []
    front = after_nothing s.net.incoming c.net.outgoing frame j.server_heard j.client_sent

    abbrev taken : Session host pipe_transport App
    taken = called host pipe_transport App (
        delivered host cross (key_of q.name) (buf_of q) w.key_fits w.pos w.short App router arrived
          arrived (result_of p (run q s.app).0) [] j.server_conversion front)

    abbrev ran : Session host pipe_transport App
    ran = record taken { app = (run q taken.app).1 }

    kept :
        (taken.connection.cross_ending ≡ cross)
        × (taken.tls.delay ≡ s.tls.delay)
        × (taken.app ≡ s.app)
    kept =
        delivered-eq host cross (key_of q.name) (buf_of q) w.key_fits w.pos w.short App router
          arrived arrived (result_of p (run q s.app).0) [] j.server_conversion front

    abbrev result : RpcResult
    result = result_of p (run q taken.app).0

    abbrev answer_bytes : List ℕ
    answer_bytes = response_bytes host pipe_transport App cross result 0

    abbrev served : Session host pipe_transport App
    served = record (set_last_time host pipe_transport App ran) {
      net = record (s.net) { incoming = []; outgoing = s.net.outgoing ++ answer_bytes };
    }

    pass : start_pass host pipe_transport App router arrived ≡ (served, again)
    pass =
        server_answers host cross (key_of q.name) (buf_of q) w.key_fits w.pos w.short App router
          arrived ran result [] j.server_conversion front
          (route-IsRegistered host App p router q.name q.is_lvalue q.arguments q.f taken
            w.registered)
          (kept.1 ∙ j.prompt) kept.0 refl j.server_open

    abbrev answer_in : RpcClient host pipe_transport
    answer_in = record c {
      net = record written {
        incoming = c.net.incoming ++ (s.net.outgoing ++ answer_bytes);
        outgoing = [];
      };
    }

    abbrev caller_after : RpcClient host pipe_transport
    caller_after = record answer_in {
      net = record (answer_in.net) { incoming = [] };
      body = errc_value ok ∷ result_data result;
    }

    unpacked : unpack p q.kind (result_data result) ≡ value (run q taken.app).0
    unpacked =
        ap (unpack p q.kind) (result_data-result_of p (run q taken.app).0)
        ∙ ap (λ k. unpack p k (packed_bytes (pack_args p ((run q taken.app).0 ∷ []))))
            (sym (w.typed taken.app))
        ∙ unpack-pack_args p (run q taken.app).0 (w.sendable taken.app)

    waited :
        wait_response host pipe_transport (some (unpack p q.kind)) answer_in
        ≡ (caller_after, returned ok (some (run q taken.app).0))
    unfolding after_unpack deliver
    waited =
        let comes : answer_in.net.incoming ≡ answer_bytes ++ [] =
          after_nothing c.net.incoming s.net.outgoing answer_bytes j.client_heard j.server_sent in
        response_received host cross App result 0 (omega arith) (w.fits taken.app) (unpack p q.kind)
          answer_in [] j.client_conversion comes tt
        ∙ ap
            (after_unpack host pipe_transport (some (unpack p q.kind))
              (answer host cross App result 0 (omega arith) (w.fits taken.app)) ok caller_after)
            unpacked

    one_call : remote_call host App router (unpack p q.kind) (key_of q.name) (buf_of q) (c, s) ≡ (
      (caller_after, record served { net = record (s.net) { incoming = []; outgoing = [] } }),
      returned ok (some (run q taken.app).0),
    )
    unfolding remote_call carried replied after_request after_call
    one_call =
        let asking =
          request_bytes host pipe_transport c.cross_ending
            (asked host cross (key_of q.name) (buf_of q) w.key_fits w.pos w.short)
            (some (buf_of q)) in
        let sent : pipe_write asking c.net ≡ (written, success) =
          ap
            (λ b.
              pipe_write
                (request_bytes host pipe_transport b
                  (asked host cross (key_of q.name) (buf_of q) w.key_fits w.pos w.short)
                  (some (buf_of q)))
                c.net)
            j.client_conversion
          ∙ pipe_write_open frame c.net j.client_open in
        ap (carried host App router (unpack p q.kind) (c, s)) sent
        ∙ ap (λ r. replied host App router (unpack p q.kind) c (written, success) r.0) pass
        ∙ ap
            (λ r.
              let r' = after_call host pipe_transport (some (unpack p q.kind)) r in
              (
                (r'.0, record served { net = record (s.net) { incoming = []; outgoing = [] } }),
                r'.1,
              ))
            waited

    abbrev link_after : Link host App router
    link_after =
        (caller_after, record served { net = record (s.net) { incoming = []; outgoing = [] } })

    link_after-IsJoined : IsJoined link_after
    link_after-IsJoined =
        let last = set_last_time-eq host pipe_transport App ran in
        record {
          client_conversion = j.client_conversion;
          client_heard = refl;
          client_sent = refl;
          client_open = j.client_open;
          server_conversion = last.1 ∙ kept.0;
          server_heard = refl;
          server_sent = refl;
          server_open = j.server_open;
          prompt = ap (λ t. t.delay) last.5 ∙ kept.1 ∙ j.prompt;
        }

    link_after-app : link_after.1.app ≡ (run q s.app).1
    link_after-app = (set_last_time-eq host pipe_transport App ran).6 ∙ ap (λ a. (run q a).1) kept.2

  -- The calls one after the other, as local calls and as calls over the link.
  unfoldable pub local_calls : List Call → App → List (Datum p.Object) × App
  local_calls [] a = ([], a)
  local_calls (q ∷ qs) a = let rest = local_calls qs (run q a).1 in ((run q a).0 ∷ rest.0, rest.1)

  unfoldable pub remote_calls :
      List Call → Link host App router → List (CallEnd (Datum p.Object)) × Link host App router
  remote_calls [] l = ([], l)
  remote_calls (q ∷ qs) l =
      let r = remote_call host App router (unpack p q.kind) (key_of q.name) (buf_of q) l in
      let rest = remote_calls qs r.0 in (r.1 ∷ rest.0, rest.1)

  abbrev pub ok_end : Datum p.Object → CallEnd (Datum p.Object)
  ok_end d = returned ok (some d)

  -- Remote calls are local calls: any calls one after the other, over a link whose pipes are open and
  -- empty, return with code ok the values that the functions return when they are called in that
  -- order on the application's state, and leave that state as those calls leave it, and the pipes
  -- open and empty. Each function is registered for parameters of its arguments' types, returns
  -- numbers in their type's range, strings or objects, and leaves the connection alone; a single
  -- argument that is a number is in its type's range and no lvalue of an integer type, and the packed
  -- arguments are not empty, as those of a call without arguments are; the lengths fit, both ends agree on
  -- conversion, and each answer comes before its call's timer.
  pub remote_calls-local_calls :
      (qs : List Call) (l : Link host App router)
      → All IsServed qs
      → IsJoined l
      → let remote = remote_calls qs l in
        let locally = local_calls qs l.1.app in
        (remote.0 ≡ map ok_end locally.0) × (remote.1.1.app ≡ locally.1) × IsJoined remote.1
  unfolding remote_calls local_calls
  remote_calls-local_calls [] l w j = (refl, refl, j)
  remote_calls-local_calls (q ∷ qs) (c, s) (w, ws) j =
      let l' = link_after q w c s j in
      let rest = remote_calls-local_calls qs l' ws (link_after-IsJoined q w c s j) in
      let app = link_after-app q w c s j in
      let all : remote_calls (q ∷ qs) (c, s) ≡ (
        ok_end (run q (taken q w c s j).app).0 ∷ (remote_calls qs l').0,
        (remote_calls qs l').1,
      ) =
        ap
          (λ (r : Link host App router × CallEnd (Datum p.Object)).
            (r.1 ∷ (remote_calls qs r.0).0, (remote_calls qs r.0).1))
          (one_call q w c s j) in
      (
        ap (λ r. r.0) all
            ∙ ap₂ (λ a ends. ok_end (run q a).0 ∷ ends) (kept q w c s j).2
                (rest.0 ∙ ap (λ a. map ok_end (local_calls qs a).0) app),
        ap (λ r. r.1.1.app) all ∙ rest.1 ∙ ap (λ a. (local_calls qs a).1) app,
        subst (λ r. IsJoined r.1) (sym all) rest.2,
      )
