-- ===== src/Exchange/Whole.antt =====
-- A call from end to end: the client's packing and request, the registered function of the server, and
-- its result on the way back, through include/rest_rpc/rpc_client.hpp, rpc_connection.hpp,
-- rpc_router.hpp and codec.h.
use rest_rpc.Base.{
  ℕ, ◌+◌, ◌^◌, ◌≤◌, ◌<◌, ◌≡◌, refl, ◌∙◌, ap, Bool, true, false, List, [], ◌∷◌, ◌++◌, some, length,
  map,
}
use rest_rpc.ErrorCode.{ok}
use rest_rpc.Protocol.{Host}
use rest_rpc.Router.{
  Text, RpcResult, default_result, result_size, result_data, RpcRouter, done, register_handler,
  key_of, route,
}
use rest_rpc.Router.Handlers.{Function, gave, invoker, finish_handler}
use rest_rpc.Router.Routing.{seen, route-register_handler}
use rest_rpc.Codec.{value, Datum, kind_of, Packer, packed_bytes, pack_args, unpack}
use rest_rpc.Codec.RoundTrip.{Sendable, unpack-pack_args}
use rest_rpc.Transport.Pipe.{pipe_transport}
use rest_rpc.Connection.{Session, response_bytes, start_pass, again}
use rest_rpc.Connection.Answers.{called}
use rest_rpc.Client.{RpcClient, returned, call_for, call_first, after_call}
use rest_rpc.Client.Arguments.{get_buffer}
use rest_rpc.Exchange.{request_frame, delivered, server_answers}
use rest_rpc.Exchange.Arguments.{AreSendable, invoker-get_buffer}
use rest_rpc.Exchange.Calling.{client_gets_answer}

-- The result that the server sends for a value.
abbrev pub result_of : (p : Packer) → Datum p.Object → RpcResult
result_of p d = record default_result { result = packed_bytes (pack_args p (d ∷ [])) }

pub result_data-result_of :
    (p : Packer) (d : Datum p.Object)
    → result_data (result_of p d) ≡ packed_bytes (pack_args p (d ∷ []))
unfolding result_data
result_data-result_of p d = data_of (packed_bytes (pack_args p (d ∷ [])))
  where
    data_of : (bytes : Text) → result_data (record default_result { result = bytes }) ≡ bytes
    data_of [] = refl
    data_of (b ∷ bytes) = refl

module _ (host : Host) (cross : Bool) (App : Type 0) (p : Packer) (name : Text)
    (f : Function p (Session host pipe_transport App))
    (r r' : RpcRouter (Session host pipe_transport App)) (is_lvalue : Bool)
    (ds : List (Datum p.Object)) (d : Datum p.Object)
    (registered : register_handler name (invoker p (map kind_of ds) f) r ≡ done r')
    (arguments : AreSendable is_lvalue ds) (value_back : Sendable d)
    (key_fits : key_of name < 2 ^ 32) (pos : 0 < length (packed_bytes (get_buffer p is_lvalue ds)))
    (short : length (packed_bytes (get_buffer p is_lvalue ds)) < 0x7fffffff)
    (fits : result_size (result_of p d) + 1 ≤ 0x7fffffff) where
  abbrev pub buf : Text
  buf = packed_bytes (get_buffer p is_lvalue ds)

  abbrev pub frame : List ℕ
  frame = request_frame host cross (key_of name) buf key_fits pos short

  module _ (s s' : Session host pipe_transport App) (rest : List ℕ)
      (conversion : s.connection.cross_ending ≡ cross) (sent : s.net.incoming ≡ frame ++ rest) where
    abbrev pub taken : Session host pipe_transport App
    taken = called host pipe_transport App (
        delivered host cross (key_of name) buf key_fits pos short App r' s s' (result_of p d) rest
          conversion sent)

    routed :
        f ds taken ≡ (s', gave (some d)) → route r' (key_of name) buf taken ≡ (s', result_of p d)
    unfolding finish_handler
    routed ran =
        route-register_handler name (invoker p (map kind_of ds) f) r r' buf taken registered
        ∙ ap (seen name) (invoker-get_buffer p f default_result taken is_lvalue ds arguments)
        ∙ ap (λ e. seen name (finish_handler p default_result e)) ran

    -- A call of a registered function, from end to end: on the client's request the server runs the
    -- function once on the arguments that the caller gave, appends its answer to what it has sent, and
    -- goes on; and the caller, when that answer comes in, gets the very value that the function gave,
    -- with code ok, if its watchdog's time is not up before. The function answers at once, leaves the
    -- network and the conversion alone and gives a number in its type's range, a string or an object;
    -- a single argument that is a number is in its type's range and no lvalue of an integer type, and the
    -- packed arguments are not empty, as those of a call without arguments are; both pipes are open, the ends
    -- agree on conversion, and the lengths fit.
    pub call_runs_function :
        (c partial : RpcClient host pipe_transport) (tail : List ℕ)
        → f ds taken ≡ (s', gave (some d))
        → s'.tls.delay ≡ false
        → s'.connection.cross_ending ≡ cross
        → s'.net ≡ record (s.net) { incoming = rest }
        → s.net.is_open ≡ true
        → c.cross_ending ≡ cross
        → c.net.incoming ≡ response_bytes host pipe_transport App cross (result_of p d) 0 ++ tail
        → c.net.is_open ≡ true
        → let pass = start_pass host pipe_transport App r' s in
          (pass.1 ≡ again)
          × (pass.0.net.outgoing
              ≡ s.net.outgoing ++ response_bytes host pipe_transport App cross (result_of p d) 0)
          × ((call_for host pipe_transport
                (some (unpack p (kind_of d)))
                call_first
                partial
                (key_of name)
                (some buf)
                c).1
              ≡ returned ok (some d))
    unfolding call_for after_call
    call_runs_function c partial tail ran prompt kept alone s_open c_conversion answer c_open =
        let served =
          server_answers host cross (key_of name) buf key_fits pos short App r' s s' (result_of p d)
            rest conversion sent (routed ran) prompt kept alone s_open in
        let unpacked : unpack p (kind_of d) (result_data (result_of p d)) ≡ value d =
          ap (unpack p (kind_of d)) (result_data-result_of p d) ∙ unpack-pack_args p d value_back in
        let called_back = ap (after_call host pipe_transport (some (unpack p (kind_of d)))) (
          client_gets_answer host cross App (result_of p d) fits (key_of name) buf key_fits pos
            short (unpack p (kind_of d)) c tail c_conversion answer d c_open tt unpacked) in
        (ap (λ q. q.1) served, ap (λ q. q.0.net.outgoing) served, ap (λ q. q.1) called_back)
