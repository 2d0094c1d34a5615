-- ===== src/Exchange/Calling.antt =====
-- The client's half of a call over a pair of pipes: `call_impl` of include/rest_rpc/rpc_client.hpp on
-- the response of include/rest_rpc/rpc_connection.hpp.
use rest_rpc.Base.{
  ℕ, ◌+◌, ◌^◌, ◌≤◌, ◌<◌, ◌≡◌, refl, ◌∙◌, ap, arith, Bool, true, false, List, ◌∷◌, ◌++◌, none, some,
  length,
}
use rest_rpc.ErrorCode.{errc_value, success, request_timeout}
use rest_rpc.ErrorCode.Laws.{IsErrc}
use rest_rpc.Protocol.{Host}
use rest_rpc.Router.{Text, RpcResult, result_size, result_data}
use rest_rpc.Transport.Pipe.{Pipe, pipe_transport, pipe_write, pipe_write_open, pipe_close}
use rest_rpc.Connection.{response_bytes}
use rest_rpc.Client.{
  Unpacked, value, returned, bad, threw, RpcClient, request_bytes, call_impl, deliver, call_for,
  call_first, after_call, shut,
}
use rest_rpc.Client.Replies.{call_impl_written}
use rest_rpc.Client.{after_unpack}
use rest_rpc.Exchange.Frames.{answer, response_received}
use rest_rpc.Exchange.{asked, request_frame}

module _ (host : Host) (cross : Bool) (App : Type 0) (result : RpcResult)
    (fits : result_size result + 1 ≤ 0x7fffffff) (key : ℕ) (buf : Text) (key_fits : key < 2 ^ 32)
    (pos : 0 < length buf) (short : length buf < 0x7fffffff) {V : Type 0} (u : Text → Unpacked V)
    (c : RpcClient host pipe_transport) (tail : List ℕ) (conversion : c.cross_ending ≡ cross)
    (sent : c.net.incoming ≡ response_bytes host pipe_transport App cross result 0 ++ tail) where
  abbrev pub asking : Pipe
  asking = record (c.net) {
    outgoing = c.net.outgoing ++ request_frame host cross key buf key_fits pos short;
  }

  abbrev pub answered : Pipe
  answered = record asking { incoming = tail }

  -- The client when the answer has come in.
  abbrev pub heard : RpcClient host pipe_transport
  heard = record c { net = answered; body = errc_value result.ec ∷ result_data result }

  call_impl-after_unpack :
      c.net.is_open ≡ true
      → IsErrc result.ec
      → call_impl host pipe_transport
          (some u)
          (asked host cross key buf key_fits pos short)
          (some buf)
          c
        ≡ after_unpack host pipe_transport
            (some u)
            (answer host cross App result 0 (omega arith) fits)
            result.ec
            heard
            (u (result_data result))
  call_impl-after_unpack is_open named =
      call_impl_written host pipe_transport (some u) (asked host cross key buf key_fits pos short)
        (some buf) c asking success written refl
      ∙ response_received host cross App result 0 (omega arith) fits u (record c { net = asking })
          tail conversion sent named
    where
      written :
          pipe_write
            (request_bytes host pipe_transport c.cross_ending
              (asked host cross key buf key_fits pos short)
              (some buf))
            c.net
          ≡ (asking, success)
      written =
          ap
            (λ b.
              pipe_write
                (request_bytes host pipe_transport b (asked host cross key buf key_fits pos short)
                  (some buf))
                c.net)
            conversion
          ∙ pipe_write_open (request_frame host cross key buf key_fits pos short) c.net is_open

  -- A call sends one request frame with the function's key and the packed arguments, and returns
  -- the code of the server's result with the value that its data unpack to. This holds if the
  -- socket is open, both ends agree on conversion, the response is what comes in first, and the
  -- lengths fit.
  pub client_gets_answer :
      (v : V)
      → c.net.is_open ≡ true
      → IsErrc result.ec
      → u (result_data result) ≡ value v
      → call_impl host pipe_transport
          (some u)
          (asked host cross key buf key_fits pos short)
          (some buf)
          c
        ≡ (
          record c { net = answered; body = errc_value result.ec ∷ result_data result },
          returned result.ec (some v),
        )
  unfolding after_unpack deliver
  client_gets_answer v is_open named e =
      call_impl-after_unpack is_open named
      ∙ ap
          (after_unpack host pipe_transport (some u)
            (answer host cross App result 0 (omega arith) fits) result.ec heard)
          e

  -- Where the data of the server's result are not a value's, as the text of an error mostly is not,
  -- a call that ends before its watchdog returns `request_timeout`, whatever the result's code, and
  -- the client is closed: the exception of `unpack` makes `||` wait for the watchdog. The socket is
  -- open, both ends agree on conversion, the response comes in first, and the lengths fit.
  pub call_for_bad :
      (partial : RpcClient host pipe_transport) (what : Text)
      → c.net.is_open ≡ true
      → IsErrc result.ec
      → u (result_data result) ≡ bad what
      → let r = call_for host pipe_transport (some u) call_first partial key (some buf) c in
        (r.1 ≡ returned request_timeout none) × (r.0.has_closed ≡ true) × (r.0.net.is_open ≡ false)
  unfolding after_unpack call_for after_call shut pipe_close
  call_for_bad partial what is_open named e =
      let ended : call_impl host pipe_transport (some u)
            (asked host cross key buf key_fits pos short) (some buf) c
          ≡ (heard, threw what) =
        call_impl-after_unpack is_open named
        ∙ ap
            (after_unpack host pipe_transport (some u)
              (answer host cross App result 0 (omega arith) fits) result.ec heard)
            e in
      let closed = ap (after_call host pipe_transport (some u)) ended in
      (ap (λ q. q.1) closed, ap (λ q. q.0.has_closed) closed, ap (λ q. q.0.net.is_open) closed)
