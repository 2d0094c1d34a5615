-- ===== src/Exchange/Frames.antt =====
-- A frame that `response` of include/rest_rpc/rpc_connection.hpp has sent, as `wait_response` of
-- include/rest_rpc/rpc_client.hpp receives it over a pipe.
use mathlib.Core.List.{append_assoc}
use rest_rpc.Base.{
  ℕ, suc, ◌+◌, ◌^◌, ◌≤◌, ◌<◌, ◌≡◌, refl, ◌∙◌, ap, ap₂, subst, arith, Bool, if◌then◌else◌, List, ◌∷◌,
  ◌++◌, some, length, ◌==◌, Bool-cases, inl, inr,
}
use rest_rpc.Base.Words.{u64}
use rest_rpc.ErrorCode.{errc_value}
use rest_rpc.ErrorCode.Laws.{IsErrc, errc_of_value-errc_value}
use rest_rpc.Protocol.{Host, RestRpcHeader, IsHeader, empty_header, header_bytes, parse_recieved}
use rest_rpc.Router.{Text, RpcResult, result_size, result_data}
use rest_rpc.Transport.{read}
use rest_rpc.Transport.Pipe.{Pipe, pipe_transport, pipe_read, pipe_read-append}
use rest_rpc.Connection.{response_bytes, response_header}
use rest_rpc.Connection.Loop.{sent_header, parse_sent_header}
use rest_rpc.Client.{Unpacked, RpcClient, wait_response, after_unpack}
use rest_rpc.Client.Replies.{unpacked}
use rest_rpc.Exchange.{
  payload, payload-data, length-result_data, read_header, header_parsed, sent_magic,
}

-- The frame of a result for the function or topic `id`, 0 for an answer to a request.
module _ (host : Host) (cross : Bool) (App : Type 0) (result : RpcResult) (id : ℕ)
    (id_fits : id < 2 ^ 32) (fits : result_size result + 1 ≤ 0x7fffffff) where
  abbrev pub answer : RestRpcHeader
  answer = record empty_header {
    msg_type = if id == 0 then 0 else 1;
    function_id = id;
    body_len = result_size result + 1;
  }

  abbrev pub answer_body : Text
  answer_body = errc_value result.ec ∷ result_data result

  answer-IsHeader : IsHeader answer
  answer-IsHeader = elim (Bool-cases (id == 0)) [
    | inl e ↦ rw e (omega arith)
    | inr e ↦ rw e (omega arith)
  ]

  response_bytes-eq :
      response_bytes host pipe_transport App cross result id
      ≡ header_bytes host.endian (sent_header host cross answer) ++ answer_body
  unfolding response_bytes response_header
  response_bytes-eq =
      let short : u64 (result_size result + 1) ≡ result_size result + 1 = omega arith in
      ap
        (λ n.
          header_bytes host.endian (sent_header host cross (record answer { body_len = n }))
          ++ payload result)
        short
      ∙ ap (λ p. header_bytes host.endian (sent_header host cross answer) ++ p)
          (payload-data result)

  module _ {V : Type 0} (u : Text → Unpacked V) (c : RpcClient host pipe_transport) (tail : List ℕ)
      (conversion : c.cross_ending ≡ cross)
      (sent : c.net.incoming ≡ response_bytes host pipe_transport App cross result id ++ tail) where
    abbrev header_gone : Pipe
    header_gone = record (c.net) { incoming = answer_body ++ tail }

    abbrev pub answer_gone : Pipe
    answer_gone = record (c.net) { incoming = tail }

    received :
        (if c.cross_ending
          then parse_recieved host (sent_header host cross answer)
          else sent_header host cross answer)
        ≡ answer
    received = rw conversion (parse_sent_header host cross answer answer-IsHeader)

    front :
        c.net.incoming
        ≡ header_bytes host.endian (sent_header host cross answer) ++ (answer_body ++ tail)
    front =
        sent
        ∙ ap (λ f. f ++ tail) response_bytes-eq
        ∙ append_assoc (header_bytes host.endian (sent_header host cross answer)) answer_body tail

    read_body : pipe_read (result_size result + 1) header_gone ≡ (answer_gone, read answer_body)
    read_body =
        subst (λ n. pipe_read n header_gone ≡ (answer_gone, read answer_body))
          (sized (length (result_data result)) (result_size result) (length-result_data result))
          (pipe_read-append answer_body tail header_gone refl)
      where
        sized : (m n : ℕ) → m ≡ n → suc m ≡ n + 1
        sized m n e = omega arith

    -- The frame is taken off the pipe, and the client goes on with what its data unpack to.
    pub response_received :
        IsErrc result.ec
        → wait_response host pipe_transport (some u) c
          ≡ after_unpack host pipe_transport
              (some u)
              answer
              result.ec
              (record c { net = answer_gone; body = answer_body })
              (u (result_data result))
    response_received named =
        unpacked host pipe_transport u c header_gone
          (header_bytes host.endian (sent_header host cross answer)) (sent_header host cross answer)
          (read_header host cross answer answer-IsHeader c.net (answer_body ++ tail) front)
          (header_parsed host cross answer answer-IsHeader)
          (sent_magic host cross answer answer-IsHeader) answer_gone (errc_value result.ec)
          (result_data result) (rw received (omega arith)) (rw received (omega arith))
          (rw received read_body)
        ∙ ap₂
            (λ h ec.
              after_unpack host pipe_transport (some u) h ec
                (record c { net = answer_gone; body = answer_body }) (u (result_data result)))
            received (errc_of_value-errc_value result.ec named)
