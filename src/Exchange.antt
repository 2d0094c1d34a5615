-- ===== src/Exchange.antt =====
-- A whole call over a pair of pipes: rpc_client.hpp's request, rpc_connection.hpp's pass of the
-- loop on it, and rpc_client.hpp's wait for the response, of include/rest_rpc.
pub mod Frames
pub mod Calling
pub mod Delayed
pub mod Pipelining
pub mod Remote
pub mod Telling
pub mod Delivery
pub mod Publishing
pub mod Hearing
pub mod Completing
pub mod Whole
pub mod Arguments
mod Examples
mod Published
mod Sum
mod Failed
mod Later
mod Pipelined
mod Delivered
use mathlib.Core.List.{append_assoc, append-nil}
use rest_rpc.Base.{
  ℕ, zero, suc, ◌+◌, ◌%◌, ◌^◌, ◌≤◌, ◌<◌, ◌≡◌, refl, sym, ◌∙◌, ap, subst, ◌≢◌, arith, Bool, true,
  false, ◌==◌, ◌&&◌, if◌then◌else◌, List, [], ◌∷◌, ◌++◌, Option, none, some, length, length-append,
}
use rest_rpc.Base.Words.{u64}
use rest_rpc.ErrorCode.{RpcErrc, errc_value, errc_of_value, success, is_error, asio_misc}
use rest_rpc.ErrorCode.Laws.{IsErrc, errc_of_value-errc_value}
use rest_rpc.Protocol.{
  Host, RestRpcHeader, IsHeader, rest_magic_num, empty_header, header_size, header_bytes,
  header_of_bytes, prepare_for_send, parse_recieved,
}
use rest_rpc.Protocol.Wire.{length-header_bytes, header_of_bytes-header_bytes}
use rest_rpc.Router.{
  Text, RpcResult, result_empty, result_size, result_data, RpcRouter, route, is_empty,
}
use rest_rpc.Transport.{read}
use rest_rpc.Transport.Pipe.{
  Pipe, pipe_transport, pipe_read, pipe_write, pipe_read-append, pipe_write_open,
}
use rest_rpc.Connection.{
  Session, Next, again, set_last_time, response_header, response_bytes, start_pass, start_route,
}
use rest_rpc.Connection.Loop.{
  sent_header, sent_header-IsHeader, parse_sent_header, headed, bodied, set_last_time-eq,
}
use rest_rpc.Connection.Requests.{start_pass_body}
use rest_rpc.Connection.Answers.{called, start_route_answered}
use rest_rpc.Client.{
  Unpacked, value, CallEnd, returned, RpcClient, request_header, request_bytes, call_impl,
}
use rest_rpc.Client.Replies.{call_impl_written, wait_response_value}

-- The part of a response after its header.
abbrev pub payload : RpcResult → List ℕ
payload result = errc_value result.ec ∷ (if result_empty result then [] else result_data result)

pub payload-data : (r : RpcResult) → payload r ≡ errc_value r.ec ∷ result_data r
unfolding result_empty result_data
payload-data r = go r.result r.view
  where
    go :
        (a b : Text)
        → ◌≡◌ {A = List ℕ}
            (errc_value r.ec
              ∷ (if is_empty a && is_empty b then [] else (if is_empty a then b else a)))
            (errc_value r.ec ∷ (if is_empty a then b else a))
    go [] [] = refl
    go [] (y ∷ ys) = refl
    go (x ∷ xs) b = refl

pub length-result_data : (r : RpcResult) → length (result_data r) ≡ result_size r
unfolding result_data result_size
length-result_data r = ground arith

module _ (host : Host) (cross : Bool) (h : RestRpcHeader) (fits : IsHeader h) where
  -- The bytes of a header come off the front of a pipe, and make up the header that was sent.
  pub read_header :
      (p : Pipe) (tail : List ℕ)
      → p.incoming ≡ header_bytes host.endian (sent_header host cross h) ++ tail
      → pipe_read header_size p
        ≡ (record p { incoming = tail }, read (header_bytes host.endian (sent_header host cross h)))
  read_header p tail e =
      subst
        (λ n. pipe_read n p ≡ (
          record p { incoming = tail },
          read (header_bytes host.endian (sent_header host cross h)),
        ))
        (length-header_bytes host.endian (sent_header host cross h))
        (pipe_read-append (header_bytes host.endian (sent_header host cross h)) tail p e)

  pub header_parsed :
      header_of_bytes host.endian (header_bytes host.endian (sent_header host cross h))
      ≡ some (sent_header host cross h)
  header_parsed = rw append-nil at (
      header_of_bytes-header_bytes host.endian (sent_header host cross h) []
        (sent_header-IsHeader host cross h fits))

  pub sent_magic : (sent_header host cross h).magic ≡ h.magic
  unfolding prepare_for_send
  sent_magic = ground arith

-- A call with arguments of the function with the key `key`.
module _ (host : Host) (cross : Bool) (key : ℕ) (buf : Text) (key_fits : key < 2 ^ 32)
    (pos : 0 < length buf) (short : length buf < 0x7fffffff) where
  abbrev pub asked : RestRpcHeader
  asked = record empty_header { function_id = key }

  abbrev pub request : RestRpcHeader
  request = record empty_header { function_id = key; body_len = length buf }

  abbrev pub request_frame : List ℕ
  request_frame = request_bytes host pipe_transport cross asked (some buf)

  request-IsHeader : IsHeader request
  request-IsHeader = omega arith

  request_frame-eq :
      request_frame ≡ header_bytes host.endian (sent_header host cross request) ++ buf
  unfolding request_bytes
  request_frame-eq =
      let fits : u64 (length buf) ≡ length buf = omega arith in
      ap
        (λ n.
          header_bytes host.endian (sent_header host cross (record asked { body_len = n })) ++ buf)
        fits

  module _ (App : Type 0) (router : RpcRouter (Session host pipe_transport App))
      (s s' : Session host pipe_transport App) (result : RpcResult) (rest : List ℕ)
      (conversion : s.connection.cross_ending ≡ cross)
      (sent : s.net.incoming ≡ request_frame ++ rest) where
    abbrev header_gone : Pipe
    header_gone = record (s.net) { incoming = buf ++ rest }

    abbrev pub request_gone : Pipe
    request_gone = record (s.net) { incoming = rest }

    abbrev delivered : Session host pipe_transport App
    delivered =
        bodied host pipe_transport App (headed host pipe_transport App s header_gone) request_gone
          buf

    -- What the passes of the loop up to the route keep of a session.
    pub delivered-eq :
        (delivered.connection.cross_ending ≡ cross)
        × (delivered.tls.delay ≡ s.tls.delay)
        × (delivered.app ≡ s.app)
    delivered-eq =
        let first = set_last_time-eq host pipe_transport App s in
        let second =
          set_last_time-eq host pipe_transport App (headed host pipe_transport App s header_gone) in
        (
          second.1 ∙ first.1 ∙ conversion,
          ap (λ t. t.delay) (second.5 ∙ first.5),
          second.6 ∙ first.6,
        )

    received_header :
        (if s.connection.cross_ending
          then parse_recieved host (sent_header host cross request)
          else sent_header host cross request)
        ≡ request
    received_header = rw conversion (parse_sent_header host cross request request-IsHeader)

    pub request_pass :
        start_pass host pipe_transport App router s
        ≡ start_route host pipe_transport App router request delivered
    request_pass =
        start_pass_body host pipe_transport App router s header_gone
          (header_bytes host.endian (sent_header host cross request))
          (sent_header host cross request)
          (read_header host cross request request-IsHeader s.net (buf ++ rest) front)
          (header_parsed host cross request request-IsHeader)
          (sent_magic host cross request request-IsHeader) (rw received_header (omega arith))
          (rw received_header pos) (rw received_header (omega arith)) request_gone buf
          (rw received_header (pipe_read-append buf rest header_gone refl))
        ∙ ap (λ h. start_route host pipe_transport App router h delivered) received_header
      where
        front :
            s.net.incoming
            ≡ header_bytes host.endian (sent_header host cross request) ++ (buf ++ rest)
        front =
            sent
            ∙ ap (λ f. f ++ rest) request_frame-eq
            ∙ append_assoc (header_bytes host.endian (sent_header host cross request)) buf rest

    -- The server reads the request, runs the function of its key once on the arguments' bytes, and
    -- appends one response frame, with the code and data of the function's result, to what it has
    -- sent. This holds if the connection is open and both ends agree on conversion, and if the
    -- function leaves the network and the conversion alone and answers at once.
    pub server_answers :
        route router key buf (called host pipe_transport App delivered) ≡ (s', result)
        → s'.tls.delay ≡ false
        → s'.connection.cross_ending ≡ cross
        → s'.net ≡ request_gone
        → s.net.is_open ≡ true
        → start_pass host pipe_transport App router s ≡ (
          record (set_last_time host pipe_transport App s') {
            net = record request_gone {
              outgoing = s.net.outgoing ++ response_bytes host pipe_transport App cross result 0;
            };
          },
          again,
        )
    server_answers routed prompt kept alone is_open =
        request_pass
        ∙ start_route_answered host pipe_transport App router request delivered s' result routed
            (record request_gone {
              outgoing = s.net.outgoing ++ response_bytes host pipe_transport App cross result 0;
            })
            success prompt
            (rw (alone, kept)
              (pipe_write_open (response_bytes host pipe_transport App cross result 0) request_gone
                is_open))
            refl
