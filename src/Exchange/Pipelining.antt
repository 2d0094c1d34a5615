-- ===== src/Exchange/Pipelining.antt =====
-- Several requests in a row on one connection of include/rest_rpc/rpc_connection.hpp: the loop answers
-- them one after the other.
use mathlib.Core.List.{append_assoc, append-nil}
use rest_rpc.Base.{
  ℕ, ◌^◌, ◌<◌, ◌≡◌, refl, ◌∙◌, ap, sym, Bool, true, false, List, [], ◌∷◌, ◌++◌, length, All, some,
}
use rest_rpc.Protocol.{Host, empty_header}
use rest_rpc.Client.{request_bytes}
use rest_rpc.Router.{Text, RpcResult, RpcRouter, route}
use rest_rpc.Transport.Pipe.{pipe_transport}
use rest_rpc.Connection.{Session, response_bytes, start_pass, start, again, set_last_time}
use rest_rpc.Connection.Loop.{set_last_time-eq, start_again}
use rest_rpc.Connection.Answers.{called}
use rest_rpc.Exchange.{delivered, delivered-eq, server_answers}

module _ (host : Host) (cross : Bool) (App : Type 0)
    (router : RpcRouter (Session host pipe_transport App)) where
  -- A request: the key of its function, the packed arguments, and the function's result.
  pub record Request : Type 0 where
    pub key : ℕ
    pub buf : Text
    pub result : RpcResult

  -- The request is answered with this result, and the session is left alone; the lengths fit.
  pub record IsAnswered (q : Request) : Type 0 where
    pub key_fits : q.key < 2 ^ 32
    pub pos : 0 < length q.buf
    pub short : length q.buf < 0x7fffffff
    pub answers : (x : Session host pipe_transport App) → route router q.key q.buf x ≡ (x, q.result)

  abbrev pub frame_of : Request → List ℕ
  frame_of q =
      request_bytes host pipe_transport cross (record empty_header { function_id = q.key })
        (some q.buf)

  abbrev pub answer_of : Request → List ℕ
  answer_of q = response_bytes host pipe_transport App cross q.result 0

  -- The bytes of several requests, and of the answers to them, in their order.
  abbrev pub frames_of : List Request → List ℕ
  frames_of [] = []
  frames_of (q ∷ qs) = frame_of q ++ frames_of qs

  abbrev pub answers_of : List Request → List ℕ
  answers_of [] = []
  answers_of (q ∷ qs) = answer_of q ++ answers_of qs

  -- A session that is between two requests.
  abbrev pub IsReady : Session host pipe_transport App → List ℕ → Type 0
  IsReady s bytes =
      (s.connection.cross_ending ≡ cross)
      × (s.net.incoming ≡ bytes)
      × (s.net.is_open ≡ true)
      × (s.tls.delay ≡ false)

  module _ (q : Request) (a : IsAnswered q) (s : Session host pipe_transport App) (rest : List ℕ)
      (ready : IsReady s (frame_of q ++ rest)) where
    abbrev taken : Session host pipe_transport App
    taken = called host pipe_transport App (
        delivered host cross q.key q.buf a.key_fits a.pos a.short App router s s q.result rest
          ready.0 ready.1)

    abbrev answered : Session host pipe_transport App
    answered = record (set_last_time host pipe_transport App taken) {
      net = record (s.net) { incoming = rest; outgoing = s.net.outgoing ++ answer_of q };
    }

    taken-eq : (taken.connection.cross_ending ≡ cross) × (taken.tls.delay ≡ false)
    taken-eq =
        let kept =
          delivered-eq host cross q.key q.buf a.key_fits a.pos a.short App router s s q.result rest
            ready.0 ready.1 in
        (kept.0, kept.1 ∙ ready.3)

    one_answer : start_pass host pipe_transport App router s ≡ (answered, again)
    one_answer =
        server_answers host cross q.key q.buf a.key_fits a.pos a.short App router s taken q.result
          rest ready.0 ready.1 (a.answers taken) taken-eq.1 taken-eq.0 refl ready.2

    answered-IsReady : IsReady answered rest
    answered-IsReady = (
      (set_last_time-eq host pipe_transport App taken).1 ∙ taken-eq.0,
      refl,
      ready.2,
      ap (λ t. t.delay) (set_last_time-eq host pipe_transport App taken).5 ∙ taken-eq.1,
    )

  -- Where the frames of several requests, of functions that leave the session alone, come in one after
  -- the other on an open connection, as many passes of the loop answer all of them, in their order:
  -- the answers' frames are appended to what has been sent, the bytes after the requests are left,
  -- and the loop goes on. Both ends agree on conversion, no answer is put off, and the lengths fit.
  pub start-answers_of :
      (qs : List Request) (s : Session host pipe_transport App) (rest : List ℕ)
      → All IsAnswered qs
      → IsReady s (frames_of qs ++ rest)
      → let r = start host pipe_transport App (length qs) router s in
        (r.1 ≡ again)
        × (r.0.net ≡ record (s.net) { incoming = rest; outgoing = s.net.outgoing ++ answers_of qs })
  unfolding start
  start-answers_of [] s rest known ready = (
    refl,
    ap (λ bytes. record (s.net) { incoming = bytes }) ready.1
        ∙ ap (λ bytes. record (s.net) { incoming = rest; outgoing = bytes })
            (sym (append-nil s.net.outgoing)),
  )
  start-answers_of (q ∷ qs) s rest known ready =
      let front = ready.1 ∙ append_assoc (frame_of q) (frames_of qs) rest in
      let now : IsReady s (frame_of q ++ (frames_of qs ++ rest)) =
        (ready.0, front, ready.2, ready.3) in
      let s' = answered q known.0 s (frames_of qs ++ rest) now in
      let others =
        start-answers_of qs s' rest known.1
          (answered-IsReady q known.0 s (frames_of qs ++ rest) now) in
      rw
        (start_again host pipe_transport App router (length qs) s s'
          (one_answer q known.0 s (frames_of qs ++ rest) now))
        (
          others.0,
          others.1
              ∙ ap (λ bytes. record (s.net) { incoming = rest; outgoing = bytes })
                  (append_assoc s.net.outgoing (answer_of q) (answers_of qs)),
        )
