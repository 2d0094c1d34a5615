-- ===== src/Connection/Context.antt =====
-- `rpc_context` of include/rest_rpc/rpc_connection.hpp: answers that a handler sends later.
use mathlib.Core.Option
use rest_rpc.Base.{
  ℕ, ◌≡◌, refl, ◌∙◌, sym, ap, true, false, ◌==◌, if◌then◌else◌, Bool-cases, ==→eq, inl, inr, Option,
  none, some,
}
use rest_rpc.Base.Map.{Map, find, update, find-update}
use rest_rpc.ErrorCode.{make_error_code, has_response, rpc_context_init_failed}
use rest_rpc.Protocol.{Host}
use rest_rpc.Router.{RpcResult}
use rest_rpc.Transport.{Transport}
use rest_rpc.Connection.{
  Session, RpcContext, rpc_context, context_response, context_answer, connection_of, response,
}
use rest_rpc.Connection.Answers.{called}

module _ (host : Host) (t : Transport) (App : Type 0) where
  -- The first answer of a context, on the connection that it holds.
  pub context_response_first :
      (o : Option ℕ) (id : ℕ) (packed : RpcResult) (s : Session host t App)
      (conns : Map (Session host t App))
      → o ≡ some id
      → find id conns ≡ some s
      → context_response host t App (record { conn = o; responded = false }) packed conns ≡ (
        update id (λ old. (response host t App packed 0 s).0) conns,
        record { conn = o; responded = true },
        (response host t App packed 0 s).1,
      )
  unfolding context_response connection_of context_answer
  context_response_first o id packed s conns e found =
      let c : RpcContext = record { conn = o; responded = false } in
      ap (λ p. context_answer host t App c packed conns (connection_of host t App p conns)) e
      ∙ ap (λ q. context_answer host t App c packed conns (Option.map (λ r. (id, r)) q)) found

  pub find-update_to :
      (id k : ℕ) (s s' : Session host t App) (conns : Map (Session host t App))
      → find id conns ≡ some s
      → find k (update id (λ old. s') conns) ≡ (if id == k then some s' else find k conns)
  find-update_to id k s s' conns found =
      find-update id k (λ old. s') conns ∙ elim (Bool-cases (id == k)) [
        | inl e ↦
            rw e (ap (Option.map (λ old. s')) (ap (λ j. find j conns) (sym (==→eq id k e)) ∙ found))
        | inr e ↦ rw e refl
      ]

  -- A context that is made in a handler holds the connection whose request the thread was serving, and
  -- answers through that one, once: wherever that connection is by then, the first answer is written on
  -- it as its loop would have written it, every other connection stays as it is, and the next answer
  -- is refused with `has_response` and changes nothing. The handler has left the thread's connection
  -- alone.
  pub context_response_once :
      (serving s now : Session host t App) (conns : Map (Session host t App)) (k : ℕ)
      (first second : RpcResult)
      → s.tls ≡ (called host t App serving).tls
      → find serving.connection.conn_id conns ≡ some now
      → let id = serving.connection.conn_id in
        let made = rpc_context host t App s in
        let one = context_response host t App made.1 first conns in
        (made.0.tls.delay ≡ true)
        × (find k one.0
            ≡ (if id == k then some (response host t App first 0 now).0 else find k conns))
        × (one.2 ≡ (response host t App first 0 now).1)
        × (context_response host t App one.1 second one.0
            ≡ (one.0, one.1, make_error_code has_response))
  unfolding rpc_context
  context_response_once serving s now conns k first second same found =
      let id = serving.connection.conn_id in
      let told =
        context_response_first s.tls.conn id first now conns (ap (λ l. l.conn) same) found in
      (
        refl,
        ap (λ r. find k r.0) told ∙ find-update_to id k now _ conns found,
        ap (λ r. r.2) told,
        ap (λ r. context_response host t App r.1 second r.0) told
            ∙ unfold context_response in
              sym (ap (λ r. (r.0, r.1, make_error_code has_response)) told),
      )

  -- A context made on a thread that serves no connection answers nothing.
  pub context_response_no_connection :
      (s : Session host t App) (conns : Map (Session host t App)) (packed : RpcResult)
      → s.tls.conn ≡ none
      → let made = rpc_context host t App s in
        context_response host t App made.1 packed conns
        ≡ (conns, made.1, make_error_code rpc_context_init_failed)
  unfolding rpc_context context_response connection_of context_answer
  context_response_no_connection s conns packed e =
      ap
        (λ p.
          context_answer host t App (rpc_context host t App s).1 packed conns
            (connection_of host t App p conns))
        e
