-- ===== src/Server/Constructing.antt =====
-- The constructors of include/rest_rpc/rpc_server.hpp, and the registration of functions through it.
use mathlib.Core.Option
use rest_rpc.Base.{
  ℕ, not, if◌then◌else◌, ◌<◌, ◌≡◌, refl, ap, sym, subst, some-injective, ◌∙◌, arith, true, false,
  [], ◌∷◌, ◌++◌, Option, none, some, length,
}
use rest_rpc.Base.Text.{codes}
use rest_rpc.Base.Map.{contains}
use rest_rpc.Base.Views.{npos, first_at}
use rest_rpc.Base.Endpoint.{endpoint_of, endpoint_of-append}
use rest_rpc.Protocol.{Host}
use rest_rpc.Router.{Text, Invoker, Result, done, invalid_argument, RpcRouter, empty_router}
use rest_rpc.Router
use rest_rpc.Transport.{Transport}
use rest_rpc.IoContextPool.{io_context_pool, get_io_context}
use rest_rpc.Connection.{Session}
use rest_rpc.Server.{RpcServer}
use rest_rpc.Server.Members.{no_repeats, member}
use rest_rpc.ErrorCode.{is_error}
use rest_rpc.Server.Starting.{ListenEnds, listen, listen-eq}
use rest_rpc.Server.Serving.{IsServer, Run, Run-fresh}

module _ (host : Host) (t : Transport) (App : Type 0) where
  -- `rpc_server(host, port, num_thread)`: the acceptor and the timer take one context each. The
  -- durations are in seconds.
  unfoldable pub rpc_server : Text → Text → ℕ → RpcServer host t App
  rpc_server host_name port num_thread = record {
    io_context_pool = (get_io_context (get_io_context (io_context_pool num_thread)).0).0;
    acceptor_open = false;
    bound = none;
    has_stop = false;
    start_flag = false;
    conns = [];
    made = [];
    conn_id = 0;
    check_duration = 12;
    timeout_duration = 10;
    stop_timer = false;
    need_check = false;
    tcp_no_delay = true;
    cross_ending = false;
    router = empty_router;
    host_name = host_name;
    port = port;
  }

  -- `rpc_server(address, num_thread)`; a `none` is an exception.
  unfoldable pub rpc_server_at : Text → ℕ → Option (RpcServer host t App)
  rpc_server_at address num_thread =
      Option.map (λ e. rpc_server e.0 e.1 num_thread) (endpoint_of address)

  with_router :
      RpcServer host t App → Result (RpcRouter (Session host t App)) → Result (RpcServer host t App)
  with_router s (done router) = done (record s { router = router })
  with_router s (invalid_argument what) = invalid_argument what

  unfoldable pub register_handler :
      Text → Invoker (Session host t App) → RpcServer host t App → Result (RpcServer host t App)
  unfolding with_router
  register_handler name f s = with_router s (Router.register_handler name f s.router)

  unfoldable pub remove_handler : Text → RpcServer host t App → RpcServer host t App
  remove_handler name s = record s { router = Router.remove_handler name s.router }

  rpc_server-IsServer :
      (host_name port : Text) (num_thread : ℕ)
      → IsServer host t App (rpc_server host_name port num_thread)
  unfolding rpc_server no_repeats member contains
  rpc_server-IsServer host_name port num_thread = record {
    once = refl;
    known = λ k h. ground arith;
    before = λ k h. ground arith;
  }

  -- A server made for the address of a host and a port, when it starts to listen, asks the resolver for
  -- that host and port, and is bound to the endpoint that it gives, with the acceptor open, exactly if
  -- there is no error; and after any run of its steps no id is served twice, each id that is served is
  -- an accepted connection's, all ids are below the counter, and the next id is that of no connection
  -- accepted before.
  pub rpc_server_at-fresh :
      (ends : ListenEnds) (host_name port : Text) (num_thread : ℕ) (s s' : RpcServer host t App)
      → first_at (codes ":") host_name ≡ none
      → length (host_name ++ (58 ∷ port)) < npos
      → rpc_server_at (host_name ++ (58 ∷ port)) num_thread ≡ some s
      → Run host t App s s'
      → let listening = listen host t App ends s in
        (listening.0.bound
          ≡ (if is_error listening.1 then none else some (ends.resolve host_name port).0))
        × (listening.0.acceptor_open ≡ not (is_error listening.1))
        × IsServer host t App s'
        × (contains s'.conn_id s'.made ≡ false)
        × (member s'.conn_id s'.conns ≡ false)
  unfolding rpc_server_at rpc_server
  rpc_server_at-fresh ends host_name port num_thread s s' plain fits made run =
      let same : rpc_server host_name port num_thread ≡ s = some-injective (
        sym (
          ap (Option.map (λ e. rpc_server e.0 e.1 num_thread))
            (endpoint_of-append host_name port plain fits))
        ∙ made) in
      let fresh =
        Run-fresh host t App s s' run
          (subst (IsServer host t App) same (rpc_server-IsServer host_name port num_thread)) in
      let told =
        subst
          (λ q.
            let r = listen host t App ends q in
            (r.0.acceptor_open ≡ not (is_error r.1))
            × (r.0.bound ≡ (if is_error r.1 then none else some (ends.resolve host_name port).0)))
          same
          (let eq = listen-eq host t App ends (rpc_server host_name port num_thread) refl refl in
            (eq.0, eq.1)) in
      (told.1, told.0, fresh.0, fresh.1, fresh.2)
