-- ===== src/Server/Starting.antt =====
-- `listen` and `start_impl` of include/rest_rpc/rpc_server.hpp.
pub mod Waiting
use rest_rpc.Base.{
  ℕ, ◌≡◌, refl, sym, ap, subst, ◌∙◌, arith, Bool, true, false, not, if◌then◌else◌, Bool-cases, inl,
  inr, Option, none, some,
}
use rest_rpc.Router.{Text}
use rest_rpc.Protocol.{Host}
use rest_rpc.Transport.{Transport}
use rest_rpc.ErrorCode.{ErrorCode, is_error, generic}
use rest_rpc.IoContextPool
use rest_rpc.Server.{RpcServer}

-- What the system's calls of `listen` end with, in their order: the resolver's first endpoint, by a
-- number, or its error, and the errors of the others.
pub record ListenEnds : Type 0 where
  pub resolve : Text → Text → ℕ × ErrorCode
  pub open_ec : ErrorCode
  pub bind_ec : ErrorCode
  pub listen_ec : ErrorCode

-- `std::make_error_code(std::errc::operation_canceled)`, of the generic category.
abbrev pub operation_canceled : ErrorCode
operation_canceled = record { value = 125; category = generic }

module _ (host : Host) (t : Transport) (App : Type 0) where
  unfoldable pub listen : ListenEnds → RpcServer host t App → RpcServer host t App × ErrorCode
  listen ends s =
      let resolved = ends.resolve s.host_name s.port in
      if is_error resolved.1
      then (s, resolved.1)
      else if is_error ends.open_ec
      then (s, ends.open_ec)
      else if is_error ends.bind_ec
      then (record s { acceptor_open = false; bound = none }, ends.bind_ec)
      else if is_error ends.listen_ec
      then (record s { acceptor_open = false; bound = none }, ends.listen_ec)
      else (record s { acceptor_open = true; bound = some resolved.0 }, ends.listen_ec)

  unfoldable pub after_listen :
      Bool
      → (RpcServer host t App → RpcServer host t App)
      → RpcServer host t App × ErrorCode
      → RpcServer host t App × ErrorCode × ErrorCode
  after_listen async waited (s, ec) =
      let s' = record s { io_context_pool = (IoContextPool.run s.io_context_pool).0 } in
      if is_error ec then (s, ec, ec) else (if async then s' else waited s', ec, ec)

  -- The second component is the function's static `ec` after the call, and the third the code that
  -- is returned. The coroutine `accept` that is spawned makes passes of its own; where the start is
  -- not asynchronous, `future.wait()` returns when it has ended, and `waited` is what the server has
  -- become by then.
  unfoldable pub start_impl :
      Bool
      → ListenEnds
      → (RpcServer host t App → RpcServer host t App)
      → ErrorCode
      → RpcServer host t App
      → RpcServer host t App × ErrorCode × ErrorCode
  unfolding after_listen
  start_impl async ends waited ec s =
      if s.has_stop
      then (s, ec, operation_canceled)
      else if s.start_flag
      then (s, ec, ec)
      else after_listen async waited (listen ends (record s { start_flag = true }))

  pub listen-eq :
      (ends : ListenEnds) (s : RpcServer host t App)
      → s.acceptor_open ≡ false
      → s.bound ≡ none
      → let r = listen ends s in
        (r.0.acceptor_open ≡ not (is_error r.1))
        × (r.0.bound ≡ (if is_error r.1 then none else some (ends.resolve s.host_name s.port).0))
        × (r.0.has_stop ≡ s.has_stop)
        × (r.0.start_flag ≡ s.start_flag)
  unfolding listen
  listen-eq ends s h b = ground arith

  after_listen-cross_ending :
      (waited : RpcServer host t App → RpcServer host t App) (r : RpcServer host t App × ErrorCode)
      → (after_listen true waited r).0.cross_ending ≡ r.0.cross_ending
  unfolding after_listen
  after_listen-cross_ending waited (s, ec) = ground arith

  -- An asynchronous start leaves the conversion as it was set.
  pub start_impl-cross_ending :
      (ends : ListenEnds) (waited : RpcServer host t App → RpcServer host t App) (ec : ErrorCode)
      (s : RpcServer host t App)
      → (start_impl true ends waited ec s).0.cross_ending ≡ s.cross_ending
  unfolding start_impl listen
  start_impl-cross_ending ends waited ec s =
      ground
        (arith, after_listen-cross_ending waited (listen ends (record s { start_flag = true })))
