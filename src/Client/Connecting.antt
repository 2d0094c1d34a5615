-- ===== src/Client/Connecting.antt =====
-- `connect`, `reset` and `close` of include/rest_rpc/rpc_client.hpp.
use rest_rpc.Base.{
  ◌≡◌, ◌<◌, refl, ap, [], ◌∷◌, ◌++◌, Option, none, some, length, sym, ◌∙◌, arith, Bool, true, false,
  if◌then◌else◌, Bool-cases, inl, inr,
}
use rest_rpc.Base.Text.{codes}
use rest_rpc.Base.Views.{npos, first_at}
use rest_rpc.Base.Endpoint.{endpoint_of, endpoint_of-append}
use rest_rpc.Protocol.{Host}
use rest_rpc.Router.{Text}
use rest_rpc.Transport.{Transport}
use rest_rpc.ErrorCode.{
  ErrorCode, resolve_timeout, connection_timeout, errc_value, make_error_code, is_error, success,
}
use rest_rpc.Client.{RpcClient, shut}

-- How an operation that runs beside a watchdog ends: the timer was first, or the operation with a
-- code and the state of the network.
pub data Timed (Net : Type 0) : Type 0 where
  timed_out : Timed Net
  finished : Net → ErrorCode → Timed Net

module _ (host : Host) (t : Transport) where
  open t use {Net}

  -- `reset`, where `opened` is a new socket, which the code opens.
  unfoldable pub reset : Net → RpcClient host t → RpcClient host t
  reset opened c =
      if c.has_closed then record c { net = opened } else record (shut host t c) { net = opened }

  unfoldable pub close : RpcClient host t → RpcClient host t
  close c = if c.has_closed then c else shut host t c

  unfoldable pub after_connect : RpcClient host t → Timed Net → RpcClient host t × ErrorCode
  after_connect c timed_out = (shut host t c, make_error_code connection_timeout)
  after_connect c (finished net' ec) =
      if is_error ec
      then (record c { net = net' }, ec)
      else (record c { net = net'; has_closed = false }, success)

  unfoldable pub after_resolve :
      RpcClient host t → Timed Net → Timed Net → RpcClient host t × ErrorCode
  unfolding after_connect
  after_resolve c timed_out connected = (shut host t c, make_error_code resolve_timeout)
  after_resolve c (finished net' ec) connected =
      let c' = record c { net = net' } in
      if is_error ec then (c', ec) else after_connect c' connected

  -- `connect` to a host and a port.
  unfoldable pub connect :
      Net → Timed Net → Timed Net → RpcClient host t → RpcClient host t × ErrorCode
  unfolding after_resolve
  connect opened resolved connected c =
      let c' = if c.should_reset then reset opened c else record c { should_reset = true } in
      after_resolve c' resolved connected

  connect_to :
      (Text → Text → Timed Net)
      → Net
      → Timed Net
      → RpcClient host t
      → Option (Text × Text)
      → Option (RpcClient host t × ErrorCode)
  connect_to resolve opened connected c none = none
  connect_to resolve opened connected c (some (host_name, port)) =
      some (connect opened (resolve host_name port) connected c)

  -- `connect` to an address, whose host and port the resolver gets; a `none` is an exception.
  unfoldable pub connect_at :
      Text
      → (Text → Text → Timed Net)
      → Net
      → Timed Net
      → RpcClient host t
      → Option (RpcClient host t × ErrorCode)
  unfolding connect_to
  connect_at address resolve opened connected c =
      connect_to resolve opened connected c (endpoint_of address)

  -- The constructor of `rpc_client`, with a socket that is not open.
  abbrev pub rpc_client : Net → RpcClient host t
  rpc_client net = record {
    net = net;
    has_closed = true;
    body = [];
    sub_ops = [];
    completions = [];
    cross_ending = false;
    tcp_no_delay = true;
    should_reset = false;
  }

  unfoldable pub enable_tcp_no_delay : Bool → RpcClient host t → RpcClient host t
  enable_tcp_no_delay r c = record c { tcp_no_delay = r }

  unfoldable pub enable_cross_ending : Bool → RpcClient host t → RpcClient host t
  enable_cross_ending r c = record c { cross_ending = r }

  after_connect-has_closed :
      (c : RpcClient host t) (connected : Timed Net)
      → c.has_closed ≡ true
      → let r = after_connect c connected in r.0.has_closed ≡ is_error r.1
  unfolding after_connect shut make_error_code errc_value
  after_connect-has_closed c timed_out h = refl
  after_connect-has_closed c (finished net' ec) h = elim (Bool-cases (is_error ec)) [
    | inl e ↦ rw (e, h) (sym e)
    | inr e ↦ rw e refl
  ]

  after_resolve-has_closed :
      (c : RpcClient host t) (resolved connected : Timed Net)
      → c.has_closed ≡ true
      → let r = after_resolve c resolved connected in r.0.has_closed ≡ is_error r.1
  unfolding after_resolve shut make_error_code errc_value
  after_resolve-has_closed c timed_out connected h = refl
  after_resolve-has_closed c (finished net' ec) connected h = elim (Bool-cases (is_error ec)) [
    | inl e ↦ rw e (h ∙ sym e)
    | inr e ↦ rw e (after_connect-has_closed (record c { net = net' }) connected h)
  ]

  reset-has_closed : (opened : Net) (c : RpcClient host t) → (reset opened c).has_closed ≡ true
  unfolding reset shut
  reset-has_closed opened c = ground arith

  -- After `connect` the client is open exactly if no error is returned, whichever of the resolver,
  -- the connection and their timers ended first. This holds if a client that has not been used
  -- before is closed.
  pub connect-has_closed :
      (opened : Net) (resolved connected : Timed Net) (c : RpcClient host t)
      → (c.should_reset ≡ false → c.has_closed ≡ true)
      → let r = connect opened resolved connected c in r.0.has_closed ≡ is_error r.1
  unfolding connect
  connect-has_closed opened resolved connected c h =
      after_resolve-has_closed _ resolved connected (ground (arith, h, reset-has_closed opened c))

  -- `connect` to an address asks the resolver for the part before the first colon and the part after
  -- it, and afterwards the client is open exactly if no error is returned, whichever of the resolver,
  -- the connection and their timers ended first. This holds if a client that has not been used
  -- before is closed.
  pub connect_at-has_closed :
      (host_name port : Text) (resolve : Text → Text → Timed Net) (opened : Net)
      (connected : Timed Net) (c : RpcClient host t)
      → first_at (codes ":") host_name ≡ none
      → length (host_name ++ (58 ∷ port)) < npos
      → (c.should_reset ≡ false → c.has_closed ≡ true)
      → let r = connect opened (resolve host_name port) connected c in
        (connect_at (host_name ++ (58 ∷ port)) resolve opened connected c ≡ some r)
        × (r.0.has_closed ≡ is_error r.1)
  unfolding connect_at
  connect_at-has_closed host_name port resolve opened connected c plain fits h = (
    ap (connect_to resolve opened connected c) (endpoint_of-append host_name port plain fits),
    connect-has_closed opened (resolve host_name port) connected c h,
  )
