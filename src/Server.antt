-- ===== src/Server.antt =====
-- include/rest_rpc/rpc_server.hpp: the class `rpc_server`, with its connections.
-- A connection that the map `conns_` has lost goes on until its coroutine ends, so the model keeps
-- every connection that was accepted, in `made`, and of `conns_` the ids. What one thread dispatches
-- to another's executor runs at once: an interleaving is a sequence of the steps of this file.
pub mod Members
pub mod Table
pub mod Serving
pub mod Starting
pub mod Constructing
mod Examples
use rest_rpc.Base.{
  ℕ, ◌+◌, ◌-◌, ◌%◌, ◌^◌, Bool, true, false, not, ◌==◌, ltb, if◌then◌else◌, ◌&&◌, List, [], ◌∷◌,
  Option, none, some, length,
}
use rest_rpc.Base.Words.{u64}
use rest_rpc.Base.Map.{Map, find, assign, update, update_all}
use rest_rpc.Protocol.{Host}
use rest_rpc.Router.{Text, RpcResult, RpcRouter, key_of}
use rest_rpc.Transport.{Transport}
use rest_rpc.IoContextPool.{IoContextPool, get_io_context}
use rest_rpc.IoContextPool
use rest_rpc.Connection.{
  RpcConnection, Session, Next, again, ended, escaped, close, response, rpc_connection,
  set_check_timeout, set_quit_callback,
}
use rest_rpc.Server.Members.{member, remove}

-- How `async_accept` ends: with `operation_aborted` or `bad_descriptor`, or in any other way, with
-- a socket and whether `set_option` works on it.
pub data Accepted (Net : Type 0) : Type 0 where
  stopped : Accepted Net
  arrived : Net → Bool → Accepted Net

module _ (host : Host) (t : Transport) (App : Type 0) where
  open t use {Net, now}

  pub record RpcServer : Type 0 where
    pub io_context_pool : IoContextPool
    -- Whether the acceptor is open, and the endpoint that it is bound to, by its number.
    pub acceptor_open : Bool
    pub bound : Option ℕ
    pub has_stop : Bool
    pub start_flag : Bool
    pub conns : List ℕ
    pub made : Map (Session host t App)
    -- `conn_id` of `accept`.
    pub conn_id : ℕ
    pub check_duration : ℕ
    pub timeout_duration : ℕ
    pub stop_timer : Bool
    pub need_check : Bool
    pub tcp_no_delay : Bool
    pub cross_ending : Bool
    pub router : RpcRouter (Session host t App)
    pub host_name : Text
    pub port : Text

  -- A new `rpc_connection`, with what its handlers find.
  unfoldable pub new_connection : RpcServer → Net → App → Session host t App
  new_connection s net app =
      let conn = rpc_connection host t App net s.conn_id s.cross_ending app in
      set_quit_callback host t App
        (if s.need_check then set_check_timeout host t App true conn else conn)

  -- One pass of the loop in `accept`.
  unfoldable pub accept_pass : Accepted Net → App → RpcServer → RpcServer × Next
  accept_pass stopped app s =
      (record s { io_context_pool = (get_io_context s.io_context_pool).0 }, ended)
  accept_pass (arrived net option_set) app s =
      let s' = record s { io_context_pool = (get_io_context s.io_context_pool).0 } in
      if s.tcp_no_delay && not option_set then (s', escaped) else (
        record s' {
          made = assign s.conn_id (new_connection s net app) s.made;
          conns = if member s.conn_id s.conns then s.conns else s.conn_id ∷ s.conns;
          conn_id = u64 (s.conn_id + 1);
        },
        again,
      )

  -- The quit callback that `accept` sets.
  unfoldable pub quit_callback : ℕ → RpcServer → RpcServer
  quit_callback id s = record s {
    made = if member id s.conns then update id (close host t App false) s.made else s.made;
    conns = remove id s.conns;
  }

  unfoldable pub stop : RpcServer → RpcServer
  stop s = if s.has_stop then s else record s {
    has_stop = true;
    acceptor_open = false;
    bound = none;
    stop_timer = true;
    made = update_all s.conns (close host t App false) s.made;
    conns = [];
    io_context_pool = IoContextPool.stop s.io_context_pool;
  }

  -- The destructor.
  abbrev pub destroyed : RpcServer → RpcServer
  destroyed s = stop s

  abbrev pub get_connections : RpcServer → List ℕ
  get_connections s = s.conns

  unfoldable pub connection_count : RpcServer → ℕ
  connection_count s = length s.conns

  -- What `publish` does with one connection, for a packed value.
  unfoldable pub publish_to : ℕ → RpcResult → Session host t App → Session host t App
  publish_to id packed c =
      if c.connection.topic_id == id then (response host t App packed id c).0 else c

  unfoldable pub publish : Text → RpcResult → RpcServer → RpcServer
  publish topic packed s = record s {
    made = update_all (get_connections s) (publish_to (key_of topic) packed) s.made;
  }

  -- `sync_publish`, which waits for `publish`.
  abbrev pub sync_publish : Text → RpcResult → RpcServer → RpcServer
  sync_publish topic packed s = publish topic packed s

  -- Whether a connection has been idle for longer than the limit at `cur_time`.
  unfoldable pub is_idle : ℕ → ℕ → Option (Session host t App) → Bool
  is_idle limit cur_time none = false
  is_idle limit cur_time (some c) = ltb limit (cur_time - c.connection.last_rwtime)

  -- The loop of `check_timeout` over the ids that are left.
  unfoldable pub check_each :
      ℕ → ℕ → List ℕ → Map (Session host t App) → List ℕ × Map (Session host t App)
  check_each limit cur_time [] made = ([], made)
  check_each limit cur_time (id ∷ ids) made =
      let idle = is_idle limit cur_time (find id made) in
      let rest =
        check_each limit cur_time ids
          (if idle then update id (close host t App false) made else made) in
      (if idle then rest.0 else id ∷ rest.0, rest.1)

  unfoldable pub check_timeout : ℕ → RpcServer → RpcServer
  unfolding check_each
  check_timeout cur_time s =
      let checked = check_each s.timeout_duration cur_time s.conns s.made in
      record s { conns = checked.0; made = checked.1 }

  -- A pass of `start_check_timer`, with whether the wait ended with an error.
  unfoldable pub check_timer_pass : Bool → ℕ → RpcServer → RpcServer × Next
  check_timer_pass failed cur_time s =
      if failed
      then (s, ended)
      else (if s.stop_timer then (s, ended) else (check_timeout cur_time s, again))

  -- `set_conn_max_age`, with whether it starts a timer.
  unfoldable pub set_conn_max_age : ℕ → RpcServer → RpcServer × Bool
  set_conn_max_age dur s =
      if ltb 0 dur
      then (record s { need_check = true; timeout_duration = dur }, true)
      else (s, false)

  unfoldable pub set_check_conn_interval : ℕ → RpcServer → RpcServer
  set_check_conn_interval dur s = record s { check_duration = dur }

  unfoldable pub enable_tcp_no_delay : Bool → RpcServer → RpcServer
  enable_tcp_no_delay r s = record s { tcp_no_delay = r }

  unfoldable pub enable_cross_ending : Bool → RpcServer → RpcServer
  enable_cross_ending r s = record s { cross_ending = r }
