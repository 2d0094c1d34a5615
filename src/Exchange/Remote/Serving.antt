-- ===== src/Exchange/Remote/Serving.antt =====
-- Functions of the application's state on the router of include/rest_rpc/rpc_router.hpp: what their
-- registration gives to the calls of them, and what later registrations leave of that.
use rest_rpc.Base.Map.{find, find-assign}
use rest_rpc.Router.Registry.{register_handler-eq_done}
use rest_rpc.Base.{sym, ==_refl, ne→==_false, ◌≡◌, ◌≢◌, ◌∙◌, ap, Bool, List, some, map}
use rest_rpc.Protocol.{Host}
use rest_rpc.Router.{
  Text, RpcRouter, Invoker, default_result, done, register_handler, key_of, route, finish_route,
}
use rest_rpc.Router.Handlers.{Function, gave, invoker, finish_handler}
use rest_rpc.Router.Routing.{route_found}
use rest_rpc.Codec.{Datum, kind_of, Packer, packed_bytes}
use rest_rpc.Transport.Pipe.{pipe_transport}
use rest_rpc.Connection.{Session}
use rest_rpc.Client.Arguments.{get_buffer}
use rest_rpc.Exchange.Arguments.{AreSendable, invoker-get_buffer}
use rest_rpc.Exchange.Whole.{result_of}

module _ (host : Host) (App : Type 0) (p : Packer) where
  -- A function that is registered, on the application's state of the session that calls it.
  abbrev pub on_session :
      (List (Datum p.Object) → App → Datum p.Object × App)
      → Function p (Session host pipe_transport App)
  on_session f ds x = (record x { app = (f ds x.app).1 }, gave (some (f ds x.app).0))

  -- The router has, under the name's key, the invoker of `f` for parameters of the arguments' types, and
  -- the arguments can be sent: a single one that is a number is in range and no lvalue of an integer type.
  abbrev pub IsRegistered :
      RpcRouter (Session host pipe_transport App)
      → Text
      → Bool
      → List (Datum p.Object)
      → (List (Datum p.Object) → App → Datum p.Object × App)
      → Type 0
  IsRegistered router name is_lvalue ds f =
      AreSendable is_lvalue ds
      × (find (key_of name) router.map_invokers ≡ some (invoker p (map kind_of ds) (on_session f)))

  -- A request with the packed arguments runs the function on the arguments.
  pub route-IsRegistered :
      (router : RpcRouter (Session host pipe_transport App)) (name : Text) (is_lvalue : Bool)
      (ds : List (Datum p.Object)) (f : List (Datum p.Object) → App → Datum p.Object × App)
      (x : Session host pipe_transport App)
      → IsRegistered router name is_lvalue ds f
      → route router (key_of name) (packed_bytes (get_buffer p is_lvalue ds)) x
        ≡ (record x { app = (f ds x.app).1 }, result_of p (f ds x.app).0)
  unfolding finish_handler finish_route
  route-IsRegistered router name is_lvalue ds f x (sendable, found) =
      route_found router (key_of name) (invoker p (map kind_of ds) (on_session f))
        (packed_bytes (get_buffer p is_lvalue ds)) x found
      ∙ ap (finish_route router (key_of name))
          (invoker-get_buffer p (on_session f) default_result x is_lvalue ds sendable)

  pub register_handler-IsRegistered :
      (name : Text) (is_lvalue : Bool) (ds : List (Datum p.Object))
      (f : List (Datum p.Object) → App → Datum p.Object × App)
      (r r' : RpcRouter (Session host pipe_transport App))
      → AreSendable is_lvalue ds
      → register_handler name (invoker p (map kind_of ds) (on_session f)) r ≡ done r'
      → IsRegistered r' name is_lvalue ds f
  register_handler-IsRegistered name is_lvalue ds f r r' sendable h =
      let g = invoker p (map kind_of ds) (on_session f) in
      let parts = register_handler-eq_done name g r r' h in
      (
        sendable,
        ap (λ (q : RpcRouter (Session host pipe_transport App)). find (key_of name) q.map_invokers)
              (sym parts.1)
            ∙ find-assign (key_of name) (key_of name) g r.map_invokers
            ∙ rw (==_refl (key_of name)),
      )

  -- Registering another function leaves it so.
  pub register_handler-IsRegistered_ne :
      (name other : Text) (is_lvalue : Bool) (ds : List (Datum p.Object))
      (f : List (Datum p.Object) → App → Datum p.Object × App)
      (g : Invoker (Session host pipe_transport App))
      (r r' : RpcRouter (Session host pipe_transport App))
      → register_handler other g r ≡ done r'
      → key_of other ≢ key_of name
      → IsRegistered r name is_lvalue ds f
      → IsRegistered r' name is_lvalue ds f
  register_handler-IsRegistered_ne name other is_lvalue ds f g r r' h ne before =
      let parts = register_handler-eq_done other g r r' h in
      (
        before.0,
        ap (λ (q : RpcRouter (Session host pipe_transport App)). find (key_of name) q.map_invokers)
              (sym parts.1)
            ∙ find-assign (key_of other) (key_of name) g r.map_invokers
            ∙ rw (ne→==_false (key_of other) (key_of name) ne) before.1,
      )
