-- ===== src/Router/Routing.antt =====
-- `route` of include/rest_rpc/rpc_router.hpp on every branch, and after registering and removing.
use rest_rpc.Base.{
  ℕ, ◌≡◌, refl, sym, ◌∙◌, subst, ◌≢◌, false, ==_refl, [], ◌++◌, none, some, Option-cases, inl, inr,
  ne→==_false,
}
use rest_rpc.Base.Map.{
  find, emplace, contains, find-assign, find-erase, find-emplace, find-eq_none, contains-erase,
}
use rest_rpc.Base.Text.{codes}
use rest_rpc.Base.Decimal.{to_string}
use rest_rpc.ErrorCode.{ok, no_such_function, function_exception, function_unknown_exception}
use rest_rpc.Router.{
  Text, RpcResult, default_result, RpcRouter, Invoker, Completion, returned, threw, threw_unknown,
  done, key_of, register_handler, remove_handler, get_name_by_key, finish_route, route,
}
use rest_rpc.Router.Registry.{
  registered, register_handler-eq_done, IsConsistent, remove_handler-IsConsistent,
}

module _ {S : Type 0} where
  -- What a caller sees of the end of the function `name`: its result with code ok, or the code and
  -- the text for its exception.
  abbrev pub seen : Text → S × RpcResult × Completion → S × RpcResult
  seen name (s, ret, returned) = (s, record ret { ec = ok })
  seen name (s, ret, threw what) = (
    s,
    record ret { ec = function_exception; result = codes "exception occur when call" ++ what },
  )
  seen name (s, ret, threw_unknown) = (
    s,
    record ret {
      ec = function_unknown_exception;
      result = codes "unknown exception occur when call " ++ name;
    },
  )

  pub finish_route-seen :
      (r : RpcRouter S) (k : ℕ) (o : S × RpcResult × Completion) (name : Text)
      → get_name_by_key k r ≡ name
      → finish_route r k o ≡ seen name o
  unfolding finish_route
  finish_route-seen r k (s, ret, returned) name h = refl
  finish_route-seen r k (s, ret, threw what) name h = refl
  finish_route-seen r k (s, ret, threw_unknown) name h = rw h

  name_registered :
      (name : Text) (f : Invoker S) (r : RpcRouter S)
      → contains (key_of name) r.key2func_name ≡ false
      → get_name_by_key (key_of name) (registered name f r) ≡ name
  unfolding get_name_by_key
  name_registered name f r free =
      let found : find (key_of name) (emplace (key_of name) name r.key2func_name) ≡ some name =
        find-emplace (key_of name) (key_of name) name r.key2func_name
        ∙ rw (free, ==_refl (key_of name)) in
      rw (found, get_name_by_key)

  pub route_found :
      (r : RpcRouter S) (k : ℕ) (f : Invoker S) (body : Text) (s : S)
      → find k r.map_invokers ≡ some f
      → route r k body s ≡ finish_route r k (f body default_result s)
  unfolding route
  route_found r k f body s h = rw (h, route)

  finish_route_cong :
      (q r : RpcRouter S) (k : ℕ) (o : S × RpcResult × Completion)
      → get_name_by_key k q ≡ get_name_by_key k r
      → finish_route q k o ≡ finish_route r k o
  finish_route_cong q r k o h =
      finish_route-seen q k o (get_name_by_key k r) h
      ∙ sym (finish_route-seen r k o (get_name_by_key k r) refl)

  -- An answer depends on what the two maps have for the key alone.
  route_cong :
      (q r : RpcRouter S) (k : ℕ) (body : Text) (s : S)
      → find k q.map_invokers ≡ find k r.map_invokers
      → find k q.key2func_name ≡ find k r.key2func_name
      → route q k body s ≡ route r k body s
  route_cong q r k body s h e = elim (Option-cases (find k r.map_invokers)) [
    | inl missing ↦ unfold route in rw (h ∙ missing, missing, route, same_name)
    | inr (f, present) ↦
        route_found q k f body s (h ∙ present)
        ∙ finish_route_cong q r k (f body default_result s) same_name
        ∙ sym (route_found r k f body s present)
  ]
    where
      same_name : get_name_by_key k q ≡ get_name_by_key k r
      same_name = unfold get_name_by_key in rw (e, get_name_by_key)

  -- After a successful registration a request with the name's key runs that function on the
  -- request's body, once, and answers with what it leaves: code ok and its result, or the code and
  -- text for a `std::exception`, or those for any other exception, with the name.
  pub route-register_handler :
      (name : Text) (f : Invoker S) (r r' : RpcRouter S) (body : Text) (s : S)
      → register_handler name f r ≡ done r'
      → route r' (key_of name) body s ≡ seen name (f body default_result s)
  route-register_handler name f r r' body s h =
      let parts = register_handler-eq_done name f r r' h in
      subst (λ q. route q (key_of name) body s ≡ seen name (f body default_result s)) parts.1
        (route_found (registered name f r) (key_of name) f body s (found f r)
          ∙ finish_route-seen (registered name f r) (key_of name) (f body default_result s) name
              (name_registered name f r parts.0))
    where
      found :
          (f : Invoker S) (r : RpcRouter S)
          → find (key_of name) (registered name f r).map_invokers ≡ some f
      found f r =
          find-assign (key_of name) (key_of name) f r.map_invokers ∙ rw (==_refl (key_of name))

  pub route_missing :
      (r : RpcRouter S) (k : ℕ) (body : Text) (s : S)
      → find k r.map_invokers ≡ none
      → find k r.key2func_name ≡ none
      → route r k body s ≡ (
        s,
        record {
          ec = no_such_function;
          result = codes "unknown function: " ++ to_string k;
          view = [];
        },
      )
  unfolding route get_name_by_key
  route_missing r k body s h e = rw (h, route, e, get_name_by_key)

  -- A request with a key that no function has gets the code `no_such_function` and a text with the
  -- key's name, and runs nothing.
  pub route_unknown :
      (r : RpcRouter S) (k : ℕ) (body : Text) (s : S)
      → IsConsistent r
      → contains k r.map_invokers ≡ false
      → route r k body s ≡ (
        s,
        record {
          ec = no_such_function;
          result = codes "unknown function: " ++ to_string k;
          view = [];
        },
      )
  route_unknown r k body s c h =
      route_missing r k body s (find-eq_none k r.map_invokers h)
        (find-eq_none k r.key2func_name (sym (c k) ∙ h))

  -- After a function's removal a request with its key gets the code `no_such_function` and the text
  -- with the key in decimal, and runs nothing.
  pub route-remove_handler :
      (r : RpcRouter S) (name body : Text) (s : S)
      → IsConsistent r
      → route (remove_handler name r) (key_of name) body s ≡ (
        s,
        record {
          ec = no_such_function;
          result = codes "unknown function: " ++ to_string (key_of name);
          view = [];
        },
      )
  route-remove_handler r name body s c =
      route_unknown (remove_handler name r) (key_of name) body s
        (remove_handler-IsConsistent name r c) gone
    where
      gone : contains (key_of name) (remove_handler name r).map_invokers ≡ false
      gone =
          unfold remove_handler in
          contains-erase (key_of name) (key_of name) r.map_invokers ∙ rw (==_refl (key_of name))

  -- Registering one function leaves the answers for every other key as they were.
  pub route-register_handler_ne :
      (name : Text) (f : Invoker S) (r r' : RpcRouter S) (k : ℕ) (body : Text) (s : S)
      → register_handler name f r ≡ done r'
      → key_of name ≢ k
      → route r' k body s ≡ route r k body s
  route-register_handler_ne name f r r' k body s h ne =
      let parts = register_handler-eq_done name f r r' h in
      subst (λ q. route q k body s ≡ route r k body s) parts.1
        (route_cong (registered name f r) r k body s
          (find-assign (key_of name) k f r.map_invokers ∙ rw (ne→==_false (key_of name) k ne))
          (find-emplace (key_of name) k name r.key2func_name
            ∙ rw (parts.0, ne→==_false (key_of name) k ne)))

  -- Removing one function leaves the answers for every other key as they were.
  pub route-remove_handler_ne :
      (r : RpcRouter S) (name : Text) (k : ℕ) (body : Text) (s : S)
      → key_of name ≢ k
      → route (remove_handler name r) k body s ≡ route r k body s
  route-remove_handler_ne r name k body s ne =
      route_cong (remove_handler name r) r k body s
        (unfold remove_handler in
          find-erase (key_of name) k r.map_invokers ∙ rw (ne→==_false (key_of name) k ne))
        (unfold remove_handler in
          find-erase (key_of name) k r.key2func_name ∙ rw (ne→==_false (key_of name) k ne))
