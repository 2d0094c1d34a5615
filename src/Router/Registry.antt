-- ===== src/Router/Registry.antt =====
-- `register_handler` and `remove_handler` of include/rest_rpc/rpc_router.hpp on the router's two
-- maps.
use rest_rpc.Base.{
  ℕ, ◌≡◌, refl, sym, ◌∙◌, ap, subst, arith, true, false, ◌==◌, ==_refl, if◌then◌else◌, Bool-cases,
  inl, inr,
}
use rest_rpc.Base.Map.{assign, emplace, contains, contains-assign, contains-erase, contains-emplace}
use rest_rpc.Base.Text.{codes}
use rest_rpc.Router.{
  Text, RpcRouter, Invoker, done, invalid_argument, key_of, register_handler, remove_handler,
  empty_router,
}

module _ {S : Type 0} where
  -- The two maps have the same keys.
  abbrev pub IsConsistent : RpcRouter S → Type 0
  IsConsistent r = (k : ℕ) → contains k r.map_invokers ≡ contains k r.key2func_name

  -- The router that a registration leaves, where the key is free.
  abbrev pub registered : Text → Invoker S → RpcRouter S → RpcRouter S
  registered name f r = record {
    map_invokers = assign (key_of name) f r.map_invokers;
    key2func_name = emplace (key_of name) name r.key2func_name;
  }

  pub register_handler_free :
      (name : Text) (f : Invoker S) (r : RpcRouter S)
      → contains (key_of name) r.key2func_name ≡ false
      → register_handler name f r ≡ done (registered name f r)
  unfolding register_handler
  register_handler_free name f r h = rw h

  pub register_handler_taken :
      (name : Text) (f : Invoker S) (r : RpcRouter S)
      → contains (key_of name) r.key2func_name ≡ true
      → register_handler name f r ≡ invalid_argument (codes "duplicate registration key !")
  unfolding register_handler
  register_handler_taken name f r h = rw h

  -- A registration that succeeds found its key free.
  pub register_handler-eq_done :
      (name : Text) (f : Invoker S) (r r' : RpcRouter S)
      → register_handler name f r ≡ done r'
      → (contains (key_of name) r.key2func_name ≡ false) × (registered name f r ≡ r')
  register_handler-eq_done name f r r' h =
      elim (Bool-cases (contains (key_of name) r.key2func_name)) [
        | inl taken ↦ cc (register_handler_taken name f r taken)
        | inr free ↦ (free, ground (arith, register_handler_free name f r free))
      ]

  -- Registering keeps the two maps on the same keys.
  pub register_handler-IsConsistent :
      (name : Text) (f : Invoker S) (r r' : RpcRouter S)
      → IsConsistent r
      → register_handler name f r ≡ done r'
      → IsConsistent r'
  register_handler-IsConsistent name f r r' c h =
      subst IsConsistent (register_handler-eq_done name f r r' h).1 λ k.
        contains-assign (key_of name) k f r.map_invokers
        ∙ ap (λ b. if key_of name == k then true else b) (c k)
        ∙ sym (contains-emplace (key_of name) k name r.key2func_name)

  -- Removing keeps the two maps on the same keys.
  pub remove_handler-IsConsistent :
      (name : Text) (r : RpcRouter S) → IsConsistent r → IsConsistent (remove_handler name r)
  unfolding remove_handler
  remove_handler-IsConsistent name r c k =
      contains-erase (key_of name) k r.map_invokers
      ∙ ap (λ b. if key_of name == k then false else b) (c k)
      ∙ sym (contains-erase (key_of name) k r.key2func_name)

  -- A registration under a key that is in use throws, also for another name with the same hash:
  -- where `register_handler` has succeeded with one name, it throws for each name of that key.
  pub register_handler_twice :
      (name other : Text) (f g : Invoker S) (r r' : RpcRouter S)
      → register_handler name f r ≡ done r'
      → key_of other ≡ key_of name
      → register_handler other g r' ≡ invalid_argument (codes "duplicate registration key !")
  register_handler_twice name other f g r r' h same = register_handler_taken other g r' (
      rw same (
        subst (λ q. contains (key_of name) q.key2func_name ≡ true) parts.1
          (contains-emplace (key_of name) (key_of name) name r.key2func_name
            ∙ rw (==_refl (key_of name)))))
    where
      parts : (contains (key_of name) r.key2func_name ≡ false) × (registered name f r ≡ r')
      parts = register_handler-eq_done name f r r' h

  -- A name that has been removed can be registered again.
  pub register_handler-remove_handler :
      (name : Text) (f : Invoker S) (r : RpcRouter S)
      → register_handler name f (remove_handler name r)
        ≡ done (registered name f (remove_handler name r))
  unfolding remove_handler
  register_handler-remove_handler name f r =
      register_handler_free name f (remove_handler name r)
        (contains-erase (key_of name) (key_of name) r.key2func_name ∙ rw (==_refl (key_of name)))

pub empty-IsConsistent : (S : Type 0) → IsConsistent {S = S} empty_router
unfolding contains
empty-IsConsistent S k = refl
