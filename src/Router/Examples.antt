-- ===== src/Router/Examples.antt =====
-- The theorems on include/rest_rpc/rpc_router.hpp for one registered function.
use rest_rpc.Base.{ℕ, ◌+◌, ◌≡◌, refl, false, List, [], ◌∷◌, none}
use rest_rpc.Base.Map.{contains}
use rest_rpc.Base.Text.{codes}
use rest_rpc.Router.{Text, Invoker, returned, RpcRouter, key_of, empty_router, route}
use rest_rpc.Router.Registry.{registered}
use rest_rpc.Router.Refinement.{
  Change, registers, removes, changes, table_changes, table_route, route-changes,
}

abbrev abc : Text
abc = codes "abc"

-- A function that counts its calls and gives its arguments back.
abbrev echo : Invoker ℕ
echo body ret s = (s + 1, record ret { result = body }, returned)

abbrev silent : Invoker ℕ
silent body ret s = (s, ret, returned)

abbrev one : RpcRouter ℕ
one = registered abc echo empty_router

free : contains (key_of abc) (empty_router {S = ℕ}).key2func_name ≡ false
unfolding contains
free = refl

-- The second registration throws, since its key is taken.
abbrev some_changes : List (Change ℕ)
some_changes = registers abc echo ∷ registers abc silent ∷ removes (codes "ab") ∷ []

route-changes_example :
    route (changes empty_router some_changes) (key_of abc) (1 ∷ []) 4
    ≡ table_route (table_changes (λ k. none) some_changes) (key_of abc) (1 ∷ []) 4
route-changes_example = route-changes some_changes (key_of abc) (1 ∷ []) 4
