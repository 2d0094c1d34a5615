-- ===== src/FunctionName/Registration.antt =====
-- Functions that include/rest_rpc/rpc_router.hpp registers by the name that
-- include/rest_rpc/function_name.h finds, called with the key of include/rest_rpc/util.hpp.
use mathlib.Core.Option
use rest_rpc.Base.{some-injective, ℕ, ◌≡◌, ap, sym, ◌∙◌, some, [], ◌++◌, subst}
use rest_rpc.Base.Text.{codes}
use rest_rpc.Base.Decimal.{to_string}
use rest_rpc.ErrorCode.{no_such_function}
use rest_rpc.Router.{Text, RpcResult, RpcRouter, remove_handler, route, key_of}
use rest_rpc.Router.Registry.{IsConsistent}
use rest_rpc.Router.Routing.{route-remove_handler}
use rest_rpc.FunctionName.{Compiler, get_func_name, get_key, remove_function}
use rest_rpc.FunctionName.Keys.{get_func_name-IsSpelled, IsShared, get_key-IsShared}

abbrev unknown : {S : Type 0} → ℕ → S → S × RpcResult
unknown key s = (
  s,
  record { ec = no_such_function; result = codes "unknown function: " ++ to_string key; view = [] },
)

module _ (c d : Compiler) (at_client at_server name : Text)
    (w : IsShared c d at_client at_server name) where
  server_name : get_func_name d at_server ≡ some name
  server_name =
      get_func_name-IsSpelled d at_server w.in_server name w.server_signature w.server_spelling
        w.unstyled w.plain_name

  -- Once the server has removed the function, the same request is answered with
  -- `no_such_function`, and runs nothing.
  pub route-remove_function :
      {S : Type 0} (r r' : RpcRouter S) (key : ℕ) (body : Text) (s : S)
      → IsConsistent r
      → remove_function d at_server r ≡ some r'
      → get_key c at_client ≡ some key
      → route r' key body s ≡ unknown key s
  unfolding remove_function
  route-remove_function r r' key body s consistent h k =
      let named : remove_handler name r ≡ r' =
        some-injective (sym (ap (Option.map (λ n. remove_handler n r)) server_name) ∙ h) in
      let same : key_of name ≡ key =
        some-injective (sym (get_key-IsShared c d at_client at_server name w).0 ∙ k) in
      subst (λ j. route r' j body s ≡ unknown j s) same
        (ap (λ q. route q (key_of name) body s) (sym named)
          ∙ route-remove_handler r name body s consistent)
