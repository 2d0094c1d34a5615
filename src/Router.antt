-- ===== src/Router.antt =====
-- include/rest_rpc/rpc_router.hpp: `rpc_result` and the class `rpc_router`, which keeps an invoker
-- and a name for each key and routes a request to the invoker of its key.
-- Invokers run on a state `S`: what the registered functions and the thread keep outside the
-- router. Running one leaves a new state and a new `rpc_result`, and ends normally, with a
-- `std::exception` that has a text, or with any other exception.
pub mod Registry
pub mod Routing
pub mod Refinement
pub mod Handlers
mod Examples
use rest_rpc.Base.{
  ℕ, ◌≡◌, Bool, true, false, if◌then◌else◌, ◌&&◌, List, [], ◌∷◌, ◌++◌, Option, none, some, length,
}
use rest_rpc.Base.Map.{Map, find, assign, erase, emplace, contains}
use rest_rpc.Base.Decimal.{to_string}
use rest_rpc.Base.Text.{codes}
use rest_rpc.Md5.{md5_hash32}
use rest_rpc.ErrorCode.{
  RpcErrc, ok, no_such_function, function_exception, function_unknown_exception,
}

-- `std::string` and `std::string_view`, as their bytes.
abbrev pub Text : Type 0
Text = List ℕ

pub record RpcResult : Type 0 where
  pub ec : RpcErrc
  pub result : Text
  pub view : Text

abbrev pub default_result : RpcResult
default_result = record { ec = ok; result = []; view = [] }

-- `rpc_result(std::string)` and `rpc_result(std::string_view)`; `operator=` of either sets `result`.
abbrev pub result_of_string : Text → RpcResult
result_of_string str = record default_result { result = str }

abbrev pub result_of_view : Text → RpcResult
result_of_view str = record default_result { view = str }

abbrev pub set_result : RpcResult → Text → RpcResult
set_result r str = record r { result = str }

abbrev pub is_empty : Text → Bool
is_empty [] = true
is_empty (c ∷ cs) = false

unfoldable pub result_empty : RpcResult → Bool
result_empty r = is_empty r.result && is_empty r.view

unfoldable pub result_size : RpcResult → ℕ
result_size r = if is_empty r.result then length r.view else length r.result

unfoldable pub result_data : RpcResult → Text
result_data r = if is_empty r.result then r.view else r.result

-- How the run of an invoker ends.
pub data Completion : Type 0 where
  returned : Completion
  threw : Text → Completion
  threw_unknown : Completion

abbrev pub Invoker : Type 0 → Type 0
Invoker S = Text → RpcResult → S → S × RpcResult × Completion

pub record RpcRouter (S : Type 0) : Type 0 where
  pub map_invokers : Map (Invoker S)
  pub key2func_name : Map Text

-- A member function that may throw `std::invalid_argument`; a throw leaves what was done before it.
pub data Result (A : Type 0) : Type 0 where
  done : A → Result A
  invalid_argument : Text → Result A

abbrev pub key_of : Text → ℕ
key_of name = md5_hash32 name (length name)

module _ {S : Type 0} where
  abbrev pub empty_router : RpcRouter S
  empty_router = record { map_invokers = []; key2func_name = [] }

  -- `register_func_impl`: the invoker replaces what the key had.
  unfoldable pub register_func_impl : ℕ → Invoker S → RpcRouter S → RpcRouter S
  register_func_impl key f r = record r { map_invokers = assign key f r.map_invokers }

  unfoldable pub register_handler_impl : ℕ → Text → Invoker S → RpcRouter S → Result (RpcRouter S)
  unfolding register_func_impl
  register_handler_impl key name f r =
      if contains key r.key2func_name
      then invalid_argument (codes "duplicate registration key !")
      else done
          (register_func_impl key f (record r { key2func_name = emplace key name r.key2func_name }))

  unfoldable pub register_handler : Text → Invoker S → RpcRouter S → Result (RpcRouter S)
  unfolding register_handler_impl
  register_handler name f r = register_handler_impl (key_of name) name f r

  unfoldable pub remove_handler : Text → RpcRouter S → RpcRouter S
  remove_handler name r = record {
    map_invokers = erase (key_of name) r.map_invokers;
    key2func_name = erase (key_of name) r.key2func_name;
  }

  unfoldable pub get_name_by_key : ℕ → RpcRouter S → Text
  get_name_by_key key r = elim (find key r.key2func_name) [
    | some name ↦ name
    | none ↦ to_string key
  ]

  -- What `route` makes of the end of an invoker's run.
  unfoldable pub finish_route : RpcRouter S → ℕ → S × RpcResult × Completion → S × RpcResult
  finish_route r key (s, ret, returned) = (s, record ret { ec = ok })
  finish_route r key (s, ret, threw what) = (
    s,
    record ret { result = codes "exception occur when call" ++ what; ec = function_exception },
  )
  finish_route r key (s, ret, threw_unknown) = (
    s,
    record ret {
      result = codes "unknown exception occur when call " ++ get_name_by_key key r;
      ec = function_unknown_exception;
    },
  )

  unfoldable pub route : RpcRouter S → ℕ → Text → S → S × RpcResult
  unfolding finish_route
  route r key body s = elim (find key r.map_invokers) [
    | none ↦ (
      s,
      record default_result {
        result = codes "unknown function: " ++ get_name_by_key key r;
        ec = no_such_function;
      },
    )
    | some f ↦ finish_route r key (f body default_result s)
  ]
