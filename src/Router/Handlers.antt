-- ===== src/Router/Handlers.antt =====
-- The invokers of include/rest_rpc/rpc_router.hpp: `handle_zero_arg`, `handle_one_arg` and
-- `handle_more_args`, which unpack a function's arguments, run it and pack its result. A member
-- function and a coroutine are functions on the state too.
use rest_rpc.Base.{if◌then◌else◌, List, [], ◌∷◌, Option, none, some}
use rest_rpc.Router.{
  Text, RpcResult, set_result, Completion, returned, threw, threw_unknown, Invoker,
}
use rest_rpc.Codec.{
  Unpacked, value, bad, Kind, is_basic, Datum, Packer, packed_bytes, pack_args, unpack,
  unpack_tuple,
}

-- How a registered function ends: with its result, none where it returns nothing, or with an
-- exception.
pub data Ending (Object : Type 0) : Type 0 where
  gave : Option (Datum Object) → Ending Object
  raised : Text → Ending Object
  raised_unknown : Ending Object

abbrev pub Function : Packer → Type 0 → Type 0
Function p S = List (Datum p.Object) → S → S × Ending p.Object

module _ (p : Packer) {S : Type 0} where
  open p use {Object}

  -- What follows the call in each of the three handlers.
  unfoldable pub finish_handler : RpcResult → S × Ending Object → S × RpcResult × Completion
  finish_handler ret (s, gave none) = (s, ret, returned)
  finish_handler ret (s, gave (some d)) =
      (s, set_result ret (packed_bytes (pack_args p (d ∷ []))), returned)
  finish_handler ret (s, raised what) = (s, ret, threw what)
  finish_handler ret (s, raised_unknown) = (s, ret, threw_unknown)

  unfoldable pub handle_zero_arg : Function p S → RpcResult → S → S × RpcResult × Completion
  handle_zero_arg f ret s = finish_handler ret (f [] s)

  unfoldable pub after_unpack_one :
      Function p S → RpcResult → S → Unpacked (Datum Object) → S × RpcResult × Completion
  after_unpack_one f ret s (value d) = finish_handler ret (f (d ∷ []) s)
  after_unpack_one f ret s (bad what) = (s, ret, threw what)

  unfoldable pub handle_one_arg :
      Kind → Text → Function p S → RpcResult → S → S × RpcResult × Completion
  unfolding after_unpack_one
  handle_one_arg first_t str f ret s = after_unpack_one f ret s (unpack p first_t str)

  unfoldable pub after_unpack_more :
      Function p S → RpcResult → S → Unpacked (List (Datum Object)) → S × RpcResult × Completion
  after_unpack_more f ret s (value ds) = finish_handler ret (f ds s)
  after_unpack_more f ret s (bad what) = (s, ret, threw what)

  unfoldable pub handle_more_args :
      List Kind → Text → Function p S → RpcResult → S → S × RpcResult × Completion
  unfolding after_unpack_more
  handle_more_args args str f ret s = after_unpack_more f ret s (unpack_tuple p args str)

  -- The invoker that `register_func_impl` makes of a function with these parameters.
  unfoldable pub invoker : List Kind → Function p S → Invoker S
  invoker [] f str ret s = handle_zero_arg f ret s
  invoker (first_t ∷ []) f str ret s =
      if is_basic first_t
      then handle_one_arg first_t str f ret s
      else handle_more_args (first_t ∷ []) str f ret s
  invoker (first_t ∷ k ∷ ks) f str ret s = handle_more_args (first_t ∷ k ∷ ks) str f ret s
