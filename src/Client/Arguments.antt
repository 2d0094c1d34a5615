-- ===== src/Client/Arguments.antt =====
-- `get_buffer` of include/rest_rpc/rpc_client.hpp, which packs the arguments of a call.
use rest_rpc.Base.{Bool, true, false, if◌then◌else◌, List, [], ◌∷◌}
use rest_rpc.Codec.{Kind, integer, Datum, kind_of, is_basic, Packer, Packed, pack_args, pack_tuple}

-- `util::is_basic_v<Args...>` of one argument: an lvalue's type is a reference, and a reference to a
-- fundamental type is not fundamental.
unfoldable pub is_basic_argument : Bool → Kind → Bool
is_basic_argument true (integer t) = false
is_basic_argument is_lvalue k = is_basic k

-- `is_lvalue` tells of what kind of expression a single argument is.
unfoldable pub get_buffer : (p : Packer) → Bool → List (Datum p.Object) → Packed
get_buffer p is_lvalue [] = pack_args p []
get_buffer p is_lvalue (d ∷ []) =
    if is_basic_argument is_lvalue (kind_of d) then pack_args p (d ∷ []) else pack_tuple p (d ∷ [])
get_buffer p is_lvalue (d ∷ e ∷ ds) = pack_tuple p (d ∷ e ∷ ds)
