-- ===== src/Codec.antt =====
-- include/rest_rpc/codec.h: `rpc_codec`, on values that know their C++ type. The integer types stand
-- for the fundamental ones; struct_pack and a user's `serialize` and `deserialize` are a parameter.
pub mod RoundTrip
pub mod Tagged
pub mod Floating
mod Examples
use rest_rpc.Base.{ℕ, ◌≡◌, Bool, true, false, if◌then◌else◌, List, [], ◌∷◌, Option, none, some, map}
use rest_rpc.Base.Integers.{ℤ, IntegerType, Fits, integer_to_string, from_chars}
use rest_rpc.Base.Text.{codes}
use rest_rpc.Router.{Text}

-- The end of `rpc_codec::unpack`: a value, or `std::invalid_argument` with a text.
pub data Unpacked (V : Type 0) : Type 0 where
  value : V → Unpacked V
  bad : Text → Unpacked V

-- What the code asks of a type: an integer type, a string type, or any other, which `id` names.
pub data TextKind : Type 0 where
  string string_view char_array : TextKind

pub data Kind : Type 0 where
  integer : IntegerType → Kind
  textual : TextKind → Kind
  other : ℕ → Kind

-- `util::is_basic_v`.
unfoldable pub is_basic : Kind → Bool
is_basic (other id) = false
is_basic _ = true

-- A value of a basic type: a number, or the bytes of a text.
pub data Basic : Type 0 where
  number : IntegerType → ℤ → Basic
  text : TextKind → Text → Basic

-- A value of any type.
pub data Datum (Object : Type 0) : Type 0 where
  basic : Basic → Datum Object
  object : ℕ → Object → Datum Object

abbrev pub kind_of : {O : Type 0} → Datum O → Kind
kind_of (basic (number t z)) = integer t
kind_of (basic (text k bytes)) = textual k
kind_of (object id o) = other id

-- struct_pack and the user's functions. `has_user_pack` is `detail::has_user_pack_v`; a tuple is a
-- list of values. What is serialized can be deserialized as the kinds that it was.
pub record Packer : Type 1 where
  pub Object : Type 0
  pub has_user_pack : List Kind → Bool
  pub has_user_pack_tuple : List Kind → Bool
  pub user_serialize : List (Datum Object) → Text
  pub struct_serialize : List (Datum Object) → Text
  pub user_deserialize : List Kind → Text → Unpacked (List (Datum Object))
  pub struct_deserialize : List Kind → Text → Unpacked (List (Datum Object))
  pub user_deserialize-user_serialize :
      (ds : List (Datum Object)) → user_deserialize (map kind_of ds) (user_serialize ds) ≡ value ds
  pub struct_deserialize-struct_serialize :
      (ds : List (Datum Object))
      → struct_deserialize (map kind_of ds) (struct_serialize ds) ≡ value ds

-- What `pack_args` returns: a `std::string_view` of the arguments, or a `std::string`.
pub data Packed : Type 0 where
  as_view as_string : Text → Packed

abbrev pub packed_bytes : Packed → Text
packed_bytes (as_view bytes) = bytes
packed_bytes (as_string bytes) = bytes

unfoldable pub pack_one : Basic → Packed
pack_one (number t z) = as_string (integer_to_string z)
pack_one (text k bytes) = as_view bytes

module _ (p : Packer) where
  open p use {
    Object, has_user_pack, user_serialize, struct_serialize, user_deserialize, struct_deserialize,
    has_user_pack_tuple,
  }

  serialized : Bool → List (Datum Object) → Packed
  serialized user ds = as_string (if user then user_serialize ds else struct_serialize ds)

  unfoldable pub pack_args : List (Datum Object) → Packed
  unfolding serialized
  pack_args [] = as_view []
  pack_args (basic b ∷ []) = pack_one b
  pack_args (object id o ∷ []) = serialized (has_user_pack (other id ∷ [])) (object id o ∷ [])
  pack_args (d ∷ e ∷ ds) = serialized (has_user_pack (map kind_of (d ∷ e ∷ ds))) (d ∷ e ∷ ds)

  -- `pack_args` of one tuple.
  unfoldable pub pack_tuple : List (Datum Object) → Packed
  unfolding serialized
  pack_tuple ds = serialized (has_user_pack_tuple (map kind_of ds)) ds

  the_one : Unpacked (List (Datum Object)) → Unpacked (Datum Object)
  the_one (value (d ∷ [])) = value d
  the_one (value _) = bad (codes "unpack failed")
  the_one (bad what) = bad what

  unfoldable pub unpacked_integer : IntegerType → Option ℤ → Unpacked (Datum Object)
  unpacked_integer t none = bad (codes "unpack failed: Args not match!")
  unpacked_integer t (some z) = value (basic (number t z))

  -- `unpack<T>` for a type that is no tuple.
  unfoldable pub unpack : Kind → Text → Unpacked (Datum Object)
  unfolding the_one unpacked_integer
  unpack (integer t) data_in = unpacked_integer t (from_chars t data_in)
  unpack (textual string) data_in = value (basic (text string data_in))
  unpack (textual string_view) data_in = value (basic (text string_view data_in))
  unpack kind data_in =
      if has_user_pack (kind ∷ [])
      then the_one (user_deserialize (kind ∷ []) data_in)
      else the_one (struct_deserialize (kind ∷ []) data_in)

  -- `unpack<std::tuple<...>>`.
  unfoldable pub unpack_tuple : List Kind → Text → Unpacked (List (Datum Object))
  unpack_tuple kinds data_in =
      if has_user_pack_tuple kinds
      then user_deserialize kinds data_in
      else struct_deserialize kinds data_in
