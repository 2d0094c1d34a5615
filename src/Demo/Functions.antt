-- ===== src/Demo/Functions.antt =====
-- The registered functions of examples/server.cpp, on values that know their C++ type, and the routers
-- that `basict_usage` and `publish` fill with them.
use rest_rpc.Base.{ℕ, ◌+◌, ◌-◌, suc, true, false, ltb, if◌then◌else◌, ◌≡◌, List, [], ◌∷◌, map}
use rest_rpc.Base.Integers.{ℤ, pos, negsuc, IntegerType}
use rest_rpc.Base.Text.{codes}
use rest_rpc.Protocol.{Host}
use rest_rpc.Router.{
  Text, RpcRouter, Result, done, invalid_argument, empty_router, register_handler,
}
use rest_rpc.Router.Handlers.{invoker}
use rest_rpc.Codec.{
  Unpacked, value, Kind, integer, textual, other, string_view, number, text, Datum, basic, object,
  kind_of, Packer,
}
use rest_rpc.Transport.Pipe.{pipe_transport}
use rest_rpc.Connection.{Session}
use rest_rpc.Exchange.Remote.Serving.{on_session}

abbrev pub int : IntegerType
int = record { is_signed = true; bits = 32 }

-- `+` of two integers; a sum that does not fit is undefined in the source.
infixl 20 ◌+ℤ◌
abbrev pub ◌+ℤ◌ : ℤ → ℤ → ℤ
pos a +ℤ pos b = pos (a + b)
pos a +ℤ negsuc b = if ltb b a then pos (a - suc b) else negsuc (b - a)
negsuc a +ℤ pos b = if ltb a b then pos (b - suc a) else negsuc (a - b)
negsuc a +ℤ negsuc b = negsuc (suc (a + b))

pub record Person : Type 0 where
  pub id : ℤ
  pub name : Text
  pub age : ℤ

-- struct_pack on numbers, strings and persons, with what it is relied on for.
pub record StructPack : Type 0 where
  pub serialize : List (Datum Person) → Text
  pub deserialize : List Kind → Text → Unpacked (List (Datum Person))
  pub deserialize-serialize :
      (ds : List (Datum Person)) → deserialize (map kind_of ds) (serialize ds) ≡ value ds

-- The examples have no `serialize` of their own.
abbrev pub packer : StructPack → Packer
packer pack = record {
  Object = Person;
  has_user_pack = λ ks. false;
  has_user_pack_tuple = λ ks. false;
  user_serialize = pack.serialize;
  struct_serialize = pack.serialize;
  user_deserialize = pack.deserialize;
  struct_deserialize = pack.deserialize;
  user_deserialize-user_serialize = pack.deserialize-serialize;
  struct_deserialize-struct_serialize = pack.deserialize-serialize;
}

-- The number that `id` of the codec's model gives to `person`.
abbrev pub person_type : ℕ
person_type = 0

abbrev pub view_of : Text → Datum Person
view_of str = basic (text string_view str)

abbrev pub int_of : ℤ → Datum Person
int_of z = basic (number int z)

abbrev pub person_of : Person → Datum Person
person_of p = object person_type p

module _ (App : Type 0) where
  -- A function of its arguments, and of the application's state, which these do not touch. On other
  -- argument lists than their own, which the invoker does not pass, they give a number.
  abbrev pub Shared : Type 0
  Shared = List (Datum Person) → App → Datum Person × App

  unfoldable pub echo : Shared
  echo (basic (text string_view str) ∷ []) a = (view_of str, a)
  echo ds a = (int_of (pos 0), a)

  -- A coroutine that returns at once.
  unfoldable pub echo_coro : Shared
  echo_coro (basic (text string_view str) ∷ []) a = (view_of str, a)
  echo_coro ds a = (int_of (pos 0), a)

  -- `add`, and `dummy::add`, which does not look at its object.
  unfoldable pub add : Shared
  add (basic (number t x) ∷ basic (number u y) ∷ []) a = (int_of (x +ℤ y), a)
  add ds a = (int_of (pos 0), a)

  unfoldable pub get_person : Shared
  get_person (object id p ∷ []) a = (person_of (record p { name = codes "jack" }), a)
  get_person ds a = (int_of (pos 0), a)

  module _ (host : Host) (pack : StructPack) where
    abbrev pub Router : Type 0
    Router = RpcRouter (Session host pipe_transport App)

    abbrev pub then_register : Result Router → Text → List Kind → Shared → Result Router
    then_register (done r) name kinds f =
        register_handler name (invoker (packer pack) kinds (on_session host App (packer pack) f)) r
    then_register (invalid_argument what) name kinds f = invalid_argument what

    -- The registrations of `basict_usage`.
    unfoldable pub usage_router : Result Router
    usage_router =
        then_register
          (then_register
            (then_register
              (then_register (done empty_router) (codes "echo") (textual string_view ∷ []) echo)
              (codes "echo_coro") (textual string_view ∷ []) echo_coro)
            (codes "dummy::add") (integer int ∷ integer int ∷ []) add)
          (codes "get_person") (other person_type ∷ []) get_person

    -- Those of `publish`, whose functions examples/client.cpp calls.
    unfoldable pub publish_router : Result Router
    publish_router =
        then_register
          (then_register (done empty_router) (codes "echo") (textual string_view ∷ []) echo)
          (codes "add") (integer int ∷ integer int ∷ []) add
