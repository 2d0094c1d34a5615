-- ===== src/Traits/Examples.antt =====
-- The theorems on include/rest_rpc/traits.h for functions like those of examples/server.cpp.
use rest_rpc.Base.{ℕ, ◌≡◌, true, false, Option, none, some, if◌then◌else◌, ◌==◌}
use rest_rpc.Base.Integers.{IntegerType}
use rest_rpc.Codec.{integer}
use rest_rpc.Codec
use rest_rpc.Client.Arguments.{is_basic_argument}
use rest_rpc.Traits.{
  CType, CTypes, Fundamental, char, int, fundamental, qualified, lvalue_reference, pointer,
  function, class_type, no_types, types, unqualified, Members, no_members, list_of, is_basic,
}
use rest_rpc.Traits.Arguments.{deduced, integer_type, is_basic_argument-IsTypeOf}

-- `asio::awaitable` is template 1, and class 2 is `std::string_view`.
abbrev some_members : ℕ → CTypes → Members
some_members template inner =
    if template == 2
    then record {
      value_type = some (fundamental char);
      has_size = true;
      has_begin = true;
      has_end = true;
      has_length = true;
      has_data = true;
      call_operator = none;
    }
    else record no_members { value_type = awaited inner }
  where
    awaited : CTypes → Option CType
    awaited no_types = none
    awaited (types t ts) = some t

abbrev string_view : CType
string_view = class_type 2 no_types

abbrev const_string_view : CType
const_string_view = lvalue_reference (qualified true false string_view)

-- `string_view (*)(const string_view &)`, and a coroutine with these parameters.
abbrev echo : CType
echo = pointer (function string_view (types const_string_view no_types) unqualified false)

abbrev word : IntegerType
word = record { is_signed = true; bits = 32 }

is_basic_argument-IsTypeOf_example :
    (Codec.is_basic (integer word) ≡ is_basic some_members (fundamental int))
    × (is_basic_argument true (integer word)
        ≡ is_basic some_members (deduced true (fundamental int)))
is_basic_argument-IsTypeOf_example =
    is_basic_argument-IsTypeOf some_members true (integer word) (fundamental int)
      (integer_type word int)
