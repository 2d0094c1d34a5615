-- ===== src/Traits.antt =====
-- include/rest_rpc/traits.h and the types of include/rest_rpc/asio_util.hpp: the questions that the
-- templates ask of C++ types, as functions on the types. A `none` is a type that is not there, so
-- that its use does not compile. What classes declare is a parameter.
pub mod Functions
pub mod Arguments
mod Examples
use mathlib.Core.Option
use rest_rpc.Base.Map.{is_some}
use rest_rpc.Base.{
  ℕ, zero, suc, ◌-◌, ◌≡◌, Bool, true, false, ◌==◌, if◌then◌else◌, ◌&&◌, ◌||◌, List, [], ◌∷◌, Option,
  none, some, map, get_elem?, length,
}

pub data Fundamental : Type 0 where
  void null_pointer boolean : Fundamental
  char signed_char unsigned_char wchar char8 char16 char32 : Fundamental
  short unsigned_short int unsigned_int long unsigned_long : Fundamental
  long_long unsigned_long_long float double long_double : Fundamental

-- What stands behind a function's parameters: nothing, `const`, or any other qualifier.
pub data Qualifier : Type 0 where
  unqualified const_function other_qualifier : Qualifier

-- The types. `qualified` is `const`, `volatile` or both; `class_type` is a class template's instance
-- or, without arguments, a class.
mutual
  pub data CType : Type 0 where
    fundamental : Fundamental → CType
    qualified : Bool → Bool → CType → CType
    lvalue_reference rvalue_reference pointer : CType → CType
    array : Option ℕ → CType → CType
    function : CType → CTypes → Qualifier → Bool → CType
    member_pointer : CType → CType → CType
    class_type : ℕ → CTypes → CType

  pub data CTypes : Type 0 where
    no_types : CTypes
    types : CType → CTypes → CTypes

abbrev pub list_of : CTypes → List CType
list_of no_types = []
list_of (types t ts) = t ∷ list_of ts

-- The standard library's transformations.
unfoldable pub remove_cv : CType → CType
remove_cv (qualified c v t) = remove_cv t
remove_cv (array n t) = array n (remove_cv t)
remove_cv t = t

unfoldable pub remove_reference : CType → CType
remove_reference (lvalue_reference t) = t
remove_reference (rvalue_reference t) = t
remove_reference t = t

unfoldable pub remove_cvref : CType → CType
remove_cvref t = remove_cv (remove_reference t)

unfoldable pub remove_extent : CType → CType
remove_extent (array n t) = t
remove_extent t = t

unfoldable pub is_array : CType → Bool
is_array (array n t) = true
is_array t = false

unfoldable pub is_fundamental : CType → Bool
is_fundamental (fundamental f) = true
is_fundamental (qualified c v t) = is_fundamental t
is_fundamental t = false

-- `std::is_same_v<t, char>`, and for any of the character types.
unfoldable pub is_char : CType → Bool
is_char (fundamental char) = true
is_char t = false

unfoldable pub is_char_t : CType → Bool
is_char_t (fundamental signed_char) = true
is_char_t (fundamental char) = true
is_char_t (fundamental unsigned_char) = true
is_char_t (fundamental wchar) = true
is_char_t (fundamental char16) = true
is_char_t (fundamental char32) = true
is_char_t (fundamental char8) = true
is_char_t t = false

-- What a class declares: `value_type`, its members, and the type of its one `operator()`.
pub record Members : Type 0 where
  pub value_type : Option CType
  pub has_size : Bool
  pub has_begin : Bool
  pub has_end : Bool
  pub has_length : Bool
  pub has_data : Bool
  pub call_operator : Option CType

abbrev pub no_members : Members
no_members = record {
  value_type = none;
  has_size = false;
  has_begin = false;
  has_end = false;
  has_length = false;
  has_data = false;
  call_operator = none;
}

-- `parameters_type`, as the list of the tuple's types, `return_type`, and `class_type` if there is.
pub record FunctionTraits : Type 0 where
  pub parameters_type : List CType
  pub return_type : CType
  pub class_type_of : Option CType

traits : CType → List CType → Option CType → Option FunctionTraits
traits return arguments this = some (record {
  parameters_type = map remove_cvref arguments;
  return_type = return;
  class_type_of = this;
})

-- The specialisations of `function_traits`, one by one: with parameters, for pointers to functions,
-- functions and pointers to members, without `noexcept` and with it; and without parameters.
unfoldable pub function_traits_of : CType → Option FunctionTraits
unfolding traits
function_traits_of (pointer (function return (types first rest) unqualified false)) =
    traits return (list_of (types first rest)) none
function_traits_of (pointer (function return (types first rest) unqualified true)) =
    traits return (list_of (types first rest)) none
function_traits_of (function return (types first rest) unqualified false) =
    traits return (list_of (types first rest)) none
function_traits_of (function return (types first rest) unqualified true) =
    traits return (list_of (types first rest)) none
function_traits_of (member_pointer this (function return (types first rest) unqualified false)) =
    traits return (list_of (types first rest)) (some this)
function_traits_of (member_pointer this (function return (types first rest) unqualified true)) =
    traits return (list_of (types first rest)) (some this)
function_traits_of (member_pointer this (function return (types first rest) const_function false)) =
    traits return (list_of (types first rest)) (some this)
function_traits_of (member_pointer this (function return (types first rest) const_function true)) =
    traits return (list_of (types first rest)) (some this)
function_traits_of (pointer (function return no_types unqualified false)) = traits return [] none
function_traits_of (pointer (function return no_types unqualified true)) = traits return [] none
function_traits_of (lvalue_reference (function return no_types unqualified false)) =
    traits return [] none
function_traits_of (lvalue_reference (function return no_types unqualified true)) =
    traits return [] none
function_traits_of (function return no_types unqualified false) = traits return [] none
function_traits_of (function return no_types unqualified true) = traits return [] none
function_traits_of (member_pointer this (function return no_types unqualified false)) =
    traits return [] (some this)
function_traits_of (member_pointer this (function return no_types unqualified true)) =
    traits return [] (some this)
function_traits_of (member_pointer this (function return no_types const_function false)) =
    traits return [] (some this)
function_traits_of (member_pointer this (function return no_types const_function true)) =
    traits return [] (some this)
function_traits_of t = none

-- `remove_first` on `std::tuple`s, which the template `tuple` stands for, and `get_args`.
unfoldable pub remove_first : ℕ → CType → CType
remove_first tuple (class_type template (types first second)) =
    if template == tuple
    then class_type template second
    else class_type template (types first second)
remove_first tuple t = t

unfoldable pub get_args : ℕ → Bool → CType → CType
get_args tuple has_conn t = if has_conn then remove_first tuple t else t

unfoldable pub is_specialization : CType → ℕ → Bool
is_specialization (class_type template arguments) ref = template == ref
is_specialization t ref = false

-- The concepts `CharArrayRef` and `CharArray`, which ask the same.
unfoldable pub is_char_array_ref : CType → Bool
is_char_array_ref t = is_array (remove_reference t) && is_char (remove_extent (remove_cvref t))

unfoldable pub is_char_array : CType → Bool
is_char_array t = is_array (remove_reference t) && is_char (remove_extent (remove_cvref t))

unfoldable pub is_value_char : Option CType → Bool
is_value_char none = false
is_value_char (some t) = is_char_t t

abbrev and_then : {A B : Type 0} → Option A → (A → Option B) → Option B
and_then none f = none
and_then (some a) f = f a

last_of : List CType → Option CType
last_of [] = none
last_of (t ∷ ts) = get_elem? (t ∷ ts) (length ts)

-- `is_awaitable_v`, where the template `awaitable` is `asio::awaitable`.
unfoldable pub is_awaitable : ℕ → CType → Bool
is_awaitable awaitable t = is_specialization (remove_cvref t) awaitable

module _ (members : ℕ → CTypes → Members) where
  unfoldable pub members_of : CType → Members
  members_of (class_type template arguments) = members template arguments
  members_of t = no_members

  -- Function objects have the traits of their `operator()`.
  object_traits : CType → Option CType → Option FunctionTraits
  object_traits this none = none
  object_traits this (some signature) = function_traits_of (member_pointer this signature)

  unfoldable pub function_traits : CType → Option FunctionTraits
  unfolding members_of object_traits
  function_traits (class_type template arguments) =
      object_traits (class_type template arguments) (members template arguments).call_operator
  function_traits t = function_traits_of t

  unfoldable pub function_parameters : CType → Option (List CType)
  function_parameters t = Option.map (λ r. r.parameters_type) (function_traits (remove_cvref t))

  unfoldable pub function_return_type : CType → Option CType
  function_return_type t = Option.map (λ r. r.return_type) (function_traits (remove_cvref t))

  -- `class_type_t`.
  unfoldable pub function_class_type : CType → Option CType
  function_class_type t = and_then (function_traits (remove_cvref t)) (λ r. r.class_type_of)

  unfoldable pub last_parameters_type : CType → Option CType
  unfolding last_of
  last_parameters_type t = and_then (function_parameters t) last_of

  -- The concepts `container` and `string`.
  unfoldable pub is_container : CType → Bool
  unfolding members_of
  is_container t =
      let m = members_of (remove_cvref t) in
      is_some m.value_type && m.has_size && m.has_begin && m.has_end

  unfoldable pub is_string : CType → Bool
  unfolding members_of
  is_string t =
      let m = members_of (remove_cvref t) in
      is_container t && is_value_char m.value_type && m.has_length && m.has_data

  unfoldable pub is_basic : CType → Bool
  is_basic t = is_fundamental t || is_string t || is_char_array t || is_char_array_ref t

  -- `return_type_t`.
  unfoldable pub return_type_t : ℕ → CType → Option CType
  unfolding members_of
  return_type_t awaitable t =
      if is_awaitable awaitable t then (members_of (remove_cvref t)).value_type else some t

  -- The result's type of a call: `return_type_t<function_return_type_t<decltype(func)>>`.
  unfoldable pub call_result_type : ℕ → CType → Option CType
  call_result_type awaitable f = and_then (function_return_type f) (return_type_t awaitable)
