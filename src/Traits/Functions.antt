-- ===== src/Traits/Functions.antt =====
-- The functions that include/rest_rpc/traits.h takes apart, and what a call of them returns by
-- include/rest_rpc/asio_util.hpp.
use mathlib.Core.Option
use rest_rpc.Base.{ℕ, ◌≡◌, refl, ap, ◌∙◌, Bool, true, false, Option, none, some, map, ==_refl}
use rest_rpc.Traits.{
  CType, CTypes, traits, function_class_type, pointer, function, member_pointer, class_type,
  no_types, types, list_of, unqualified, const_function, Members, remove_cv, remove_reference,
  remove_cvref, FunctionTraits, function_traits_of, function_traits, function_parameters,
  function_return_type, is_awaitable, is_specialization, return_type_t, call_result_type, and_then,
  members_of,
}

-- The types that can be called with given parameters: functions, pointers to functions or to members, and
-- function objects, `const` and `noexcept` or not.
pub data IsCallable (members : ℕ → CTypes → Members) (return : CType) (arguments : CTypes)
    : CType → Type 0 where
  free : (n : Bool) → IsCallable members return arguments (function return arguments unqualified n)
  by_pointer :
      (n : Bool)
      → IsCallable members return arguments (pointer (function return arguments unqualified n))
  member :
      (this : CType) (n : Bool)
      → IsCallable members return arguments
          (member_pointer this (function return arguments unqualified n))
  const_member :
      (this : CType) (n : Bool)
      → IsCallable members return arguments
          (member_pointer this (function return arguments const_function n))
  object :
      (template : ℕ) (inner : CTypes) (n : Bool)
      → (members template inner).call_operator ≡ some (function return arguments unqualified n)
      → IsCallable members return arguments (class_type template inner)
  const_object :
      (template : ℕ) (inner : CTypes) (n : Bool)
      → (members template inner).call_operator ≡ some (function return arguments const_function n)
      → IsCallable members return arguments (class_type template inner)

-- The traits are those of a function's declaration, with its class or none.
abbrev HasTraits : CType → CTypes → Option CType → Option FunctionTraits → Type 0
HasTraits return arguments this o =
    o
    ≡ some (record {
      parameters_type = map remove_cvref (list_of arguments);
      return_type = return;
      class_type_of = this;
    })

free_traits :
    (return : CType) (arguments : CTypes) (n : Bool)
    → HasTraits return arguments none (function_traits_of (function return arguments unqualified n))
unfolding function_traits_of traits
free_traits return no_types false = refl
free_traits return no_types true = refl
free_traits return (types t ts) false = refl
free_traits return (types t ts) true = refl

pointer_traits :
    (return : CType) (arguments : CTypes) (n : Bool)
    → HasTraits return arguments none
        (function_traits_of (pointer (function return arguments unqualified n)))
unfolding function_traits_of traits
pointer_traits return no_types false = refl
pointer_traits return no_types true = refl
pointer_traits return (types t ts) false = refl
pointer_traits return (types t ts) true = refl

member_traits :
    (return : CType) (this : CType) (arguments : CTypes) (n : Bool)
    → HasTraits return arguments
        (some this)
        (function_traits_of (member_pointer this (function return arguments unqualified n)))
unfolding function_traits_of traits
member_traits return this no_types false = refl
member_traits return this no_types true = refl
member_traits return this (types t ts) false = refl
member_traits return this (types t ts) true = refl

const_member_traits :
    (return : CType) (this : CType) (arguments : CTypes) (n : Bool)
    → HasTraits return arguments
        (some this)
        (function_traits_of (member_pointer this (function return arguments const_function n)))
unfolding function_traits_of traits
const_member_traits return this no_types false = refl
const_member_traits return this no_types true = refl
const_member_traits return this (types t ts) false = refl
const_member_traits return this (types t ts) true = refl

-- The class whose member a callable type is, if it is one's.
abbrev pub class_of :
    {members : ℕ → CTypes → Members} {return : CType} {arguments : CTypes} {t : CType}
    → IsCallable members return arguments t
    → Option CType
class_of (free n) = none
class_of (by_pointer n) = none
class_of (member this n) = some this
class_of (const_member this n) = some this
class_of (object template inner n e) = some (class_type template inner)
class_of (const_object template inner n e) = some (class_type template inner)

module _ (members : ℕ → CTypes → Members) (return : CType) (arguments : CTypes) where
  callable_traits :
      (t : CType) (c : IsCallable members return arguments t)
      → HasTraits return arguments (class_of c) (function_traits members t)
  unfolding function_traits
  callable_traits _ (free n) = free_traits return arguments n
  callable_traits _ (by_pointer n) = pointer_traits return arguments n
  callable_traits _ (member this n) = member_traits return this arguments n
  callable_traits _ (const_member this n) = const_member_traits return this arguments n
  callable_traits _ (object template inner n e) =
      rw e (member_traits return (class_type template inner) arguments n)
  callable_traits _ (const_object template inner n e) =
      rw e (const_member_traits return (class_type template inner) arguments n)

  pub function_parameters-IsCallable :
      (awaitable : ℕ) (f t : CType)
      → remove_cvref f ≡ t
      → (c : IsCallable members return arguments t)
      → (function_parameters members f ≡ some (map remove_cvref (list_of arguments)))
        × (function_return_type members f ≡ some return)
        × (function_class_type members f ≡ class_of c)
        × (call_result_type members awaitable f ≡ return_type_t members awaitable return)
  unfolding function_parameters function_return_type function_class_type call_result_type
  function_parameters-IsCallable awaitable f t e c =
      let told = callable_traits t c in
      rw e (
        ap (Option.map (λ r. r.parameters_type)) told,
        ap (Option.map (λ r. r.return_type)) told,
        ap (λ o. and_then o (λ r. r.class_type_of)) told,
        ap (λ o. and_then (Option.map (λ r. r.return_type) o) (return_type_t members awaitable))
            told,
      )

  -- The result's type of a call, for a function that is no coroutine.
  call_result_type_plain :
      (awaitable : ℕ) (f t : CType)
      → remove_cvref f ≡ t
      → IsCallable members return arguments t
      → call_result_type members awaitable f ≡ return_type_t members awaitable return
  call_result_type_plain awaitable f t e c = (function_parameters-IsCallable awaitable f t e c).3

  not_awaitable :
      (awaitable : ℕ)
      → is_awaitable awaitable return ≡ false
      → return_type_t members awaitable return ≡ some return
  unfolding return_type_t
  not_awaitable awaitable h = rw h

-- A caller gets the same type of result from a function and from the coroutine that awaits it.
pub call_result_type-coroutine :
    (members : ℕ → CTypes → Members) (result : CType) (arguments : CTypes) (awaitable : ℕ)
    (f g t u : CType)
    → (members awaitable (types result no_types)).value_type ≡ some result
    → is_awaitable awaitable result ≡ false
    → remove_cvref f ≡ t
    → IsCallable members result arguments t
    → remove_cvref g ≡ u
    → IsCallable members (class_type awaitable (types result no_types)) arguments u
    → (call_result_type members awaitable f ≡ some result)
      × (call_result_type members awaitable g ≡ some result)
call_result_type-coroutine members result arguments awaitable f g t u v plain e c d w = (
  call_result_type_plain members result arguments awaitable f t e c
      ∙ not_awaitable members result arguments awaitable plain,
  call_result_type_plain members (class_type awaitable (types result no_types)) arguments awaitable
        g u d w
      ∙ awaited,
)
  where
    awaited :
        return_type_t members awaitable (class_type awaitable (types result no_types)) ≡ some result
    awaited =
        unfold return_type_t is_awaitable is_specialization remove_cvref remove_cv remove_reference
          members_of in
        rw (==_refl awaitable) v
