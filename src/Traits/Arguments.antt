-- ===== src/Traits/Arguments.antt =====
-- `is_basic_v` of include/rest_rpc/traits.h on both sides of a call: on the types of a function's
-- parameters, by which the server reads, and on those of the arguments, by which the client writes.
use rest_rpc.Base.{
  ℕ, ◌≡◌, refl, ap, sym, ◌∙◌, arith, Bool, true, false, if◌then◌else◌, ◌&&◌, ◌||◌, some, Bool-cases,
  inl, inr,
}
use rest_rpc.Base.Map.{is_some}
use rest_rpc.Base.Integers.{IntegerType}
use rest_rpc.Codec.{Kind, integer, textual, other, TextKind, char_array}
use rest_rpc.Codec
use rest_rpc.Client.Arguments.{is_basic_argument}
use rest_rpc.Traits.{
  CType, CTypes, Fundamental, char, fundamental, qualified, lvalue_reference, rvalue_reference,
  pointer, array, function, member_pointer, class_type, Members, no_members, remove_cv,
  remove_reference, remove_cvref, remove_extent, is_fundamental, is_array, is_char, is_string,
  is_container, is_char_array, is_char_array_ref, is_basic, members_of, is_value_char,
}

-- No reference, `const` or not.
unfoldable pub is_object : CType → Bool
is_object (lvalue_reference t) = false
is_object (rvalue_reference t) = false
is_object (qualified c v t) = is_object t
is_object t = true

-- A type of C++: a reference is not to a reference, and has no qualifier.
unfoldable pub is_type : CType → Bool
is_type (lvalue_reference t) = is_object t
is_type (rvalue_reference t) = is_object t
is_type t = is_object t

remove_cv-object : (t : CType) → is_object t ≡ true → remove_reference (remove_cv t) ≡ remove_cv t
unfolding is_object remove_cv remove_reference
remove_cv-object (fundamental f) h = refl
remove_cv-object (qualified c v t) h = remove_cv-object t h
remove_cv-object (lvalue_reference t) h = ground arith
remove_cv-object (rvalue_reference t) h = ground arith
remove_cv-object (pointer t) h = refl
remove_cv-object (array n t) h = refl
remove_cv-object (function r a q n) h = refl
remove_cv-object (member_pointer c t) h = refl
remove_cv-object (class_type i a) h = refl

remove_cv-remove_cv : (t : CType) → remove_cv (remove_cv t) ≡ remove_cv t
unfolding remove_cv
remove_cv-remove_cv (fundamental f) = refl
remove_cv-remove_cv (qualified c v t) = remove_cv-remove_cv t
remove_cv-remove_cv (lvalue_reference t) = refl
remove_cv-remove_cv (rvalue_reference t) = refl
remove_cv-remove_cv (pointer t) = refl
remove_cv-remove_cv (array n t) = ap (array n) (remove_cv-remove_cv t)
remove_cv-remove_cv (function r a q n) = refl
remove_cv-remove_cv (member_pointer c t) = refl
remove_cv-remove_cv (class_type i a) = refl

remove_cvref-object :
    (t : CType) → is_type t ≡ true → remove_reference (remove_cvref t) ≡ remove_cvref t
unfolding is_type remove_cvref remove_reference is_object remove_cv
remove_cvref-object (fundamental f) h = refl
remove_cvref-object (qualified c v t) h = remove_cv-object (qualified c v t) h
remove_cvref-object (lvalue_reference t) h = remove_cv-object t h
remove_cvref-object (rvalue_reference t) h = remove_cv-object t h
remove_cvref-object (pointer t) h = refl
remove_cvref-object (array n t) h = refl
remove_cvref-object (function r a q n) h = refl
remove_cvref-object (member_pointer c t) h = refl
remove_cvref-object (class_type i a) h = refl

-- A parameter's type, as the server has it, is neither a reference nor qualified.
pub remove_cvref-remove_cvref :
    (t : CType) → is_type t ≡ true → remove_cvref (remove_cvref t) ≡ remove_cvref t
unfolding remove_cvref
remove_cvref-remove_cvref t h =
    ap remove_cv (remove_cvref-object t h) ∙ remove_cv-remove_cv (remove_reference t)

-- What a forwarding reference `Args &&` makes of an argument: an lvalue is taken by reference.
abbrev pub deduced : Bool → CType → CType
deduced is_lvalue t = if is_lvalue then lvalue_reference t else t

abbrev string_members : Members → Bool
string_members m =
    (is_some m.value_type && m.has_size && m.has_begin && m.has_end)
    && is_value_char m.value_type
    && m.has_length
    && m.has_data

abbrev array_of_char : CType → Bool
array_of_char t = is_array t && is_char (remove_extent (remove_cv t))

-- A fundamental type is no array, and has no members.
fundamental_array : (t : CType) → is_fundamental t ≡ true → array_of_char t ≡ false
unfolding is_fundamental is_array
fundamental_array (fundamental f) h = refl
fundamental_array (qualified c v t) h = refl
fundamental_array (lvalue_reference t) h = ground arith
fundamental_array (rvalue_reference t) h = ground arith
fundamental_array (pointer t) h = ground arith
fundamental_array (array n t) h = ground arith
fundamental_array (function r a q n) h = ground arith
fundamental_array (member_pointer c t) h = ground arith
fundamental_array (class_type i a) h = ground arith

module _ (members : ℕ → CTypes → Members) where
  fundamental_members :
      (t : CType) → is_fundamental t ≡ true → members_of members (remove_cv t) ≡ no_members
  unfolding is_fundamental members_of remove_cv
  fundamental_members (fundamental f) h = refl
  fundamental_members (qualified c v t) h = fundamental_members t h
  fundamental_members (lvalue_reference t) h = ground arith
  fundamental_members (rvalue_reference t) h = ground arith
  fundamental_members (pointer t) h = ground arith
  fundamental_members (array n t) h = ground arith
  fundamental_members (function r a q n) h = ground arith
  fundamental_members (member_pointer c t) h = ground arith
  fundamental_members (class_type i a) h = ground arith

  -- What the test asks of a type that is no reference, behind a reference or not.
  abbrev basic_of : Bool → CType → Bool
  basic_of is_arithmetic t =
      is_arithmetic
      || string_members (members_of members (remove_cv t))
      || array_of_char t
      || array_of_char t

  is_basic_lvalue : (t : CType) → is_basic members (lvalue_reference t) ≡ basic_of false t
  unfolding is_basic is_fundamental is_string is_container is_char_array is_char_array_ref
      remove_cvref remove_reference
  is_basic_lvalue t = refl

  is_basic_object :
      (t : CType) → remove_reference t ≡ t → is_basic members t ≡ basic_of (is_fundamental t) t
  unfolding is_basic is_string is_container is_char_array is_char_array_ref remove_cvref
  is_basic_object t e =
      ap
        (λ u.
          is_fundamental t
          || string_members (members_of members (remove_cv u))
          || (is_array u && is_char (remove_extent (remove_cv u)))
          || (is_array u && is_char (remove_extent (remove_cv u))))
        e

  -- An argument is packed as its parameter's type asks unless it is an lvalue of a fundamental
  -- type: this is not packed as a basic value, although the server unpacks it as one.
  pub is_basic-deduced :
      (is_lvalue : Bool) (t : CType)
      → remove_reference t ≡ t
      → is_basic members (deduced is_lvalue t)
        ≡ (if is_lvalue && is_fundamental t then false else is_basic members t)
  is_basic-deduced false t e = refl
  is_basic-deduced true t e = elim (Bool-cases (is_fundamental t)) [
    | inl f ↦ is_basic_lvalue t ∙ rw (f, fundamental_array t f, fundamental_members t f)
    | inr f ↦ is_basic_lvalue t ∙ sym (rw f (is_basic_object t e ∙ rw f))
  ]

  -- The types behind the codec's kinds: a fundamental type, a type with a string's members, an array
  -- of `char`, and a class without a string's members.
  pub data IsTypeOf : Kind → CType → Type 0 where
    integer_type : (i : IntegerType) (f : Fundamental) → IsTypeOf (integer i) (fundamental f)
    string_type :
        (k : TextKind) (template : ℕ) (inner : CTypes)
        → is_string members (class_type template inner) ≡ true
        → IsTypeOf (textual k) (class_type template inner)
    char_array_type : (n : ℕ) → IsTypeOf (textual char_array) (array (some n) (fundamental char))
    other_type :
        (id template : ℕ) (inner : CTypes)
        → is_string members (class_type template inner) ≡ false
        → IsTypeOf (other id) (class_type template inner)

  kind_basic :
      (k : Kind) (t : CType)
      → IsTypeOf k t
      → (remove_reference t ≡ t) × (Codec.is_basic k ≡ is_basic members t)
  unfolding Codec.is_basic is_basic is_fundamental is_char_array is_char_array_ref is_array is_char
      remove_reference remove_extent remove_cvref remove_cv is_string is_container members_of
  kind_basic _ _ (integer_type i f) = (refl, refl)
  kind_basic _ _ (string_type k template inner e) = (refl, sym (rw e))
  kind_basic _ _ (char_array_type n) = (refl, refl)
  kind_basic _ _ (other_type id template inner e) = (refl, sym (rw e))

  argument_basic :
      (is_lvalue : Bool) (k : Kind) (t : CType)
      → IsTypeOf k t
      → is_basic_argument is_lvalue k
        ≡ (if is_lvalue && is_fundamental t then false else Codec.is_basic k)
  unfolding is_basic_argument is_fundamental Codec.is_basic
  argument_basic false k t w = refl
  argument_basic true _ _ (integer_type i f) = refl
  argument_basic true _ _ (string_type k template inner e) = refl
  argument_basic true _ _ (char_array_type n) = refl
  argument_basic true _ _ (other_type id template inner e) = refl

  -- The codec's test on a kind is `is_basic_v` of its types, as a parameter has them and as an
  -- argument does.
  pub is_basic_argument-IsTypeOf :
      (is_lvalue : Bool) (k : Kind) (t : CType)
      → IsTypeOf k t
      → (Codec.is_basic k ≡ is_basic members t)
        × (is_basic_argument is_lvalue k ≡ is_basic members (deduced is_lvalue t))
  is_basic_argument-IsTypeOf is_lvalue k t w =
      let facts = kind_basic k t w in
      (
        facts.1,
        argument_basic is_lvalue k t w
            ∙ ap (λ b. if is_lvalue && is_fundamental t then false else b) facts.1
            ∙ sym (is_basic-deduced is_lvalue t facts.0),
      )
