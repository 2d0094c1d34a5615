-- ===== src/FunctionName/Names.antt =====
-- The names that include/rest_rpc/function_name.h makes of what it has cut out, without a result's
-- type, a calling convention and the parameters.
use rest_rpc.Base.{
  ℕ, suc, ◌+◌, ◌<◌, ◌≡◌, refl, ap, sym, ◌∙◌, arith, ◌==◌, [], ◌∷◌, ◌++◌, none, some, length,
  ne→==_false, length-append, Bool-cases, inl, inr,
}
use mathlib.Core.List.{append_assoc}
use mathlib.Core.Option
use rest_rpc.Base.Text.{codes}
use rest_rpc.Base.Views.{
  npos, add_size, sub_size, find, substr, substr_part, substr_rest, first_at, last_at, first_at_one,
  first_at_one-append, starts_with,
}
use rest_rpc.Router.{Text}
use rest_rpc.FunctionName.{Compiler, anonymous_namespace, anonymous_name, declared_name, name_in}
use rest_rpc.FunctionName.Cutting.{add_size-small, sub_size-small}

abbrev pub parenthesis : Text
parenthesis = codes "("

pub declared_name_plain :
    (name : Text) → first_at parenthesis name ≡ none → declared_name name ≡ some name
unfolding declared_name
declared_name_plain name h = elim (Bool-cases (add_size (find name (codes "l ")) 2 == npos)) [
  | inl e ↦ rw e
  | inr e ↦ rw (e, h)
]

no_parenthesis :
    (name : Text) → first_at parenthesis name ≡ none → first_at parenthesis (108 ∷ 32 ∷ name) ≡ none
unfolding first_at starts_with
no_parenthesis name h = ap (λ o. Option.map suc (Option.map suc o)) h

-- A result's type up to the "l " that ends it or its calling convention, a name and parameters.
abbrev pub declaration : Text → Text → Text → Text
declaration lead name args = lead ++ (108 ∷ 32 ∷ (name ++ (40 ∷ args)))

parameters_at :
    (lead name args : Text)
    → first_at parenthesis lead ≡ none
    → first_at parenthesis name ≡ none
    → first_at parenthesis (declaration lead name args)
      ≡ some (length lead + suc (suc (length name)))
parameters_at lead name args l n =
    ap (first_at parenthesis) (sym (append_assoc lead (108 ∷ 32 ∷ name) (40 ∷ args)))
    ∙ first_at_one 40 (lead ++ (108 ∷ 32 ∷ name)) args
        (first_at_one-append 40 lead (108 ∷ 32 ∷ name) l (no_parenthesis name n))
    ∙ ap some (length-append lead (108 ∷ 32 ∷ name))

declared_at :
    (s : Text) (i j : ℕ)
    → first_at (codes "l ") s ≡ some i
    → first_at parenthesis s ≡ some j
    → i + 2 < npos
    → j < npos
    → declared_name s ≡ substr s (i + 2) (sub_size j (i + 2))
unfolding declared_name
declared_at s i j e f hi hj = rw (
  e,
  f,
  add_size-small i 2 (omega arith),
  ne→==_false (i + 2) npos (λ x. omega arith),
  ne→==_false j npos (λ x. omega arith),
)

pub declared_name_typed :
    (lead name args : Text)
    → first_at (codes "l ") (declaration lead name args) ≡ some (length lead)
    → first_at parenthesis lead ≡ none
    → first_at parenthesis name ≡ none
    → length (declaration lead name args) < npos
    → declared_name (declaration lead name args) ≡ some name
declared_name_typed lead name args e l n fits =
    let sizes : length (declaration lead name args)
        ≡ length lead + suc (suc (length name + suc (length args))) =
      omega (
        arith,
        length-append lead (108 ∷ 32 ∷ (name ++ (40 ∷ args))),
        length-append name (40 ∷ args),
      ) in
    declared_at (declaration lead name args) (length lead) (length lead + suc (suc (length name))) e
      (parameters_at lead name args l n) (omega arith) (omega arith)
    ∙ substr_part (declaration lead name args) (lead ++ codes "l ") name (40 ∷ args) _ _
        (sym (append_assoc lead (codes "l ") (name ++ (40 ∷ args))))
        (sym (length-append lead (codes "l ")))
        (sub_size-small _ (length lead + 2) (length name) (omega arith) (omega arith))

-- A name in an anonymous namespace, with its parameters or without.
pub anonymous_name_plain :
    (name : Text) → first_at parenthesis name ≡ none → anonymous_name (some name) ≡ some name
unfolding anonymous_name
anonymous_name_plain name h = rw h

pub anonymous_name_typed :
    (name args : Text)
    → first_at parenthesis name ≡ none
    → length name < npos
    → anonymous_name (some (name ++ (40 ∷ args))) ≡ some name
unfolding anonymous_name
anonymous_name_typed name args h fits =
    rw (first_at_one 40 name args h, ne→==_false (length name) npos (λ x. omega arith))
      (substr_part (name ++ (40 ∷ args)) [] name (40 ∷ args) 0 (length name) refl refl refl)

-- `name_in` without the token of an anonymous namespace, and with it.
pub named_declared :
    (c : Compiler) (result : Text)
    → last_at (anonymous_namespace c) result ≡ none
    → name_in c (some result) ≡ declared_name result
unfolding name_in
named_declared c result h = rw h

pub named_anonymous :
    (c : Compiler) (before rest : Text)
    → last_at (anonymous_namespace c) (before ++ (anonymous_namespace c ++ rest))
      ≡ some (length before)
    → length (before ++ (anonymous_namespace c ++ rest)) < npos
    → name_in c (some (before ++ (anonymous_namespace c ++ rest))) ≡ anonymous_name (some rest)
unfolding name_in
named_anonymous c before rest h fits =
    let anonymous = anonymous_namespace c in
    let sizes : length (before ++ (anonymous ++ rest))
        ≡ length before + (length anonymous + length rest) =
      omega (arith, length-append before (anonymous ++ rest), length-append anonymous rest) in
    rw (h, ne→==_false (length before) npos (λ x. omega arith))
      (ap anonymous_name (
        substr_rest (before ++ (anonymous ++ rest)) (before ++ anonymous) rest _ npos
          (sym (append_assoc before anonymous rest))
          (add_size-small (length before) (length anonymous) (omega arith)
            ∙ sym (length-append before anonymous))
          (omega arith)))

-- Without an "l ", the sum of `npos` and 2 is 1.
pub declared_name_untyped :
    (name args : Text) (first : ℕ)
    → first_at (codes "l ") (first ∷ (name ++ (40 ∷ args))) ≡ none
    → first_at parenthesis (first ∷ name) ≡ none
    → length (first ∷ (name ++ (40 ∷ args))) < npos
    → declared_name (first ∷ (name ++ (40 ∷ args))) ≡ some name
unfolding declared_name
declared_name_untyped name args first e p fits =
    let whole = first ∷ (name ++ (40 ∷ args)) in
    let size : suc (length name) < npos = omega (arith, length-append name (40 ∷ args)) in
    rw
      (
        e,
        first_at_one 40 (first ∷ name) args p,
        ne→==_false (suc (length name)) npos (λ x. omega arith),
      )
      (substr_part whole (first ∷ []) name (40 ∷ args) 1 _ refl refl
        (sub_size-small (suc (length name)) 1 (length name) (omega arith) (omega arith)))
