-- ===== src/ErrorCode/Laws.antt =====
-- Laws of include/rest_rpc/error_code.h.
use native.Mathlib.Nat.{zero-add}
use rest_rpc.Base.{
  ℕ, zero, suc, ◌+◌, ◌≤◌, ◌<◌, ◌≡◌, refl, sym, ap, ◌∙◌, arith, List, [], ◌∷◌, subst, true, ==_iff,
  get_or, get_or_above, ==_refl,
}
use rest_rpc.Base.Words.{u8}
use rest_rpc.ErrorCode.{
  RpcErrc, unnamed, errc_value, errc_of_value, text_of, message, make_error_code, eq_errc, named,
  Category,
}

-- What a cast from a byte gives: a named value, or a byte above the named ones.
abbrev pub IsErrc : RpcErrc → Type 0
IsErrc (unnamed b) = (17 ≤ b) × (b < 256)
IsErrc _ = Unit {0}

-- The byte that the server writes for a code is read back as that code.
pub errc_of_value-errc_value : (e : RpcErrc) → IsErrc e → errc_of_value (errc_value e) ≡ e
unfolding errc_of_value errc_value
errc_of_value-errc_value (unnamed b) h =
    let fits : u8 b ≡ b = omega arith in rw fits (get_or_above named b (unnamed b) h.0)
errc_of_value-errc_value _ h = refl

-- The codes of a list have consecutive values from `k` on.
abbrev IsNumbered : ℕ → List RpcErrc → Type 0
IsNumbered k [] = Unit
IsNumbered k (e ∷ es) = (errc_value e ≡ k) × IsNumbered (suc k) es

errc_value-get_or :
    (es : List RpcErrc) (k i : ℕ)
    → IsNumbered k es
    → errc_value (get_or es i (unnamed (k + i))) ≡ k + i
unfolding errc_value
errc_value-get_or [] k i h = refl
errc_value-get_or (e ∷ es) k zero h = omega (arith, h.0)
errc_value-get_or (e ∷ es) k (suc i) h =
    let next : suc k + i ≡ k + suc i = omega arith in
    subst (λ j. errc_value (get_or es i (unnamed j)) ≡ j) next (errc_value-get_or es (suc k) i h.1)

-- Every byte is the value of the code that it is cast to.
pub errc_value-errc_of_value : (b : ℕ) → b < 256 → errc_value (errc_of_value b) ≡ b
unfolding errc_of_value errc_value
errc_value-errc_of_value b h =
    let fits : u8 b ≡ b = omega arith in
    rw fits (rw zero-add at (errc_value-get_or named 0 b (unfold errc_value in omega arith)))

-- Comparing the `std::error_code` made from a code with a code tells whether the two are one.
pub eq_errc-make_error_code :
    (a b : RpcErrc) → IsErrc a → IsErrc b → eq_errc (make_error_code a) b ≡ true → a ≡ b
unfolding eq_errc make_error_code
eq_errc-make_error_code a b p q h =
    sym (errc_of_value-errc_value a p)
    ∙ ap errc_of_value ((==_iff (errc_value a) (errc_value b)).0 h)
    ∙ errc_of_value-errc_value b q

-- The comparison looks at the value alone: an error of any category whose number is a code's
-- compares equal to that code.
pub eq_errc_any_category :
    (c : Category) (e : RpcErrc) → eq_errc (record { value = errc_value e; category = c }) e ≡ true
unfolding eq_errc
eq_errc_any_category c e = ==_refl (errc_value e)

-- The message of the number of a code is that code's text, so that every code keeps its text on
-- the way through an `int`.
pub message-errc_value : (e : RpcErrc) → IsErrc e → message (errc_value e) ≡ text_of e
unfolding message
message-errc_value e h = ap text_of (errc_of_value-errc_value e h)
