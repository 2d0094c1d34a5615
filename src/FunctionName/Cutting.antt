-- ===== src/FunctionName/Cutting.antt =====
-- What include/rest_rpc/function_name.h cuts out of a compiler's text.
use rest_rpc.Base.{
  ℕ, ◌+◌, ◌^◌, ◌<◌, ◌≡◌, ◌≢◌, ◌⊎◌, inl, inr, sym, refl, ap, ap₂, ◌∙◌, arith, [], ◌∷◌, ◌++◌, some,
  length, get_elem?, ne→==_false, length-append,
}
use mathlib.Core.List.{append_assoc}
use rest_rpc.Base.Views.{
  npos, add_size, sub_size, find, substr_part, first_at, or_npos, get_elem?-append, first_at-le,
}
use rest_rpc.Router.{Text}
use rest_rpc.FunctionName.{
  Compiler, msvc, clang, gcc, suffix_size, keyword, additional_size, trimmed, intermediate,
}

-- Where the parts of a compiler's text lie: what stands before the keyword's first place, a
-- reference's sign or nothing, the function, and what the compiler closes with.
pub record IsSignature (c : Compiler) (signature body : Text) : Type 0 where
  pub before : Text
  pub sign : Text
  pub first : ℕ
  pub rest : Text
  pub after : Text
  pub body_eq : body ≡ first ∷ rest
  pub parts : signature ≡ (before ++ keyword c) ++ (sign ++ (body ++ after))
  pub keyword_first : first_at (keyword c) signature ≡ some (length before)
  pub after_length : length after ≡ suffix_size c
  pub sign_or_none : (sign ≡ 38 ∷ []) ⊎ ((sign ≡ []) × (first ≢ 38))
  pub fits : length signature < 2 ^ 64

pub add_size-small : (a b : ℕ) → a + b < 2 ^ 64 → add_size a b ≡ a + b
add_size-small a b h = omega arith

pub sub_size-small : (a b c : ℕ) → a ≡ b + c → a < 2 ^ 64 → sub_size a b ≡ c
sub_size-small a b c e h = omega arith

-- The function in the text, from where the keyword ends.
trimmed_signed :
    (c : Compiler) (signature head sign body after : Text) (first n : ℕ)
    → signature ≡ head ++ (sign ++ (body ++ after))
    → additional_size first ≡ length sign
    → length after ≡ suffix_size c
    → n ≡ length head
    → length signature < 2 ^ 64
    → trimmed c signature n (some first) ≡ some body
unfolding trimmed
trimmed_signed c signature head sign body after first n e s a n_eq h =
    let sizes : length signature ≡ n + (additional_size first + (length body + suffix_size c)) =
      omega (
        arith,
        ap length e,
        length-append head (sign ++ (body ++ after)),
        length-append sign (body ++ after),
        length-append body after,
      ) in
    substr_part signature (head ++ sign) body after _ _
      (e ∙ sym (append_assoc head sign (body ++ after)))
      (add_size-small n (additional_size first) (omega (arith, sizes))
        ∙ ap₂ (◌+◌) n_eq s
        ∙ sym (length-append head sign))
      (ap (λ m. sub_size m (suffix_size c))
          (ap (λ m. sub_size m (additional_size first))
              (sub_size-small (length signature) n
                (additional_size first + (length body + suffix_size c)) (omega (arith, sizes)) h)
            ∙ sub_size-small _ (additional_size first) (length body + suffix_size c) refl
                (omega (arith, sizes)))
        ∙ sub_size-small _ (suffix_size c) (length body) (omega arith) (omega (arith, sizes)))

first_of :
    (signature head sign rest after body : Text) (first : ℕ)
    → signature ≡ head ++ (sign ++ (body ++ after))
    → body ≡ first ∷ rest
    → ((sign ≡ 38 ∷ []) ⊎ ((sign ≡ []) × (first ≢ 38)))
    → (c : ℕ) × (get_elem? signature (length head) ≡ some c) × (additional_size c ≡ length sign)
first_of signature head sign rest after body first e b (inl p) = (
  38,
  ap (λ s. get_elem? s (length head)) (e ∙ ap (λ s. head ++ (s ++ (body ++ after))) p)
      ∙ get_elem?-append head (body ++ after) 38,
  sym (ap length p),
)
first_of signature head sign rest after body first e b (inr (p, ne)) = (
  first,
  ap (λ s. get_elem? s (length head)) (e ∙ ap₂ (λ s r. head ++ (s ++ (r ++ after))) p b)
      ∙ get_elem?-append head (rest ++ after) first,
  rw (ne→==_false first 38 ne, p),
)

-- The function is found between the text that the compiler puts around it.
pub intermediate-IsSignature :
    (c : Compiler) (signature body : Text)
    → IsSignature c signature body
    → intermediate c signature ≡ some body
unfolding intermediate
intermediate-IsSignature c signature body w =
    let head = w.before ++ keyword c in
    let at : add_size (find signature (keyword c)) (length (keyword c)) ≡ length head =
      ap (λ o. add_size (or_npos o) (length (keyword c))) w.keyword_first
      ∙ add_size-small (length w.before) (length (keyword c)) (
          omega
            (arith, first_at-le (keyword c) signature (length w.before) w.keyword_first, w.fits))
      ∙ sym (length-append w.before (keyword c)) in
    let found =
      first_of signature head w.sign w.rest w.after body w.first w.parts w.body_eq w.sign_or_none in
    ap₂ (trimmed c signature) refl (ap (get_elem? signature) at ∙ found.1)
    ∙ trimmed_signed c signature head w.sign body w.after found.0 _ w.parts found.2 w.after_length
        at w.fits

pub body-lt :
    (c : Compiler) (signature body : Text) → IsSignature c signature body → length body < npos
body-lt c signature body w = omega (
  arith,
  w.fits,
  ap length w.parts,
  length-append (w.before ++ keyword c) (w.sign ++ (body ++ w.after)),
  length-append w.sign (body ++ w.after),
  length-append body w.after,
  w.after_length,
  suffix_size-pos c,
)
  where
    suffix_size-pos : (c : Compiler) → 0 < suffix_size c
    suffix_size-pos msvc = omega arith
    suffix_size-pos clang = omega arith
    suffix_size-pos gcc = omega arith
