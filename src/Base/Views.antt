-- ===== src/Base/Views.antt =====
-- `std::string_view` on the bytes of a text: `find`, `rfind` and `substr` with `npos`, and the sums
-- and differences of a `size_t`.
use Prim.Native.Nat.{ℕ, zero, suc, ◌+◌, ◌-◌, ◌%◌, ◌^◌, ◌≤◌}
use mathlib.Core.Path.{◌≡◌, refl, ap}
use mathlib.Core.Logic.{inl, inr}
use mathlib.Core.Bool.{Bool, true, false, ◌&&◌}
use mathlib.Core.List.{List, [], ◌∷◌, ◌++◌}
use mathlib.Core.Option.{Option, none, some}
use mathlib.Core.Option
use native.Mathlib.Omega.{arith}
use rest_rpc.Base.Tests.{◌==◌, ltb, if◌then◌else◌, ==_refl, Option-cases, Bool-cases, le→ltb_false}
use rest_rpc.Base.Lists.{length, get_elem?, take, drop, length-append, take-append, drop-append}

abbrev pub npos : ℕ
npos = 2 ^ 64 - 1

-- `a + b` and `a - b` on a `size_t`.
abbrev pub add_size : ℕ → ℕ → ℕ
add_size a b = (a + b) % 2 ^ 64

abbrev pub sub_size : ℕ → ℕ → ℕ
sub_size a b = (a + 2 ^ 64 - b) % 2 ^ 64

unfoldable pub starts_with : List ℕ → List ℕ → Bool
starts_with s [] = true
starts_with [] (p ∷ pattern) = false
starts_with (c ∷ s) (p ∷ pattern) = (c == p) && starts_with s pattern

-- Where a pattern stands first, and last.
unfoldable pub first_at : List ℕ → List ℕ → Option ℕ
first_at pattern [] = if starts_with [] pattern then some 0 else none
first_at pattern (c ∷ s) =
    if starts_with (c ∷ s) pattern then some 0 else Option.map suc (first_at pattern s)

last_here : Bool → Option ℕ → Option ℕ
last_here here (some i) = some (suc i)
last_here here none = if here then some 0 else none

unfoldable pub last_at : List ℕ → List ℕ → Option ℕ
unfolding last_here
last_at pattern [] = if starts_with [] pattern then some 0 else none
last_at pattern (c ∷ s) = last_here (starts_with (c ∷ s) pattern) (last_at pattern s)

abbrev pub or_npos : Option ℕ → ℕ
or_npos none = npos
or_npos (some i) = i

abbrev pub find : List ℕ → List ℕ → ℕ
find s pattern = or_npos (first_at pattern s)

abbrev pub rfind : List ℕ → List ℕ → ℕ
rfind s pattern = or_npos (last_at pattern s)

-- `substr`, which throws if it is to start behind the end.
unfoldable pub substr : List ℕ → ℕ → ℕ → Option (List ℕ)
substr s pos n = if ltb (length s) pos then none else some (take n (drop pos s))

-- `==` of two strings.
unfoldable pub same_text : List ℕ → List ℕ → Bool
same_text [] [] = true
same_text (c ∷ s) (d ∷ t) = (c == d) && same_text s t
same_text s t = false

pub same_text-length : (s t : List ℕ) → same_text s t ≡ true → length s ≡ length t
unfolding same_text
same_text-length [] [] h = refl
same_text-length (c ∷ s) [] h = ground arith
same_text-length [] (d ∷ t) h = ground arith
same_text-length (c ∷ s) (d ∷ t) h = ground (arith, same_text-length s t)

pub starts_with-append : (pattern s : List ℕ) → starts_with (pattern ++ s) pattern ≡ true
unfolding starts_with
starts_with-append [] s = refl
starts_with-append (p ∷ pattern) s = ground (arith, ==_refl p, starts_with-append pattern s)

-- A text of one byte stands first where it stands at all.
pub first_at_one :
    (c : ℕ) (s t : List ℕ)
    → first_at (c ∷ []) s ≡ none
    → first_at (c ∷ []) (s ++ (c ∷ t)) ≡ some (length s)
unfolding first_at starts_with
first_at_one c [] t h = ground arith
first_at_one c (d ∷ s) t h = ground (arith, first_at_one c s t)

pub first_at_one-append :
    (c : ℕ) (s t : List ℕ)
    → first_at (c ∷ []) s ≡ none
    → first_at (c ∷ []) t ≡ none
    → first_at (c ∷ []) (s ++ t) ≡ none
unfolding first_at starts_with
first_at_one-append c [] t h g = g
first_at_one-append c (d ∷ s) t h g = ground (arith, first_at_one-append c s t)

pub starts_with-le : (s pattern : List ℕ) → starts_with s pattern ≡ true → length pattern ≤ length s
unfolding starts_with
starts_with-le s [] h = omega arith
starts_with-le [] (p ∷ pattern) h = ground arith
starts_with-le (c ∷ s) (p ∷ pattern) h = ground (arith, starts_with-le s pattern)

pub first_at-le :
    (pattern s : List ℕ) (i : ℕ) → first_at pattern s ≡ some i → i + length pattern ≤ length s
unfolding first_at starts_with
first_at-le pattern [] i h = ground (arith, starts_with-le [] pattern)
first_at-le pattern (c ∷ s) i h = elim (Option-cases (first_at pattern s)) [
  | inl e ↦ ground (arith, ap (Option.map suc) e, starts_with-le (c ∷ s) pattern)
  | inr (j, e) ↦
      ground
        (arith, ap (Option.map suc) e, starts_with-le (c ∷ s) pattern, first_at-le pattern s j e)
]

pub get_elem?-append : (s t : List ℕ) (c : ℕ) → get_elem? (s ++ (c ∷ t)) (length s) ≡ some c
get_elem?-append [] t c = refl
get_elem?-append (d ∷ s) t c = get_elem?-append s t c

-- What stands between two other texts.
pub substr_middle : (a b c : List ℕ) → substr (a ++ (b ++ c)) (length a) (length b) ≡ some b
unfolding substr
substr_middle a b c = rw (
  le→ltb_false (length a) (length (a ++ (b ++ c))) (omega (arith, length-append a (b ++ c))),
  drop-append a (b ++ c),
  take-append b c,
)

pub substr_part :
    (s a b c : List ℕ) (i n : ℕ)
    → s ≡ a ++ (b ++ c)
    → i ≡ length a
    → n ≡ length b
    → substr s i n ≡ some b
substr_part s a b c i n e p q = rw (e, p, q) (substr_middle a b c)

take_all : (n : ℕ) (s : List ℕ) → length s ≤ n → take n s ≡ s
take_all zero [] h = refl
take_all zero (c ∷ s) h = absurd (omega arith)
take_all (suc n) [] h = refl
take_all (suc n) (c ∷ s) h = ap (◌∷◌ c) (take_all n s (omega arith))

-- What stands behind another text.
pub substr_rest :
    (s a b : List ℕ) (i n : ℕ) → s ≡ a ++ b → i ≡ length a → length b ≤ n → substr s i n ≡ some b
unfolding substr
substr_rest s a b i n e p h = rw (
  e,
  p,
  le→ltb_false (length a) (length (a ++ b)) (omega (arith, length-append a b)),
  drop-append a b,
  take_all n b h,
)

-- A view begins with another where it finds it at 0.
pub find-eq_0 : (s pattern : List ℕ) → (find s pattern == 0) ≡ starts_with s pattern
unfolding first_at
find-eq_0 [] pattern = elim (Bool-cases (starts_with [] pattern)) [ inl e ↦ rw e | inr e ↦ rw e ]
find-eq_0 (c ∷ s) pattern = elim (Bool-cases (starts_with (c ∷ s) pattern)) [
  | inl e ↦ rw e
  | inr e ↦ rw e (found_later (first_at pattern s))
]
  where
    found_later : (o : Option ℕ) → (or_npos (Option.map suc o) == 0) ≡ false
    found_later none = refl
    found_later (some i) = ground arith
