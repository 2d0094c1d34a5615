-- ===== src/Base/Integers.antt =====
-- `std::to_string` and `std::from_chars` (in base 10) of the integer types.
use Prim.Native.Nat.{ℕ, zero, suc, ◌+◌, ◌-◌, ◌*◌, ◌/◌, ◌%◌, ◌^◌, ◌≤◌, ◌<◌}
use mathlib.Core.Path.{◌≡◌, ◌∙◌, ap}
use mathlib.Core.Bool.{Bool, true, false, ◌&&◌}
use mathlib.Core.List.{List, [], ◌∷◌}
use mathlib.Core.Option.{Option, none, some}
use native.Mathlib.Nat.{pow-suc, pow-le-pow_right}
use native.Mathlib.Omega.{arith}
use rest_rpc.Base.Tests.{ltb, leb, ◌==◌, if◌then◌else◌}
use rest_rpc.Base.Decimal.{print_digits, to_string}

-- `negsuc n` is `- (n + 1)`.
pub data ℤ : Type 0 where
  pos negsuc : ℕ → ℤ

abbrev pub negated : ℕ → ℤ
negated zero = pos zero
negated (suc n) = negsuc n

-- An integer type, by its signedness and its bits.
pub record IntegerType : Type 0 where
  pub is_signed : Bool
  pub bits : ℕ

-- The numbers of a type.
abbrev pub Fits : IntegerType → ℤ → Type 0
Fits t (pos n) = n < 2 ^ (if t.is_signed then t.bits - 1 else t.bits)
Fits t (negsuc n) = (t.is_signed ≡ true) × (n < 2 ^ (t.bits - 1))

unfoldable pub integer_to_string : ℤ → List ℕ
integer_to_string (pos n) = to_string n
integer_to_string (negsuc n) = 45 ∷ to_string (suc n)

abbrev pub is_digit : ℕ → Bool
is_digit c = leb 48 c && leb c 57

-- The longest prefix of digits, after those that make up `acc`.
unfoldable pub read_digits : ℕ → List ℕ → ℕ
read_digits acc [] = acc
read_digits acc (c ∷ cs) =
    let rest = read_digits (acc * 10 + (c - 48)) cs in if is_digit c then rest else acc

-- The digits of a magnitude below `limit`; an empty prefix and a magnitude out of range are errors.
unfoldable pub magnitude : ℕ → List ℕ → Option ℕ
magnitude limit [] = none
magnitude limit (c ∷ cs) =
    let n = read_digits 0 (c ∷ cs) in
    if is_digit c then (if ltb n limit then some n else none) else none

abbrev negated_option : Option ℕ → Option ℤ
negated_option none = none
negated_option (some n) = some (negated n)

abbrev pos_option : Option ℕ → Option ℤ
pos_option none = none
pos_option (some n) = some (pos n)

-- A minus sign is read for the signed types alone.
unfoldable pub from_chars : IntegerType → List ℕ → Option ℤ
from_chars t [] = none
from_chars t (c ∷ cs) =
    if t.is_signed && (c == 45)
    then negated_option (magnitude (2 ^ (t.bits - 1) + 1) cs)
    else pos_option (magnitude (2 ^ (if t.is_signed then t.bits - 1 else t.bits)) (c ∷ cs))

-- Digits that were printed are read back, whatever follows.
read_digits-print_digits :
    (fuel n : ℕ) (acc : List ℕ)
    → n < 10 ^ fuel
    → read_digits 0 (print_digits fuel n acc) ≡ read_digits n acc
unfolding read_digits print_digits
read_digits-print_digits zero n acc h =
    let none_left : 0 ≡ n = omega arith in ap (λ k. read_digits k acc) none_left
read_digits-print_digits (suc fuel) n acc h =
    ground (arith, pow-suc 10 fuel, read_digits-print_digits fuel (n / 10) ((48 + n % 10) ∷ acc))

abbrev starts_with_digit : List ℕ → Bool
starts_with_digit [] = false
starts_with_digit (c ∷ cs) = is_digit c

later_digit :
    (fuel n : ℕ) (acc : List ℕ)
    → starts_with_digit acc ≡ true
    → starts_with_digit (print_digits fuel n acc) ≡ true
unfolding print_digits
later_digit zero n acc h = h
later_digit (suc fuel) n acc h = ground (arith, later_digit fuel (n / 10) ((48 + n % 10) ∷ acc))

first_digit : (n : ℕ) → starts_with_digit (to_string n) ≡ true
unfolding to_string print_digits
first_digit n = ground (arith, later_digit 19 (n / 10) ((48 + n % 10) ∷ []))

magnitude_read :
    (limit : ℕ) (cs : List ℕ)
    → starts_with_digit cs ≡ true
    → read_digits 0 cs < limit
    → magnitude limit cs ≡ some (read_digits 0 cs)
unfolding magnitude
magnitude_read limit [] h lt = absurd (ground (arith, h))
magnitude_read limit (c ∷ cs) h lt = ground arith

from_chars_unsigned :
    (t : IntegerType) (cs : List ℕ)
    → starts_with_digit cs ≡ true
    → from_chars t cs ≡ pos_option (magnitude (2 ^ (if t.is_signed then t.bits - 1 else t.bits)) cs)
unfolding from_chars
from_chars_unsigned t [] h = absurd (ground (arith, h))
from_chars_unsigned t (c ∷ cs) h = ground arith

magnitude-to_string :
    (limit n : ℕ) → n < limit → n < 10 ^ 20 → magnitude limit (to_string n) ≡ some n
unfolding to_string
magnitude-to_string limit n h fits =
    let same : read_digits 0 (to_string n) ≡ n = whole in
    magnitude_read limit (to_string n) (first_digit n) (rw same h) ∙ ap some same
  where
    whole : read_digits 0 (to_string n) ≡ n
    whole = unfold read_digits in read_digits-print_digits 20 n [] fits

within : (bits n : ℕ) → bits ≤ 64 → n < 2 ^ bits → n < 2 ^ 64
within bits n h fits =
    omega (arith, fits, pow-le-pow_right {n = 2} (omega arith) {i = bits} {j = 64} h)

-- Each number of a type of at most 64 bits is read back from its text.
pub from_chars-integer_to_string :
    (t : IntegerType) (z : ℤ) → t.bits ≤ 64 → Fits t z → from_chars t (integer_to_string z) ≡ some z
unfolding integer_to_string
from_chars-integer_to_string t (pos n) h fits =
    from_chars_unsigned t (to_string n) (first_digit n)
    ∙ ap pos_option (magnitude-to_string _ n fits (omega (arith, within _ n (ground arith) fits)))
from_chars-integer_to_string t (negsuc n) h (signed, fits) =
    unfold from_chars in
    rw signed (
      ap negated_option (
        magnitude-to_string _ (suc n) (omega arith)
          (omega (arith, within (t.bits - 1) n (omega arith) fits))))
