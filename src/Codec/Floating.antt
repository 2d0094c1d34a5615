-- ===== src/Codec/Floating.antt =====
-- The floating-point types in include/rest_rpc/codec.h: what `std::to_string` makes of them. The
-- standard library's `std::from_chars` is a parameter.
use native.Mathlib.Nat.{div-add-mod', mod-lt, pow-suc, mul_assoc, add-zero}
use mathlib.Core.Option
use rest_rpc.Base.{
  ℕ, zero, suc, ◌+◌, ◌-◌, ◌*◌, ◌/◌, ◌%◌, ◌^◌, ◌≤◌, ◌<◌, ◌≡◌, ◌∙◌, ap, ap₂, sym, arith, Bool-cases,
  inl, inr, ltb→lt, ◌==◌, ◌↔◌, some-injective, Bool, true, false, ltb, if◌then◌else◌, List, [], ◌∷◌,
  Option, none, some,
}
use rest_rpc.Base.Decimal.{print_digits}
use rest_rpc.Base.Integers.{is_digit}
use rest_rpc.Base.Text.{codes}
use rest_rpc.Router.{Text}
use rest_rpc.Codec.{Unpacked, value, bad, Packed, as_string, packed_bytes}

-- A finite number: the mantissa by a power of two.
pub record Floating : Type 0 where
  pub negative : Bool
  pub mantissa : ℕ
  pub scale : ℕ

-- The integer nearest to a quotient, of two the even one.
unfoldable pub nearest : ℕ → ℕ → ℕ
nearest n d =
    let q = n / d in
    let r = n % d in if ltb (2 * r) d then q else (if ltb d (2 * r) then q + 1 else q + q % 2)

abbrev pub millionths : Floating → ℕ
millionths f = nearest (f.mantissa * 10 ^ 6) (2 ^ f.scale)

-- Digits of the fraction, so many, the highest first.
unfoldable pub print_fraction : ℕ → ℕ → List ℕ → List ℕ
print_fraction zero n acc = acc
print_fraction (suc k) n acc = print_fraction k (n / 10) ((48 + n % 10) ∷ acc)

-- `std::to_string`, which prints in the format "%f"; a `double` has at most 309 digits before its
-- point.
unfoldable pub floating_to_string : Floating → Text
floating_to_string f =
    let n = millionths f in
    let digits = print_digits 309 (n / 10 ^ 6) (46 ∷ print_fraction 6 (n % 10 ^ 6) []) in
    if f.negative then 45 ∷ digits else digits

-- `pack_one`.
unfoldable pub pack_floating : Floating → Packed
pack_floating f = as_string (floating_to_string f)

-- `unpack`, with the library's `std::from_chars`.
unfoldable pub unpack_floating : (Text → Option Floating) → Text → Unpacked Floating
unpack_floating from_chars data_in = elim (from_chars data_in) [
  | none ↦ bad (codes "unpack failed: Args not match!")
  | some t ↦ value t
]

-- What a text denotes that has a sign or none, digits, a point and six digits: whether it is negative,
-- and the number of millionths. Any other text is none.
unfoldable pub read_fraction : ℕ → ℕ → Text → Option ℕ
read_fraction zero acc [] = some acc
read_fraction zero acc (c ∷ cs) = none
read_fraction (suc k) acc [] = none
read_fraction (suc k) acc (c ∷ cs) =
    let rest = read_fraction k (acc * 10 + (c - 48)) cs in if is_digit c then rest else none

unfoldable pub read_unsigned : ℕ → Text → Option ℕ
read_unsigned acc [] = none
read_unsigned acc (c ∷ cs) =
    let rest = read_unsigned (acc * 10 + (c - 48)) cs in
    if is_digit c then rest else (if c == 46 then read_fraction 6 acc cs else none)

after_minus : Text → Option (Bool × ℕ)
after_minus [] = none
after_minus (c ∷ cs) = if c == 45 then Option.map (λ n. (true, n)) (read_unsigned 0 cs) else none

unsigned_or : Option ℕ → Text → Option (Bool × ℕ)
unfolding after_minus
unsigned_or none text = after_minus text
unsigned_or (some n) text = some (false, n)

unfoldable pub read_fixed : Text → Option (Bool × ℕ)
unfolding unsigned_or
read_fixed text = unsigned_or (read_unsigned 0 text) text

read_unsigned-print_digits :
    (fuel n : ℕ) (acc : List ℕ)
    → n < 10 ^ fuel
    → read_unsigned 0 (print_digits fuel n acc) ≡ read_unsigned n acc
unfolding read_unsigned print_digits
read_unsigned-print_digits zero n acc h =
    let none_left : 0 ≡ n = omega arith in ap (λ k. read_unsigned k acc) none_left
read_unsigned-print_digits (suc fuel) n acc h =
    ground (arith, pow-suc 10 fuel, read_unsigned-print_digits fuel (n / 10) ((48 + n % 10) ∷ acc))

-- The digits of the fraction, where `j` of them have been printed behind these.
read_fraction-print_fraction :
    (k j n m : ℕ) (acc : List ℕ)
    → n < 10 ^ k
    → read_fraction (k + j) m (print_fraction k n acc) ≡ read_fraction j (m * 10 ^ k + n) acc
unfolding read_fraction print_fraction
read_fraction-print_fraction zero j n m acc h =
    let none_left : 0 + j ≡ j = omega arith in
    let same : m ≡ m * 10 ^ 0 + n = omega arith in ap₂ (λ i k. read_fraction i k acc) none_left same
read_fraction-print_fraction (suc k) j n m acc h =
    let split : m * 10 ^ suc k ≡ m * 10 ^ k * 10 =
      rw (pow-suc 10 k) (sym (mul_assoc m (10 ^ k) 10)) in
    let digit : is_digit (48 + n % 10) ≡ true = ground arith in
    let same : (m * 10 ^ k + n / 10) * 10 + (48 + n % 10 - 48) ≡ m * 10 ^ suc k + n =
      omega (arith, split) in
    let moved : suc k + j ≡ k + suc j = omega arith in
    ap (λ l. read_fraction l m (print_fraction k (n / 10) ((48 + n % 10) ∷ acc))) moved
    ∙ read_fraction-print_fraction k (suc j) (n / 10) m ((48 + n % 10) ∷ acc)
        (omega (arith, pow-suc 10 k, h))
    ∙ rw digit (ap (λ a. read_fraction j a acc) same)

pow_pos : (s : ℕ) → 0 < 2 ^ s
pow_pos zero = omega arith
pow_pos (suc s) = omega (arith, pow-suc 2 s, pow_pos s)

one_more : (q d : ℕ) → (q + 1) * d ≡ q * d + d
one_more q d = grind arith

-- An integer whose product with `d` is at most half of `d` away from `n`.
abbrev IsNear : ℕ → ℕ → ℕ → Type 0
IsNear n d k = (2 * (k * d) ≤ 2 * n + d) × (2 * n ≤ 2 * (k * d) + d)

-- A quotient's remainder tells which of two integers is near.
below-IsNear : (n d : ℕ) → 2 * (n % d) ≤ d → IsNear n d (n / d)
below-IsNear n d h = (omega (arith, div-add-mod' n d), omega (arith, h, div-add-mod' n d))

above-IsNear : (n d : ℕ) → 0 < d → d ≤ 2 * (n % d) → IsNear n d (n / d + 1)
above-IsNear n d pos h =
    let sum = one_more (n / d) d in
    let small = mod-lt n pos in
    (omega (arith, sum, h, div-add-mod' n d), omega (arith, sum, small, div-add-mod' n d))

nearest-IsNear : (n d : ℕ) → 0 < d → IsNear n d (nearest n d)
unfolding nearest
nearest-IsNear n d pos = elim (Bool-cases (ltb (2 * (n % d)) d)) [
  | inl e ↦ rw e (below-IsNear n d (omega (arith, ltb→lt (2 * (n % d)) d e)))
  | inr e ↦ rw e (elim (Bool-cases (ltb d (2 * (n % d)))) [
    | inl more ↦ rw more (above-IsNear n d pos (omega (arith, ltb→lt d (2 * (n % d)) more)))
    | inr half ↦ rw half (tie (n / d % 2) (mod-lt (n / d) (omega arith)) (ground (arith, e, half)))
  ])
]
  where
    tie : (b : ℕ) → b < 2 → 2 * (n % d) ≡ d → IsNear n d (n / d + b)
    tie zero lt half = rw (add-zero (n / d)) (below-IsNear n d (omega (arith, half)))
    tie (suc zero) lt half = above-IsNear n d pos (omega (arith, half))
    tie (suc (suc b)) lt half = absurd (omega (arith, lt))

abbrev digits : ℕ → List ℕ
digits n = print_digits 309 (n / 10 ^ 6) (46 ∷ print_fraction 6 (n % 10 ^ 6) [])

read_unsigned-digits : (n : ℕ) → n / 10 ^ 6 < 10 ^ 309 → read_unsigned 0 (digits n) ≡ some n
unfolding read_unsigned read_fraction
read_unsigned-digits n fits =
    read_unsigned-print_digits 309 (n / 10 ^ 6) (46 ∷ print_fraction 6 (n % 10 ^ 6) []) fits
    ∙ read_fraction-print_fraction 6 0 (n % 10 ^ 6) (n / 10 ^ 6) [] (mod-lt n (omega arith))
    ∙ ap some (div-add-mod' n (10 ^ 6))

read_fixed-text :
    (f : Floating)
    → millionths f / 10 ^ 6 < 10 ^ 309
    → read_fixed (packed_bytes (pack_floating f)) ≡ some (f.negative, millionths f)
unfolding pack_floating floating_to_string read_fixed unsigned_or read_unsigned after_minus
read_fixed-text f fits = signed f.negative
  where
    signed :
        (b : Bool)
        → read_fixed (if b then 45 ∷ digits (millionths f) else digits (millionths f))
          ≡ some (b, millionths f)
    signed true = ap (Option.map (λ n. (true, n))) (read_unsigned-digits (millionths f) fits)
    signed false =
        ap (λ o. unsigned_or o (digits (millionths f))) (read_unsigned-digits (millionths f) fits)

-- The text that is sent of a number has a sign if it is negative, digits, a point and six digits, and
-- denotes the number of millionths that is nearest to it, at most half of one away; two numbers are
-- sent as the same text exactly if they have the same sign and the same nearest millionth. They have
-- at most 309 digits before the point.
pub read_fixed-floating_to_string :
    (f g : Floating)
    → millionths f / 10 ^ 6 < 10 ^ 309
    → millionths g / 10 ^ 6 < 10 ^ 309
    → (read_fixed (packed_bytes (pack_floating f)) ≡ some (f.negative, millionths f))
      × (2 * (millionths f * 2 ^ f.scale) ≤ 2 * (f.mantissa * 10 ^ 6) + 2 ^ f.scale)
      × (2 * (f.mantissa * 10 ^ 6) ≤ 2 * (millionths f * 2 ^ f.scale) + 2 ^ f.scale)
      × ((packed_bytes (pack_floating f) ≡ packed_bytes (pack_floating g))
          ↔ ((f.negative ≡ g.negative) × (millionths f ≡ millionths g)))
unfolding pack_floating floating_to_string
read_fixed-floating_to_string f g f_fits g_fits =
    let near_f = nearest-IsNear (f.mantissa * 10 ^ 6) (2 ^ f.scale) (pow_pos f.scale) in
    (
      read_fixed-text f f_fits,
      near_f.0,
      near_f.1,
      (
        λ e.
            let same : (f.negative, millionths f) ≡ (g.negative, millionths g) =
              some-injective
                (sym (read_fixed-text f f_fits) ∙ ap read_fixed e ∙ read_fixed-text g g_fits) in
            (ap (λ r. r.0) same, ap (λ r. r.1) same),
        λ e. ap₂ (λ negative n. if negative then 45 ∷ digits n else digits n) e.0 e.1,
      ),
    )
