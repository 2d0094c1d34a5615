-- ===== src/Base/Decimal.antt =====
-- `std::to_string` of an unsigned integer: its decimal digits, as bytes.
use Prim.Native.Nat.{ℕ, zero, suc, ◌+◌, ◌/◌, ◌%◌}
use mathlib.Core.List.{List, [], ◌∷◌}
use rest_rpc.Base.Tests.{ltb, if◌then◌else◌}

-- Digits are put in front of `acc`, the lowest first; the fuel bounds their number.
unfoldable pub print_digits : ℕ → ℕ → List ℕ → List ℕ
print_digits zero n acc = acc
print_digits (suc fuel) n acc =
    let rest = print_digits fuel (n / 10) ((48 + n % 10) ∷ acc) in
    if ltb n 10 then (48 + n) ∷ acc else rest

-- Numbers of 64 bits have at most 20 digits.
unfoldable pub to_string : ℕ → List ℕ
unfolding print_digits
to_string n = print_digits 20 n []
