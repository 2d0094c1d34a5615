-- ===== src/Codec/Examples.antt =====
-- The theorem on include/rest_rpc/codec.h for a number of an `int`, and for one of a `double`.
use rest_rpc.Base.{◌≡◌, refl, arith, [], ◌∷◌, true, false, ◌+◌, ◌*◌, ◌/◌, ◌^◌, ◌<◌, ◌≤◌, ◌↔◌, some}
use rest_rpc.Codec.Floating.{
  Floating, nearest, millionths, pack_floating, read_fixed, read_fixed-floating_to_string,
}
use rest_rpc.Base.Integers.{IntegerType, negsuc}
use rest_rpc.Codec.{value, integer, basic, number, packed_bytes, pack_args, unpack}
use rest_rpc.Codec.RoundTrip.{unpack-pack_args}
use rest_rpc.Codec.Tagged.{tagged_packer}

abbrev int : IntegerType
int = record { is_signed = true; bits = 32 }

unpack-pack_args_example :
    unpack tagged_packer
      (integer int)
      (packed_bytes (pack_args tagged_packer (basic (number int (negsuc 41)) ∷ [])))
    ≡ value (basic (number int (negsuc 41)))
unpack-pack_args_example =
    unpack-pack_args tagged_packer (basic (number int (negsuc 41)))
      (omega arith, (refl, omega arith))

-- A number that is less than a thousandth of a millionth, and zero.
abbrev tiny : Floating
tiny = record { negative = false; mantissa = 1; scale = 30 }

abbrev no_number : Floating
no_number = record { negative = false; mantissa = 0; scale = 0 }

tiny_fits : millionths tiny / 10 ^ 6 < 10 ^ 309
unfolding nearest
tiny_fits = omega arith

zero_fits : millionths no_number / 10 ^ 6 < 10 ^ 309
unfolding nearest
zero_fits = omega arith

read_fixed-floating_to_string_example :
    (read_fixed (packed_bytes (pack_floating tiny)) ≡ some (false, millionths tiny))
    × (2 * (millionths tiny * 2 ^ 30) ≤ 2 * (1 * 10 ^ 6) + 2 ^ 30)
    × (2 * (1 * 10 ^ 6) ≤ 2 * (millionths tiny * 2 ^ 30) + 2 ^ 30)
    × ((packed_bytes (pack_floating tiny) ≡ packed_bytes (pack_floating no_number))
        ↔ ((false ≡ false) × (millionths tiny ≡ millionths no_number)))
read_fixed-floating_to_string_example =
    read_fixed-floating_to_string tiny no_number tiny_fits zero_fits
