-- ===== src/Exchange/Examples.antt =====
-- An argument that is an lvalue of an integer type, for the codec and the client of
-- include/rest_rpc.
use rest_rpc.Base.{
  ℕ, ◌+◌, ◌^◌, ◌≤◌, ◌<◌, ◌≡◌, refl, arith, true, false, List, [], ◌∷◌, ◌++◌, none, some, length,
}
use rest_rpc.Base.Text.{codes}
use rest_rpc.Router.{threw, default_result}
use rest_rpc.Base.Integers.{IntegerType, pos}
use rest_rpc.Codec.{Datum, basic, number, text, integer, textual, string, packed_bytes}
use rest_rpc.Codec.Tagged.{tagged_packer}
use rest_rpc.Router.Handlers.{Ending, gave, invoker}
use rest_rpc.Client.Arguments.{get_buffer}
use rest_rpc.Exchange.Arguments.{invoker-get_buffer_lvalue}

abbrev int : IntegerType
int = record { is_signed = true; bits = 32 }

-- Two arguments of a function that counts its calls and gives its first argument back.
abbrev first : List (Datum ℕ) → ℕ → ℕ × Ending ℕ
first (d ∷ ds) s = (s + 1, gave (some d))
first [] s = (s, gave none)

abbrev two : List (Datum ℕ)
two = basic (number int (pos 7)) ∷ basic (text string (codes "abc")) ∷ []

-- One lvalue of an integer type, in the bytes that a serializer makes of it.
invoker-get_buffer_lvalue_example :
    invoker tagged_packer
      (integer int ∷ [])
      first
      (packed_bytes (get_buffer tagged_packer true (basic (number int (pos 7)) ∷ [])))
      default_result
      4
    ≡ (4, default_result, threw (codes "unpack failed: Args not match!"))
unfolding rest_rpc.Codec.pack_tuple rest_rpc.Codec.Tagged.tagged rest_rpc.Base.Integers.from_chars
    rest_rpc.Base.Integers.magnitude
invoker-get_buffer_lvalue_example =
    invoker-get_buffer_lvalue tagged_packer {S = ℕ} first default_result 4 int (pos 7) refl
