-- ===== src/Exchange/Arguments.antt =====
-- Arguments on their way: `get_buffer` of include/rest_rpc/rpc_client.hpp, then the invoker that
-- include/rest_rpc/rpc_router.hpp makes of a function, through include/rest_rpc/codec.h.
use rest_rpc.Base.{Bool, true, none, ◌≡◌, refl, ap, List, [], ◌∷◌, map, Bool-cases, inl, inr}
use rest_rpc.Base.Text.{codes}
use rest_rpc.Base.Integers.{ℤ, IntegerType, from_chars}
use rest_rpc.Router.{RpcResult, threw}
use rest_rpc.Router.Handlers.{
  Function, finish_handler, invoker, handle_zero_arg, handle_one_arg, handle_more_args,
  after_unpack_one, after_unpack_more,
}
use rest_rpc.Codec.{
  Datum, kind_of, is_basic, Packer, packed_bytes, pack_args, pack_tuple, basic, number, integer,
  unpack, unpacked_integer,
}
use rest_rpc.Codec.RoundTrip.{Sendable, unpack-pack_args, unpack_tuple-pack_tuple}
use rest_rpc.Client.Arguments.{is_basic_argument, get_buffer}

-- A single argument is one that can be sent by itself, and no lvalue of an integer type.
abbrev pub AreSendable : {O : Type 0} → Bool → List (Datum O) → Type 0
AreSendable is_lvalue (d ∷ []) =
    Sendable d × (is_basic_argument is_lvalue (kind_of d) ≡ is_basic (kind_of d))
AreSendable is_lvalue _ = Unit {0}

module _ (p : Packer) {S : Type 0} (f : Function p S) (ret : RpcResult) (s : S) where
  more_args :
      (ds : List (Datum p.Object))
      → handle_more_args p (map kind_of ds) (packed_bytes (pack_tuple p ds)) f ret s
        ≡ finish_handler p ret (f ds s)
  unfolding handle_more_args
  more_args ds = ap (after_unpack_more p f ret s) (unpack_tuple-pack_tuple p ds)

  one_arg :
      (d : Datum p.Object)
      → Sendable d
      → handle_one_arg p (kind_of d) (packed_bytes (pack_args p (d ∷ []))) f ret s
        ≡ finish_handler p ret (f (d ∷ []) s)
  unfolding handle_one_arg
  one_arg d h = ap (after_unpack_one p f ret s) (unpack-pack_args p d h)

  -- The invoker of a function, on the bytes in which the client packs a call's arguments, runs the
  -- function once on those arguments and takes its end, where the function's parameters have the
  -- arguments' types and a single argument is a number in its type's range, a string or an object,
  -- and no lvalue of an integer type.
  pub invoker-get_buffer :
      (is_lvalue : Bool) (ds : List (Datum p.Object))
      → AreSendable is_lvalue ds
      → invoker p (map kind_of ds) f (packed_bytes (get_buffer p is_lvalue ds)) ret s
        ≡ finish_handler p ret (f ds s)
  unfolding invoker get_buffer
  invoker-get_buffer is_lvalue [] h = unfold handle_zero_arg in refl
  invoker-get_buffer is_lvalue (d ∷ []) h = elim (Bool-cases (is_basic (kind_of d))) [
    | inl e ↦ rw (h.1, e) (one_arg d h.0)
    | inr e ↦ rw (h.1, e) (more_args (d ∷ []))
  ]
  invoker-get_buffer is_lvalue (d ∷ e ∷ ds) h = more_args (d ∷ e ∷ ds)

  -- A single argument that is an lvalue of an integer type is serialized as a tuple, and the invoker
  -- reads these bytes as a decimal number: where they are none, the function does not run, and the
  -- call ends with the exception of `unpack`.
  pub invoker-get_buffer_lvalue :
      (t : IntegerType) (z : ℤ)
      → from_chars t (packed_bytes (pack_tuple p (basic (number t z) ∷ []))) ≡ none
      → invoker p
          (integer t ∷ [])
          f
          (packed_bytes (get_buffer p true (basic (number t z) ∷ [])))
          ret
          s
        ≡ (s, ret, threw (codes "unpack failed: Args not match!"))
  unfolding invoker get_buffer is_basic_argument is_basic handle_one_arg unpack
  invoker-get_buffer_lvalue t z h = ap (λ o. after_unpack_one p f ret s (unpacked_integer p t o)) h
