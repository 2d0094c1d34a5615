-- ===== src/Codec/RoundTrip.antt =====
-- `pack_args` and `unpack` of include/rest_rpc/codec.h undo each other.
use rest_rpc.Base.{◌≤◌, ◌≡◌, refl, ap, arith, List, [], ◌∷◌, map, Bool-cases, ◌⊎◌, inl, inr}
use rest_rpc.Base.Integers.{Fits, from_chars-integer_to_string}
use rest_rpc.Codec.{
  value, other, string, string_view, Datum, basic, number, text, object, kind_of, Packer,
  packed_bytes, pack_one, pack_args, pack_tuple, unpack, unpack_tuple, the_one, unpacked_integer,
}

-- A value that can be sent and received: a number of its type, of at most 64 bits, a `std::string`
-- or `std::string_view`, or an object.
abbrev pub Sendable : {O : Type 0} → Datum O → Type 0
Sendable (basic (number t z)) = (t.bits ≤ 64) × Fits t z
Sendable (basic (text k bytes)) = (k ≡ string) ⊎ (k ≡ string_view)
Sendable (object id o) = Unit {0}

module _ (p : Packer) where
  open p use {Object}

  -- Each value that can be sent is had back from its packed bytes as its own type.
  pub unpack-pack_args :
      (d : Datum Object)
      → Sendable d
      → unpack p (kind_of d) (packed_bytes (pack_args p (d ∷ []))) ≡ value d
  unfolding unpack pack_args pack_one
  unpack-pack_args (basic (number t z)) (bits, fits) =
      ap (unpacked_integer p t) (from_chars-integer_to_string t z bits fits)
  unpack-pack_args (basic (text k bytes)) (inl e) = rw e refl
  unpack-pack_args (basic (text k bytes)) (inr e) = rw e refl
  unpack-pack_args (object id o) h = elim (Bool-cases (p.has_user_pack (other id ∷ []))) [
    | inl e ↦ rw e (ap (the_one p) (p.user_deserialize-user_serialize (object id o ∷ [])))
    | inr e ↦ rw e (ap (the_one p) (p.struct_deserialize-struct_serialize (object id o ∷ [])))
  ]

  -- Each tuple of values is had back from its packed bytes.
  pub unpack_tuple-pack_tuple :
      (ds : List (Datum Object))
      → unpack_tuple p (map kind_of ds) (packed_bytes (pack_tuple p ds)) ≡ value ds
  unfolding unpack_tuple pack_tuple
  unpack_tuple-pack_tuple ds =
      ground (arith, p.user_deserialize-user_serialize ds, p.struct_deserialize-struct_serialize ds)
