-- ===== src/Codec/Tagged.antt =====
-- A packer that can be run: each value by its number or its length and bytes, one after the other.
use rest_rpc.Base.{
  ℕ, zero, suc, ◌≡◌, refl, ap, false, List, [], ◌∷◌, ◌++◌, map, length, take, drop, take-append,
  drop-append,
}
use rest_rpc.Base.Integers.{pos, negsuc}
use rest_rpc.Base.Text.{codes}
use rest_rpc.Router.{Text}
use rest_rpc.Codec.{
  basic, Unpacked, value, bad, Kind, integer, textual, other, Datum, number, text, object, kind_of,
  Packer,
}

unfoldable pub tagged : List (Datum ℕ) → Text
tagged [] = []
tagged (basic (number t (pos n)) ∷ ds) = 0 ∷ n ∷ tagged ds
tagged (basic (number t (negsuc n)) ∷ ds) = 1 ∷ n ∷ tagged ds
tagged (basic (text k bytes) ∷ ds) = length bytes ∷ (bytes ++ tagged ds)
tagged (object id o ∷ ds) = o ∷ tagged ds

with_first : Datum ℕ → Unpacked (List (Datum ℕ)) → Unpacked (List (Datum ℕ))
with_first d (value ds) = value (d ∷ ds)
with_first d (bad what) = bad what

unfoldable pub untagged : List Kind → Text → Unpacked (List (Datum ℕ))
unfolding with_first
untagged [] bytes = value []
untagged (integer t ∷ ks) (zero ∷ n ∷ bytes) =
    with_first (basic (number t (pos n))) (untagged ks bytes)
untagged (integer t ∷ ks) (suc tag ∷ n ∷ bytes) =
    with_first (basic (number t (negsuc n))) (untagged ks bytes)
untagged (textual k ∷ ks) (n ∷ bytes) =
    with_first (basic (text k (take n bytes))) (untagged ks (drop n bytes))
untagged (other id ∷ ks) (o ∷ bytes) = with_first (object id o) (untagged ks bytes)
untagged (k ∷ ks) bytes = bad (codes "too short")

pub untagged-tagged : (ds : List (Datum ℕ)) → untagged (map kind_of ds) (tagged ds) ≡ value ds
unfolding untagged tagged
untagged-tagged [] = refl
untagged-tagged (basic (number t (pos n)) ∷ ds) =
    ap (with_first (basic (number t (pos n)))) (untagged-tagged ds)
untagged-tagged (basic (number t (negsuc n)) ∷ ds) =
    ap (with_first (basic (number t (negsuc n)))) (untagged-tagged ds)
untagged-tagged (basic (text k bytes) ∷ ds) =
    rw (take-append bytes (tagged ds), drop-append bytes (tagged ds))
      (ap (with_first (basic (text k bytes))) (untagged-tagged ds))
untagged-tagged (object id o ∷ ds) = ap (with_first (object id o)) (untagged-tagged ds)

abbrev pub tagged_packer : Packer
tagged_packer = record {
  Object = ℕ;
  has_user_pack = λ ks. false;
  has_user_pack_tuple = λ ks. false;
  user_serialize = tagged;
  struct_serialize = tagged;
  user_deserialize = untagged;
  struct_deserialize = untagged;
  user_deserialize-user_serialize = untagged-tagged;
  struct_deserialize-struct_serialize = untagged-tagged;
}
