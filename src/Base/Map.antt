-- ===== src/Base/Map.antt =====
-- `std::unordered_map` with integer keys as an association list: its order stands for the
-- unspecified order of iteration.
use Prim.Native.Nat.{ℕ}
use mathlib.Core.Path.{◌≡◌, refl}
use mathlib.Core.Bool.{Bool, true, false}
use mathlib.Core.List.{List, [], ◌∷◌}
use mathlib.Core.Option.{Option, none, some}
use mathlib.Core.Option
use native.Mathlib.Omega.{arith}
use rest_rpc.Base.Tests.{◌==◌, if◌then◌else◌}

abbrev pub Map {ℓ} : Type ℓ → Type ℓ
Map V = List (ℕ × V)

abbrev pub is_some {ℓ} : {V : Type ℓ} → Option V → Bool
is_some none = false
is_some (some v) = true

module _ {ℓ} {V : Type ℓ} where
  unfoldable pub find : ℕ → Map V → Option V
  find k [] = none
  find k ((j, v) ∷ m) = if j == k then some v else find k m

  -- `m[k] = v`.
  unfoldable pub assign : ℕ → V → Map V → Map V
  assign k v [] = (k, v) ∷ []
  assign k v ((j, w) ∷ m) = if j == k then (k, v) ∷ m else (j, w) ∷ assign k v m

  unfoldable pub erase : ℕ → Map V → Map V
  erase k [] = []
  erase k ((j, w) ∷ m) = if j == k then erase k m else (j, w) ∷ erase k m

  unfoldable pub contains : ℕ → Map V → Bool
  contains k [] = false
  contains k ((j, w) ∷ m) = if j == k then true else contains k m

  -- `m.emplace(k, v)`: nothing happens where the key is taken.
  unfoldable pub emplace : ℕ → V → Map V → Map V
  emplace k v m = if contains k m then m else (k, v) ∷ m

  pub find-assign :
      (k j : ℕ) (v : V) (m : Map V) → find j (assign k v m) ≡ (if k == j then some v else find j m)
  unfolding find assign
  find-assign k j v [] = refl
  find-assign k j v ((i, w) ∷ m) = ground (arith, find-assign k j v m)

  pub find-erase : (k j : ℕ) (m : Map V) → find j (erase k m) ≡ (if k == j then none else find j m)
  unfolding find erase
  find-erase k j [] = ground arith
  find-erase k j ((i, w) ∷ m) = ground (arith, find-erase k j m)

  pub contains-assign :
      (k j : ℕ) (v : V) (m : Map V)
      → contains j (assign k v m) ≡ (if k == j then true else contains j m)
  unfolding contains assign
  contains-assign k j v [] = refl
  contains-assign k j v ((i, w) ∷ m) = ground (arith, contains-assign k j v m)

  pub contains-erase :
      (k j : ℕ) (m : Map V) → contains j (erase k m) ≡ (if k == j then false else contains j m)
  unfolding contains erase
  contains-erase k j [] = ground arith
  contains-erase k j ((i, w) ∷ m) = ground (arith, contains-erase k j m)

  pub find-emplace :
      (k j : ℕ) (v : V) (m : Map V)
      → find j (emplace k v m)
        ≡ (if contains k m then find j m else (if k == j then some v else find j m))
  unfolding find emplace
  find-emplace k j v m = ground arith

  pub contains-emplace :
      (k j : ℕ) (v : V) (m : Map V)
      → contains j (emplace k v m) ≡ (if k == j then true else contains j m)
  unfolding emplace contains
  contains-emplace k j v m = ground arith

  pub find-eq_none : (k : ℕ) (m : Map V) → contains k m ≡ false → find k m ≡ none
  unfolding find contains
  find-eq_none k [] h = refl
  find-eq_none k ((i, w) ∷ m) h = ground (arith, find-eq_none k m)

  -- The value of a key replaced by what `f` makes of it, and so for each key of a list.
  unfoldable pub update : ℕ → (V → V) → Map V → Map V
  update k f [] = []
  update k f ((j, v) ∷ m) = if j == k then (j, f v) ∷ m else (j, v) ∷ update k f m

  pub find-update :
      (k j : ℕ) (f : V → V) (m : Map V)
      → find j (update k f m) ≡ (if k == j then Option.map f (find j m) else find j m)
  unfolding find update
  find-update k j f [] = ground arith
  find-update k j f ((i, w) ∷ m) = ground (arith, find-update k j f m)

  unfoldable pub update_all : List ℕ → (V → V) → Map V → Map V
  update_all [] f m = m
  update_all (k ∷ ks) f m = update_all ks f (update k f m)

  pub contains-find : (k : ℕ) (m : Map V) → contains k m ≡ is_some (find k m)
  unfolding find contains
  contains-find k [] = refl
  contains-find k ((i, w) ∷ m) = ground (arith, contains-find k m)
