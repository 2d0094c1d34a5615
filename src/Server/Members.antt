-- ===== src/Server/Members.antt =====
-- Membership in and removal from a list of ids, for the server of include/rest_rpc/rpc_server.hpp.
use rest_rpc.Base.{
  ℕ, ◌≡◌, refl, arith, Bool, true, false, ◌==◌, ◌&&◌, not, if◌then◌else◌, List, [], ◌∷◌,
}
use rest_rpc.Base.Map.{Map, find, update, find-update, update_all}
use mathlib.Core.Option

unfoldable pub member : ℕ → List ℕ → Bool
member k [] = false
member k (j ∷ js) = if j == k then true else member k js

unfoldable pub remove : ℕ → List ℕ → List ℕ
remove k [] = []
remove k (j ∷ js) = if j == k then remove k js else j ∷ remove k js

-- No id stands twice.
unfoldable pub no_repeats : List ℕ → Bool
no_repeats [] = true
no_repeats (j ∷ js) = not (member j js) && no_repeats js

pub member-remove :
    (k j : ℕ) (js : List ℕ) → member k (remove j js) ≡ (if j == k then false else member k js)
unfolding member remove
member-remove k j [] = ground arith
member-remove k j (i ∷ is) = ground (arith, member-remove k j is)

pub no_repeats-remove :
    (j : ℕ) (js : List ℕ) → no_repeats js ≡ true → no_repeats (remove j js) ≡ true
unfolding no_repeats remove
no_repeats-remove j [] h = refl
no_repeats-remove j (i ∷ is) h = ground (arith, no_repeats-remove j is, member-remove i j is)

-- An update of each of several keys, none twice, reaches each of them once and nothing else.
pub find-update_all {ℓ} :
    {V : Type ℓ} (ks : List ℕ) (k : ℕ) (f : V → V) (m : Map V)
    → no_repeats ks ≡ true
    → find k (update_all ks f m) ≡ (if member k ks then Option.map f (find k m) else find k m)
unfolding update_all no_repeats member
find-update_all [] k f m h = refl
find-update_all (j ∷ js) k f m h =
    ground (arith, find-update_all js k f (update j f m), find-update j k f m)
