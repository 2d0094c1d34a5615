-- ===== src/Base/Endpoint.antt =====
-- The host and the port of an address, for `rpc_server`'s constructor in
-- include/rest_rpc/rpc_server.hpp and `connect` in include/rest_rpc/rpc_client.hpp.
use Prim.Native.Nat.{ℕ, suc, ◌+◌, ◌<◌}
use mathlib.Core.Path.{◌≡◌, refl, sym}
use mathlib.Core.List.{List, [], ◌∷◌, ◌++◌, append_assoc}
use mathlib.Core.Option.{Option, none, some}
use native.Mathlib.Omega.{arith}
use rest_rpc.Base.Text.{codes}
use rest_rpc.Base.Tests.{◌==◌, if◌then◌else◌, ne→==_false}
use rest_rpc.Base.Lists.{length, length-append}
use rest_rpc.Base.Views.{
  npos, add_size, find, substr, first_at, first_at_one, substr_part, substr_rest,
}

pair_of : Option (List ℕ) → Option (List ℕ) → Option (List ℕ × List ℕ)
pair_of (some host) (some port) = some (host, port)
pair_of none port = none
pair_of (some host) none = none

-- Both are empty in an address without a colon. A `none` is an exception of `substr`.
unfoldable pub endpoint_of : List ℕ → Option (List ℕ × List ℕ)
unfolding pair_of
endpoint_of address =
    let pos = find address (codes ":") in
    if pos == npos
    then some ([], [])
    else pair_of (substr address 0 pos) (substr address (add_size pos 1) npos)

-- The first colon ends the host, and the port is all that follows it.
pub endpoint_of-append :
    (host port : List ℕ)
    → first_at (codes ":") host ≡ none
    → length (host ++ (58 ∷ port)) < npos
    → endpoint_of (host ++ (58 ∷ port)) ≡ some (host, port)
unfolding endpoint_of
endpoint_of-append host port h fits =
    let size : length (host ++ (58 ∷ port)) ≡ length host + suc (length port) =
      length-append host (58 ∷ port) in
    rw
      (
        first_at_one 58 host port h,
        ne→==_false (length host) npos (λ e. omega arith),
        substr_part (host ++ (58 ∷ port)) [] host (58 ∷ port) 0 (length host) refl refl refl,
        substr_rest (host ++ (58 ∷ port)) (host ++ codes ":") port (add_size (length host) 1) npos
            (sym (append_assoc host (codes ":") port))
            (omega (arith, length-append host (codes ":"))) (omega arith),
      )
      refl
