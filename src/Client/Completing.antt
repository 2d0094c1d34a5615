-- ===== src/Client/Completing.antt =====
-- How often the operation of a topic in include/rest_rpc/rpc_client.hpp is completed; `complete` keeps
-- the handler that it calls.
use rest_rpc.Base.{
  ℕ, ◌+◌, ◌≤◌, ◌≡◌, arith, Bool, true, false, ◌==◌, if◌then◌else◌, Bool-cases, inl, inr, List, [],
  ◌∷◌,
}
use rest_rpc.Base.Map.{Map, contains}
use rest_rpc.Protocol.{Host}
use rest_rpc.Transport.{Transport}
use rest_rpc.Client.{RpcClient, complete, complete_each, comple_all}

unfoldable pub times_completed : ℕ → List (ℕ × Bool) → ℕ
times_completed k [] = 0
times_completed k ((j, r) ∷ completions) = (if j == k then 1 else 0) + times_completed k completions

module _ (host : Host) (t : Transport) where
  completed_before :
      (k : ℕ) (ops : Map (Unit {0})) (c : RpcClient host t)
      → times_completed k c.completions ≤ times_completed k (complete_each host t ops c).completions
  unfolding complete_each complete times_completed
  completed_before k [] c = omega arith
  completed_before k ((j, op) ∷ ops) c =
      ground (arith, completed_before k ops (complete host t j false c))

  completed_each :
      (k : ℕ) (ops : Map (Unit {0})) (c : RpcClient host t)
      → contains k ops ≡ true
      → times_completed k c.completions + 1
        ≤ times_completed k (complete_each host t ops c).completions
  unfolding complete_each complete times_completed contains
  completed_each k [] c h = ground (arith, h)
  completed_each k ((j, op) ∷ ops) c h = elim (Bool-cases (j == k)) [
    | inl e ↦ ground (arith, e, completed_before k ops (complete host t j false c))
    | inr e ↦ ground (arith, h, e, completed_each k ops (complete host t j false c))
  ]

  -- Once more for each topic that is subscribed to.
  pub comple_all-completes :
      (k : ℕ) (c : RpcClient host t)
      → contains k c.sub_ops ≡ true
      → times_completed k c.completions + 1 ≤ times_completed k (comple_all host t c).completions
  unfolding comple_all
  comple_all-completes k c h = completed_each k c.sub_ops c h
