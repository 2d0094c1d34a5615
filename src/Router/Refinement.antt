-- ===== src/Router/Refinement.antt =====
-- include/rest_rpc/rpc_router.hpp against what a client may expect of it: a table from keys to the
-- functions that are registered, with their names.
use mathlib.Core.Option
use rest_rpc.Base.{
  ℕ, ◌≡◌, refl, sym, ap, ◌∙◌, false, ◌==◌, if◌then◌else◌, List, [], ◌∷◌, ◌++◌, Option, none, some,
  subst, Bool-cases, ==→eq, Option-cases, inl, inr,
}
use rest_rpc.Base.Map.{
  find, contains, find-assign, find-erase, find-emplace, contains-find, is_some,
}
use rest_rpc.Base.Text.{codes}
use rest_rpc.Base.Decimal.{to_string}
use rest_rpc.ErrorCode.{no_such_function}
use rest_rpc.Router.{
  Text, RpcResult, default_result, RpcRouter, Invoker, Result, done, invalid_argument, key_of,
  empty_router, register_handler, remove_handler, route, get_name_by_key,
}
use rest_rpc.Router.Registry.{registered, register_handler_free, register_handler_taken}
use rest_rpc.Router.Routing.{seen, route_found, route_missing, finish_route-seen}

-- A change of the router by the program, which goes on after a registration that throws.
pub data Change (S : Type 0) : Type 0 where
  registers : Text → Invoker S → Change S
  removes : Text → Change S

-- The table.
abbrev pub Table : Type 0 → Type 0
Table S = ℕ → Option (Text × Invoker S)

module _ {S : Type 0} where
  kept : RpcRouter S → Result (RpcRouter S) → RpcRouter S
  kept r (done r') = r'
  kept r (invalid_argument what) = r

  unfoldable pub change : RpcRouter S → Change S → RpcRouter S
  unfolding kept
  change r (registers name f) = kept r (register_handler name f r)
  change r (removes name) = remove_handler name r

  unfoldable pub changes : RpcRouter S → List (Change S) → RpcRouter S
  changes r [] = r
  changes r (c ∷ cs) = changes (change r c) cs

  -- What a change makes of the table: the first function under a key stays.
  abbrev or_else : Option (Text × Invoker S) → Text → Invoker S → Option (Text × Invoker S)
  or_else (some entry) name f = some entry
  or_else none name f = some (name, f)

  unfoldable pub table_change : Table S → Change S → Table S
  table_change table (registers name f) k =
      if key_of name == k then or_else (table k) name f else table k
  table_change table (removes name) k = if key_of name == k then none else table k

  unfoldable pub table_changes : Table S → List (Change S) → Table S
  table_changes table [] = table
  table_changes table (c ∷ cs) = table_changes (table_change table c) cs

  table_answer : Option (Text × Invoker S) → ℕ → Text → S → S × RpcResult
  table_answer none key body s = (
    s,
    record {
      ec = no_such_function;
      result = codes "unknown function: " ++ to_string key;
      view = [];
    },
  )
  table_answer (some (name, f)) key body s = seen name (f body default_result s)

  -- What a request is answered by a table.
  unfoldable pub table_route : Table S → ℕ → Text → S → S × RpcResult
  unfolding table_answer
  table_route table key body s = table_answer (table key) key body s

  -- The router has the table's function and name for a key.
  abbrev Agrees : RpcRouter S → Table S → ℕ → Type 0
  Agrees r table k =
      (find k r.map_invokers ≡ Option.map (λ e. e.1) (table k))
      × (find k r.key2func_name ≡ Option.map (λ e. e.0) (table k))

  abbrev pub Represents : RpcRouter S → Table S → Type 0
  Represents r table = (k : ℕ) → Agrees r table k

  change_free :
      (r : RpcRouter S) (name : Text) (f : Invoker S)
      → find (key_of name) r.key2func_name ≡ none
      → change r (registers name f) ≡ registered name f r
  unfolding change
  change_free r name f h =
      ap (kept r) (
        register_handler_free name f r (contains-find (key_of name) r.key2func_name ∙ ap is_some h))

  change_taken :
      (r : RpcRouter S) (name other : Text) (f : Invoker S)
      → find (key_of name) r.key2func_name ≡ some other
      → change r (registers name f) ≡ r
  unfolding change
  change_taken r name other f h =
      ap (kept r) (
        register_handler_taken name f r
          (contains-find (key_of name) r.key2func_name ∙ ap is_some h))

  registered-Agrees :
      (r : RpcRouter S) (table : Table S) (name : Text) (f : Invoker S) (k : ℕ)
      → contains (key_of name) r.key2func_name ≡ false
      → Agrees r table k
      → table (key_of name) ≡ none
      → Agrees (registered name f r) (table_change table (registers name f)) k
  unfolding table_change
  registered-Agrees r table name f k free w e = elim (Bool-cases (key_of name == k)) [
    | inl same ↦
        let empty : table k ≡ none = ap table (sym (==→eq (key_of name) k same)) ∙ e in
        (
          find-assign (key_of name) k f r.map_invokers ∙ rw (same, empty),
          find-emplace (key_of name) k name r.key2func_name ∙ rw (free, same, empty),
        )
    | inr other ↦ (
      find-assign (key_of name) k f r.map_invokers ∙ rw other w.0,
      find-emplace (key_of name) k name r.key2func_name ∙ rw (free, other) w.1,
    )
  ]

  taken-Agrees :
      (r : RpcRouter S) (table : Table S) (name : Text) (f : Invoker S) (k : ℕ)
      (entry : Text × Invoker S)
      → Agrees r table k
      → table (key_of name) ≡ some entry
      → Agrees r (table_change table (registers name f)) k
  unfolding table_change
  taken-Agrees r table name f k entry w e = elim (Bool-cases (key_of name == k)) [
    | inl same ↦
        let full : table k ≡ some entry = ap table (sym (==→eq (key_of name) k same)) ∙ e in
        rw (same, full)
          (w.0 ∙ ap (Option.map (λ e. e.1)) full, w.1 ∙ ap (Option.map (λ e. e.0)) full)
    | inr other ↦ rw other w
  ]

  register-Represents :
      (r : RpcRouter S) (table : Table S) (name : Text) (f : Invoker S)
      → Represents r table
      → Represents (change r (registers name f)) (table_change table (registers name f))
  register-Represents r table name f w k =
      let at_key = (w (key_of name)).1 in
      elim (Option-cases (table (key_of name))) [
        | inl e ↦
            let free = at_key ∙ ap (Option.map (λ e. e.0)) e in
            subst (λ q. Agrees q (table_change table (registers name f)) k)
              (sym (change_free r name f free))
              (registered-Agrees r table name f k
                (contains-find (key_of name) r.key2func_name ∙ ap is_some free) (w k) e)
        | inr (entry, e) ↦
            subst (λ q. Agrees q (table_change table (registers name f)) k)
              (sym (change_taken r name entry.0 f (at_key ∙ ap (Option.map (λ e. e.0)) e)))
              (taken-Agrees r table name f k entry (w k) e)
      ]

  remove-Represents :
      (r : RpcRouter S) (table : Table S) (name : Text)
      → Represents r table
      → Represents (change r (removes name)) (table_change table (removes name))
  unfolding change table_change remove_handler
  remove-Represents r table name w k = elim (Bool-cases (key_of name == k)) [
    | inl same ↦ (
      find-erase (key_of name) k r.map_invokers ∙ rw same,
      find-erase (key_of name) k r.key2func_name ∙ rw same,
    )
    | inr other ↦ (
      find-erase (key_of name) k r.map_invokers ∙ rw other (w k).0,
      find-erase (key_of name) k r.key2func_name ∙ rw other (w k).1,
    )
  ]

  changes-Represents :
      (cs : List (Change S)) (r : RpcRouter S) (table : Table S)
      → Represents r table
      → Represents (changes r cs) (table_changes table cs)
  unfolding changes table_changes
  changes-Represents [] r table w = w
  changes-Represents (registers name f ∷ cs) r table w =
      changes-Represents cs _ _ (register-Represents r table name f w)
  changes-Represents (removes name ∷ cs) r table w =
      changes-Represents cs _ _ (remove-Represents r table name w)

  route-Agrees :
      (r : RpcRouter S) (table : Table S) (key : ℕ) (body : Text) (s : S)
      → Agrees r table key
      → route r key body s ≡ table_route table key body s
  unfolding table_route get_name_by_key
  route-Agrees r table key body s w = elim (Option-cases (table key)) [
    | inl e ↦
        route_missing r key body s (w.0 ∙ ap (Option.map (λ e. e.1)) e)
          (w.1 ∙ ap (Option.map (λ e. e.0)) e)
        ∙ ap (λ o. table_answer o key body s) (sym e)
    | inr (entry, e) ↦
        route_found r key entry.1 body s (w.0 ∙ ap (Option.map (λ e. e.1)) e)
        ∙ finish_route-seen r key (entry.1 body default_result s) entry.0
            (named_entry (w.1 ∙ ap (Option.map (λ e. e.0)) e))
        ∙ ap (λ o. table_answer o key body s) (sym e)
  ]
    where
      named_entry :
          {name : Text} → find key r.key2func_name ≡ some name → get_name_by_key key r ≡ name
      named_entry h = rw (h, get_name_by_key)

  -- After any registrations and removals, those that throw included, the router answers each request
  -- as the table does that has gone through the same changes.
  pub route-changes :
      (cs : List (Change S)) (key : ℕ) (body : Text) (s : S)
      → route (changes empty_router cs) key body s
        ≡ table_route (table_changes (λ k. none) cs) key body s
  route-changes cs key body s =
      route-Agrees (changes empty_router cs) (table_changes (λ k. none) cs) key body s
        (changes-Represents cs empty_router (λ k. none) (unfold find in λ k. (refl, refl)) key)
