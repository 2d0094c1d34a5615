-- ===== src/AsioUtil/Starting.antt =====
-- Coroutines that are started one after the other by include/rest_rpc/asio_util.hpp.
use mathlib.Core.List.{append_assoc, append-nil}
use rest_rpc.Base.{
  ℕ, suc, Option, ◌^◌, ◌<◌, ◌≡◌, refl, ◌∙◌, ap, sym, arith, none, List, [], ◌∷◌, ◌++◌, length, map,
}
use rest_rpc.Router.{Text}
use rest_rpc.IoContextPool.{io_context_pool, size}
use rest_rpc.IoContextPool.Global.{
  get_global_executor, global_executors, counted, global_executors-counted,
}
use rest_rpc.AsioUtil.{
  Outcome, Coro, Token, detached, use_future, completion, value_handler, Process, async_start_on,
  async_future_on, sync_wait_on, async_start_then, async_start, async_future, sync_wait,
}

map_snoc :
    {A B : Type 0} (f : A → B) (xs : List A) (y : A)
    → map f (xs ++ (y ∷ [])) ≡ map f xs ++ (f y ∷ [])
map_snoc f [] y = refl
map_snoc f (x ∷ xs) y = ap (λ ys. f x ∷ ys) (map_snoc f xs y)

module _ {S R : Type 0} (hardware : ℕ) where
  abbrev pub sizes_of : List (Coro S R) → List ℕ
  sizes_of [] = []
  sizes_of (coro ∷ coros) = hardware ∷ sizes_of coros

  length-sizes_of : (coros : List (Coro S R)) → length (sizes_of coros) ≡ length coros
  length-sizes_of [] = refl
  length-sizes_of (c ∷ coros) = ap suc (length-sizes_of coros)

  sizes_of-counted :
      (coros : List (Coro S R))
      → length coros < 2 ^ 64
      → global_executors (sizes_of coros) none
        ≡ counted (size (io_context_pool hardware)) 0 (sizes_of coros)
  sizes_of-counted [] fits = unfold global_executors in refl
  sizes_of-counted (c ∷ coros) fits =
      global_executors-counted hardware (sizes_of coros)
        (omega (arith, length-sizes_of coros, fits))

-- What `co_spawn` is given: an executor, a coroutine and a token.
abbrev pub Submission : Type 0 → Type 0 → Type 0
Submission S R = ℕ × Coro S R × Token S R

abbrev pub executors_of : {S R : Type 0} → List (Submission S R) → List ℕ
executors_of xs = map (λ x. x.0) xs

abbrev pub work_of : {S R : Type 0} → List (Submission S R) → List (Coro S R × Token S R)
work_of xs = map (λ x. (x.1, x.2)) xs

module _ {W S R : Type 0} (co_spawn : ℕ → Coro S R → Token S R → W → W) (hardware : ℕ) where
  -- Several starts.
  abbrev pub start_all : List (Coro S R) → Process W → Process W
  start_all [] p = p
  start_all (coro ∷ coros) p = start_all coros (async_start co_spawn hardware coro p)

module _ {W S R : Type 0} {co_spawn : ℕ → Coro S R → Token S R → W → W}
    (posted : W → List (Submission S R))
    (co_spawn-posted : (e : ℕ) (coro : Coro S R) (token : Token S R) (w : W)
      → posted (co_spawn e coro token w) ≡ posted w ++ ((e, coro, token) ∷ []))
    (hardware : ℕ) where
  spawned :
      (e : ℕ) (coro : Coro S R) (token : Token S R) (w : W)
      → (executors_of (posted (co_spawn e coro token w)) ≡ executors_of (posted w) ++ (e ∷ []))
        × (work_of (posted (co_spawn e coro token w)) ≡ work_of (posted w) ++ ((coro, token) ∷ []))
  spawned e coro token w =
      let same = co_spawn-posted e coro token w in
      (
        ap executors_of same ∙ map_snoc (λ (x : Submission S R). x.0) (posted w) (e, coro, token),
        ap work_of same ∙ map_snoc (λ (x : Submission S R). (x.1, x.2)) (posted w) (e, coro, token),
      )

  start_all-posted :
      (coros : List (Coro S R)) (p : Process W)
      → let p' = start_all co_spawn hardware coros p in
        (executors_of (posted p'.world)
          ≡ executors_of (posted p.world) ++ global_executors (sizes_of hardware coros) p.pool)
        × (work_of (posted p'.world)
            ≡ work_of (posted p.world) ++ map (λ coro. (coro, detached)) coros)
  unfolding async_start async_start_on global_executors
  start_all-posted [] p = (
    sym (append-nil (executors_of (posted p.world))),
    sym (append-nil (work_of (posted p.world))),
  )
  start_all-posted (coro ∷ coros) p =
      let given = get_global_executor hardware p.pool in
      let rest = start_all-posted coros (async_start co_spawn hardware coro p) in
      let one = spawned given.1 coro detached p.world in
      (
        rest.0
            ∙ ap (λ es. es ++ global_executors (sizes_of hardware coros) given.0) one.0
            ∙ append_assoc (executors_of (posted p.world)) _ _,
        rest.1
            ∙ ap (λ work. work ++ map (λ coro. (coro, detached)) coros) one.1
            ∙ append_assoc (work_of (posted p.world)) _ _,
      )

  start_all-append :
      (coros : List (Coro S R)) (last : Coro S R) (p : Process W)
      → start_all co_spawn hardware (coros ++ (last ∷ [])) p
        ≡ async_start co_spawn hardware last (start_all co_spawn hardware coros p)
  start_all-append [] last p = refl
  start_all-append (coro ∷ coros) last p =
      start_all-append coros last (async_start co_spawn hardware coro p)

  async_future-async_start :
      (last : Coro S R) (p : Process W)
      → executors_of (posted (async_future co_spawn hardware last p).world)
        ≡ executors_of (posted (async_start co_spawn hardware last p).world)
  unfolding async_future async_future_on async_start async_start_on
  async_future-async_start last p =
      (spawned _ last use_future p.world).0 ∙ sym (spawned _ last detached p.world).0

  async_future-posted :
      (last : Coro S R) (p : Process W)
      → work_of (posted (async_future co_spawn hardware last p).world)
        ≡ work_of (posted p.world) ++ ((last, use_future) ∷ [])
  unfolding async_future async_future_on
  async_future-posted last p = (spawned _ last use_future p.world).1

  -- Coroutines that a program starts one after the other with `async_start` and no executor, and a
  -- last one that it waits for, are handed to asio once each, in their order, the first ones without
  -- anyone who looks at their ends, on the contexts of the process's pool one after the other, over
  -- and over; and what `sync_wait` then returns or throws is what the future of the last one gives. Where
  -- the last one is started with a callback instead, it is handed over on the given executor with the
  -- handler of that. There are fewer than 2 ^ 64 of them, the pool was not made before, and asio's
  -- `co_spawn` takes each coroutine on, with its executor and its token.
  pub sync_wait-start_all :
      (get : W → W × Outcome R) (coros : List (Coro S R)) (last : Coro S R) (w : W) (e : ℕ) (r : R)
      (cb : Option Text → R → S → S)
      → length (coros ++ (last ∷ [])) < 2 ^ 64
      → let before = start_all co_spawn hardware coros (record { pool = none; world = w }) in
        let waiting = async_future co_spawn hardware last before in
        let waited = sync_wait co_spawn get hardware last before in
        (executors_of (posted waiting.world)
          ≡ executors_of (posted w)
            ++ counted
                (size (io_context_pool hardware))
                0
                (sizes_of hardware (coros ++ (last ∷ []))))
        × (work_of (posted waiting.world)
            ≡ work_of (posted w)
              ++ (map (λ coro. (coro, detached)) coros ++ ((last, use_future) ∷ [])))
        × ((waited.0.world, waited.1) ≡ get waiting.world)
        × (posted (async_start_then co_spawn e last (value_handler r cb) before).world
            ≡ posted before.world ++ ((e, last, completion (value_handler r cb)) ∷ []))
  unfolding sync_wait sync_wait_on async_future async_future_on async_start_then
  sync_wait-start_all get coros last w e r cb fits =
      let start : Process W = record { pool = none; world = w } in
      let before = start_all co_spawn hardware coros start in
      (
        async_future-async_start last before
            ∙ sym (
                ap (λ (p : Process W). executors_of (posted p.world))
                  (start_all-append coros last start))
            ∙ (start_all-posted (coros ++ (last ∷ [])) start).0
            ∙ ap (λ es. executors_of (posted w) ++ es)
                (sizes_of-counted hardware (coros ++ (last ∷ [])) fits),
        async_future-posted last before
            ∙ ap (λ work. work ++ ((last, use_future) ∷ [])) (start_all-posted coros start).1
            ∙ append_assoc (work_of (posted w)) _ _,
        refl,
        co_spawn-posted e last (completion (value_handler r cb)) before.world,
      )
