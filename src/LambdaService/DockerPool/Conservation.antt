-- ===== src/LambdaService/DockerPool/Conservation.antt =====
-- docker_pool.go: what becomes of every container that the daemon starts for the pool.
use mathlib.Core.Path.{subst}
use mini_lambda.Common.{
  ℕ, ◌+◌, ◌≤◌, ◌≡◌, refl, sym, String, Bool, Option, some, List, [], ◌∷◌, arith, inl, inr,
  Option-cases,
}
use mini_lambda.Common.Maps.{lookup}
use mini_lambda.Common.Count.{count, count-append}
use mini_lambda.LambdaService.Pool.{Container, PoolConfig}
use mini_lambda.LambdaService.DockerPool.Create.{
  DockerCall, DockerPool, new_docker_pool, enqueue_new,
}
use mini_lambda.LambdaService.DockerPool.Lease.{acquire}
use mini_lambda.LambdaService.DockerPool.Lifecycle.{evict, evict_from}
use mini_lambda.LambdaService.DockerPool.Run.{
  Op, acquires, releases, discards, evicts, ticks, enqueues, runs, shuts_down, run_nth,
  release_held, discard_held, step, run,
}
use mini_lambda.LambdaService.DockerPool.Invariant.{Inv}
use mini_lambda.LambdaService.DockerPool.Held.{is_start, is_stop, held, Balanced, IsFresh}
use mini_lambda.LambdaService.DockerPool.History.{new-Inv, step-Inv}
use mini_lambda.LambdaService.DockerPool.Balance.{
  acquire_from_balance, evict_from_balance, tick_balance, lookup_id, release_balance,
  discard_balance,
}
use mini_lambda.LambdaService.DockerPool.Books.{
  OpIsFresh, OpsAreFresh, fresh_count, CreationBooked, enqueue_new-Booked, run_nth-Booked,
}

-- The books of one operation: they balance, and no container is started that is held already.
abbrev Booked : String → DockerPool → DockerPool × List DockerCall → Type 0
Booked i p (p', calls) = Balanced i p p' calls × (held i p + count (is_start i) calls ≤ 1)

creation-Booked :
    (i : String) (made : Option String) (p : DockerPool) (r : DockerPool × List DockerCall)
    → held i p ≤ 1
    → IsFresh made p
    → CreationBooked i made p r
    → Booked i p r
creation-Booked i made p (p', calls) h f (b, few) =
    (b, omega (arith, few, fresh_count i made p h f))

found_own :
    (config : PoolConfig) (p : DockerPool) (id : String) (c : Container)
    → Inv config p
    → lookup id p.in_use ≡ some c
    → lookup c.id p.in_use ≡ some c
found_own config p id c v e =
    subst (λ k. lookup k p.in_use ≡ some c) (sym (lookup_id config id p.in_use c v.lent e)) e

module _ (config : PoolConfig) (p : DockerPool) (v : Inv config p)
    (h : (j : String) → held j p ≤ 1) where
  release_held-Booked :
      (i : String) (now : ℕ) (stopped : Bool) (id : String)
      → Booked i p (release_held now stopped id p)
  unfolding release_held
  release_held-Booked i now stopped id = elim (Option-cases (lookup id p.in_use)) [
    | inl e ↦ rw (e, release_held) (refl, omega (arith, h i))
    | inr (c, e) ↦
        let (b, few) = release_balance i now stopped c p (h c.id) (found_own config p id c v e) in
        rw (e, release_held) (b, omega (arith, few, h i))
  ]

  discard_held_balance : (i id : String) → held i (discard_held id p) ≡ held i p
  unfolding discard_held
  discard_held_balance i id = elim (Option-cases (lookup id p.in_use)) [
    | inl e ↦ rw (e, discard_held)
    | inr (c, e) ↦
        rw (e, discard_held) (discard_balance i c p (h c.id) (found_own config p id c v e))
  ]

  evict_starts :
      (i : String) (cs : List Container) (stopped : Bool)
      → count (is_start i) (evict_from cs stopped p).1 ≡ 0
  evict_starts i [] stopped = refl
  evict_starts i (c ∷ rest) stopped = refl

  step-Booked : (i : String) (op : Op) → OpIsFresh op p → Booked i p (step op p)
  unfolding step acquire evict
  step-Booked i (acquires now done chosen) f =
      let b = acquire_from_balance i p.idle now done chosen p h refl in
      (omega (arith, b), omega (arith, h i))
  step-Booked i (releases now stopped id) f = release_held-Booked i now stopped id
  step-Booked i (discards id) f = (omega (arith, discard_held_balance i id), omega (arith, h i))
  step-Booked i (evicts stopped) f = (
    evict_from_balance i p.idle stopped p refl,
    omega (arith, evict_starts i p.idle stopped, h i),
  )
  step-Booked i (ticks now) f = (omega (arith, tick_balance i now p), omega (arith, h i))
  step-Booked i (enqueues answer) f =
      creation-Booked i answer.created p ((enqueue_new answer p).0, (enqueue_new answer p).1) (h i)
        f.1 (enqueue_new-Booked i answer f.0 p)
  step-Booked i (runs n answer) f =
      creation-Booked i answer.created p (run_nth n answer p) (h i) f.1
        (run_nth-Booked i n answer p f.0)
  step-Booked i shuts_down f = absurd f

new_holds_none :
    (config : PoolConfig) (made pinged : Bool) (now : ℕ) (p : DockerPool)
    → new_docker_pool config made pinged now ≡ some p
    → (i : String) → held i p ≡ 0
unfolding new_docker_pool
new_holds_none config made pinged now p e i = ground arith

run_balance :
    (config : PoolConfig) (ops : List Op) (p : DockerPool)
    → Inv config p
    → ((j : String) → held j p ≤ 1)
    → OpsAreFresh ops p
    → (i : String) → Balanced i p (run ops p).0 (run ops p).1 × (held i (run ops p).0 ≤ 1)
unfolding run
run_balance config [] p v h f i = (refl, h i)
run_balance config (op ∷ ops) p v h f i =
    let p' : DockerPool = (step op p).0 in
    let now : (j : String) → Booked j p (step op p) = λ j. step-Booked config p v h j op f.0 in
    let (b, few) = run_balance config ops p' (step-Inv op p v) (λ j. omega (arith, now j)) f.1 i in
    let calls = (step op p).1 in
    let more = (run ops p').1 in
    (
      omega (
        arith,
        b,
        now i,
        count-append (is_start i) calls more,
        count-append (is_stop i) calls more,
      ),
      few,
    )

-- A pool that is not shut down loses no container: if the daemon starts whatever it creates, and
-- under IDs that the pool does not hold, then after any sequence of operations and goroutines
-- each ID was started as often as it has been stopped (or its stop been tried), plus once if it
-- is idle, in use or about to be stopped; and it is never held twice.
pub run_conserves :
    (config : PoolConfig) (made pinged : Bool) (now : ℕ) (p : DockerPool) (ops : List Op)
    → new_docker_pool config made pinged now ≡ some p
    → OpsAreFresh ops p
    → (i : String)
    → (count (is_start i) (run ops p).1 ≡ held i (run ops p).0 + count (is_stop i) (run ops p).1)
      × (held i (run ops p).0 ≤ 1)
run_conserves config made pinged now p ops e f i =
    let none_held : (j : String) → held j p ≡ 0 =
      λ j. new_holds_none config made pinged now p e j in
    let (b, few) =
      run_balance config ops p (new-Inv config made pinged now p e)
        (λ j. omega (arith, none_held j)) f i in
    (omega (arith, b, none_held i), few)
