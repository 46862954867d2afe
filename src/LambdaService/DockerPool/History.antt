-- ===== src/LambdaService/DockerPool/History.antt =====
-- docker_pool.go: every sequence of operations keeps the invariant.
use mini_lambda.Common.{
  ℕ, ◌≡◌, refl, String, Bool, some, List, [], ◌∷◌, arith, All, All-append, length-append, inl, inr,
  Option-cases,
}
use mini_lambda.Common.Maps.{lookup}
use mini_lambda.LambdaService.Pool.{Container, PoolConfig}
use mini_lambda.LambdaService.DockerPool.Create.{
  Task, stop_and_replenish, stop_task, replenish, create_task, DockerPool, new_docker_pool,
  CreateAnswer, replenish_one,
}
use mini_lambda.LambdaService.DockerPool.Lease.{acquire}
use mini_lambda.LambdaService.DockerPool.Lifecycle.{
  evict, evict_from, is_fresh, refill_one, refill, drain, replenish_later, evict_and_replenish,
  shutdown, run_task,
}
use mini_lambda.LambdaService.DockerPool.Run.{
  Op, acquires, releases, discards, evicts, ticks, enqueues, runs, shuts_down, pick, run_nth,
  release_held, discard_held, step, run,
}
use mini_lambda.LambdaService.DockerPool.Invariant.{
  IsRested, Inv, All-keep, lookup-All, enqueue_new-Inv, acquire_from-Inv, discard-Inv, release-Inv,
}

module _ {config : PoolConfig} where
  evict_from-Inv :
      (cs : List Container) (stopped : Bool) (p : DockerPool)
      → p.idle ≡ cs
      → Inv config p
      → Inv config (evict_from cs stopped p).0
  evict_from-Inv [] stopped p e v = v
  evict_from-Inv (c ∷ rest) stopped p e v = ground arith

  refill_one-Inv :
      (c : Container) (p : DockerPool)
      → IsRested config c
      → Inv config p
      → Inv config (refill_one c p)
  unfolding refill_one
  refill_one-Inv c p r v = ground (
    arith,
    length-append p.idle (c ∷ []),
    All-append (IsRested config) p.idle (c ∷ []) v.rested (r, tt),
  )

  refill-Inv :
      (cs : List Container) (p : DockerPool)
      → All (IsRested config) cs
      → Inv config p
      → Inv config (refill cs p)
  unfolding refill
  refill-Inv [] p r v = v
  refill-Inv (c ∷ cs) p r v = refill-Inv cs (refill_one c p) r.1 (refill_one-Inv c p r.0 v)

  -- The tasks and the counters play no part in the invariant.
  retask-Inv :
      (p : DockerPool) (tasks : List Task) → Inv config p → Inv config (record p { tasks = tasks })
  retask-Inv p tasks v = ground arith

  drain-Inv : (now : ℕ) (p : DockerPool) → Inv config p → Inv config (drain now p)
  unfolding drain
  drain-Inv now p v = ground arith

  evict_and_replenish-Inv :
      (now : ℕ) (p : DockerPool) → Inv config p → Inv config (evict_and_replenish now p)
  unfolding evict_and_replenish replenish_later
  evict_and_replenish-Inv now p v = retask-Inv _ _ (
      refill-Inv _ (drain now p) (All-keep config (is_fresh now p) p.idle v.rested)
        (drain-Inv now p v))

  replenish_one-Inv :
      (answer : CreateAnswer) (p : DockerPool)
      → Inv config p
      → Inv config (replenish_one answer p).0
  unfolding replenish_one
  replenish_one-Inv answer p v = ground (arith, enqueue_new-Inv answer p v)

  run_task-Inv :
      (t : Task) (answer : CreateAnswer) (p : DockerPool)
      → Inv config p
      → Inv config (run_task t answer p).0
  unfolding run_task
  run_task-Inv (stop_task id) answer p v = v
  run_task-Inv (stop_and_replenish id) answer p v = replenish_one-Inv answer p v
  run_task-Inv replenish answer p v = replenish_one-Inv answer p v
  run_task-Inv create_task answer p v = enqueue_new-Inv answer p v

  run_nth-Inv :
      (n : ℕ) (answer : CreateAnswer) (p : DockerPool)
      → Inv config p
      → Inv config (run_nth n answer p).0
  unfolding run_nth
  run_nth-Inv n answer p v = elim (Option-cases (pick n p.tasks)) [
    | inl e ↦ rw (e, run_nth) v
    | inr (t, e) ↦
        rw (e, run_nth) (run_task-Inv t.0 answer (record p { tasks = t.1 }) (retask-Inv p t.1 v))
  ]

  release_held-Inv :
      (now : ℕ) (stopped : Bool) (id : String) (p : DockerPool)
      → Inv config p
      → Inv config (release_held now stopped id p).0
  unfolding release_held
  release_held-Inv now stopped id p v = elim (Option-cases (lookup id p.in_use)) [
    | inl e ↦ rw (e, release_held) v
    | inr (c, e) ↦
        rw (e, release_held)
          (release-Inv now stopped c p (lookup-All config id p.in_use c v.lent e).1 v)
  ]

  discard_held-Inv : (id : String) (p : DockerPool) → Inv config p → Inv config (discard_held id p)
  unfolding discard_held
  discard_held-Inv id p v = elim (Option-cases (lookup id p.in_use)) [
    | inl e ↦ rw (e, discard_held) v
    | inr (c, e) ↦ rw (e, discard_held) (discard-Inv c p v)
  ]

  pub step-Inv : (op : Op) (p : DockerPool) → Inv config p → Inv config (step op p).0
  unfolding step acquire evict shutdown
  step-Inv (acquires now done chosen) p v = acquire_from-Inv p.idle now done chosen p refl v
  step-Inv (releases now stopped id) p v = release_held-Inv now stopped id p v
  step-Inv (discards id) p v = discard_held-Inv id p v
  step-Inv (evicts stopped) p v = evict_from-Inv p.idle stopped p refl v
  step-Inv (ticks now) p v = evict_and_replenish-Inv now p v
  step-Inv (enqueues answer) p v = enqueue_new-Inv answer p v
  step-Inv (runs n answer) p v = run_nth-Inv n answer p v
  step-Inv shuts_down p v = ground arith

  pub run_keeps_Inv : (ops : List Op) (p : DockerPool) → Inv config p → Inv config (run ops p).0
  unfolding run
  run_keeps_Inv [] p v = v
  run_keeps_Inv (op ∷ ops) p v = run_keeps_Inv ops (step op p).0 (step-Inv op p v)

pub new-Inv :
    (config : PoolConfig) (made pinged : Bool) (now : ℕ) (p : DockerPool)
    → new_docker_pool config made pinged now ≡ some p
    → Inv config p
unfolding new_docker_pool
new-Inv config made pinged now p e = ground arith

-- After any sequence of operations and goroutines on a new pool, whatever the daemon answers: the
-- idle channel holds at most MaxSize containers, all of them warm and below MaxUseCount, and the
-- containers in use stand under their own IDs and have been used MaxUseCount times at most; and
-- each of them is of the pool's runtime and carries the code key that the pool's `SeedFunc` gave
-- for it.
pub docker_pool-Inv :
    (config : PoolConfig) (made pinged : Bool) (now : ℕ) (p : DockerPool) (ops : List Op)
    → new_docker_pool config made pinged now ≡ some p
    → Inv config (run ops p).0
docker_pool-Inv config made pinged now p ops e =
    run_keeps_Inv ops p (new-Inv config made pinged now p e)
