-- ===== src/LambdaService/DockerPool/Books.antt =====
-- docker_pool.go: what a creation and a goroutine add to the books.
use text.Mathlib.TextEquality.{eq_iff}
use mini_lambda.Common.{
  ℕ, zero, suc, ◌+◌, ◌≤◌, ◌≡◌, refl, String, true, Option, none, some, List, [], ◌∷◌, arith, inl,
  inr, Option-cases,
}
use mini_lambda.Common.Count.{unit_if, count}
use mini_lambda.LambdaService.DockerPool.Create.{
  DockerCall, Task, stop_and_replenish, stop_task, replenish, create_task, DockerPool, CreateAnswer,
  enqueue_begin, enqueue_new, replenish_one,
}
use mini_lambda.LambdaService.DockerPool.Lifecycle.{run_task}
use mini_lambda.LambdaService.DockerPool.Run.{
  Op, acquires, releases, discards, evicts, ticks, enqueues, runs, shuts_down, pick, run_nth, step,
}
use mini_lambda.LambdaService.DockerPool.Held.{
  will_stop, is_start, is_stop, held, Balanced, IsFresh, AnswerIsFresh, created_count,
  enqueue_begin-StartsOf, place_created_balance,
}

-- What an operation must find: the daemon starts what it creates, under a new ID, and the pool is
-- not shut down.
abbrev pub OpIsFresh : Op → DockerPool → Type 0
OpIsFresh (enqueues answer) p = AnswerIsFresh answer p
OpIsFresh (runs n answer) p = AnswerIsFresh answer p
OpIsFresh shuts_down p = ⊥
OpIsFresh (acquires now done chosen) p = Unit {0}
OpIsFresh (releases now stopped id) p = Unit {0}
OpIsFresh (discards id) p = Unit {0}
OpIsFresh (evicts stopped) p = Unit {0}
OpIsFresh (ticks now) p = Unit {0}

abbrev pub OpsAreFresh : List Op → DockerPool → Type 0
OpsAreFresh [] p = Unit {0}
OpsAreFresh (op ∷ ops) p = OpIsFresh op p × OpsAreFresh ops (step op p).0

pub fresh_count :
    (i : String) (made : Option String) (p : DockerPool)
    → held i p ≤ 1
    → IsFresh made p
    → held i p + created_count i made ≤ 1
fresh_count i none p h f = omega arith
fresh_count i (some id) p h f = ground (arith, eq_iff id i)

-- The books of one creation: they balance, and start no other container than the one created.
abbrev pub CreationBooked :
    String → Option String → DockerPool → DockerPool × List DockerCall → Type 0
CreationBooked i made p (p', calls) =
    Balanced i p p' calls × (count (is_start i) calls ≤ created_count i made)

module _ (i : String) (answer : CreateAnswer) (s : answer.started ≡ true) where
  pub enqueue_new-Booked :
      (p : DockerPool)
      → CreationBooked i answer.created p ((enqueue_new answer p).0, (enqueue_new answer p).1)
  unfolding enqueue_new
  enqueue_new-Booked p =
      place_created_balance i answer.created (enqueue_begin answer p) p
        (enqueue_begin-StartsOf i answer p s)

  pub replenish_one-Booked :
      (p : DockerPool) → CreationBooked i answer.created p (replenish_one answer p)
  unfolding replenish_one
  replenish_one-Booked p = ground (arith, enqueue_new-Booked p)

  run_task-Booked :
      (t : Task) (p : DockerPool)
      → (held i p + unit_if (will_stop i t) + count (is_start i) (run_task t answer p).1
          ≡ held i (run_task t answer p).0 + count (is_stop i) (run_task t answer p).1)
        × (count (is_start i) (run_task t answer p).1 ≤ created_count i answer.created)
  unfolding run_task
  run_task-Booked (stop_task id) p = (omega arith, omega arith)
  run_task-Booked (stop_and_replenish id) p =
      let (b, few) = replenish_one-Booked p in (omega (arith, b), omega (arith, few))
  run_task-Booked replenish p =
      let (b, few) = replenish_one-Booked p in (omega (arith, b), omega (arith, few))
  run_task-Booked create_task p =
      let (b, few) = enqueue_new-Booked p in (omega (arith, b), omega (arith, few))

pick-count :
    (i : String) (n : ℕ) (ts : List Task) (t : Task) (rest : List Task)
    → pick n ts ≡ some (t, rest)
    → count (will_stop i) ts ≡ unit_if (will_stop i t) + count (will_stop i) rest
unfolding pick
pick-count i n [] t rest e = cc
pick-count i zero (u ∷ ts) t rest e = ground arith
pick-count i (suc n) (u ∷ ts) t rest e = elim (Option-cases (pick n ts)) [
  | inl f ↦ absurd (ground (arith, f))
  | inr ((v, more), f) ↦ ground (arith, f, pick-count i n ts v more f)
]

pub run_nth-Booked :
    (i : String) (n : ℕ) (answer : CreateAnswer) (p : DockerPool)
    → answer.started ≡ true
    → CreationBooked i answer.created p (run_nth n answer p)
unfolding run_nth
run_nth-Booked i n answer p s = elim (Option-cases (pick n p.tasks)) [
  | inl e ↦ rw (e, run_nth) (refl, omega arith)
  | inr ((t, rest), e) ↦
      let (b, few) = run_task-Booked i answer s t (record p { tasks = rest }) in
      rw (e, run_nth) (omega (arith, b, pick-count i n p.tasks t rest e), few)
]
