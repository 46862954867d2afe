-- ===== src/LambdaService/DockerPool/Run.antt =====
-- docker_pool.go: sequences of operations on one pool, with the goroutines that they start.
use mini_lambda.Common.{ℕ, zero, suc, String, Bool, Option, none, some, List, [], ◌∷◌, ◌++◌}
use mini_lambda.Common.Maps.{lookup}
use mini_lambda.LambdaService.DockerPool.Create.{
  DockerCall, Task, DockerPool, CreateAnswer, enqueue_new,
}
use mini_lambda.LambdaService.DockerPool.Lease.{acquire, discard, release}
use mini_lambda.LambdaService.DockerPool.Lifecycle.{evict, evict_and_replenish, shutdown, run_task}

-- A caller releases or discards a container that it holds, named by its ID; a task is named by
-- its place in the list.
pub data Op : Type 0 where
  acquires : ℕ → Bool → Bool → Op
  releases : ℕ → Bool → String → Op
  discards : String → Op
  evicts : Bool → Op
  ticks : ℕ → Op
  enqueues : CreateAnswer → Op
  runs : ℕ → CreateAnswer → Op
  shuts_down : Op

-- The task at a place, and the others.
unfoldable pub pick : ℕ → List Task → Option (Task × List Task)
pick n [] = none
pick zero (t ∷ ts) = some (t, ts)
pick (suc n) (t ∷ ts) = elim (pick n ts) [ none ↦ none | some (u, us) ↦ some (u, t ∷ us) ]

unfoldable pub run_nth : ℕ → CreateAnswer → DockerPool → DockerPool × List DockerCall
run_nth n answer p = elim (pick n p.tasks) [
  | none ↦ (p, [])
  | some (t, ts) ↦ run_task t answer (record p { tasks = ts })
]

unfoldable pub release_held : ℕ → Bool → String → DockerPool → DockerPool × List DockerCall
release_held now stopped id p = elim (lookup id p.in_use) [
  | none ↦ (p, [])
  | some c ↦ let (p', calls, result) = release now stopped (some c) p in (p', calls)
]

unfoldable pub discard_held : String → DockerPool → DockerPool
discard_held id p = elim (lookup id p.in_use) [ none ↦ p | some c ↦ discard c p ]

unfoldable pub step : Op → DockerPool → DockerPool × List DockerCall
step (acquires now done chosen) p = ((acquire now done chosen p).0, [])
step (releases now stopped id) p = release_held now stopped id p
step (discards id) p = (discard_held id p, [])
step (evicts stopped) p = let (p', calls, result) = evict stopped p in (p', calls)
step (ticks now) p = (evict_and_replenish now p, [])
step (enqueues answer) p = let (p', calls, done) = enqueue_new answer p in (p', calls)
step (runs n answer) p = run_nth n answer p
step shuts_down p = shutdown p

unfoldable pub run : List Op → DockerPool → DockerPool × List DockerCall
run [] p = (p, [])
run (op ∷ ops) p =
    let (p', calls) = step op p in let (last, more) = run ops p' in (last, calls ++ more)
