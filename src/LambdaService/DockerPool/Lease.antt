-- ===== src/LambdaService/DockerPool/Lease.antt =====
-- docker_pool.go: `Acquire`, `Release` and `Discard`.
use mini_lambda.Common.{
  ℕ, suc, Bool, true, false, ◌&&◌, Option, none, some, List, [], ◌∷◌, ◌++◌, ltb, leb, if◌then◌else◌,
}
use mini_lambda.Common.Maps.{insert, remove}
use mini_lambda.LambdaService.Pool.{warm, in_use, Container, PoolMetrics}
use mini_lambda.LambdaService.DockerPool.Create.{
  DockerCall, stops, stop_and_replenish, replenish, DockerPool, has_capacity,
}

pub data AcquireResult : Type 0 where
  acquired : Container → AcquireResult
  pool_is_shut_down cancelled blocked : AcquireResult

abbrev pub lend : ℕ → Container → Container
lend now c = record c { state = in_use; last_used = now; use_count = suc (c.use_count) }

-- The first case of the `select`, with the container received.
unfoldable pub hand_out : ℕ → Container → List Container → DockerPool → DockerPool × AcquireResult
hand_out now c rest p = (
  record p {
    idle = rest;
    in_use = insert (c.id) (lend now c) p.in_use;
    metrics = record (p.metrics) { warm_starts = suc (p.metrics.warm_starts) };
  },
  acquired (lend now c),
)

-- A receive from an empty channel: it is ready only once the channel is closed.
abbrev pub receive_empty : Bool → Bool → AcquireResult
receive_empty true done = pool_is_shut_down
receive_empty false true = cancelled
receive_empty false false = blocked

abbrev pub acquire_from : List Container → ℕ → Bool → Bool → DockerPool → DockerPool × AcquireResult
acquire_from [] now done chosen p =
    (p, if done && chosen then cancelled else receive_empty p.idle_closed done)
acquire_from (c ∷ rest) now done chosen p =
    if done && chosen then (p, cancelled) else hand_out now c rest p

-- `Acquire` at the time `now`. `done` says that the context has ended; where both cases of the
-- `select` are ready, `chosen` says that it takes the context's. `blocked` is a call that waits.
unfoldable pub acquire : ℕ → Bool → Bool → DockerPool → DockerPool × AcquireResult
unfolding hand_out
acquire now done chosen p = acquire_from p.idle now done chosen p

abbrev pub count_eviction : PoolMetrics → PoolMetrics
count_eviction m = record m { total_evictions = suc (m.total_evictions) }

-- `Discard`; the stop and the replenishment run in a goroutine.
unfoldable pub discard : Container → DockerPool → DockerPool
discard c p = record p {
  in_use = remove (c.id) p.in_use;
  metrics = count_eviction p.metrics;
  tasks = stop_and_replenish (c.id) ∷ p.tasks;
}

pub data ReleaseResult : Type 0 where
  released nil_container stop_failed : ReleaseResult

-- The end of `Release`, for a container that is not retired. The error of a stop is ignored.
unfoldable pub give_back : ℕ → Container → DockerPool → DockerPool × List DockerCall × ReleaseResult
give_back now c p =
    let rested = record c { state = warm; last_used = now } in
    if p.closed
    then (p, stops c.id ∷ [], released)
    else if has_capacity p
    then (record p { idle = p.idle ++ rested ∷ [] }, [], released)
    else (p, stops c.id ∷ [], released)

-- `Release` of a container that is not nil; `stopped` says that the daemon removes it.
unfoldable pub release_container :
    ℕ → Bool → Container → DockerPool → DockerPool × List DockerCall × ReleaseResult
unfolding give_back
release_container now stopped c p =
    let freed = record p { in_use = remove (c.id) p.in_use } in
    if ltb 0 p.config.max_use_count && leb p.config.max_use_count c.use_count
    then if stopped
      then (
        record freed { metrics = count_eviction p.metrics; tasks = replenish ∷ p.tasks },
        stops c.id ∷ [],
        released,
      )
      else (freed, stops c.id ∷ [], stop_failed)
    else give_back now c freed

unfoldable pub release :
    ℕ → Bool → Option Container → DockerPool → DockerPool × List DockerCall × ReleaseResult
unfolding release_container
release now stopped none p = (p, [], nil_container)
release now stopped (some c) p = release_container now stopped c p
