-- ===== src/LambdaService/DockerPool/Lifecycle.antt =====
-- docker_pool.go: eviction, the lifecycle tick, shutdown, and the reports.
use mini_lambda.Common.{
  ℕ, zero, suc, ◌+◌, ◌-◌, String, Bool, true, false, not, none, some, List, [], ◌∷◌, ◌++◌, map, ltb,
  length, keep, replicate, if◌then◌else◌,
}
use mini_lambda.LambdaService.Pool.{Container, PoolStats, Ratio}
use mini_lambda.LambdaService.DockerPool.Create.{
  DockerCall, stops, Task, stop_and_replenish, stop_task, replenish, create_task, DockerPool,
  has_capacity, CreateAnswer, enqueue_new, replenish_one,
}

pub data EvictResult : Type 0 where
  evicted_one stop_error pool_is_empty nil_dereference : EvictResult

-- What is received from the empty channel: nothing, or once it is closed a nil container, whose
-- field `ID` is then read.
abbrev pub evict_empty : Bool → EvictResult
evict_empty true = nil_dereference
evict_empty false = pool_is_empty

abbrev pub evict_from :
    List Container → Bool → DockerPool → DockerPool × List DockerCall × EvictResult
evict_from [] stopped p = (p, [], evict_empty p.idle_closed)
evict_from (c ∷ rest) stopped p =
    (record p { idle = rest }, stops c.id ∷ [], if stopped then evicted_one else stop_error)

unfoldable pub evict : Bool → DockerPool → DockerPool × List DockerCall × EvictResult
evict stopped p = evict_from p.idle stopped p

-- `time.Since(c.LastUsed) < p.config.MaxIdleTime`
abbrev pub is_fresh : ℕ → DockerPool → Container → Bool
is_fresh now p c = ltb (now - c.last_used) p.config.max_idle_time

-- One round of the second loop of `evictAndReplenish`.
unfoldable pub refill_one : Container → DockerPool → DockerPool
refill_one c p =
    if has_capacity p
    then record p { idle = p.idle ++ c ∷ [] }
    else record p { tasks = stop_task c.id ∷ p.tasks }

-- That loop: kept containers return to the channel while it has room.
unfoldable pub refill : List Container → DockerPool → DockerPool
refill [] p = p
refill (c ∷ kept) p = refill kept (refill_one c p)

abbrev pub stop_tasks : List Container → List Task
stop_tasks = map λ c. stop_task c.id

abbrev pub stale : ℕ → DockerPool → List Container
stale now p = keep (λ c. not (is_fresh now p c)) p.idle

-- The first loop, and the goroutines that stop what it evicts.
unfoldable pub drain : ℕ → DockerPool → DockerPool
drain now p = record p {
  idle = [];
  metrics = record (p.metrics) {
    total_evictions = p.metrics.total_evictions + length (stale now p);
  };
  tasks = stop_tasks (stale now p) ++ p.tasks;
}

-- The goroutines that create up to MinSize.
unfoldable pub replenish_later : DockerPool → DockerPool
replenish_later p = record p {
  tasks = replicate (p.config.min_size - length p.idle) create_task ++ p.tasks;
}

-- `evictAndReplenish`, by the lifecycle goroutine. While it runs, the channel is drained, and no
-- other operation sends to it.
unfoldable pub evict_and_replenish : ℕ → DockerPool → DockerPool
evict_and_replenish now p = replenish_later (refill (keep (is_fresh now p) p.idle) (drain now p))

abbrev pub stop_each : {A : Type 0} → (A → String) → List A → List DockerCall
stop_each id [] = []
stop_each id (a ∷ as') = stops (id a) ∷ stop_each id as'

-- `Shutdown`, after the goroutines have ended. The containers in use are stopped, and stay in the
-- map. The error is the number of stops that fail, given in the order of the requests.
unfoldable pub shutdown : DockerPool → DockerPool × List DockerCall
shutdown p = (
  record p { closed = true; idle_closed = true; idle = [] },
  stop_each (λ c. c.id) p.idle ++ stop_each (λ e. e.1.id) p.in_use,
)

unfoldable pub size : DockerPool → ℕ
size p = length p.idle + length p.in_use

abbrev pub ratio : ℕ → ℕ → Ratio
ratio part zero = none
ratio part (suc whole) = some (part, suc whole)

-- `Stats`; the hit rate is in per cent in the source.
unfoldable pub stats : DockerPool → PoolStats
stats p = record {
  runtime = p.config.runtime;
  total_containers = length p.idle + length p.in_use;
  warm_containers = length p.idle;
  in_use_containers = length p.in_use;
  hit_rate = ratio p.metrics.warm_starts (p.metrics.cold_starts + p.metrics.warm_starts);
  cold_starts = p.metrics.cold_starts;
  warm_starts = p.metrics.warm_starts;
  total_evictions = p.metrics.total_evictions;
  average_use_count = none;
  created_at = p.created_at;
}

-- One task runs to its end, taken from the list by its goroutine.
unfoldable pub run_task : Task → CreateAnswer → DockerPool → DockerPool × List DockerCall
unfolding replenish_one enqueue_new
run_task (stop_task id) answer p = (p, stops id ∷ [])
run_task (stop_and_replenish id) answer p =
    let (p', calls) = replenish_one answer p in (p', stops id ∷ calls)
run_task replenish answer p = replenish_one answer p
run_task create_task answer p = let (p', calls, done) = enqueue_new answer p in (p', calls)
