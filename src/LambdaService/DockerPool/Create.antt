-- ===== src/LambdaService/DockerPool/Create.antt =====
-- docker_pool.go: the state of a pool, and how containers are created and enter it.
use mini_lambda.Common.{
  ℕ, zero, suc, String, Bool, true, false, Option, none, some, List, [], ◌∷◌, ◌++◌, ltb, leb,
  length, if◌then◌else◌,
}
use mini_lambda.Common.Maps.{Map}
use mini_lambda.LambdaService.Pool.{warm, Container, PoolConfig, PoolMetrics, no_metrics}

-- Requests to the daemon; `stops` is `stopDockerContainer`, which stops and removes.
pub data DockerCall : Type 0 where
  creates : DockerCall
  starts seeds stops : String → DockerCall

-- What runs in a goroutine of its own.
pub data Task : Type 0 where
  stop_and_replenish stop_task : String → Task
  replenish create_task : Task

pub record DockerPool : Type 0 where
  pub config : PoolConfig
  pub idle : List Container
  pub idle_closed : Bool
  pub in_use : Map Container
  pub metrics : PoolMetrics
  pub created_at : ℕ
  pub closed : Bool
  pub tasks : List Task

-- `NewDockerPool`, once the daemon has answered the ping; `none` is either of its two errors.
unfoldable pub new_docker_pool : PoolConfig → Bool → Bool → ℕ → Option DockerPool
new_docker_pool config client_made pinged now =
    if client_made
    then if pinged
      then some (record {
        config = config;
        idle = [];
        idle_closed = false;
        in_use = [];
        metrics = no_metrics;
        created_at = now;
        closed = false;
        tasks = [];
      })
      else none
    else none

-- The daemon's answers while a container is created, and the time after it.
pub record CreateAnswer : Type 0 where
  pub created : Option String
  pub started : Bool
  pub now : ℕ

-- How a creation ends: a container to place, or an error.
pub data Created : Type 0 where
  container : Container → Created
  refused : Created

-- `createDockerContainer`
unfoldable pub create_container : CreateAnswer → Option String × List DockerCall
create_container answer = elim answer.created [
  | none ↦ (none, creates ∷ [])
  | some id ↦
      if answer.started
      then (some id, creates ∷ starts id ∷ [])
      else (none, creates ∷ starts id ∷ [])
]

abbrev pub fresh_container : PoolConfig → String → String → ℕ → Container
fresh_container config id code_key now = record {
  id = id;
  runtime = config.runtime;
  code_key = code_key;
  created_at = now;
  last_used = now;
  use_count = 0;
  state = warm;
  memory_used = 0;
}

-- The `SeedFunc` part of `enqueueNew`, for a container that has started.
unfoldable pub seed_container :
    Option (String → Option String) → PoolConfig → String → ℕ → Created × List DockerCall
seed_container none config id now = (container (fresh_container config id "" now), [])
seed_container (some seed) config id now = elim (seed id) [
  | none ↦ (refused, seeds id ∷ stops id ∷ [])
  | some code_key ↦ (container (fresh_container config id code_key now), seeds id ∷ [])
]

unfoldable pub create_seeded : CreateAnswer → PoolConfig → Created × List DockerCall
unfolding create_container seed_container
create_seeded answer config =
    let (made, calls) = create_container answer in
    elim made [
      | none ↦ (refused, calls)
      | some id ↦
          let (c, more) = seed_container config.seed_func config id answer.now in (c, calls ++ more)
    ]

-- The first part of `enqueueNew`: the test of `closed`, and the creation.
unfoldable pub enqueue_begin : CreateAnswer → DockerPool → Created × List DockerCall
unfolding create_seeded
enqueue_begin answer p = if p.closed then (refused, []) else create_seeded answer p.config

-- `p.idle <- c` is ready.
abbrev pub has_capacity : DockerPool → Bool
has_capacity p = ltb (length p.idle) p.config.max_size

abbrev pub count_created : PoolMetrics → PoolMetrics
count_created m = record m {
  cold_starts = suc (m.cold_starts);
  total_created = suc (m.total_created);
}

-- The second part: the counters, the second test of `closed`, and the send. The last part of the
-- result says that no error is returned.
unfoldable pub enqueue_place : Container → DockerPool → DockerPool × List DockerCall × Bool
enqueue_place c p =
    let counted = record p { metrics = count_created p.metrics } in
    if p.closed
    then (counted, stops c.id ∷ [], false)
    else if has_capacity p
    then (record counted { idle = p.idle ++ c ∷ [] }, [], true)
    else (counted, stops c.id ∷ [], true)

abbrev pub place_created :
    Created × List DockerCall → DockerPool → DockerPool × List DockerCall × Bool
place_created (refused, calls) p = (p, calls, false)
place_created (container c, calls) p =
    let (p', more, done) = enqueue_place c p in (p', calls ++ more, done)

-- `enqueueNew` with nothing in between, which is `CreateNew` too
unfoldable pub enqueue_new : CreateAnswer → DockerPool → DockerPool × List DockerCall × Bool
unfolding enqueue_begin enqueue_place
enqueue_new answer p = place_created (enqueue_begin answer p) p

unfoldable pub replenish_one : CreateAnswer → DockerPool → DockerPool × List DockerCall
unfolding enqueue_new
replenish_one answer p =
    let (p', calls, done) = enqueue_new answer p in
    if leb p.config.min_size (length p.idle) then (p, []) else (p', calls)

-- The loop of `Start`, on fuel: `none` is a loop that has not ended. The answers are numbered by
-- the rounds left.
unfoldable pub start_loop :
    ℕ → (ℕ → CreateAnswer) → DockerPool → Option (DockerPool × List DockerCall)
start_loop zero answers p = none
start_loop (suc fuel) answers p =
    let (p', calls, done) = enqueue_new (answers fuel) p in
    let rest = start_loop fuel answers p' in
    if ltb (length p.idle) p.config.min_size
    then if done
      then elim rest [ none ↦ none | some (last, more) ↦ some (last, calls ++ more) ]
      else some (p', calls)
    else some (p, [])
