-- ===== src/LambdaService/DockerPool/Tests.antt =====
-- A Docker pool on concrete operations.
use mini_lambda.Common.{
  ℕ, ◌+◌, ◌≤◌, ◌≡◌, refl, String, true, false, some, List, [], ◌∷◌, arith, length,
}
use mini_lambda.Common.Maps.{lookup, insert, remove}
use mini_lambda.Common.Count.{count}
use mini_lambda.LambdaService.Pool.{PoolConfig, no_metrics}
use mini_lambda.LambdaService.DockerPool.Create.{
  DockerCall, DockerPool, new_docker_pool, CreateAnswer, enqueue_new, create_seeded, start_loop,
}
use mini_lambda.LambdaService.DockerPool.Lease.{acquire, release}
use mini_lambda.LambdaService.DockerPool.Lifecycle.{run_task}
use mini_lambda.LambdaService.DockerPool.Run.{
  Op, acquires, releases, enqueues, runs, step, run, pick, run_nth, release_held,
}
use mini_lambda.LambdaService.DockerPool.Invariant.{Inv}
use mini_lambda.LambdaService.DockerPool.History.{docker_pool-Inv}
use mini_lambda.LambdaService.DockerPool.Held.{held, is_start, is_stop}
use mini_lambda.LambdaService.DockerPool.Books.{OpsAreFresh}
use mini_lambda.LambdaService.DockerPool.Conservation.{run_conserves}
use mini_lambda.LambdaService.DockerPool.Filling.{MakesContainer, start_fills}

abbrev config_of : ℕ → ℕ → PoolConfig
config_of min_size max_size = record {
  runtime = "python3.11";
  min_size = min_size;
  max_size = max_size;
  max_idle_time = 100;
  max_use_count = 2;
  tick_interval = 30;
  seed_func = some (λ id. some "code-key");
}

abbrev empty_pool : ℕ → ℕ → DockerPool
empty_pool min_size max_size = record {
  config = config_of min_size max_size;
  idle = [];
  idle_closed = false;
  in_use = [];
  metrics = no_metrics;
  created_at = 0;
  closed = false;
  tasks = [];
}

abbrev answer_of : String → CreateAnswer
answer_of id = record { created = some id; started = true; now = 5 }

-- One container is used twice and retired; its replacement is created by a goroutine.
abbrev one_life : List Op
one_life =
    enqueues (answer_of "a")
    ∷ acquires 6 false false
    ∷ releases 7 true "a"
    ∷ acquires 8 false false
    ∷ releases 9 true "a"
    ∷ runs 0 (answer_of "b")
    ∷ []

one_life_calls :
    (run one_life (empty_pool 1 3)).1
    ≡ DockerCall.creates
      ∷ DockerCall.starts "a"
      ∷ DockerCall.seeds "a"
      ∷ DockerCall.stops "a"
      ∷ DockerCall.creates
      ∷ DockerCall.starts "b"
      ∷ DockerCall.seeds "b"
      ∷ []
unfolding run step enqueue_new acquire release_held release run_nth run_task pick lookup insert
    remove
one_life_calls = refl

docker_pool-Inv_example : Inv (config_of 1 3) (run one_life (empty_pool 1 3)).0
unfolding new_docker_pool
docker_pool-Inv_example = docker_pool-Inv (config_of 1 3) true true 0 (empty_pool 1 3) one_life refl

one_life_fresh : OpsAreFresh one_life (empty_pool 1 3)
unfolding run step enqueue_new acquire release_held release run_nth run_task pick lookup insert
    remove
one_life_fresh = ((refl, refl), (tt, (tt, (tt, (tt, ((refl, refl), tt))))))

run_conserves_example :
    (count (is_start "b") (run one_life (empty_pool 1 3)).1
      ≡ held "b" (run one_life (empty_pool 1 3)).0
        + count (is_stop "b") (run one_life (empty_pool 1 3)).1)
    × (held "b" (run one_life (empty_pool 1 3)).0 ≤ 1)
unfolding new_docker_pool
run_conserves_example =
    run_conserves (config_of 1 3) true true 0 (empty_pool 1 3) one_life refl one_life_fresh "b"

always_made :
    (min_size max_size n : ℕ) → MakesContainer (config_of min_size max_size) (answer_of "a")
unfolding create_seeded
always_made min_size max_size n = (_, refl)

start_fills_example :
    (p' : DockerPool) × (calls : List DockerCall) × (start_loop 3
        (λ n. answer_of "a")
        (empty_pool 2 3)
      ≡ some (p', calls))
    × (length p'.idle ≡ 2)
start_fills_example =
    start_fills (λ n. answer_of "a") (empty_pool 2 3) (always_made 2 3) refl (omega arith)
      (omega arith)
