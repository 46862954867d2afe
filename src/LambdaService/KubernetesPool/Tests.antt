-- ===== src/LambdaService/KubernetesPool/Tests.antt =====
-- Runs of the Kubernetes pool.
use mini_lambda.Common.{ℕ, ◌≡◌, ◌≤◌, refl, none, some, List, [], ◌∷◌, length, arith}
use mini_lambda.LambdaService.Pool.{in_use, Container, no_metrics}
use mini_lambda.LambdaService.KubernetesPool.{
  KubernetesPodPool, acquire, create_new, pod_of, wait_for_pod, pending, running,
}
use mini_lambda.LambdaService.KubernetesPool.Counts.{Lends, acquire-Lends, create_new-bound}

abbrev pool_with : ℕ → List Container → KubernetesPodPool
pool_with max_size containers = record {
  config = record {
    runtime = "python";
    min_size = 0;
    max_size = max_size;
    max_idle_time = 0;
    max_use_count = 0;
    tick_interval = 0;
    seed_func = none;
  };
  containers = containers;
  metrics = no_metrics;
  created_at = 0;
}

abbrev idle_pod : Container
idle_pod = pod_of "p" "10.0.0.1" 3

abbrev busy_pod : Container
busy_pod = record (pod_of "q" "10.0.0.2" 3) { state = in_use }

waits : wait_for_pod (pending ∷ running "" ∷ running "10.0.0.1" ∷ []) ≡ some "10.0.0.1"
unfolding wait_for_pod
waits = refl

acquire-Lends_example :
    Lends
      (pool_with 2 (busy_pod ∷ idle_pod ∷ []))
      (acquire 9 (pool_with 2 (busy_pod ∷ idle_pod ∷ [])))
acquire-Lends_example = acquire-Lends 9 (pool_with 2 (busy_pod ∷ idle_pod ∷ []))

create_new-bound_example :
    length (create_new (some ("r", "10.0.0.3")) 9 (pool_with 1 (idle_pod ∷ []))).0.0.containers ≤ 1
create_new-bound_example =
    create_new-bound (some ("r", "10.0.0.3")) 9 (pool_with 1 (idle_pod ∷ [])) (omega arith)
      (omega arith)
