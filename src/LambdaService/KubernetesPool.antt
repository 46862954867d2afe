-- ===== src/LambdaService/KubernetesPool.antt =====
-- services/lambda-service/internal/pool/kubernetes_pool.go. The cluster is not modelled: an
-- operation takes its answers as arguments and returns the requests for the deletion of pods. The
-- pointers that callers hold are the containers' IDs.
pub mod Counts
pub mod Eviction
mod Tests
use text.Mathlib.Text.{◌==◌ as str_eq}
use mini_lambda.Common.{
  ℕ, zero, suc, ◌+◌, String, Bool, true, false, ◌&&◌, Option, none, some, List, [], ◌∷◌, ◌++◌, map,
  ltb, leb, length, if◌then◌else◌,
}
use mini_lambda.Common.Count.{count}
use mini_lambda.LambdaService.Pool.{
  ContainerState, warm, in_use, cleaning, evicted, Container, PoolConfig, PoolMetrics, no_metrics,
  Ratio, PoolStats,
}

pub record KubernetesPodPool : Type 0 where
  pub config : PoolConfig
  pub containers : List Container
  pub metrics : PoolMetrics
  pub created_at : ℕ

-- `NewKubernetesPodPool`; `none` is either of its errors.
unfoldable pub new_kubernetes_pod_pool : PoolConfig → Bool → Bool → ℕ → Option KubernetesPodPool
new_kubernetes_pod_pool config in_cluster client_made now =
    if in_cluster && client_made
    then some (record { config = config; containers = []; metrics = no_metrics; created_at = now })
    else none

abbrev pub is_warm_state : ContainerState → Bool
is_warm_state warm = true
is_warm_state in_use = false
is_warm_state cleaning = false
is_warm_state evicted = false

abbrev pub is_in_use_state : ContainerState → Bool
is_in_use_state warm = false
is_in_use_state in_use = true
is_in_use_state cleaning = false
is_in_use_state evicted = false

abbrev pub is_warm : Container → Bool
is_warm c = is_warm_state c.state

abbrev pub is_in_use : Container → Bool
is_in_use c = is_in_use_state c.state

abbrev pub keep_before :
    Container → Option (Container × List Container) → Option (Container × List Container)
keep_before c none = none
keep_before c (some (found, others)) = some (found, c ∷ others)

-- The loop of `Acquire`: the first warm container, and the others in their order, which is how
-- `moveToEnd` leaves them before it.
unfoldable pub take_warm : List Container → Option (Container × List Container)
take_warm [] = none
take_warm (c ∷ cs) =
    let later = take_warm cs in if is_warm c then some (c, cs) else keep_before c later

abbrev pub lend_pod : ℕ → Container → Container
lend_pod now c = record c { state = in_use; last_used = now; use_count = suc c.use_count }

abbrev pub count_warm_start : PoolMetrics → PoolMetrics
count_warm_start m = record m { warm_starts = suc m.warm_starts }

-- The body of the loop of `Acquire`, for what it finds; none is a nil container.
abbrev pub hand_over :
    ℕ
    → KubernetesPodPool
    → Option (Container × List Container)
    → KubernetesPodPool × Option Container
hand_over now p none = (p, none)
hand_over now p (some (c, others)) = (
  record p { containers = others ++ lend_pod now c ∷ []; metrics = count_warm_start p.metrics },
  some (lend_pod now c),
)

-- `Acquire`
unfoldable pub acquire : ℕ → KubernetesPodPool → KubernetesPodPool × Option Container
acquire now p = hand_over now p (take_warm p.containers)

-- The container of an ID after a change of what the pointer points to.
unfoldable pub update_pod : String → (Container → Container) → List Container → List Container
update_pod id change [] = []
update_pod id change (c ∷ cs) =
    let rest = update_pod id change cs in (if str_eq c.id id then change c else c) ∷ rest

abbrev pub last_of : Container → List Container → Container
last_of c [] = c
last_of c (d ∷ ds) = last_of d ds

abbrev pub all_but_last : Container → List Container → List Container
all_but_last c [] = []
all_but_last c (d ∷ ds) = c ∷ all_but_last d ds

-- The last element goes to the place of one that is taken out, which came before the rest.
unfoldable pub close_gap : List Container → List Container
close_gap [] = []
close_gap (c ∷ cs) = last_of c cs ∷ all_but_last c cs

-- The loop of `removePodUnsafe`.
unfoldable pub swap_remove : String → List Container → List Container
swap_remove id [] = []
swap_remove id (c ∷ cs) =
    let rest = swap_remove id cs in if str_eq c.id id then close_gap cs else c ∷ rest

abbrev pub count_eviction : PoolMetrics → PoolMetrics
count_eviction m = record m { total_evictions = suc m.total_evictions }

-- `removePodUnsafe`, which ignores the error of the deletion, with the ID that it deletes.
unfoldable pub remove_pod : String → KubernetesPodPool → KubernetesPodPool × List String
remove_pod id p = (
  record p { containers = swap_remove id p.containers; metrics = count_eviction p.metrics },
  id ∷ [],
)

pub data ReleaseResult : Type 0 where
  released nil_container : ReleaseResult

-- `Release` of a container, which the caller knows to have been used `use_count` times.
unfoldable pub release :
    ℕ → Option Container → KubernetesPodPool → (KubernetesPodPool × List String) × ReleaseResult
release now none p = ((p, []), nil_container)
release now (some c) p =
    if ltb 0 p.config.max_use_count && leb p.config.max_use_count c.use_count
    then (
      remove_pod c.id (record p {
        containers = update_pod c.id (λ d. record d { state = cleaning }) p.containers;
      }),
      released,
    )
    else (
      (
        record p {
          containers =
              update_pod c.id (λ d. record d { state = warm; last_used = now }) p.containers;
        },
        [],
      ),
      released,
    )

-- The loop of `Evict` over the containers from the index i on: the index of the best so far.
unfoldable pub lru_index : ℕ → ℕ → ℕ → List Container → ℕ
lru_index i best oldest [] = best
lru_index i best oldest (c ∷ cs) =
    let taken = lru_index (suc i) i c.last_used cs in
    let kept = lru_index (suc i) best oldest cs in
    if is_warm c && ltb c.last_used oldest then taken else kept

abbrev pub at : ℕ → Container → List Container → Container
at zero c cs = c
at (suc i) c [] = c
at (suc i) c (d ∷ ds) = at i d ds

-- `Evict` at the time `now`; false is the error of an empty pool.
unfoldable pub evict_from :
    ℕ → List Container → KubernetesPodPool → (KubernetesPodPool × List String) × Bool
evict_from now [] p = ((p, []), false)
evict_from now (c ∷ cs) p = (remove_pod ((at (lru_index 0 0 now (c ∷ cs)) c cs).id) p, true)

unfoldable pub evict : ℕ → KubernetesPodPool → (KubernetesPodPool × List String) × Bool
evict now p = evict_from now p.containers p

-- What the watch of a pod brings until it is ended or its time is up.
pub data WatchEvent : Type 0 where
  not_a_pod pending succeeded failed unknown : WatchEvent
  running : String → WatchEvent

-- The loop of `createPod`, with the events before the time is up: the address of the pod.
unfoldable pub wait_for_pod : List WatchEvent → Option String
wait_for_pod [] = none
wait_for_pod (event ∷ later) =
    let rest = wait_for_pod later in
    elim event [
      | not_a_pod ↦ rest
      | pending ↦ rest
      | succeeded ↦ rest
      | failed ↦ none
      | unknown ↦ none
      | running ip ↦ if str_eq ip "" then rest else some ip
    ]

abbrev pub named : String → Option String → Option (String × String)
named name none = none
named name (some ip) = some (name, ip)

-- `createPod`: the name of the pod, whether it was created, and whether it can be watched.
unfoldable pub create_pod : String → Bool → Bool → List WatchEvent → Option (String × String)
create_pod name made watched events =
    if made && watched then named name (wait_for_pod events) else none

-- A pod that the cluster has made: its name and its address.
abbrev pub pod_of : String → String → ℕ → Container
pod_of name ip now = record {
  id = name;
  runtime = ip;
  code_key = "";
  created_at = now;
  last_used = now;
  use_count = 0;
  state = warm;
  memory_used = 0;
}

abbrev pub count_cold_start : PoolMetrics → PoolMetrics
count_cold_start m = record m {
  cold_starts = suc m.cold_starts;
  total_created = suc m.total_created;
}

-- The first part of `CreateNew`, up to the request for a pod; false is the error of `Evict`.
unfoldable pub create_begin : ℕ → KubernetesPodPool → (KubernetesPodPool × List String) × Bool
create_begin now p =
    if leb p.config.max_size (length p.containers) then evict now p else ((p, []), true)

-- The end of `CreateNew`; none is an error of `createPod`.
unfoldable pub create_end :
    Option (String × String) → ℕ → KubernetesPodPool → KubernetesPodPool × Option Container
create_end none now p = (p, none)
create_end (some (name, ip)) now p = (
  record p {
    containers = p.containers ++ pod_of name ip now ∷ [];
    metrics = count_cold_start p.metrics;
  },
  some (pod_of name ip now),
)

-- `CreateNew`, when no other call comes between its parts.
unfoldable pub create_new :
    Option (String × String)
    → ℕ
    → KubernetesPodPool
    → (KubernetesPodPool × List String) × Option Container
create_new answer now p =
    let ((p', deleted), ok) = create_begin now p in
    let (p'', created) = create_end answer now p' in
    if ok then ((p'', deleted), created) else ((p', deleted), none)

unfoldable pub size : KubernetesPodPool → ℕ
size p = length p.containers

abbrev pub total_uses : List Container → ℕ
total_uses [] = 0
total_uses (c ∷ cs) = c.use_count + total_uses cs

abbrev pub quotient : ℕ → ℕ → Ratio
quotient part zero = none
quotient part (suc whole) = some (part, suc whole)

-- `Stats`; the hit rate is in per cent in the source.
unfoldable pub stats : KubernetesPodPool → PoolStats
stats p = record {
  runtime = p.config.runtime;
  total_containers = length p.containers;
  warm_containers = count is_warm p.containers;
  in_use_containers = count is_in_use p.containers;
  hit_rate = quotient p.metrics.warm_starts (p.metrics.cold_starts + p.metrics.warm_starts);
  cold_starts = p.metrics.cold_starts;
  warm_starts = p.metrics.warm_starts;
  total_evictions = p.metrics.total_evictions;
  average_use_count = quotient (total_uses p.containers) (length p.containers);
  created_at = p.created_at;
}

-- `Shutdown`, with the cluster's answer to each deletion; false is its error.
unfoldable pub shutdown :
    (String → Bool) → KubernetesPodPool → (KubernetesPodPool × List String) × Bool
shutdown deleted p = (
  (record p { containers = [] }, map (λ c. c.id) p.containers),
  leb (count (λ c. if deleted c.id then false else true) p.containers) 0,
)
