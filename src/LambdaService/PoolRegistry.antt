-- ===== src/LambdaService/PoolRegistry.antt =====
-- services/lambda-service/internal/executor/pool_registry.go: one pool of containers for each
-- function. A pool is shared by reference, so the pools stand in a store under addresses; a pool
-- that is replaced stays there for the callers that still use it. What the source starts in a
-- goroutine, the shutdown of an old pool, is recorded, as is the `Start` of a new one. The storage
-- and the copying into a container are answers.
pub mod Sound
pub mod Kept
pub mod Code
mod Tests
use text.Mathlib.Text.{◌==◌ as str_eq, starts_with}
use mini_lambda.Common.{
  ℕ, suc, String, Bool, true, false, Option, none, some, List, [], ◌∷◌, ◌++◌, ◌==◌, if◌then◌else◌,
  map,
}
use mini_lambda.Common.Maps.{Map, lookup, insert}
use mini_lambda.Shared.Functions.{Function}
use mini_lambda.LambdaService.Pool.{Container, PoolConfig, PoolStats}
use mini_lambda.LambdaService.DockerPool.Create.{DockerCall, DockerPool, new_docker_pool}
use mini_lambda.LambdaService.DockerPool.Lease.{
  AcquireResult, acquire, discard, ReleaseResult, release,
}
use mini_lambda.LambdaService.DockerPool.Lifecycle.{stats, shutdown}

unfoldable pub handler_file : String → String
handler_file runtime =
    if starts_with runtime "python"
    then "handler.py"
    else if starts_with runtime "nodejs"
    then "handler.js"
    else if starts_with runtime "go"
    then "handler.go"
    else "handler.sh"

unfoldable pub base_image_for_runtime : String → String
base_image_for_runtime runtime =
    if str_eq runtime "python3.9"
    then "python:3.9-slim"
    else if str_eq runtime "python3.11"
    then "python:3.11-slim"
    else if str_eq runtime "nodejs18"
    then "node:18-slim"
    else if str_eq runtime "nodejs20"
    then "node:20-slim"
    else if str_eq runtime "go1.21"
    then "golang:1.21-alpine"
    else "alpine"

-- What `Retrieve` gives for a key, and whether the copy of a code, under a file's name, into a
-- container succeeds.
pub record Seeding : Type 0 where
  pub retrieve : String → Option String
  pub copies : String → String → String → Bool

-- `makeSeedFunc`
unfoldable pub make_seed_func : Seeding → String → String → String → Option String
make_seed_func s runtime code_key id = elim (s.retrieve code_key) [
  | none ↦ none
  | some code ↦ if s.copies id code (handler_file runtime) then some code_key else none
]

-- `functionEntry`; the pool is its address.
pub record FunctionEntry : Type 0 where
  pub code_key : String
  pub p : ℕ

pub record PoolRegistry : Type 0 where
  pub entries : Map FunctionEntry
  pub pool_cfg : PoolConfig
  pub seeding : Seeding
  pub pools : ℕ → Option DockerPool
  pub next : ℕ
  pub images : ℕ → String
  pub started : List ℕ
  pub stopping : List ℕ

-- `NewPoolRegistry`
unfoldable pub new_pool_registry : PoolConfig → Seeding → PoolRegistry
new_pool_registry cfg seeding = record {
  entries = [];
  pool_cfg = cfg;
  seeding = seeding;
  pools = λ at. none;
  next = 0;
  images = λ at. "";
  started = [];
  stopping = [];
}

abbrev pub put_pool : ℕ → DockerPool → (ℕ → Option DockerPool) → ℕ → Option DockerPool
put_pool at p pools asked = if at == asked then some p else pools asked

-- The configuration of the pool of a function.
unfoldable pub config_for : Seeding → PoolConfig → String → String → PoolConfig
config_for s cfg runtime code_key = record cfg {
  runtime = runtime;
  seed_func = some (make_seed_func s runtime code_key);
}

-- The end of `getOrCreate`, for a pool that is made or not.
unfoldable pub add_pool : Function → Option DockerPool → PoolRegistry → PoolRegistry × Option ℕ
add_pool fn none r = (r, none)
add_pool fn (some p) r = (
  record r {
    entries = insert fn.id (record { code_key = fn.code; p = r.next }) r.entries;
    pools = put_pool r.next p r.pools;
    next = suc r.next;
    images = λ at. if r.next == at then base_image_for_runtime fn.runtime else r.images at;
    started = r.next ∷ r.started;
  },
  some r.next,
)

-- From the test for a stale pool on; the answers are those of `NewDockerPool`, at the time `now`.
unfoldable pub create_pool :
    Function → Bool → Bool → ℕ → List ℕ → PoolRegistry → PoolRegistry × Option ℕ
create_pool fn made pinged now old r =
    add_pool fn
      (new_docker_pool (config_for r.seeding r.pool_cfg fn.runtime fn.code) made pinged now)
      (record r { stopping = old ++ r.stopping })

abbrev pub use_entry :
    Option FunctionEntry → Function → Bool → Bool → ℕ → PoolRegistry → PoolRegistry × Option ℕ
use_entry none fn made pinged now r = create_pool fn made pinged now [] r
use_entry (some e) fn made pinged now r =
    if str_eq e.code_key fn.code then (r, some e.p) else create_pool fn made pinged now (e.p ∷ []) r

-- `getOrCreate`, run without another one in between: the pool's address, or an error.
unfoldable pub get_or_create : Function → Bool → Bool → ℕ → PoolRegistry → PoolRegistry × Option ℕ
get_or_create fn made pinged now r = use_entry (lookup fn.id r.entries) fn made pinged now r

-- An operation on the pool at an address, with what stands there.
abbrev pub apply_at :
    {A : Type 0}
    → Option DockerPool
    → ℕ
    → (DockerPool → DockerPool × A)
    → PoolRegistry
    → PoolRegistry × Option A
apply_at none at op r = (r, none)
apply_at (some p) at op r =
    let (p', a) = op p in (record r { pools = put_pool at p' r.pools }, some a)

abbrev pub at_pool :
    {A : Type 0} → ℕ → (DockerPool → DockerPool × A) → PoolRegistry → PoolRegistry × Option A
at_pool at op r = apply_at (r.pools at) at op r

abbrev pub with_address : ℕ → Option AcquireResult → Option (ℕ × AcquireResult)
with_address at none = none
with_address at (some a) = some (at, a)

abbrev pub acquire_at :
    Option ℕ → ℕ → Bool → Bool → PoolRegistry → PoolRegistry × Option (ℕ × AcquireResult)
acquire_at none now done chosen r = (r, none)
acquire_at (some at) now done chosen r =
    let (r', result) = at_pool at (acquire now done chosen) r in (r', with_address at result)

-- `Acquire` of the registry, with the answers of the pool's.
unfoldable pub acquire_for :
    Function
    → Bool
    → Bool
    → ℕ
    → ℕ
    → Bool
    → Bool
    → PoolRegistry
    → PoolRegistry × Option (ℕ × AcquireResult)
acquire_for fn made pinged created now done chosen r =
    let (r', found) = get_or_create fn made pinged created r in acquire_at found now done chosen r'

-- `Release` of the registry, to the pool that the container came from.
unfoldable pub release_to :
    ℕ
    → Bool
    → Option Container
    → ℕ
    → PoolRegistry
    → PoolRegistry × Option (List DockerCall × ReleaseResult)
release_to now stopped c at r =
    at_pool at (λ p. let (p', calls, result) = release now stopped c p in (p', (calls, result))) r

-- `Discard` of the registry.
unfoldable pub discard_from : Container → ℕ → PoolRegistry → PoolRegistry
discard_from c at r = (at_pool {A = Unit {0}} at (λ p. (discard c p, tt)) r).0

-- `PoolStats`
unfoldable pub pool_stats : String → PoolRegistry → Option PoolStats
pool_stats function_id r = elim (lookup function_id r.entries) [
  | none ↦ none
  | some e ↦ elim (r.pools e.p) [ none ↦ none | some p ↦ some (stats p) ]
]

-- The pools of the entries are shut down in turn.
unfoldable pub shutdown_each : Map FunctionEntry → PoolRegistry → PoolRegistry × List DockerCall
shutdown_each [] r = (r, [])
shutdown_each (entry ∷ later) r =
    let (r', calls) = at_pool entry.1.p shutdown r in
    let (last, more) = shutdown_each later r' in
    (last, elim calls [ none ↦ more | some c ↦ c ++ more ])

-- `Shutdown` of the registry.
unfoldable pub shutdown_registry : PoolRegistry → PoolRegistry × List DockerCall
shutdown_registry r = shutdown_each r.entries (record r { entries = [] })
