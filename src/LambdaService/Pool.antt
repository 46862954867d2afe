-- ===== src/LambdaService/Pool.antt =====
-- services/lambda-service/internal/pool/pool.go and shared/domain/pool.go. Times are nanoseconds;
-- sizes and counts are natural numbers.
use mini_lambda.Common.{ℕ, ◌*◌, String, Option, none}

pub data ContainerState : Type 0 where
  warm in_use cleaning evicted : ContainerState

-- `ContainerState.String`; every value of the type is one of the four constants.
unfoldable pub to_string : ContainerState → String
to_string warm = "warm"
to_string in_use = "in-use"
to_string cleaning = "cleaning"
to_string evicted = "evicted"

pub record Container : Type 0 where
  pub id : String
  pub runtime : String
  pub code_key : String
  pub created_at : ℕ
  pub last_used : ℕ
  pub use_count : ℕ
  pub state : ContainerState
  pub memory_used : ℕ

-- `seed_func` is the answer of `SeedFunc` to a container's ID: the code key, or an error.
pub record PoolConfig : Type 0 where
  pub runtime : String
  pub min_size : ℕ
  pub max_size : ℕ
  pub max_idle_time : ℕ
  pub max_use_count : ℕ
  pub tick_interval : ℕ
  pub seed_func : Option (String → Option String)

abbrev pub second : ℕ
second = 1_000_000_000

unfoldable pub default_pool_config : String → PoolConfig
default_pool_config runtime = record {
  runtime = runtime;
  min_size = 1;
  max_size = 5;
  max_idle_time = 300 * second;
  max_use_count = 500;
  tick_interval = 30 * second;
  seed_func = none;
}

-- `poolMetrics`
pub record PoolMetrics : Type 0 where
  pub cold_starts : ℕ
  pub warm_starts : ℕ
  pub total_evictions : ℕ
  pub total_created : ℕ

abbrev pub no_metrics : PoolMetrics
no_metrics = record { cold_starts = 0; warm_starts = 0; total_evictions = 0; total_created = 0 }

-- A quotient of two numbers that the source computes as a float; `none` is the 0 that stands
-- where the divisor is 0.
abbrev pub Ratio : Type 0
Ratio = Option (ℕ × ℕ)

pub record PoolStats : Type 0 where
  pub runtime : String
  pub total_containers : ℕ
  pub warm_containers : ℕ
  pub in_use_containers : ℕ
  pub hit_rate : Ratio
  pub cold_starts : ℕ
  pub warm_starts : ℕ
  pub total_evictions : ℕ
  pub average_use_count : Ratio
  pub created_at : ℕ
