-- ===== src/LambdaService/PoolRegistry/Code.antt =====
-- pool_registry.go over docker_pool.go: the code in the containers that a function gets.
use mini_lambda.Common.{ℕ, ◌≡◌, String, Bool, true, Option, none, some, List, [], ◌∷◌}
use mini_lambda.Shared.Functions.{Function}
use mini_lambda.LambdaService.Pool.{Container}
use mini_lambda.LambdaService.DockerPool.Create.{DockerPool}
use mini_lambda.LambdaService.DockerPool.Lease.{
  AcquireResult, acquired, pool_is_shut_down, cancelled, blocked,
}
use mini_lambda.LambdaService.DockerPool.Run.{Op, step}
use mini_lambda.LambdaService.PoolRegistry.{
  Seeding, handler_file, PoolRegistry, at_pool, acquire_for,
}
use mini_lambda.LambdaService.PoolRegistry.Sound.{Sound}

-- The storage gave the code under the key, and it was copied into the container, under the name
-- that the container's runtime starts.
abbrev pub Carries : Seeding → String → Container → Type 0
Carries s key c =
    (code : String) × (s.retrieve key ≡ some code)
    × (s.copies c.id code (handler_file c.runtime) ≡ true)
    × (c.code_key ≡ key)

container_or : Container → AcquireResult → Container
container_or c (acquired d) = d
container_or c pool_is_shut_down = c
container_or c cancelled = c
container_or c blocked = c

-- What the registry does, and what is done with the pools that it has given out.
pub data RegistryOp : Type 0 where
  asks : Function → Bool → Bool → ℕ → ℕ → Bool → Bool → RegistryOp
  works : ℕ → Op → RegistryOp

unfoldable pub run_op : RegistryOp → PoolRegistry → PoolRegistry
run_op (asks fn made pinged created now done chosen) r =
    (acquire_for fn made pinged created now done chosen r).0
run_op (works at op) r = (at_pool at (step op) r).0

unfoldable pub run_ops : List RegistryOp → PoolRegistry → PoolRegistry
run_ops [] r = r
run_ops (op ∷ later) r = run_ops later (run_op op r)

result_or : AcquireResult → Option (ℕ × AcquireResult) → AcquireResult
result_or a none = a
result_or a (some (at, b)) = b
