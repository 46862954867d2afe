-- ===== src/LambdaService/PoolRegistry/Tests.antt =====
-- Runs of the registry of pools.
use mini_lambda.Common.{String, true, false, some, List, [], ◌∷◌}
use mini_lambda.Shared.Functions.Service.{with_code}
use mini_lambda.Shared.Functions.Service.Tests.{hello}
use mini_lambda.LambdaService.Pool
use mini_lambda.LambdaService.Pool.{Container}
use mini_lambda.LambdaService.DockerPool.Create.{CreateAnswer}
use mini_lambda.LambdaService.DockerPool.Run.{enqueues}
use mini_lambda.LambdaService.PoolRegistry.{Seeding}
use mini_lambda.LambdaService.PoolRegistry.Code.{RegistryOp, asks, works}

abbrev seeding : Seeding
seeding = record { retrieve = λ key. some "code"; copies = λ id code file. true }

abbrev answer : String → CreateAnswer
answer id = record { created = some id; started = true; now = 1 }

-- The function is asked for, its pool filled, its code changed, and the new pool filled.
abbrev requests : List RegistryOp
requests =
    asks (with_code hello "k1") true true 1 2 false false
    ∷ works 0 (enqueues (answer "c1"))
    ∷ asks (with_code hello "k2") true true 3 4 false false
    ∷ works 1 (enqueues (answer "c2"))
    ∷ []

abbrev lent : Container
lent = record {
  id = "c2";
  runtime = "python";
  code_key = "k2";
  created_at = 1;
  last_used = 6;
  use_count = 1;
  state = Pool.in_use;
  memory_used = 0;
}
