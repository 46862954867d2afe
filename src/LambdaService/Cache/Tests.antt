-- ===== src/LambdaService/Cache/Tests.antt =====
-- Runs of the cached repository.
use mini_lambda.Common.{◌≡◌, refl, true, none, []}
use mini_lambda.Common.Maps.{lookup}
use mini_lambda.Shared.Functions.Interfaces.{found}
use mini_lambda.Shared.Functions.Service.{with_code}
use mini_lambda.Shared.Functions.Service.Tests.{table_repository, two_rows, hello}
use mini_lambda.LambdaService.Cache.{cached_find, cached_delete}
use mini_lambda.LambdaService.Cache.Coherence.{run_tasks, deleted_stays_cached}

deleted_stays_cached_example :
    let (first, pending) = cached_find table_repository true "1" (true, two_rows "k") [] in
    let ((d', ok), deleting) = cached_delete table_repository "1" (true, two_rows "k") in
    let late = run_tasks pending (run_tasks deleting []) in
    (table_repository.rows "1" d' ≡ none)
    × ((cached_find table_repository true "1" d' late).0 ≡ found (with_code hello "k"))
unfolding lookup
deleted_stays_cached_example =
    deleted_stays_cached table_repository "1" (with_code hello "k") (true, two_rows "k") [] refl
      refl refl refl
