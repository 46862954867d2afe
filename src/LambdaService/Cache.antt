-- ===== src/LambdaService/Cache.antt =====
-- services/lambda-service/internal/cache/cached_repository.go. The repository is taken with its
-- laws, the cache is a map without expiry whose reads may fail, and what the source starts with
-- `go` is a task that runs later in any order. Lookups are not collapsed.
pub mod Coherence
mod Tests
use mini_lambda.Common.{String, Bool, true, false, Option, none, some, List, [], ◌∷◌, if◌then◌else◌}
use mini_lambda.Common.Maps.{Map, lookup, insert, remove}
use mini_lambda.Shared.Functions.{Function}
use mini_lambda.Shared.Functions.Interfaces.{
  Found, found, not_found, unavailable, FunctionRepository,
}

pub data CacheTask : Type 0 where
  set_task : Function → CacheTask
  delete_task : String → CacheTask

-- The goroutines.
unfoldable pub run_cache_task : CacheTask → Map Function → Map Function
run_cache_task (set_task f) cache = insert f.id f cache
run_cache_task (delete_task id) cache = remove id cache

abbrev pub cached : Bool → String → Map Function → Option Function
cached true id cache = lookup id cache
cached false id cache = none

-- The task of a lookup in the repository.
abbrev pub tasks_of : Found → List CacheTask
tasks_of (found f) = set_task f ∷ []
tasks_of not_found = []
tasks_of unavailable = []

module _ (repo : FunctionRepository) where
  open repo use {Db, find_by_id, save, delete}

  -- `FindByID` for what the cache holds: the result and the tasks that it starts.
  unfoldable pub find_cached : Option Function → String → Db → Found × List CacheTask
  find_cached (some f) id d = (found f, [])
  find_cached none id d = let r = find_by_id id d in (r, tasks_of r)

  -- `FindByID`; the argument says whether the cache can be read.
  unfoldable pub cached_find : Bool → String → Db → Map Function → Found × List CacheTask
  cached_find answers id d cache = find_cached (cached answers id cache) id d

  -- `Save`: whether it succeeds, and the tasks that it starts.
  unfoldable pub cached_save : Function → Db → (Db × Bool) × List CacheTask
  cached_save f d = let (d', ok) = save f d in ((d', ok), if ok then set_task f ∷ [] else [])

  -- `Delete`
  unfoldable pub cached_delete : String → Db → (Db × Bool) × List CacheTask
  cached_delete id d =
      let (d', ok) = delete id d in ((d', ok), if ok then delete_task id ∷ [] else [])
