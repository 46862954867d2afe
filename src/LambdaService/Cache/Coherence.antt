-- ===== src/LambdaService/Cache/Coherence.antt =====
-- cached_repository.go: the cache against the repository, when tasks run at once and when they do
-- not.
use text.Mathlib.Text.{◌==◌ as str_eq}
use mini_lambda.Common.{
  ◌≡◌, ap, String, Bool, true, false, ◌&&◌, Option, none, some, List, [], ◌∷◌, if◌then◌else◌,
  Bool-cases, inl, inr,
}
use mini_lambda.Common.Text.{str_eq_refl}
use mini_lambda.Common.Maps.{Map, lookup, remove, lookup-insert, lookup-remove}
use mini_lambda.Shared.Functions.{Function}
use mini_lambda.Shared.Functions.Interfaces.{found, whole_seconds, FunctionRepository}
use mini_lambda.LambdaService.Cache.{
  CacheTask, run_cache_task, cached_find, find_cached, cached_delete,
}

-- A function but for its times and the fraction of a second in its timeout.
abbrev pub essence : Function → Function
essence f = record f { timeout = whole_seconds f.timeout; created_at = 0; updated_at = 0 }

abbrev essence_of : Option Function → Option Function
essence_of none = none
essence_of (some f) = some (essence f)

-- What the cache holds is the row, if it holds anything, but for the times and the fraction of a
-- second.
abbrev pub Agrees : Option Function → Option Function → Type 0
Agrees none row = Unit
Agrees (some f) row = essence_of row ≡ some (essence f)

abbrev pub run_tasks : List CacheTask → Map Function → Map Function
run_tasks [] cache = cache
run_tasks (t ∷ ts) cache = run_tasks ts (run_cache_task t cache)

pub if-Agrees :
    (b ok : Bool) (f g : Function) (held row : Option Function)
    → essence g ≡ essence f
    → ok ≡ true
    → Agrees held row
    → Agrees (if b then some f else held) (if ok && b then some g else row)
if-Agrees true ok f g held row same e h = rw e (ap some same)
if-Agrees false ok f g held row same e h = rw e h

pub drop-Agrees :
    (b ok : Bool) (held row : Option Function)
    → ok ≡ true
    → Agrees held row
    → Agrees (if b then none else held) (if ok && b then none else row)
drop-Agrees true ok held row e h = tt
drop-Agrees false ok held row e h = rw e h

module _ (repo : FunctionRepository) where
  open repo use {Db, rows, save, delete, rows-save, rows-delete}

  abbrev pub Coherent : String → Db → Map Function → Type 0
  Coherent asked d cache = Agrees (lookup asked cache) (rows asked d)

  -- A `Delete` whose task runs at once keeps the cache in the same agreement with the row of any
  -- identifier.
  pub delete-Coherent :
      (asked id : String) (d : Db) (cache : Map Function)
      → Coherent asked d cache
      → let ((d', ok), tasks) = cached_delete repo id d in Coherent asked d' (run_tasks tasks cache)
  unfolding cached_delete run_cache_task
  delete-Coherent asked id d cache h = elim (Bool-cases (delete id d).1) [
    | inl e ↦
        rw (e, lookup-remove id asked cache, rows-delete asked id d)
          (drop-Agrees (str_eq id asked) (delete id d).1 (lookup asked cache) (rows asked d) e h)
    | inr e ↦ rw (e, rows-delete asked id d, e) h
  ]

  -- A lookup that misses the cache starts a task; if a deletion and its task come before that task
  -- runs, the cache holds the function from then on: a later lookup gives it, although the
  -- repository has no such row.
  pub deleted_stays_cached :
      (id : String) (f : Function) (d : Db) (cache : Map Function)
      → lookup id cache ≡ none
      → repo.find_by_id id d ≡ found f
      → str_eq f.id id ≡ true
      → (delete id d).1 ≡ true
      → let (first, pending) = cached_find repo true id d cache in
        let ((d', ok), deleting) = cached_delete repo id d in
        let late = run_tasks pending (run_tasks deleting cache) in
        (rows id d' ≡ none) × ((cached_find repo true id d' late).0 ≡ found f)
  unfolding cached_find find_cached cached_delete run_cache_task
  deleted_stays_cached id f d cache miss hit same deleted =
      rw (miss, hit, deleted)
        (
          rw (rows-delete, deleted, str_eq_refl),
          rw (lookup-insert f.id id f (remove id cache), same),
        )
