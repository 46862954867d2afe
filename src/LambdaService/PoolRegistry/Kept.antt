-- ===== src/LambdaService/PoolRegistry/Kept.antt =====
-- pool_registry.go: the storage and the copying that a registry was made with.
use text.Mathlib.Text.{◌==◌ as str_eq}
use mini_lambda.Common.{ℕ, ◌≡◌, refl, Bool, Option, none, some, List, [], ◌∷◌, ◌++◌, if-cases}
use mini_lambda.Common.Maps.{lookup}
use mini_lambda.Shared.Functions.{Function}
use mini_lambda.LambdaService.DockerPool.Create.{DockerPool, new_docker_pool}
use mini_lambda.LambdaService.PoolRegistry.{
  FunctionEntry, PoolRegistry, config_for, add_pool, create_pool, use_entry, get_or_create,
  apply_at,
}

pub apply_at-seeding :
    {A : Type 0} (o : Option DockerPool) (at : ℕ) (op : DockerPool → DockerPool × A)
    (r : PoolRegistry)
    → (apply_at o at op r).0.seeding ≡ r.seeding
apply_at-seeding none at op r = refl
apply_at-seeding (some p) at op r = refl

add_pool-seeding :
    (fn : Function) (o : Option DockerPool) (r : PoolRegistry)
    → (add_pool fn o r).0.seeding ≡ r.seeding
unfolding add_pool
add_pool-seeding fn none r = refl
add_pool-seeding fn (some p) r = refl

create_pool-seeding :
    (fn : Function) (made pinged : Bool) (now : ℕ) (old : List ℕ) (r : PoolRegistry)
    → (create_pool fn made pinged now old r).0.seeding ≡ r.seeding
unfolding create_pool
create_pool-seeding fn made pinged now old r =
    add_pool-seeding fn
      (new_docker_pool (config_for r.seeding r.pool_cfg fn.runtime fn.code) made pinged now)
      (record r { stopping = old ++ r.stopping })

use_entry-seeding :
    (o : Option FunctionEntry) (fn : Function) (made pinged : Bool) (now : ℕ) (r : PoolRegistry)
    → (use_entry o fn made pinged now r).0.seeding ≡ r.seeding
use_entry-seeding none fn made pinged now r = create_pool-seeding fn made pinged now [] r
use_entry-seeding (some e) fn made pinged now r =
    if-cases (λ (q : PoolRegistry × Option ℕ). q.0.seeding ≡ r.seeding) (str_eq e.code_key fn.code)
      (r, some e.p) (create_pool fn made pinged now (e.p ∷ []) r) (λ same. refl)
      (λ other. create_pool-seeding fn made pinged now (e.p ∷ []) r)

pub get_or_create-seeding :
    (fn : Function) (made pinged : Bool) (now : ℕ) (r : PoolRegistry)
    → (get_or_create fn made pinged now r).0.seeding ≡ r.seeding
unfolding get_or_create
get_or_create-seeding fn made pinged now r =
    use_entry-seeding (lookup fn.id r.entries) fn made pinged now r
