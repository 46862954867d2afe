-- ===== src/LambdaService/PoolRegistry/Sound.antt =====
-- pool_registry.go: every entry's pool was made for the entry's code key.
use text.Mathlib.Text.{◌==◌ as str_eq}
use mathlib.Core.Path.{subst}
use mini_lambda.Common.{
  ℕ, ◌≡◌, ◌<◌, refl, sym, ap, ◌∙◌, String, Bool, true, false, Option, none, some, List, [], ◌∷◌,
  inl, inr, if◌then◌else◌, ◌==◌, arith, All, Bool-cases, Option-cases, if-cases, ◌++◌,
}
use mini_lambda.Common.Text.{eq_of_str_eq}
use mini_lambda.Common.Maps.{Map, lookup, insert, remove}
use mini_lambda.Shared.Functions.{Function}
use mini_lambda.LambdaService.Pool.{PoolConfig}
use mini_lambda.LambdaService.DockerPool.Create.{DockerPool}
use mini_lambda.LambdaService.DockerPool.Lease.{acquire}
use mini_lambda.LambdaService.DockerPool.Run.{acquires, step}
use mini_lambda.LambdaService.DockerPool.Invariant.{Inv}
use mini_lambda.LambdaService.DockerPool.History.{new-Inv, step-Inv}
use mini_lambda.LambdaService.PoolRegistry.{
  FunctionEntry, PoolRegistry, put_pool, config_for, add_pool, create_pool, use_entry,
  get_or_create, apply_at,
}

-- An entry whose pool was made for its code key.
abbrev pub IsSound : PoolRegistry → FunctionEntry → Type 0
IsSound r e =
    (p : DockerPool) × (runtime : String) × (r.pools e.p ≡ some p)
    × (e.p < r.next)
    × Inv (config_for r.seeding r.pool_cfg runtime e.code_key) p

abbrev pub Sound : PoolRegistry → Type 0
Sound r = All (λ entry. IsSound r entry.1) r.entries

All-imp :
    (P Q : String × FunctionEntry → Type 0) (m : Map FunctionEntry)
    → ((e : String × FunctionEntry) → P e → Q e)
    → All P m
    → All Q m
All-imp P Q [] f h = tt
All-imp P Q (e ∷ m) f h = (f e h.0, All-imp P Q m f h.1)

All-remove :
    (P : String × FunctionEntry → Type 0) (id : String) (m : Map FunctionEntry)
    → All P m
    → All P (remove id m)
unfolding remove
All-remove P id [] h = tt
All-remove P id (e ∷ m) h = ground (arith, h.0, All-remove P id m h.1)

some_or : FunctionEntry → Option FunctionEntry → FunctionEntry
some_or e none = e
some_or e (some e') = e'

lookup-All :
    (P : FunctionEntry → Type 0) (id : String) (m : Map FunctionEntry) (e : FunctionEntry)
    → All (λ entry. P entry.1) m
    → lookup id m ≡ some e
    → P e
unfolding lookup some_or
lookup-All P id [] e h found = absurd (ground (arith, found))
lookup-All P id (entry ∷ m) e h found = elim (Bool-cases (str_eq entry.0 id)) [
  | inl same ↦
      let q = ap (λ b. if b then some entry.1 else lookup id m) (sym same) ∙ found in
      subst P (ap (some_or entry.1) q) h.0
  | inr other ↦
      lookup-All P id m e h.1
        (ap (λ b. if b then some entry.1 else lookup id m) (sym other) ∙ found)
]

abbrev pub pool_or : DockerPool → Option DockerPool → DockerPool
pool_or p none = p
pool_or p (some q) = q

pub acquire-Inv :
    (config : PoolConfig) (now : ℕ) (done chosen : Bool) (p : DockerPool)
    → Inv config p
    → Inv config (acquire now done chosen p).0
unfolding step
acquire-Inv config now done chosen p v = step-Inv (acquires now done chosen) p v

put_pool-IsSound :
    (at : ℕ) (p p' : DockerPool) (r : PoolRegistry) (e : FunctionEntry)
    → r.pools at ≡ some p
    → ((config : PoolConfig) → Inv config p → Inv config p')
    → IsSound r e
    → IsSound (record r { pools = put_pool at p' r.pools }) e
put_pool-IsSound at p p' r e here keeps (q, runtime, there, old, v) =
    elim (Bool-cases (at == e.p)) [
      | inl same ↦
          let eq : at ≡ e.p = ground (arith, same) in
          let one : q ≡ p = ap (pool_or p) (sym there ∙ ap r.pools (sym eq) ∙ here) in
          let config = config_for r.seeding r.pool_cfg runtime e.code_key in
          (p', runtime, rw same refl, old, keeps config (subst (Inv config) one v))
      | inr other ↦ (q, runtime, rw other there, old, v)
    ]

pub apply_at-Sound :
    {A : Type 0} (o : Option DockerPool) (at : ℕ) (op : DockerPool → DockerPool × A)
    (r : PoolRegistry)
    → r.pools at ≡ o
    → ((config : PoolConfig) (p : DockerPool) → Inv config p → Inv config (op p).0)
    → Sound r
    → Sound (apply_at o at op r).0
apply_at-Sound none at op r here keeps s = s
apply_at-Sound (some p) at op r here keeps s =
    All-imp (λ entry. IsSound r entry.1) _ r.entries
      (λ entry. put_pool-IsSound at p (op p).0 r entry.1 here (λ config. keeps config p)) s

-- Another pool at a new address.
new_pool-IsSound :
    (fn : Function) (p : DockerPool) (r : PoolRegistry) (e : FunctionEntry)
    → IsSound r e
    → IsSound (add_pool fn (some p) r).0 e
unfolding add_pool
new_pool-IsSound fn p r e (q, runtime, there, old, v) =
    let other : (r.next == e.p) ≡ false = ground (arith, old) in
    (q, runtime, rw other there, omega (arith, old), v)

add_pool-Sound :
    (fn : Function) (o : Option DockerPool) (r : PoolRegistry)
    → ((p : DockerPool) → o ≡ some p → Inv (config_for r.seeding r.pool_cfg fn.runtime fn.code) p)
    → Sound r
    → Sound (add_pool fn o r).0
unfolding add_pool insert
add_pool-Sound fn none r made s = s
add_pool-Sound fn (some p) r made s =
    let here : (r.next == r.next) ≡ true = ground arith in
    (
      (p, fn.runtime, rw here refl, omega arith, made p refl),
      All-imp (λ entry. IsSound r entry.1) _ (remove fn.id r.entries)
          (λ entry. new_pool-IsSound fn p r entry.1)
          (All-remove (λ entry. IsSound r entry.1) fn.id r.entries s),
    )

create_pool-Sound :
    (fn : Function) (made pinged : Bool) (now : ℕ) (old : List ℕ) (r : PoolRegistry)
    → Sound r
    → Sound (create_pool fn made pinged now old r).0
unfolding create_pool
create_pool-Sound fn made pinged now old r s =
    add_pool-Sound fn _ (record r { stopping = old ++ r.stopping })
      (λ p e. new-Inv (config_for r.seeding r.pool_cfg fn.runtime fn.code) made pinged now p e) s

pub use_entry-Sound :
    (o : Option FunctionEntry) (fn : Function) (made pinged : Bool) (now : ℕ) (r : PoolRegistry)
    → Sound r
    → Sound (use_entry o fn made pinged now r).0
use_entry-Sound none fn made pinged now r s = create_pool-Sound fn made pinged now [] r s
use_entry-Sound (some e) fn made pinged now r s =
    if-cases (λ (q : PoolRegistry × Option ℕ). Sound q.0) (str_eq e.code_key fn.code) _ _
      (λ same. s) (λ other. create_pool-Sound fn made pinged now (e.p ∷ []) r s)

-- The pool at the address is that of a sound entry with the function's code key.
abbrev pub Finds : Function → PoolRegistry × Option ℕ → Type 0
Finds fn (r, none) = Unit
Finds fn (r, some at) = (e : FunctionEntry) × (e.p ≡ at) × (e.code_key ≡ fn.code) × IsSound r e

add_pool-Finds :
    (fn : Function) (o : Option DockerPool) (r : PoolRegistry)
    → ((p : DockerPool) → o ≡ some p → Inv (config_for r.seeding r.pool_cfg fn.runtime fn.code) p)
    → Finds fn (add_pool fn o r)
unfolding add_pool
add_pool-Finds fn none r made = tt
add_pool-Finds fn (some p) r made =
    let here : (r.next == r.next) ≡ true = ground arith in
    (
      record { code_key = fn.code; p = r.next },
      refl,
      refl,
      (p, fn.runtime, rw here refl, omega arith, made p refl),
    )

create_pool-Finds :
    (fn : Function) (made pinged : Bool) (now : ℕ) (old : List ℕ) (r : PoolRegistry)
    → Finds fn (create_pool fn made pinged now old r)
unfolding create_pool
create_pool-Finds fn made pinged now old r =
    add_pool-Finds fn _ (record r { stopping = old ++ r.stopping })
      (λ p e. new-Inv (config_for r.seeding r.pool_cfg fn.runtime fn.code) made pinged now p e)

pub get_or_create-Finds :
    (fn : Function) (made pinged : Bool) (now : ℕ) (r : PoolRegistry)
    → Sound r
    → Finds fn (get_or_create fn made pinged now r)
unfolding get_or_create
get_or_create-Finds fn made pinged now r s = elim (Option-cases (lookup fn.id r.entries)) [
  | inl e ↦ simp e (create_pool-Finds fn made pinged now [] r)
  | inr (entry, e) ↦ simp e (
      if-cases (Finds fn) (str_eq entry.code_key fn.code) _ _
        (λ same. (
          entry,
          refl,
          eq_of_str_eq entry.code_key fn.code same,
          lookup-All (IsSound r) fn.id r.entries entry s e,
        ))
        (λ other. create_pool-Finds fn made pinged now (entry.p ∷ []) r))
]
