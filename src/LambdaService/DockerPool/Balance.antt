-- ===== src/LambdaService/DockerPool/Balance.antt =====
-- docker_pool.go: each operation accounts for the containers that the pool held before.
use text.Mathlib.Text.{◌==◌ as str_eq}
use text.Mathlib.TextEquality.{eq_iff}
use text.Mathlib.TextPositions.{eq_refl}
use mini_lambda.Common.{
  ℕ, zero, suc, ◌+◌, ◌-◌, ◌≤◌, ◌≡◌, refl, String, Bool, ◌&&◌, some, List, [], ◌∷◌, arith, All,
  length, keep, replicate, ltb, leb, inl, inr, Bool-cases,
}
use mini_lambda.Common.Maps.{Map, lookup, insert, remove}
use mini_lambda.Common.Count.{
  unit_if, count, count-append, count-keep, has_key, count-remove, count-lookup,
}
use mini_lambda.LambdaService.Pool.{warm, Container, PoolConfig}
use mini_lambda.LambdaService.DockerPool.Create.{DockerCall, create_task, DockerPool}
use mini_lambda.LambdaService.DockerPool.Lease.{
  ReleaseResult, acquire_from, hand_out, discard, release, release_container, give_back,
}
use mini_lambda.LambdaService.DockerPool.Lifecycle.{
  evict_from, is_fresh, refill_one, refill, stop_tasks, stale, drain, replenish_later,
  evict_and_replenish,
}
use mini_lambda.LambdaService.DockerPool.Invariant.{IsLent}
use mini_lambda.LambdaService.DockerPool.Held.{has_id, will_stop, is_start, is_stop, held, Balanced}

pub acquire_from_balance :
    (i : String) (cs : List Container) (now : ℕ) (done chosen : Bool) (p : DockerPool)
    → ((j : String) → held j p ≤ 1)
    → p.idle ≡ cs
    → held i (acquire_from cs now done chosen p).0 ≡ held i p
unfolding hand_out insert
acquire_from_balance i [] now done chosen p h e = ground arith
acquire_from_balance i (c ∷ rest) now done chosen p h e =
    ground
      (arith, count-remove c.id i p.in_use, h c.id, eq_iff c.id i, eq_refl c.id, eq_iff c.id c.id)

freed_balance :
    (i id : String) (c : Container) (p : DockerPool)
    → held id p ≤ 1
    → lookup id p.in_use ≡ some c
    → unit_if (str_eq id i) + count (has_key i) (remove id p.in_use) ≡ count (has_key i) p.in_use
freed_balance i id c p h e =
    ground (arith, count-remove id i p.in_use, count-lookup id c p.in_use e, eq_iff id i)

pub evict_from_balance :
    (i : String) (cs : List Container) (stopped : Bool) (p : DockerPool)
    → p.idle ≡ cs
    → Balanced i p (evict_from cs stopped p).0 (evict_from cs stopped p).1
evict_from_balance i [] stopped p e = refl
evict_from_balance i (c ∷ rest) stopped p e = ground arith

refill_one_balance :
    (i : String) (c : Container) (p : DockerPool)
    → held i (refill_one c p) ≡ held i p + unit_if (has_id i c)
unfolding refill_one
refill_one_balance i c p = ground (arith, count-append (has_id i) p.idle (c ∷ []))

refill_balance :
    (i : String) (cs : List Container) (p : DockerPool)
    → held i (refill cs p) ≡ held i p + count (has_id i) cs
unfolding refill
refill_balance i [] p = omega arith
refill_balance i (c ∷ cs) p =
    omega (arith, refill_balance i cs (refill_one c p), refill_one_balance i c p)

count-stop_tasks :
    (i : String) (cs : List Container) → count (will_stop i) (stop_tasks cs) ≡ count (has_id i) cs
count-stop_tasks i [] = refl
count-stop_tasks i (c ∷ cs) = omega (arith, count-stop_tasks i cs)

count-create_tasks : (i : String) (n : ℕ) → count (will_stop i) (replicate n create_task) ≡ 0
count-create_tasks i zero = refl
count-create_tasks i (suc n) = omega (arith, count-create_tasks i n)

drain_balance :
    (i : String) (now : ℕ) (p : DockerPool)
    → held i (drain now p) + count (has_id i) (keep (is_fresh now p) p.idle) ≡ held i p
unfolding drain
drain_balance i now p = omega (
  arith,
  count-append (will_stop i) (stop_tasks (stale now p)) p.tasks,
  count-stop_tasks i (stale now p),
  count-keep (has_id i) (is_fresh now p) p.idle,
)

replenish_later_balance : (i : String) (p : DockerPool) → held i (replenish_later p) ≡ held i p
unfolding replenish_later
replenish_later_balance i p =
    let new = replicate (p.config.min_size - length p.idle) create_task in
    omega (
      arith,
      count-append (will_stop i) new p.tasks,
      count-create_tasks i (p.config.min_size - length p.idle),
    )

pub tick_balance :
    (i : String) (now : ℕ) (p : DockerPool) → held i (evict_and_replenish now p) ≡ held i p
unfolding evict_and_replenish
tick_balance i now p =
    let kept = keep (is_fresh now p) p.idle in
    omega (
      arith,
      replenish_later_balance i (refill kept (drain now p)),
      refill_balance i kept (drain now p),
      drain_balance i now p,
    )

give_back_balance :
    (i : String) (now : ℕ) (c : Container) (p : DockerPool)
    → held i p + unit_if (has_id i c)
      ≡ held i (give_back now c p).0 + count (is_stop i) (give_back now c p).1
unfolding give_back
give_back_balance i now c p =
    ground (arith, count-append (has_id i) p.idle (record c { state = warm; last_used = now } ∷ []))

-- A container that is in use stands under its own ID.
pub lookup_id :
    (config : PoolConfig) (id : String) (m : Map Container) (c : Container)
    → All (IsLent config) m
    → lookup id m ≡ some c
    → c.id ≡ id
unfolding lookup
lookup_id config id [] c h e = cc
lookup_id config id (entry ∷ m) c h e =
    ground (arith, lookup_id config id m c h.1, eq_iff entry.0 id)

give_back_starts :
    (i : String) (now : ℕ) (c : Container) (p : DockerPool)
    → count (is_start i) (give_back now c p).1 ≡ 0
unfolding give_back
give_back_starts i now c p = ground arith

abbrev pub ReleaseBalance :
    String → DockerPool → DockerPool × List DockerCall × ReleaseResult → Type 0
ReleaseBalance i p (p', calls, result) = Balanced i p p' calls × (count (is_start i) calls ≡ 0)

pub release_balance :
    (i : String) (now : ℕ) (stopped : Bool) (c : Container) (p : DockerPool)
    → held c.id p ≤ 1
    → lookup c.id p.in_use ≡ some c
    → ReleaseBalance i p (release now stopped (some c) p)
unfolding release release_container
release_balance i now stopped c p h e =
    let freed : DockerPool = record p { in_use = remove c.id p.in_use } in
    elim (Bool-cases (ltb 0 p.config.max_use_count && leb p.config.max_use_count c.use_count)) [
      | inl worn ↦ rw worn (ground (arith, freed_balance i c.id c p h e))
      | inr fit ↦ rw fit (
        omega (
          arith,
          freed_balance i c.id c p h e,
          give_back_balance i now c freed,
          give_back_starts i now c freed,
        ),
        give_back_starts i now c freed,
      )
    ]

pub discard_balance :
    (i : String) (c : Container) (p : DockerPool)
    → held c.id p ≤ 1
    → lookup c.id p.in_use ≡ some c
    → held i (discard c p) ≡ held i p
unfolding discard
discard_balance i c p h e = omega (arith, freed_balance i c.id c p h e)
