-- ===== src/LambdaService/DockerPool/Invariant.antt =====
-- docker_pool.go: what holds of a pool between operations.
use mini_lambda.Common.{
  ℕ, ◌≤◌, ◌≡◌, refl, String, Bool, false, ◌&&◌, Option, none, some, List, [], ◌∷◌, arith, All,
  All-append, length, length-append, keep, ltb, leb, inl, inr, Bool-cases,
}
use mini_lambda.Common.Maps.{Map, lookup, insert, remove}
use mini_lambda.LambdaService.Pool.{warm, in_use, Container, PoolConfig}
use mini_lambda.LambdaService.DockerPool.Create.{
  DockerCall, DockerPool, CreateAnswer, Created, container, refused, place_created, enqueue_begin,
  enqueue_place, enqueue_new, create_seeded,
}
use mini_lambda.LambdaService.DockerPool.Lease.{
  acquire_from, hand_out, discard, release, release_container, give_back,
}

-- `MaxUseCount` is set and reached.
abbrev pub is_worn : PoolConfig → Container → Bool
is_worn config c = ltb 0 config.max_use_count && leb config.max_use_count c.use_count

-- `MaxUseCount` is set and exceeded.
abbrev pub is_overused : PoolConfig → Container → Bool
is_overused config c = ltb 0 config.max_use_count && ltb config.max_use_count c.use_count

-- The code key that a container is made with; without a `SeedFunc` it is empty.
abbrev pub seed_answer : Option (String → Option String) → String → Option String
seed_answer none id = some ""
seed_answer (some seed) id = seed id

-- A container has the code key that the `SeedFunc` gave for it, and is of the pool's runtime.
abbrev pub IsSeeded : PoolConfig → Container → Type 0
IsSeeded config c =
    (seed_answer config.seed_func c.id ≡ some c.code_key) × (c.runtime ≡ config.runtime)

abbrev pub IsRested : PoolConfig → Container → Type 0
IsRested config c = (c.state ≡ warm) × (is_worn config c ≡ false) × IsSeeded config c

abbrev pub IsLent : PoolConfig → String × Container → Type 0
IsLent config (id, c) =
    (c.id ≡ id) × (c.state ≡ in_use) × (is_overused config c ≡ false) × IsSeeded config c

pub record Inv (config : PoolConfig) (p : DockerPool) : Type 0 where
  pub fixed : p.config ≡ config
  pub bounded : length p.idle ≤ config.max_size
  pub rested : All (IsRested config) p.idle
  pub lent : All (IsLent config) p.in_use
  pub closed_together : p.idle_closed ≡ p.closed

pub All-remove :
    (config : PoolConfig) (id : String) (m : Map Container)
    → All (IsLent config) m
    → All (IsLent config) (remove id m)
unfolding remove
All-remove config id [] h = tt
All-remove config id (e ∷ m) h = ground (arith, All-remove config id m h.1)

pub lookup-All :
    (config : PoolConfig) (id : String) (m : Map Container) (c : Container)
    → All (IsLent config) m
    → lookup id m ≡ some c
    → (is_overused config c ≡ false) × IsSeeded config c
unfolding lookup
lookup-All config id [] c h e = cc
lookup-All config id (entry ∷ m) c h e = ground (arith, lookup-All config id m c h.1)

pub All-keep :
    (config : PoolConfig) (test : Container → Bool) (cs : List Container)
    → All (IsRested config) cs
    → All (IsRested config) (keep test cs)
All-keep config test [] h = tt
All-keep config test (c ∷ cs) h = ground (arith, All-keep config test cs h.1)

abbrev pub IsRestedCreated : PoolConfig → Created × List DockerCall → Type 0
IsRestedCreated config (refused, calls) = Unit {0}
IsRestedCreated config (container c, calls) = IsRested config c

pub create_seeded-IsRestedCreated :
    (answer : CreateAnswer) (config : PoolConfig)
    → IsRestedCreated config (create_seeded answer config)
unfolding create_seeded
create_seeded-IsRestedCreated answer config = ground arith

module _ {config : PoolConfig} where
  pub enqueue_place-Inv :
      (c : Container) (p : DockerPool)
      → IsRested config c
      → Inv config p
      → Inv config (enqueue_place c p).0
  unfolding enqueue_place
  enqueue_place-Inv c p r v = ground (
    arith,
    length-append p.idle (c ∷ []),
    All-append (IsRested config) p.idle (c ∷ []) v.rested (r, tt),
  )

  pub place_created-Inv :
      (made : Created × List DockerCall) (p : DockerPool)
      → IsRestedCreated config made
      → Inv config p
      → Inv config (place_created made p).0
  place_created-Inv (refused, calls) p r v = v
  place_created-Inv (container c, calls) p r v = enqueue_place-Inv c p r v

  pub begin-IsRestedCreated :
      (answer : CreateAnswer) (p : DockerPool)
      → p.config ≡ config
      → IsRestedCreated config (enqueue_begin answer p)
  unfolding enqueue_begin
  begin-IsRestedCreated answer p e = elim (Bool-cases p.closed) [
    | inl closed ↦ rw closed tt
    | inr live ↦ rw (live, e) (create_seeded-IsRestedCreated answer config)
  ]

  pub enqueue_new-Inv :
      (answer : CreateAnswer) (p : DockerPool) → Inv config p → Inv config (enqueue_new answer p).0
  unfolding enqueue_new
  enqueue_new-Inv answer p v =
      place_created-Inv (enqueue_begin answer p) p (begin-IsRestedCreated answer p v.fixed) v

  pub acquire_from-Inv :
      (cs : List Container) (now : ℕ) (done chosen : Bool) (p : DockerPool)
      → p.idle ≡ cs
      → Inv config p
      → Inv config (acquire_from cs now done chosen p).0
  unfolding hand_out insert
  acquire_from-Inv [] now done chosen p e v = ground arith
  acquire_from-Inv (c ∷ rest) now done chosen p e v =
      ground (arith, All-remove config c.id p.in_use v.lent)

  pub discard-Inv : (c : Container) (p : DockerPool) → Inv config p → Inv config (discard c p)
  unfolding discard
  discard-Inv c p v = ground (arith, All-remove config c.id p.in_use v.lent)

  pub give_back-Inv :
      (now : ℕ) (c : Container) (p : DockerPool)
      → is_worn config c ≡ false
      → IsSeeded config c
      → Inv config p
      → Inv config (give_back now c p).0
  unfolding give_back
  give_back-Inv now c p w k v =
      let r : Container = record c { state = warm; last_used = now } in
      ground (
        arith,
        length-append p.idle (r ∷ []),
        All-append (IsRested config) p.idle (r ∷ []) v.rested ((refl, w, k), tt),
      )

  pub freed-Inv :
      (c : Container) (p : DockerPool)
      → Inv config p
      → Inv config (record p { in_use = remove c.id p.in_use })
  freed-Inv c p v = record {
    fixed = v.fixed;
    bounded = v.bounded;
    rested = v.rested;
    lent = All-remove config c.id p.in_use v.lent;
    closed_together = v.closed_together;
  }

  pub release-Inv :
      (now : ℕ) (stopped : Bool) (c : Container) (p : DockerPool)
      → IsSeeded config c
      → Inv config p
      → Inv config (release now stopped (some c) p).0
  unfolding release release_container
  release-Inv now stopped c p k v = elim (Bool-cases (is_worn config c)) [
    | inl worn ↦ ground (arith, All-remove config c.id p.in_use v.lent)
    | inr fit ↦ ground (
      arith,
      give_back-Inv now c (record p { in_use = remove c.id p.in_use }) fit k (freed-Inv c p v),
    )
  ]
