-- ===== src/LambdaService/DockerPool/Filling.antt =====
-- docker_pool.go: `Start` fills the pool, where MinSize is at most MaxSize.
use mini_lambda.Common.{
  ℕ, zero, suc, ◌-◌, ◌≤◌, ◌<◌, ◌≡◌, refl, Bool, true, false, none, some, List, [], ◌∷◌, ◌++◌, arith,
  length, length-append, ltb, if◌then◌else◌, inl, inr, Bool-cases,
}
use mini_lambda.LambdaService.Pool.{Container, PoolConfig}
use mini_lambda.LambdaService.DockerPool.Create.{
  DockerCall, DockerPool, CreateAnswer, Created, container, refused, create_seeded, place_created,
  enqueue_begin, enqueue_place, enqueue_new, start_loop,
}

-- Creation succeeds: the container is created, started and, where the pool seeds, seeded.
abbrev pub MakesContainer : PoolConfig → CreateAnswer → Type 0
MakesContainer config answer = (c : Container) × ((create_seeded answer config).0 ≡ container c)

-- What a successful `enqueueNew` does to a pool that is not shut down.
abbrev Grows : DockerPool → DockerPool × List DockerCall × Bool → Type 0
Grows p (p', calls, done) =
    (done ≡ true)
    × (p'.config ≡ p.config)
    × (p'.closed ≡ false)
    × (length p'.idle
        ≡ (if ltb (length p.idle) p.config.max_size then suc (length p.idle) else length p.idle))

enqueue_place-Grows :
    (c : Container) (p : DockerPool) → p.closed ≡ false → Grows p (enqueue_place c p)
unfolding enqueue_place
enqueue_place-Grows c p o = ground (arith, length-append p.idle (c ∷ []))

place_created-Grows :
    (m : Created × List DockerCall) (c : Container) (p : DockerPool)
    → m.0 ≡ container c
    → p.closed ≡ false
    → Grows p (place_created m p)
place_created-Grows (refused, calls) c p e o = cc
place_created-Grows (container d, calls) c p e o = enqueue_place-Grows d p o

enqueue_new-Grows :
    (answer : CreateAnswer) (p : DockerPool)
    → MakesContainer p.config answer
    → p.closed ≡ false
    → Grows p (enqueue_new answer p)
unfolding enqueue_new enqueue_begin
enqueue_new-Grows answer p (c, e) o = place_created-Grows _ c p (rw o e) o

module _ (config : PoolConfig) (answers : ℕ → CreateAnswer)
    (all_made : (n : ℕ) → MakesContainer config (answers n)) where
  round :
      (fuel : ℕ) (p : DockerPool)
      → p.config ≡ config
      → p.closed ≡ false
      → Grows p (enqueue_new (answers fuel) p)
  round fuel p e o = enqueue_new-Grows (answers fuel) p (rw e (all_made fuel)) o

  fills_from :
      (fuel : ℕ) (p : DockerPool)
      → p.config ≡ config
      → p.closed ≡ false
      → config.min_size ≤ config.max_size
      → length p.idle ≤ config.min_size
      → config.min_size - length p.idle < fuel
      → (p' : DockerPool) × (calls : List DockerCall) × (start_loop fuel answers p
          ≡ some (p', calls))
        × (length p'.idle ≡ config.min_size)
  unfolding start_loop
  fills_from zero p e o h b m = absurd (omega arith)
  fills_from (suc fuel) p e o h b m = elim (Bool-cases (ltb (length p.idle) config.min_size)) [
    | inl low ↦
        let p' : DockerPool = (enqueue_new (answers fuel) p).0 in
        let (ok, same, live, longer) = round fuel p e o in
        let (last, more, run, full) =
          fills_from fuel p' (ground (arith, same)) live h (ground (arith, longer))
            (ground (arith, longer)) in
        (last, (enqueue_new (answers fuel) p).1 ++ more, ground (arith, ok, run), full)
    | inr high ↦ (p, [], ground arith, ground arith)
  ]

  grows_for_ever :
      (fuel : ℕ) (p : DockerPool)
      → p.config ≡ config
      → p.closed ≡ false
      → config.max_size < config.min_size
      → length p.idle ≤ config.max_size
      → start_loop fuel answers p ≡ none
  unfolding start_loop
  grows_for_ever zero p e o h b = refl
  grows_for_ever (suc fuel) p e o h b =
      let (ok, same, live, longer) = round fuel p e o in
      let more =
        grows_for_ever fuel (enqueue_new (answers fuel) p).0 (ground (arith, same)) live h
          (ground (arith, longer)) in
      ground (arith, ok, more)

-- Where MinSize is at most MaxSize and every creation succeeds, the loop of `Start` on an open
-- pool with at most MinSize idle containers ends within MinSize + 1 rounds, and leaves exactly
-- MinSize of them.
pub start_fills :
    (answers : ℕ → CreateAnswer) (p : DockerPool)
    → ((n : ℕ) → MakesContainer p.config (answers n))
    → p.closed ≡ false
    → p.config.min_size ≤ p.config.max_size
    → length p.idle ≤ p.config.min_size
    → (p' : DockerPool) × (calls : List DockerCall) × (start_loop (suc p.config.min_size) answers p
        ≡ some (p', calls))
      × (length p'.idle ≡ p.config.min_size)
start_fills answers p made o h b =
    fills_from p.config answers made (suc p.config.min_size) p refl o h b (omega arith)

-- Where MinSize is above MaxSize and every creation succeeds, the filling loop of `Start` never
-- ends: no number of rounds is enough.
pub start_diverges :
    (answers : ℕ → CreateAnswer) (p : DockerPool) (fuel : ℕ)
    → ((n : ℕ) → MakesContainer p.config (answers n))
    → p.closed ≡ false
    → p.config.max_size < p.config.min_size
    → length p.idle ≤ p.config.max_size
    → start_loop fuel answers p ≡ none
start_diverges answers p fuel made o h b = grows_for_ever p.config answers made fuel p refl o h b
