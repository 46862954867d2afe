-- ===== src/LambdaService/DockerPool/Held.antt =====
-- docker_pool.go: the containers that a pool holds, and those that a creation adds.
use text.Mathlib.Text.{◌==◌ as str_eq}
use mini_lambda.Common.{
  ℕ, ◌+◌, ◌≤◌, ◌≡◌, refl, String, Bool, true, false, Option, none, some, List, [], ◌∷◌, arith, inl,
  inr, Bool-cases,
}
use mini_lambda.Common.Count.{unit_if, count, count-append, has_key}
use mini_lambda.LambdaService.Pool.{Container, PoolConfig}
use mini_lambda.LambdaService.DockerPool.Create.{
  DockerCall, creates, starts, seeds, stops, Task, stop_and_replenish, stop_task, replenish,
  create_task, DockerPool, CreateAnswer, Created, container, refused, create_seeded, place_created,
  enqueue_begin, enqueue_place,
}

abbrev pub has_id : String → Container → Bool
has_id i c = str_eq c.id i

-- The tasks that still have to stop a container.
abbrev pub will_stop : String → Task → Bool
will_stop i (stop_and_replenish id) = str_eq id i
will_stop i (stop_task id) = str_eq id i
will_stop i replenish = false
will_stop i create_task = false

abbrev pub is_start : String → DockerCall → Bool
is_start i creates = false
is_start i (starts id) = str_eq id i
is_start i (seeds id) = false
is_start i (stops id) = false

abbrev pub is_stop : String → DockerCall → Bool
is_stop i creates = false
is_stop i (starts id) = false
is_stop i (seeds id) = false
is_stop i (stops id) = str_eq id i

-- How often a container is idle, in use, or about to be stopped by a goroutine.
abbrev pub held : String → DockerPool → ℕ
held i p = count (has_id i) p.idle + count (has_key i) p.in_use + count (will_stop i) p.tasks

-- The requests and the state that an operation leaves account for what was held and started.
abbrev pub Balanced : String → DockerPool → DockerPool → List DockerCall → Type 0
Balanced i p p' calls = held i p + count (is_start i) calls ≡ held i p' + count (is_stop i) calls

abbrev pub IsFresh : Option String → DockerPool → Type 0
IsFresh none p = Unit {0}
IsFresh (some id) p = held id p ≡ 0

-- The daemon starts what it creates, under an ID that the pool does not hold.
abbrev pub AnswerIsFresh : CreateAnswer → DockerPool → Type 0
AnswerIsFresh answer p = (answer.started ≡ true) × IsFresh answer.created p

-- Started at most once by the requests, and then not held before.
abbrev pub AtMostOne : String → DockerPool → List DockerCall → Type 0
AtMostOne i p calls = held i p + count (is_start i) calls ≤ 1

abbrev pub created_count : String → Option String → ℕ
created_count i none = 0
created_count i (some id) = unit_if (str_eq id i)

-- A creation that ends in a container to place has started it and nothing else; one that ends in
-- an error has stopped what it started.
abbrev pub StartsOf : String → Option String → Created × List DockerCall → Type 0
StartsOf i made (refused, calls) =
    (count (is_start i) calls ≡ count (is_stop i) calls)
    × (count (is_start i) calls ≤ created_count i made)
StartsOf i made (container c, calls) =
    (count (is_start i) calls ≡ unit_if (has_id i c))
    × (count (is_stop i) calls ≡ 0)
    × (count (is_start i) calls ≤ created_count i made)

pub create_seeded-StartsOf :
    (i : String) (answer : CreateAnswer) (config : PoolConfig)
    → answer.started ≡ true
    → StartsOf i answer.created (create_seeded answer config)
unfolding create_seeded
create_seeded-StartsOf i answer config s = ground arith

pub enqueue_begin-StartsOf :
    (i : String) (answer : CreateAnswer) (p : DockerPool)
    → answer.started ≡ true
    → StartsOf i answer.created (enqueue_begin answer p)
unfolding enqueue_begin
enqueue_begin-StartsOf i answer p s = elim (Bool-cases p.closed) [
  | inl closed ↦ rw closed (refl, omega arith)
  | inr live ↦ rw live (create_seeded-StartsOf i answer p.config s)
]

pub enqueue_place_balance :
    (i : String) (c : Container) (p : DockerPool)
    → held i p + unit_if (has_id i c)
      ≡ held i (enqueue_place c p).0 + count (is_stop i) (enqueue_place c p).1
unfolding enqueue_place
enqueue_place_balance i c p = ground (arith, count-append (has_id i) p.idle (c ∷ []))

pub enqueue_place_starts :
    (i : String) (c : Container) (p : DockerPool) → count (is_start i) (enqueue_place c p).1 ≡ 0
unfolding enqueue_place
enqueue_place_starts i c p = ground arith

pub place_created_balance :
    (i : String) (made : Option String) (m : Created × List DockerCall) (p : DockerPool)
    → StartsOf i made m
    → Balanced i p (place_created m p).0 (place_created m p).1
      × (count (is_start i) (place_created m p).1 ≤ created_count i made)
place_created_balance i made (refused, calls) p s = (omega (arith, s), s.1)
place_created_balance i made (container c, calls) p s =
    let more = (enqueue_place c p).1 in
    (
      omega (
        arith,
        s,
        count-append (is_start i) calls more,
        count-append (is_stop i) calls more,
        enqueue_place_balance i c p,
        enqueue_place_starts i c p,
      ),
      omega (arith, s, count-append (is_start i) calls more, enqueue_place_starts i c p),
    )
