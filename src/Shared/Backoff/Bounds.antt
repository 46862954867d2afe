-- ===== src/Shared/Backoff/Bounds.antt =====
-- backoff.go: how long `Next` sleeps.
use mini_lambda.Common.{
  ℕ, ◌+◌, ◌-◌, ◌*◌, ◌≤◌, ◌<◌, ◌≡◌, refl, List, [], ◌∷◌, arith, All, ltb, if◌then◌else◌,
}
use mini_lambda.Common.Int.{ℤ, pos, ◌+ℤ◌, ◌-ℤ◌, ◌*ℤ◌, ◌≤ℤ◌, wrap64, wrap64_pos, half_range}
use mini_lambda.Shared.Backoff.{
  Backoff, new_backoff_with_rand, base_of, cap_of, prev_of, draw, clamp, next, sleeps, reset,
}

clamp_bounds :
    (base max_cap x : ℤ)
    → base ≤ℤ max_cap
    → (base ≤ℤ clamp base max_cap x) × (clamp base max_cap x ≤ℤ max_cap)
unfolding clamp
clamp_bounds base max_cap x h = ground arith

next_config :
    (int63n : ℕ → ℕ) (b : Backoff)
    → ((next int63n b).0.base ≡ b.base) × ((next int63n b).0.cap_limit ≡ b.cap_limit)
unfolding next
next_config int63n b = (refl, refl)

abbrev pub Within : ℤ → ℤ → ℤ → Type 0
Within lo hi x = (lo ≤ℤ x) × (x ≤ℤ hi)

-- Whatever the random source answers and however the products wrap, every sleep of a sequence
-- lies between the base and the cap that are in force, if that base is not above that cap.
pub sleeps_bounds :
    (sources : List (ℕ → ℕ)) (b : Backoff)
    → base_of b ≤ℤ cap_of b
    → All (Within (base_of b) (cap_of b)) (sleeps sources b).1
unfolding sleeps next
sleeps_bounds [] b h = tt
sleeps_bounds (int63n ∷ rest) b h = (
  clamp_bounds (base_of b) (cap_of b) (draw int63n (base_of b) (prev_of b)) h,
  sleeps_bounds rest (next int63n b).0 h,
)

-- What `math/rand` documents of `Int63n`.
abbrev pub IsInt63n : (ℕ → ℕ) → Type 0
IsInt63n int63n = (span : ℕ) → 0 < span → int63n span < span

triple : (p : ℕ) → pos p *ℤ pos 3 ≡ pos (3 * p)
unfolding ◌*ℤ◌
triple p = ground arith

minus_base : (x b : ℕ) → b ≤ x → pos x -ℤ pos b ≡ pos (x - b)
unfolding ◌-ℤ◌
minus_base x b h = ground arith

plus_draw : (b n : ℕ) → pos b +ℤ pos n ≡ pos (b + n)
unfolding ◌+ℤ◌
plus_draw b n = ground arith

span_exact :
    (b p : ℕ)
    → b ≤ p
    → 3 * p < half_range
    → wrap64 (wrap64 (pos p *ℤ pos 3) -ℤ pos b) ≡ pos (3 * p - b)
span_exact b p h k =
    rw (triple p, wrap64_pos (3 * p) k, minus_base (3 * p) b (omega arith))
      (wrap64_pos (3 * p - b) (omega arith))

-- Where nothing wraps, the draw is uniform over [base, 3 * prev), in the source's words.
draw_exact :
    (int63n : ℕ → ℕ) (b p : ℕ)
    → IsInt63n int63n
    → 0 < b
    → b ≤ p
    → 3 * p < half_range
    → (n : ℕ) × (draw int63n (pos b) (pos p) ≡ pos (b + n)) × (b + n < 3 * p)
unfolding draw
draw_exact int63n b p s z h k =
    let small : int63n (3 * p - b) < 3 * p - b = s (3 * p - b) (omega arith) in
    (
      int63n (3 * p - b),
      rw (span_exact b p h k, draw)
          (ground (
            arith,
            plus_draw b (int63n (3 * p - b)),
            wrap64_pos (b + int63n (3 * p - b)) (omega (arith, small)),
          )),
      omega (arith, small),
    )

-- The k-th sleep of a list stays below `prev * 3 ^ k`.
abbrev pub Tripling : ℕ → List ℤ → Type 0
Tripling p [] = Unit {0}
Tripling p (s ∷ rest) = (s ≤ℤ pos (3 * p)) × Tripling (3 * p) rest

Tripling-mono : {p q : ℕ} (ss : List ℤ) → p ≤ q → Tripling p ss → Tripling q ss
Tripling-mono [] h t = tt
Tripling-mono {p} {q} (s ∷ rest) h t =
    (omega (arith, t.0), Tripling-mono {p = 3 * p} {q = 3 * q} rest (omega arith) t.1)

next_exact :
    (int63n : ℕ → ℕ) (b c p : ℕ)
    → IsInt63n int63n
    → 0 < b
    → b ≤ c
    → b ≤ p
    → p ≤ c
    → 3 * c < half_range
    → (s : ℕ) × (next int63n (record { base = pos b; cap_limit = pos c; prev = pos p })
        ≡ (record { base = pos b; cap_limit = pos c; prev = pos s }, pos s))
      × (b ≤ s)
      × (s ≤ c)
      × (s < 3 * p)
unfolding next clamp
next_exact int63n b c p i z h l m k =
    let (n, e, lt) = draw_exact int63n b p i z l (omega arith) in
    (
      if ltb c (b + n) then c else b + n,
      ground (arith, e),
      ground arith,
      ground arith,
      ground arith,
    )

module _ (b c : ℕ) where
  at_prev : ℤ → Backoff
  at_prev p = record { base = pos b; cap_limit = pos c; prev = p }

  first_as_base :
      (int63n : ℕ → ℕ) → 0 < b → next int63n (at_prev (pos 0)) ≡ next int63n (at_prev (pos b))
  unfolding next at_prev
  first_as_base int63n z = ground arith

  sleeps-at_prev :
      (sources : List (ℕ → ℕ)) (p : ℕ)
      → All IsInt63n sources
      → 0 < b
      → b ≤ c
      → b ≤ p
      → p ≤ c
      → 3 * c < half_range
      → Tripling p (sleeps sources (at_prev (pos p))).1
  unfolding sleeps at_prev
  sleeps-at_prev [] p i z h l m k = tt
  sleeps-at_prev (int63n ∷ rest) p i z h l m k =
      let (s, e, bs, sc, lt) = next_exact int63n b c p i.0 z h l m k in
      rw (e) (
        omega (arith, lt),
        Tripling-mono {p = s} {q = 3 * p} _ (omega (arith, lt))
            (sleeps-at_prev rest s i.1 z h bs sc k),
      )

-- With a positive base that is not above the cap, a cap whose triple fits 63 bits and a source
-- that keeps to its documentation, the k-th sleep of a new backoff is at most base * 3 ^ k.
pub sleeps_triple :
    (sources : List (ℕ → ℕ)) (b c : ℕ)
    → All IsInt63n sources
    → 0 < b
    → b ≤ c
    → 3 * c < half_range
    → Tripling b (sleeps sources (new_backoff_with_rand (pos b) (pos c))).1
unfolding new_backoff_with_rand sleeps at_prev
sleeps_triple [] b c i z h k = tt
sleeps_triple (int63n ∷ rest) b c i z h k =
    rw (first_as_base b c int63n z) (sleeps-at_prev b c (int63n ∷ rest) b i z h (omega arith) h k)

sleeps_config :
    (sources : List (ℕ → ℕ)) (b : Backoff)
    → ((sleeps sources b).0.base ≡ b.base) × ((sleeps sources b).0.cap_limit ≡ b.cap_limit)
unfolding sleeps next
sleeps_config [] b = (refl, refl)
sleeps_config (int63n ∷ rest) b = sleeps_config rest (next int63n b).0

-- After any number of failures, a `Reset` makes the sleeps that follow those of a new backoff.
pub reset_restarts :
    (before sources : List (ℕ → ℕ)) (base cap_limit : ℤ)
    → (sleeps sources (reset (sleeps before (new_backoff_with_rand base cap_limit)).0)).1
      ≡ (sleeps sources (new_backoff_with_rand base cap_limit)).1
unfolding reset new_backoff_with_rand
reset_restarts before sources base cap_limit =
    ground
      (arith, sleeps_config before (record { base = base; cap_limit = cap_limit; prev = pos 0 }))
