-- ===== src/Shared/Backoff.antt =====
-- shared/queue/backoff.go. A `time.Duration` is a signed 64-bit count of nanoseconds, and its
-- arithmetic wraps. The random source is a parameter: `int63n span` is its answer to
-- `Int63n(span)`, which `math/rand` documents to lie in [0, span) for a positive span.
pub mod Bounds
mod Tests
use mini_lambda.Common.{ℕ, Bool, List, [], ◌∷◌, if◌then◌else◌}
use mini_lambda.Common.Int.{ℤ, pos, negsuc, ◌+ℤ◌, ◌-ℤ◌, ◌*ℤ◌, ltb_ℤ, leb_ℤ, pos_part, wrap64}

abbrev pub default_backoff_base : ℤ
default_backoff_base = pos 500_000_000

abbrev pub default_backoff_cap : ℤ
default_backoff_cap = pos 30_000_000_000

pub record Backoff : Type 0 where
  pub base : ℤ
  pub cap_limit : ℤ
  pub prev : ℤ

-- `NewBackoff`
unfoldable pub new_backoff : Backoff
new_backoff = record { base = default_backoff_base; cap_limit = default_backoff_cap; prev = pos 0 }

-- `NewBackoffWithRand`; the source is the argument of `next`.
unfoldable pub new_backoff_with_rand : ℤ → ℤ → Backoff
new_backoff_with_rand base cap_limit = record { base = base; cap_limit = cap_limit; prev = pos 0 }

unfoldable pub reset : Backoff → Backoff
reset b = record b { prev = pos 0 }

-- `if x <= 0 { x = fallback }`
abbrev pub or_default : ℤ → ℤ → ℤ
or_default x fallback = if leb_ℤ x (pos 0) then fallback else x

abbrev pub base_of : Backoff → ℤ
base_of b = or_default b.base default_backoff_base

abbrev pub cap_of : Backoff → ℤ
cap_of b = or_default b.cap_limit default_backoff_cap

-- `prev`, raised to the base.
abbrev pub prev_of : Backoff → ℤ
prev_of b = if ltb_ℤ b.prev (base_of b) then base_of b else b.prev

-- The sleep before the two final tests.
unfoldable pub draw : (ℕ → ℕ) → ℤ → ℤ → ℤ
draw int63n base prev =
    let span = wrap64 (wrap64 (prev *ℤ pos 3) -ℤ base) in
    if leb_ℤ span (pos 0) then base else wrap64 (base +ℤ pos (int63n (pos_part span)))

-- The two final tests.
unfoldable pub clamp : ℤ → ℤ → ℤ → ℤ
clamp base max_cap sleep =
    let capped = if ltb_ℤ max_cap sleep then max_cap else sleep in
    if ltb_ℤ capped base then base else capped

unfoldable pub next : (ℕ → ℕ) → Backoff → Backoff × ℤ
next int63n b =
    let sleep = clamp (base_of b) (cap_of b) (draw int63n (base_of b) (prev_of b)) in
    (record b { prev = sleep }, sleep)

-- One `Next` for each failed attempt to reconnect; the sources of the calls in order.
unfoldable pub sleeps : List (ℕ → ℕ) → Backoff → Backoff × List ℤ
sleeps [] b = (b, [])
sleeps (int63n ∷ rest) b =
    let (b', sleep) = next int63n b in let (last, more) = sleeps rest b' in (last, sleep ∷ more)
