-- ===== src/Shared/Backoff/Tests.antt =====
-- The backoff on concrete draws.
use mini_lambda.Common.{ℕ, ◌-◌, ◌≡◌, refl, List, [], ◌∷◌, arith, All}
use mini_lambda.Common.Int.{pos, wrap64, ◌+ℤ◌, ◌-ℤ◌, ◌*ℤ◌}
use mini_lambda.Shared.Backoff.{
  new_backoff, new_backoff_with_rand, next, sleeps, draw, clamp, reset, default_backoff_base,
  default_backoff_cap,
}
use mini_lambda.Shared.Backoff.Bounds.{Within, sleeps_bounds, IsInt63n, reset_restarts}

-- A source that always answers the largest value.
abbrev highest : ℕ → ℕ
highest span = span - 1

highest-IsInt63n : IsInt63n highest
highest-IsInt63n span h = omega arith

abbrev unlucky : List (ℕ → ℕ)
unlucky = highest ∷ highest ∷ highest ∷ highest ∷ []

unlucky-sleeps :
    (sleeps unlucky (new_backoff_with_rand (pos 10) (pos 200))).1
    ≡ pos 29 ∷ pos 86 ∷ pos 200 ∷ pos 200 ∷ []
unfolding sleeps next draw clamp new_backoff_with_rand wrap64 ◌+ℤ◌ ◌-ℤ◌ ◌*ℤ◌
unlucky-sleeps = refl

sleeps_bounds_example :
    All (Within default_backoff_base default_backoff_cap) (sleeps unlucky new_backoff).1
unfolding new_backoff
sleeps_bounds_example = sleeps_bounds unlucky new_backoff (omega arith)

reset_restarts_example :
    (sleeps unlucky (reset (sleeps unlucky (new_backoff_with_rand (pos 10) (pos 200))).0)).1
    ≡ (sleeps unlucky (new_backoff_with_rand (pos 10) (pos 200))).1
reset_restarts_example = reset_restarts unlucky unlucky (pos 10) (pos 200)
