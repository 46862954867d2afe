-- ===== src/BuildService/Backpressure/Levels.antt =====
-- backpressure.go: the levels, and when a request is accepted.
use mini_lambda.Common.{ℕ, ◌≤◌, ◌≡◌, Bool, true, false, some, ltb, leb, if◌then◌else◌, arith}
use mini_lambda.BuildService.Backpressure.{
  BackpressureLevel, no_backpressure, warning, critical, full, Admission, accepted, queue_unknown,
  rejected, backpressure_thresholds, first_reached, can_accept_request, get_backpressure_level,
}

abbrev pub rank : BackpressureLevel → ℕ
rank no_backpressure = 0
rank warning = 1
rank critical = 2
rank full = 3

-- The level by the depth.
abbrev pub level_at : ℕ → BackpressureLevel
level_at depth =
    if leb 100 depth
    then full
    else if leb 80 depth
    then critical
    else if leb 50 depth
    then warning
    else no_backpressure

pub level-level_at : (depth : ℕ) → get_backpressure_level depth ≡ level_at depth
unfolding get_backpressure_level first_reached backpressure_thresholds
level-level_at depth = ground arith

abbrev pub is_accepted : Admission → Bool
is_accepted accepted = true
is_accepted queue_unknown = false
is_accepted (rejected t depth) = false

abbrev pub is_none_level : BackpressureLevel → Bool
is_none_level no_backpressure = true
is_none_level warning = false
is_none_level critical = false
is_none_level full = false

-- A request is accepted exactly when there is no backpressure, and that is exactly below the depth
-- of the warning: already the warning level refuses.
pub accepts_without_backpressure :
    (depth : ℕ)
    → (is_accepted (can_accept_request (some depth)) ≡ ltb depth 50)
      × (is_none_level (get_backpressure_level depth) ≡ ltb depth 50)
unfolding can_accept_request get_backpressure_level first_reached backpressure_thresholds
accepts_without_backpressure depth = (ground arith, ground arith)

pub rank-level_at :
    (shallow deep : ℕ) → shallow ≤ deep → rank (level_at shallow) ≤ rank (level_at deep)
rank-level_at shallow deep h = ground arith
