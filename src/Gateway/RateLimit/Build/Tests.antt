-- ===== src/Gateway/RateLimit/Build/Tests.antt =====
-- Runs of the build limits.
use mini_lambda.Common.{◌≡◌, ◌≤◌, ◌-◌, refl, String, true, [], ◌∷◌, if◌then◌else◌, leb}
use mini_lambda.Common.Count.{count}
use mini_lambda.Common.Int.{is_zero}
use mini_lambda.Gateway.RateLimit.Build.{Request, Verdict, allow, serve, remaining_quota}
use mini_lambda.Gateway.RateLimit.Build.Check.{is_allowed, is_allowed_for}
use mini_lambda.Gateway.RateLimit.Build.Window.{window_bounds, verdict_by_quota}
use mini_lambda.Gateway.RateLimit.TokenBucket.Tests.{plain, empty}

abbrev ask : String → Request
ask user = record { user = user; global_answers = true; user_answers = true }

window_bounds_example :
    (count is_allowed (serve plain (ask "a" ∷ ask "b" ∷ ask "a" ∷ []) empty).1 ≤ 20 - 0)
    × (count (is_allowed_for "a") (serve plain (ask "a" ∷ ask "b" ∷ ask "a" ∷ []) empty).1 ≤ 5 - 0)
window_bounds_example =
    window_bounds plain "a" (ask "a" ∷ ask "b" ∷ ask "a" ∷ []) 0 0 empty refl refl

verdict_by_quota_example : (allow plain (ask "a") empty).1 ≡ (
    if leb 20 0
    then Verdict.rejected_globally
    else if is_zero (remaining_quota plain true "a" empty)
    then Verdict.rejected_for_user
    else Verdict.allowed)
verdict_by_quota_example = verdict_by_quota plain "a" 0 0 empty refl refl
