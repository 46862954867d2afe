-- ===== src/Gateway/RateLimit/Strategy.antt =====
-- services/gateway/internal/ratelimit/strategy.go: the interface of a rate limiter, and the two
-- limiters as its implementations. `Close` ends the connections only.
use mini_lambda.Common.{String, Bool, true, false, Option, none, some}
use mini_lambda.Common.Int.{ℤ}
use mini_lambda.Common.Maps.{Map}
use mini_lambda.Gateway.RateLimit.Redis.{Redis}
use mini_lambda.Gateway.RateLimit.TokenBucket
use mini_lambda.Gateway.RateLimit.TokenBucket.{Config, RateLibrary}
use mini_lambda.Gateway.RateLimit.Build
use mini_lambda.Gateway.RateLimit.Build.{
  Verdict, failed, rejected_globally, rejected_for_user, allowed, Request,
}

-- `Allow` changes what the limiter keeps; its answer is none for an error.
pub record RateLimiter : Type 1 where
  pub Limits : Type 0
  pub allow : String → Limits → Limits × Option Bool

-- `BuildRateLimiterAdapter.Allow` leaves out the reason.
unfoldable pub without_reason : Verdict → Option Bool
without_reason failed = none
without_reason rejected_globally = some false
without_reason rejected_for_user = some false
without_reason allowed = some true

-- The adapted build limiter, when Redis answers its checks as the arguments say.
abbrev pub build_rate_limiter_adapter : Redis → Bool → Bool → RateLimiter
build_rate_limiter_adapter redis global_answers user_answers = record {
  Limits = redis.Store;
  allow = λ user s.
      let (s', verdict) =
        Build.allow redis
          (record { user = user; global_answers = global_answers; user_answers = user_answers })
          s in
      (s', without_reason verdict);
}

-- The token bucket, for a request at the time `now`; `reached` says that Redis runs the script.
abbrev pub token_bucket_limiter : Redis → RateLibrary → Config → Bool → ℤ → RateLimiter
token_bucket_limiter redis rate c reached now = record {
  Limits = redis.Store × Map rate.Limiter;
  allow = λ key s.
      let (s', is_allowed) = TokenBucket.allow redis rate c reached key now s in
      (s', some is_allowed);
}
