-- ===== src/Gateway/RateLimit/TokenBucket.antt =====
-- services/gateway/internal/ratelimit/token_bucket.go. The Lua script runs atomically; its numbers
-- are exact integers. `rate.Limiter` is a third-party type, so it is a parameter.
pub mod Keys
pub mod Rate
pub mod Skew
pub mod Tests
use mini_lambda.Common.{
  ℕ, zero, suc, String, Bool, true, false, Option, none, some, List, [], ◌∷◌, if◌then◌else◌, ◌==◌,
}
use mini_lambda.Common.Int.{ℤ, pos, negsuc, ◌+ℤ◌, ◌-ℤ◌, ◌*ℤ◌, min_ℤ, is_zero}
use mini_lambda.Common.Maps.{Map, lookup, insert}
use mini_lambda.Common.Text.{cat}
use mini_lambda.Gateway.RateLimit.Redis.{Redis}

unfoldable pub bucket_key : String → String
bucket_key key = cat "ratelimit:bucket:" key

unfoldable pub timestamp_key : String → String
timestamp_key key = cat "ratelimit:timestamp:" key

-- `golang.org/x/time/rate`: a limiter of a rate and a burst, and its test.
pub record RateLibrary : Type 1 where
  pub Limiter : Type 0
  pub new_limiter : ℤ → ℤ → Limiter
  pub allow : Limiter → Limiter × Bool

pub record Config : Type 0 where
  pub capacity : ℤ
  pub refill_rate : ℤ

abbrev pub or_else : Option ℤ → ℤ → ℤ
or_else none fallback = fallback
or_else (some n) fallback = n

-- The tokens there are at the time `now`, given those stored and the time of the last refill.
unfoldable pub refilled : Config → ℤ → ℤ → ℤ → ℤ
refilled c tokens last_refill now =
    min_ℤ c.capacity (tokens +ℤ (now -ℤ last_refill) *ℤ c.refill_rate)

-- What `GetTokens` makes of the two entries.
unfoldable pub current : Config → Option ℤ → Option ℤ → ℤ → ℤ
current c none stamp now = c.capacity
current c (some tokens) none now = tokens
current c (some tokens) (some last_refill) now = refilled c tokens last_refill now

-- `result == 1`
abbrev pub is_one : ℤ → Bool
is_one (pos n) = n == 1
is_one (negsuc n) = false

module _ (redis : Redis) where
  open redis use {Store, get, set, expire, del}

  -- The writes of the script.
  unfoldable pub save : String → ℤ → ℤ → Store → Store
  save key tokens now s =
      expire (timestamp_key key) 3600
        (expire (bucket_key key) 3600 (set (timestamp_key key) now (set (bucket_key key) tokens s)))

  abbrev pub tokens_at : Config → String → ℤ → Store → ℤ
  tokens_at c key now s =
      refilled c (or_else (get (bucket_key key) s) c.capacity)
        (or_else (get (timestamp_key key) s) now) now

  -- The Lua script; its result is 1 or 0.
  unfoldable pub script : Config → String → ℤ → Store → Store × ℤ
  script c key now s =
      let tokens = tokens_at c key now s in
      if is_zero tokens then (s, pos 0) else (save key (tokens -ℤ pos 1) now s, pos 1)

  -- `GetTokens` without its errors, which are those of Redis.
  unfoldable pub get_tokens : Config → String → ℤ → Store → ℤ
  get_tokens c key now s = current c (get (bucket_key key) s) (get (timestamp_key key) s) now

  unfoldable pub reset : String → Store → Store
  reset key s = del (timestamp_key key) (del (bucket_key key) s)

  -- Requests for one key at the times given, and how many are allowed.
  unfoldable pub allow_all : Config → String → List ℕ → Store → Store × ℕ
  allow_all c key [] s = (s, 0)
  allow_all c key (now ∷ later) s =
      let (s', result) = script c key (pos now) s in
      let (last, n) = allow_all c key later s' in (last, if is_one result then suc n else n)

  module _ (rate : RateLibrary) where
    open rate use {Limiter, new_limiter, allow as limiter_allow}

    -- The limiter of a key, made on first use.
    abbrev pub limiter_of : Config → Option Limiter → Limiter
    limiter_of c none = new_limiter c.refill_rate c.capacity
    limiter_of c (some l) = l

    -- `allowFallback`, with the map of the limiters as its state.
    unfoldable pub allow_fallback : Config → String → Map Limiter → Map Limiter × Bool
    allow_fallback c key limiters =
        let (l, allowed) = limiter_allow (limiter_of c (lookup key limiters)) in
        (insert key l limiters, allowed)

    -- `Allow`. `reached` says that the script ran; else the fallback decides. It returns no error.
    unfoldable pub allow :
        Config → Bool → String → ℤ → Store × Map Limiter → (Store × Map Limiter) × Bool
    unfolding allow_fallback script
    allow c true key now (s, limiters) =
        let (s', result) = script c key now s in ((s', limiters), is_one result)
    allow c false key now (s, limiters) =
        let (limiters', allowed) = allow_fallback c key limiters in ((s, limiters'), allowed)
