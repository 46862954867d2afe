-- ===== src/Gateway/RateLimit/TokenBucket/Tests.antt =====
-- Runs of the token bucket on a store that is a function of the key, with no expiry.
use text.Mathlib.Text.{◌==◌ as str_eq}
use mini_lambda.Common.{◌≡◌, refl, String, Option, none, some, if◌then◌else◌, replicate, arith}
use mini_lambda.Common.Int.{ℤ, pos, ◌+ℤ◌}
use mini_lambda.Gateway.RateLimit.Redis.{Redis, or_nought}
use mini_lambda.Gateway.RateLimit.TokenBucket.{
  bucket_key, timestamp_key, script, get_tokens, allow_all,
}
use mini_lambda.Gateway.RateLimit.TokenBucket.Keys.{script_isolates}
use mini_lambda.Gateway.RateLimit.TokenBucket.Rate.{config}
use mini_lambda.Gateway.RateLimit.TokenBucket.Skew.{behind_unlimited}

-- A store without expiry.
abbrev pub plain : Redis
plain = record {
  Store = String → Option ℤ;
  get = λ key s. s key;
  set = λ key v s asked. if str_eq key asked then some v else s asked;
  incr = λ key s asked. if str_eq key asked then some (or_nought (s key) +ℤ pos 1) else s asked;
  expire = λ key ttl s. s;
  del = λ key s asked. if str_eq key asked then none else s asked;
  get-set = λ key asked v s. refl;
  get-incr = λ key asked s. refl;
  get-expire = λ key asked ttl s. refl;
  get-del = λ key asked s. refl;
}

abbrev pub empty : String → Option ℤ
empty key = none

abbrev skewed : String → Option ℤ
skewed key =
    if str_eq key "ratelimit:bucket:a"
    then some (pos 1)
    else if str_eq key "ratelimit:timestamp:a"
    then some (pos 110)
    else none

script_isolates_example :
    get_tokens plain (config 2 1) "b" (pos 9) (script plain (config 2 1) "a" (pos 5) empty).0
    ≡ get_tokens plain (config 2 1) "b" (pos 9) empty
script_isolates_example = script_isolates plain (config 2 1) "a" "b" (pos 5) (pos 9) empty refl

behind_unlimited_example : (allow_all plain (config 2 1) "a" (replicate 50 100) skewed).1 ≡ 50
unfolding bucket_key timestamp_key
behind_unlimited_example =
    behind_unlimited plain 2 1 "a" 1 110 100 50 skewed refl refl (omega arith) (omega arith)
