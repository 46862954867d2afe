-- ===== src/Gateway/RateLimit/TokenBucket/Keys.antt =====
-- services/gateway/internal/ratelimit/token_bucket.go: the two entries of a key in the store.
use text.Mathlib.Text.{◌==◌ as str_eq}
use mini_lambda.Common.{◌≡◌, String, false, some, if◌then◌else◌, arith, Bool-cases, inl, inr}
use mini_lambda.Common.Int.{ℤ, pos, ◌-ℤ◌}
use mini_lambda.Common.Text.{cat, str_eq-cat, heads_differ, tails_differ, str_eq_of_ne}
use mini_lambda.Gateway.RateLimit.Redis.{Redis}
use mini_lambda.Gateway.RateLimit.TokenBucket.{
  Config, bucket_key, timestamp_key, save, script, get_tokens, current, tokens_at, is_zero,
}

pub bucket_key-eq : (a b : String) → str_eq (bucket_key a) (bucket_key b) ≡ str_eq a b
unfolding bucket_key
bucket_key-eq a b = str_eq-cat "ratelimit:bucket:" a b

pub timestamp_key-eq : (a b : String) → str_eq (timestamp_key a) (timestamp_key b) ≡ str_eq a b
unfolding timestamp_key
timestamp_key-eq a b = str_eq-cat "ratelimit:timestamp:" a b

pub bucket_key-timestamp_key : (a b : String) → str_eq (bucket_key a) (timestamp_key b) ≡ false
unfolding bucket_key timestamp_key
bucket_key-timestamp_key a b =
    str_eq_of_ne (cat "ratelimit:bucket:" a) (cat "ratelimit:timestamp:" b) (
      tails_differ "ratelimit:" "bucket:" "timestamp:" a b
        (heads_differ "b" "t" "ucket:" "imestamp:" a b (omega arith)))

pub timestamp_key-bucket_key : (a b : String) → str_eq (timestamp_key a) (bucket_key b) ≡ false
unfolding bucket_key timestamp_key
timestamp_key-bucket_key a b =
    str_eq_of_ne (cat "ratelimit:timestamp:" a) (cat "ratelimit:bucket:" b) (
      tails_differ "ratelimit:" "timestamp:" "bucket:" a b
        (heads_differ "t" "b" "imestamp:" "ucket:" a b (omega arith)))

module _ (redis : Redis) where
  open redis use {Store, get, get-set, get-expire}

  pub bucket-save :
      (key asked : String) (tokens now : ℤ) (s : Store)
      → get (bucket_key asked) (save redis key tokens now s)
        ≡ (if str_eq key asked then some tokens else get (bucket_key asked) s)
  unfolding save
  bucket-save key asked tokens now s =
      rw (get-expire, get-expire, get-set, timestamp_key-bucket_key, get-set, bucket_key-eq)

  pub timestamp-save :
      (key asked : String) (tokens now : ℤ) (s : Store)
      → get (timestamp_key asked) (save redis key tokens now s)
        ≡ (if str_eq key asked then some now else get (timestamp_key asked) s)
  unfolding save
  timestamp-save key asked tokens now s =
      rw (get-expire, get-expire, get-set, timestamp_key-eq, get-set, bucket_key-timestamp_key)

  pub get_tokens-save :
      (c : Config) (key asked : String) (tokens now later : ℤ) (s : Store)
      → str_eq key asked ≡ false
      → get_tokens redis c asked later (save redis key tokens now s)
        ≡ get_tokens redis c asked later s
  unfolding get_tokens current
  get_tokens-save c key asked tokens now later s h = rw (bucket-save, timestamp-save, h)

  -- A request for one key changes the tokens of no other key, at any time.
  pub script_isolates :
      (c : Config) (key asked : String) (now later : ℤ) (s : Store)
      → str_eq key asked ≡ false
      → get_tokens redis c asked later (script redis c key now s).0
        ≡ get_tokens redis c asked later s
  unfolding script
  script_isolates c key asked now later s h =
      elim (Bool-cases (is_zero (tokens_at redis c key now s))) [
        | inl e ↦ rw e
        | inr e ↦
            rw (e, get_tokens-save c key asked (tokens_at redis c key now s -ℤ pos 1) now later s h)
      ]
