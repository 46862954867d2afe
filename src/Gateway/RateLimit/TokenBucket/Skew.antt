-- ===== src/Gateway/RateLimit/TokenBucket/Skew.antt =====
-- services/gateway/internal/ratelimit/token_bucket.go: what the script's test for no tokens does
-- when the clock of a gateway is behind the one that wrote the timestamp, so that the elapsed
-- time is negative; and how the script agrees with `GetTokens`.
use mini_lambda.Common.{
  ℕ, zero, suc, ◌-◌, ◌*◌, ◌<◌, ◌≡◌, refl, ap, ◌∙◌, String, some, replicate, if◌then◌else◌, arith,
  Bool-cases, inl, inr,
}
use mini_lambda.Common.Int.{ℤ, pos, negsuc, ◌+ℤ◌, ◌-ℤ◌, ◌*ℤ◌, is_zero}
use mini_lambda.Gateway.RateLimit.Redis.{Redis}
use mini_lambda.Gateway.RateLimit.TokenBucket.{
  Config, bucket_key, timestamp_key, save, script, refilled, tokens_at, allow_all, get_tokens,
  current,
}
use mini_lambda.Gateway.RateLimit.TokenBucket.Keys.{bucket-save, timestamp-save}
use mini_lambda.Gateway.RateLimit.TokenBucket.Rate.{config, allowed-next}
use mini_lambda.Common.Text.{str_eq_refl}

pub refilled-owing :
    (cap rate m now : ℕ) → refilled (config cap rate) (negsuc m) (pos now) (pos now) ≡ negsuc m
unfolding refilled ◌+ℤ◌ ◌-ℤ◌ ◌*ℤ◌
refilled-owing cap rate m now = ground arith

pub refilled-behind :
    (cap rate tok stamp now : ℕ)
    → now < stamp
    → tok < (stamp - now) * rate
    → refilled (config cap rate) (pos tok) (pos stamp) (pos now)
      ≡ negsuc ((stamp - now) * rate - tok - 1)
unfolding refilled ◌+ℤ◌ ◌-ℤ◌ ◌*ℤ◌
refilled-behind cap rate tok stamp now h k = ground arith

pub pred-negsuc : (m : ℕ) → negsuc m -ℤ pos 1 ≡ negsuc (suc m)
unfolding ◌-ℤ◌
pred-negsuc m = ground arith

module _ (redis : Redis) where
  open redis use {Store, get}

  pub script-owing :
      (c : Config) (key : String) (m now : ℕ) (s : Store)
      → tokens_at redis c key (pos now) s ≡ negsuc m
      → script redis c key (pos now) s ≡ (save redis key (negsuc (suc m)) (pos now) s, pos 1)
  unfolding script
  script-owing c key m now s h = rw (h, pred-negsuc m)

  -- Once the tokens are below zero at this time, every request is admitted.
  pub allow_all-owing :
      (cap rate : ℕ) (key : String) (m now k : ℕ) (s : Store)
      → get (bucket_key key) s ≡ some (negsuc m)
      → get (timestamp_key key) s ≡ some (pos now)
      → (allow_all redis (config cap rate) key (replicate k now) s).1 ≡ k
  unfolding allow_all
  allow_all-owing cap rate key m now zero s h l = refl
  allow_all-owing cap rate key m now (suc k) s h l =
      allowed-next redis (config cap rate) key now (replicate k now) s
        (save redis key (negsuc (suc m)) (pos now) s) (pos 1)
        (script-owing (config cap rate) key m now s (rw (h, l, refilled-owing cap rate m now)))
      ∙ ap suc (
          allow_all-owing cap rate key (suc m) now k (save redis key (negsuc (suc m)) (pos now) s)
            (rw (bucket-save, str_eq_refl)) (rw (timestamp-save, str_eq_refl)))

  -- When a key's timestamp is ahead of the clock by more than its tokens pay for, all of any
  -- number of requests at that clock are admitted, whatever the capacity and the rate are.
  pub behind_unlimited :
      (cap rate : ℕ) (key : String) (tok stamp now k : ℕ) (s : Store)
      → get (bucket_key key) s ≡ some (pos tok)
      → get (timestamp_key key) s ≡ some (pos stamp)
      → now < stamp
      → tok < (stamp - now) * rate
      → (allow_all redis (config cap rate) key (replicate k now) s).1 ≡ k
  unfolding allow_all
  behind_unlimited cap rate key tok stamp now zero s h l p q = refl
  behind_unlimited cap rate key tok stamp now (suc k) s h l p q =
      let m = (stamp - now) * rate - tok - 1 in
      allowed-next redis (config cap rate) key now (replicate k now) s
        (save redis key (negsuc (suc m)) (pos now) s) (pos 1)
        (script-owing (config cap rate) key m now s
          (rw (h, l, refilled-behind cap rate tok stamp now p q)))
      ∙ ap suc (
          allow_all-owing cap rate key (suc m) now k (save redis key (negsuc (suc m)) (pos now) s)
            (rw (bucket-save, str_eq_refl)) (rw (timestamp-save, str_eq_refl)))

  -- For a key with both entries, the script refuses exactly when `GetTokens` gives zero.
  pub script_agrees :
      (c : Config) (key : String) (now tokens stamp : ℤ) (s : Store)
      → get (bucket_key key) s ≡ some tokens
      → get (timestamp_key key) s ≡ some stamp
      → (script redis c key now s).1
        ≡ (if is_zero (get_tokens redis c key now s) then pos 0 else pos 1)
  unfolding script get_tokens current
  script_agrees c key now tokens stamp s h l =
      elim (Bool-cases (is_zero (refilled c tokens stamp now))) [
        | inl e ↦ rw (h, l, e)
        | inr e ↦ rw (h, l, e)
      ]
