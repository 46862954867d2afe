-- ===== src/Gateway/RateLimit/TokenBucket/Rate.antt =====
-- services/gateway/internal/ratelimit/token_bucket.go: how many requests of a key the script
-- admits, for a clock that does not go back, against a bucket that is refilled at a rate.
use native.Mathlib.Nat.{mul-le-mul_left}
use mini_lambda.Common.{
  ℕ, zero, suc, ◌+◌, ◌-◌, ◌*◌, ◌≤◌, ◌≡◌, refl, ap, ◌∙◌, String, false, none, some, List, [], ◌∷◌,
  if◌then◌else◌, arith, ◌⊎◌, ◌⊎◌, inl, inr, leb,
}
use mini_lambda.Common.Int.{ℤ, pos, ◌+ℤ◌, ◌-ℤ◌, ◌*ℤ◌}
use mini_lambda.Common.Text.{str_eq_refl}
use mini_lambda.Gateway.RateLimit.Redis.{Redis}
use mini_lambda.Gateway.RateLimit.TokenBucket.{
  Config, bucket_key, timestamp_key, save, script, refilled, tokens_at, is_one, allow_all,
}
use mini_lambda.Gateway.RateLimit.TokenBucket.Keys.{bucket-save, timestamp-save}

abbrev pub config : ℕ → ℕ → Config
config cap rate = record { capacity = pos cap; refill_rate = pos rate }

-- The bucket over the natural numbers.
abbrev pub level : ℕ → ℕ → ℕ → ℕ → ℕ → ℕ
level cap rate tok t now = let full = tok + (now - t) * rate in if leb cap full then cap else full

pub refilled-level :
    (cap rate tok t now : ℕ)
    → t ≤ now
    → refilled (config cap rate) (pos tok) (pos t) (pos now) ≡ pos (level cap rate tok t now)
unfolding refilled ◌+ℤ◌ ◌-ℤ◌ ◌*ℤ◌
refilled-level cap rate tok t now h = ground arith

abbrev pub Ascending : ℕ → List ℕ → Type 0
Ascending t [] = Unit
Ascending t (now ∷ later) = (t ≤ now) × Ascending now later

abbrev pub end_time : ℕ → List ℕ → ℕ
end_time t [] = t
end_time t (now ∷ later) = end_time now later

pub refill_sum : (rate x y : ℕ) → x * rate + rate * y ≡ rate * (x + y)
refill_sum rate x y = omega arith

pub refill_split :
    (rate a b c : ℕ) → a ≤ b → b ≤ c → (b - a) * rate + rate * (c - b) ≡ rate * (c - a)
refill_split rate a b c h k = refill_sum rate (b - a) (c - b) ∙ ap (λ x. rate * x) (omega arith)

pub end_time-le : (t : ℕ) (times : List ℕ) → Ascending t times → t ≤ end_time t times
end_time-le t [] h = omega arith
end_time-le t (now ∷ later) h = omega (arith, end_time-le now later h.1)

pub end_time-earlier :
    (t now : ℕ) (times : List ℕ) → t ≤ now → end_time t times ≤ end_time now times
end_time-earlier t now [] h = h
end_time-earlier t now (next ∷ later) h = omega arith

-- What is refilled grows with the time of the last request.
pub refill_mono :
    (rate t now : ℕ) (times : List ℕ)
    → t ≤ now
    → rate * (end_time t times - t) ≤ rate * (end_time now times - t)
refill_mono rate t now times h =
    mul-le-mul_left rate (omega (arith, end_time-earlier t now times h))

pub Ascending-earlier :
    (t now : ℕ) (times : List ℕ) → t ≤ now → Ascending now times → Ascending t times
Ascending-earlier t now [] h k = k
Ascending-earlier t now (next ∷ later) h k = (omega (arith, k.0), k.1)

pub Nat-cases : (n : ℕ) → (n ≡ 0) ⊎ ((m : ℕ) × (n ≡ suc m))
Nat-cases zero = inl refl
Nat-cases (suc m) = inr (m, refl)

pub leb-suc : (n : ℕ) → leb (suc n) 0 ≡ false
leb-suc n = ground arith

module _ (redis : Redis) where
  open redis use {Store, get}

  -- The state of the store for a key that was last served at the time t, with tok tokens left.
  abbrev pub Holds : String → ℕ → ℕ → Store → Type 0
  Holds key tok t s =
      (get (bucket_key key) s ≡ some (pos tok)) × (get (timestamp_key key) s ≡ some (pos t))

  pub save-Holds :
      (key : String) (tok now : ℕ) (s : Store)
      → Holds key tok now (save redis key (pos tok) (pos now) s)
  save-Holds key tok now s = (rw (bucket-save, str_eq_refl), rw (timestamp-save, str_eq_refl))

  pub tokens_at-Holds :
      (cap rate : ℕ) (key : String) (tok t now : ℕ) (s : Store)
      → Holds key tok t s
      → t ≤ now
      → tokens_at redis (config cap rate) key (pos now) s ≡ pos (level cap rate tok t now)
  tokens_at-Holds cap rate key tok t now s h k = rw (h.0, h.1, refilled-level cap rate tok t now k)

  pub script-empty :
      (c : Config) (key : String) (now : ℕ) (s : Store)
      → tokens_at redis c key (pos now) s ≡ pos 0
      → script redis c key (pos now) s ≡ (s, pos 0)
  unfolding script
  script-empty c key now s h = rw h

  pub pred-pos : (a : ℕ) → pos (suc a) -ℤ pos 1 ≡ pos a
  unfolding ◌-ℤ◌
  pred-pos a = ground arith

  pub script-take :
      (c : Config) (key : String) (a now : ℕ) (s : Store)
      → tokens_at redis c key (pos now) s ≡ pos (suc a)
      → script redis c key (pos now) s ≡ (save redis key (pos a) (pos now) s, pos 1)
  unfolding script
  script-take c key a now s h = rw (h, leb-suc a, pred-pos a)

  pub allowed-next :
      (c : Config) (key : String) (now : ℕ) (later : List ℕ) (s s' : Store) (result : ℤ)
      → script redis c key (pos now) s ≡ (s', result)
      → (allow_all redis c key (now ∷ later) s).1
        ≡ (let n = (allow_all redis c key later s').1 in if is_one result then suc n else n)
  unfolding allow_all
  allowed-next c key now later s s' result h = rw h

  -- The bound from a bucket that holds tok tokens at the time t.
  pub allow_all-Holds :
      (cap rate : ℕ) (key : String) (tok t : ℕ) (times : List ℕ) (s : Store)
      → Holds key tok t s
      → Ascending t times
      → (allow_all redis (config cap rate) key times s).1 ≤ tok + rate * (end_time t times - t)
  unfolding allow_all
  allow_all-Holds cap rate key tok t [] s h k = omega arith
  allow_all-Holds cap rate key tok t (now ∷ later) s h k =
      elim (Nat-cases (level cap rate tok t now)) [
        | inl e ↦
            rw
              (allowed-next (config cap rate) key now later s s (pos 0) (
                script-empty (config cap rate) key now s
                  (tokens_at-Holds cap rate key tok t now s h k.0 ∙ ap pos e)))
              (omega (
                arith,
                allow_all-Holds cap rate key tok t later s h
                    (Ascending-earlier t now later k.0 k.1),
                refill_mono rate t now later k.0,
              ))
        | inr (a, e) ↦
            rw
              (allowed-next (config cap rate) key now later s (save redis key (pos a) (pos now) s)
                (pos 1)
                (script-take (config cap rate) key a now s
                  (tokens_at-Holds cap rate key tok t now s h k.0 ∙ ap pos e)))
              (ground (
                arith,
                allow_all-Holds cap rate key a now later (save redis key (pos a) (pos now) s)
                    (save-Holds key a now s) k.1,
                refill_split rate t now (end_time now later) k.0 (end_time-le now later k.1),
              ))
      ]

  pub tokens_at-fresh :
      (cap rate : ℕ) (key : String) (now : ℕ) (s : Store)
      → get (bucket_key key) s ≡ none
      → get (timestamp_key key) s ≡ none
      → tokens_at redis (config cap rate) key (pos now) s ≡ pos cap
  tokens_at-fresh cap rate key now s h k =
      rw (h, k, refilled-level cap rate cap now now (omega arith)) (ground arith)

  -- A bucket of no capacity admits nothing.
  pub allow_all-no_capacity :
      (rate : ℕ) (key : String) (times : List ℕ) (s : Store)
      → get (bucket_key key) s ≡ none
      → get (timestamp_key key) s ≡ none
      → (allow_all redis (config 0 rate) key times s).1 ≡ 0
  unfolding allow_all
  allow_all-no_capacity rate key [] s h k = refl
  allow_all-no_capacity rate key (now ∷ later) s h k =
      allowed-next (config 0 rate) key now later s s (pos 0)
        (script-empty (config 0 rate) key now s (tokens_at-fresh 0 rate key now s h k))
      ∙ allow_all-no_capacity rate key later s h k
