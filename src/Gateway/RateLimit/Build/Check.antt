-- ===== src/Gateway/RateLimit/Build/Check.antt =====
-- services/gateway/internal/ratelimit/bucket_ratelimit.go: the keys of the counters, and one check
-- of a counter against its limit.
use text.Mathlib.Text.{◌==◌ as str_eq}
use mini_lambda.Common.{
  ℕ, suc, ◌+◌, ◌-◌, ◌≤◌, ◌≡◌, refl, ap, String, Bool, true, false, Option, none, some, ◌&&◌, arith,
  Bool-cases, inl, inr, ltb,
}
use mini_lambda.Common.Count.{unit_if}
use mini_lambda.Common.Int.{ℤ, pos, pos_part, ◌+ℤ◌, ◌-ℤ◌}
use mini_lambda.Common.Text.{cat, str_eq-cat, heads_differ, tails_differ, str_eq_of_ne, str_eq_refl}
use mini_lambda.Gateway.RateLimit.Redis.{Redis, or_nought}
use mini_lambda.Gateway.RateLimit.TokenBucket.{is_one}
use mini_lambda.Gateway.RateLimit.Build.{
  global_key, user_key, Verdict, count_up, check_limit, quota_left, after_check,
}

pub global_key-user_key : (user : String) → str_eq global_key (user_key user) ≡ false
unfolding global_key user_key
global_key-user_key user =
    str_eq_of_ne (cat "ratelimit:builds:global" "") (cat "ratelimit:builds:user:" user) (
      tails_differ "ratelimit:builds:" "global" "user:" "" user
        (heads_differ "g" "u" "lobal" "ser:" "" user (omega arith)))

pub user_key-global_key : (user : String) → str_eq (user_key user) global_key ≡ false
unfolding global_key user_key
user_key-global_key user =
    str_eq_of_ne (cat "ratelimit:builds:user:" user) (cat "ratelimit:builds:global" "") (
      tails_differ "ratelimit:builds:" "user:" "global" user ""
        (heads_differ "u" "g" "ser:" "lobal" user "" (omega arith)))

pub user_key-eq : (a b : String) → str_eq (user_key a) (user_key b) ≡ str_eq a b
unfolding user_key
user_key-eq a b = str_eq-cat "ratelimit:builds:user:" a b

pub pos_suc : (n : ℕ) → pos n +ℤ pos 1 ≡ pos (suc n)
unfolding ◌+ℤ◌
pos_suc n = ground arith

abbrev pub is_allowed : String × Verdict → Bool
is_allowed (user, Verdict.allowed) = true
is_allowed (user, _) = false

abbrev pub is_allowed_for : String → String × Verdict → Bool
is_allowed_for user (asked, verdict) = str_eq asked user && is_allowed (asked, verdict)

abbrev pub passed : Option Bool → Bool
passed none = false
passed (some b) = b

-- A property of the result of `Allow` from those of its five ends.
pub settle {ℓ} :
    {A : Type 0} (P : A × Verdict → Type ℓ) (g w : Option Bool) (s1 s2 : A)
    → P (s1, Verdict.failed)
    → P (s1, Verdict.rejected_globally)
    → P (s2, Verdict.failed)
    → P (s2, Verdict.rejected_for_user)
    → (g ≡ some true → w ≡ some true → P (s2, Verdict.allowed))
    → P (
        after_check g
          (s1, Verdict.failed)
          (s1, Verdict.rejected_globally)
          (after_check w
            (s2, Verdict.failed)
            (s2, Verdict.rejected_for_user)
            (s2, Verdict.allowed)))
settle P none w s1 s2 a b c d e = a
settle P (some false) w s1 s2 a b c d e = b
settle P (some true) none s1 s2 a b c d e = c
settle P (some true) (some false) s1 s2 a b c d e = d
settle P (some true) (some true) s1 s2 a b c d e = e refl refl

pub quota_left-or_nought : (o : Option ℤ) (n : ℕ) → or_nought o ≡ pos n → quota_left o ≡ pos (5 - n)
unfolding quota_left ◌-ℤ◌
quota_left-or_nought none n h = ground (arith, ap pos_part h)
quota_left-or_nought (some c) n h = rw h (ground arith)

module _ (redis : Redis) where
  open redis use {Store, get, get-incr, get-expire}

  abbrev pub counter : String → Store → ℤ
  counter key s = or_nought (get key s)

  pub count_up-own :
      (key : String) (limit window n : ℕ) (s : Store)
      → counter key s ≡ pos n
      → counter key (count_up redis key limit window s).0 ≡ pos (suc n)
  unfolding count_up
  count_up-own key limit window n s h =
      elim (Bool-cases (is_one (counter key (redis.incr key s)))) [
        | inl e ↦ rw (e, get-expire, get-incr, str_eq_refl, h, pos_suc n)
        | inr e ↦ rw (e, get-incr, str_eq_refl, h, pos_suc n)
      ]

  pub count_up-other :
      (key asked : String) (limit window : ℕ) (s : Store)
      → str_eq key asked ≡ false
      → get asked (count_up redis key limit window s).0 ≡ get asked s
  unfolding count_up
  count_up-other key asked limit window s h =
      elim (Bool-cases (is_one (counter key (redis.incr key s)))) [
        | inl e ↦ rw (e, get-expire, get-incr, h)
        | inr e ↦ rw (e, get-incr, h)
      ]

  pub count_up-val :
      (key : String) (limit window n : ℕ) (s : Store)
      → counter key s ≡ pos n
      → is_one (count_up redis key limit window s).1 ≡ ltb n limit
  unfolding count_up
  count_up-val key limit window n s h = rw (get-incr, str_eq_refl, h, pos_suc n) (ground arith)

  -- What a check leaves of the number that its limit still lets through.
  abbrev pub Spends : String → ℕ → ℕ → ℕ → Store → Type 0
  Spends key limit n unit s =
      (n' : ℕ) × ((counter key s ≡ pos n') × (unit + (limit - n') ≤ limit - n))

  pub check_limit-Spends :
      (answers : Bool) (key : String) (limit window n : ℕ) (s : Store)
      → counter key s ≡ pos n
      → Spends key limit n
          (unit_if (passed (check_limit redis answers key limit window s).1))
          (check_limit redis answers key limit window s).0
  unfolding check_limit
  check_limit-Spends false key limit window n s h = (n, (h, omega arith))
  check_limit-Spends true key limit window n s h = (
    suc n,
    (count_up-own key limit window n s h, rw (count_up-val key limit window n s h) (ground arith)),
  )

  pub check_limit-other :
      (answers : Bool) (key asked : String) (limit window : ℕ) (s : Store)
      → str_eq key asked ≡ false
      → get asked (check_limit redis answers key limit window s).0 ≡ get asked s
  unfolding check_limit
  check_limit-other false key asked limit window s h = refl
  check_limit-other true key asked limit window s h = count_up-other key asked limit window s h
