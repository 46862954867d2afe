-- ===== src/Gateway/RateLimit/Build.antt =====
-- services/gateway/internal/ratelimit/bucket_ratelimit.go: the limits on builds, one for all users
-- and one for each. The Lua script runs atomically. A command that fails leaves the store as it is.
pub mod Check
pub mod Window
pub mod Tests
use mini_lambda.Common.{
  ℕ, ◌-◌, String, Bool, true, false, Option, none, some, List, [], ◌∷◌, if◌then◌else◌,
}
use mini_lambda.Common.Int.{ℤ, pos, negsuc, leb_ℤ, ltb_ℤ, ◌-ℤ◌}
use mini_lambda.Common.Text.{cat}
use mini_lambda.Gateway.RateLimit.Redis.{Redis, or_nought}
use mini_lambda.Gateway.RateLimit.TokenBucket.{is_one}

abbrev pub global_build_limit : ℕ
global_build_limit = 20

abbrev pub user_build_limit : ℕ
user_build_limit = 5

-- The windows, in seconds.
abbrev pub global_build_window : ℕ
global_build_window = 60

abbrev pub user_build_window : ℕ
user_build_window = 60

unfoldable pub global_key : String
global_key = "ratelimit:builds:global"

unfoldable pub user_key : String → String
user_key user = cat "ratelimit:builds:user:" user

-- What `Allow` returns: an error, one of the two refusals, or true.
pub data Verdict : Type 0 where
  failed : Verdict
  rejected_globally : Verdict
  rejected_for_user : Verdict
  allowed : Verdict

-- A request of a user, and whether Redis answers its two checks.
pub record Request : Type 0 where
  pub user : String
  pub global_answers : Bool
  pub user_answers : Bool

-- What `Allow` makes of a check that may fail.
abbrev pub after_check {ℓ} : {A : Type ℓ} → Option Bool → A → A → A → A
after_check none failure refusal next = failure
after_check (some false) failure refusal next = refusal
after_check (some true) failure refusal next = next

-- The quota that a stored count leaves.
unfoldable pub quota_left : Option ℤ → ℤ
quota_left none = pos user_build_limit
quota_left (some current) =
    let remaining = pos user_build_limit -ℤ current in
    if ltb_ℤ remaining (pos 0) then pos 0 else remaining

module _ (redis : Redis) where
  open redis use {Store, get, incr, expire}

  -- The Lua script.
  unfoldable pub count_up : String → ℕ → ℕ → Store → Store × ℤ
  count_up key limit window s =
      let s' = incr key s in
      let current = or_nought (get key s') in
      (
        if is_one current then expire key window s' else s',
        if leb_ℤ current (pos limit) then pos 1 else pos 0,
      )

  -- `checkLimit`; an error is none.
  unfoldable pub check_limit : Bool → String → ℕ → ℕ → Store → Store × Option Bool
  check_limit false key limit window s = (s, none)
  check_limit true key limit window s =
      let (s', val) = count_up key limit window s in (s', some (is_one val))

  unfoldable pub allow : Request → Store → Store × Verdict
  allow r s =
      let (s1, global_allowed) =
        check_limit r.global_answers global_key global_build_limit global_build_window s in
      let (s2, user_allowed) =
        check_limit r.user_answers (user_key r.user) user_build_limit user_build_window s1 in
      after_check global_allowed (s1, Verdict.failed) (s1, Verdict.rejected_globally)
        (after_check user_allowed (s2, Verdict.failed) (s2, Verdict.rejected_for_user)
          (s2, Verdict.allowed))

  -- `GetRemainingQuota`: an error and an absent key give the whole quota.
  unfoldable pub remaining_quota : Bool → String → Store → ℤ
  remaining_quota false user s = pos user_build_limit
  remaining_quota true user s = quota_left (get (user_key user) s)

  -- Requests in turn, with what each got.
  unfoldable pub serve : List Request → Store → Store × List (String × Verdict)
  serve [] s = (s, [])
  serve (r ∷ later) s =
      let (s', verdict) = allow r s in
      let (last, verdicts) = serve later s' in (last, (r.user, verdict) ∷ verdicts)
