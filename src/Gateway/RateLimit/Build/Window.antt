-- ===== src/Gateway/RateLimit/Build/Window.antt =====
-- services/gateway/internal/ratelimit/bucket_ratelimit.go: what is admitted within one window, that
-- is, as long as neither counter expires.
use text.Mathlib.Text.{◌==◌ as str_eq}
use mini_lambda.Common.{
  ℕ, ◌-◌, ◌≤◌, ◌≡◌, ap, sym, ◌∙◌, String, Bool, true, false, List, [], ◌∷◌, if◌then◌else◌, arith,
  Bool-cases, inl, inr, leb,
}
use mini_lambda.Common.Count.{count, unit_if}
use mini_lambda.Common.Int.{pos, is_zero}
use mini_lambda.Common.Text.{str_eq_refl, eq_of_str_eq}
use mini_lambda.Gateway.RateLimit.Redis.{Redis, or_nought}
use mini_lambda.Gateway.RateLimit.Build.{
  global_key, user_key, Verdict, Request, count_up, check_limit, allow, remaining_quota, serve,
  user_build_limit, global_build_limit,
}
use mini_lambda.Gateway.RateLimit.Build.Check.{
  global_key-user_key, user_key-global_key, user_key-eq, is_allowed, is_allowed_for, passed, settle,
  quota_left-or_nought, counter, count_up-other, count_up-val, Spends, check_limit-Spends,
  check_limit-other,
}

module _ (redis : Redis) where
  open redis use {Store, get}

  pub allow-Spends_global :
      (r : Request) (g : ℕ) (s : Store)
      → counter redis global_key s ≡ pos g
      → Spends redis global_key global_build_limit g
          (unit_if (is_allowed (r.user, (allow redis r s).1)))
          (allow redis r s).0
  unfolding allow
  allow-Spends_global r g s h =
      let global_check = check_limit redis r.global_answers global_key 20 60 s in
      let user_check = check_limit redis r.user_answers (user_key r.user) 5 60 global_check.0 in
      let (n, (e, le)) = check_limit-Spends redis r.global_answers global_key 20 60 g s h in
      let same =
        ap or_nought (
          check_limit-other redis r.user_answers (user_key r.user) global_key 5 60 global_check.0
            (user_key-global_key r.user))
        ∙ e in
      settle (λ p. Spends redis global_key 20 g (unit_if (is_allowed (r.user, p.1))) p.0)
        global_check.1 user_check.1 global_check.0 user_check.0 (n, (e, omega (arith, le)))
        (n, (e, omega (arith, le))) (n, (same, omega (arith, le))) (n, (same, omega (arith, le)))
        (λ pg pw. (n, (same, omega (arith, le, ap (λ o. unit_if (passed o)) pg))))

  -- What a request leaves of a user's quota, and whether it took of it.
  abbrev pub UserSpends : String → Request → ℕ → Store × Verdict → Type 0
  UserSpends user r n p =
      Spends redis (user_key user) user_build_limit n (unit_if (is_allowed_for user (r.user, p.1)))
        p.0

  pub counter-global_check :
      (answers : Bool) (user : String) (n : ℕ) (s : Store)
      → counter redis (user_key user) s ≡ pos n
      → counter redis (user_key user) (check_limit redis answers global_key 20 60 s).0 ≡ pos n
  counter-global_check answers user n s h =
      ap or_nought (
        check_limit-other redis answers global_key (user_key user) 20 60 s
          (global_key-user_key user))
      ∙ h

  pub allow-UserSpends_own :
      (r : Request) (n : ℕ) (s : Store)
      → counter redis (user_key r.user) s ≡ pos n
      → UserSpends r.user r n (allow redis r s)
  unfolding allow
  allow-UserSpends_own r n s h =
      let global_check = check_limit redis r.global_answers global_key 20 60 s in
      let user_check = check_limit redis r.user_answers (user_key r.user) 5 60 global_check.0 in
      let kept = counter-global_check r.global_answers r.user n s h in
      let (n', (e, le)) =
        check_limit-Spends redis r.user_answers (user_key r.user) 5 60 n global_check.0 kept in
      settle (UserSpends r.user r n) global_check.1 user_check.1 global_check.0 user_check.0
        (n, (kept, rw (str_eq_refl r.user) (omega arith)))
        (n, (kept, rw (str_eq_refl r.user) (omega arith)))
        (n', (e, rw (str_eq_refl r.user) (omega (arith, le))))
        (n', (e, rw (str_eq_refl r.user) (omega (arith, le))))
        (λ pg pw.
          (n', (e, rw (str_eq_refl r.user) (omega (arith, le, ap (λ o. unit_if (passed o)) pw)))))

  pub allow-UserSpends_other :
      (user : String) (r : Request) (n : ℕ) (s : Store)
      → str_eq r.user user ≡ false
      → counter redis (user_key user) s ≡ pos n
      → UserSpends user r n (allow redis r s)
  unfolding allow
  allow-UserSpends_other user r n s other h =
      let global_check = check_limit redis r.global_answers global_key 20 60 s in
      let user_check = check_limit redis r.user_answers (user_key r.user) 5 60 global_check.0 in
      let kept = counter-global_check r.global_answers user n s h in
      let same =
        ap or_nought (
          check_limit-other redis r.user_answers (user_key r.user) (user_key user) 5 60
            global_check.0 (user_key-eq r.user user ∙ other))
        ∙ kept in
      settle (UserSpends user r n) global_check.1 user_check.1 global_check.0 user_check.0
        (n, (kept, rw other (omega arith))) (n, (kept, rw other (omega arith)))
        (n, (same, rw other (omega arith))) (n, (same, rw other (omega arith)))
        (λ pg pw. (n, (same, rw other (omega arith))))

  pub allow-UserSpends :
      (user : String) (r : Request) (n : ℕ) (s : Store)
      → counter redis (user_key user) s ≡ pos n
      → UserSpends user r n (allow redis r s)
  allow-UserSpends user r n s h = elim (Bool-cases (str_eq r.user user)) [
    | inl mine ↦
        let same = eq_of_str_eq r.user user mine in
        rw (sym same) (allow-UserSpends_own r n s (ap (λ u. counter redis (user_key u) s) same ∙ h))
    | inr other ↦ allow-UserSpends_other user r n s other h
  ]

  pub serve-global_bound :
      (requests : List Request) (g : ℕ) (s : Store)
      → counter redis global_key s ≡ pos g
      → count is_allowed (serve redis requests s).1 ≤ global_build_limit - g
  unfolding serve
  serve-global_bound [] g s h = omega arith
  serve-global_bound (r ∷ later) g s h =
      let (g', (e, le)) = allow-Spends_global r g s h in
      omega (arith, le, serve-global_bound later g' (allow redis r s).0 e)

  pub serve-user_bound :
      (user : String) (requests : List Request) (n : ℕ) (s : Store)
      → counter redis (user_key user) s ≡ pos n
      → count (is_allowed_for user) (serve redis requests s).1 ≤ user_build_limit - n
  unfolding serve
  serve-user_bound user [] n s h = omega arith
  serve-user_bound user (r ∷ later) n s h =
      let (n', (e, le)) = allow-UserSpends user r n s h in
      omega (arith, le, serve-user_bound user later n' (allow redis r s).0 e)

  -- Within one window, whichever users ask and whichever checks fail, at most 20 builds less
  -- those already counted are allowed, and for any one user at most 5 less those already counted.
  pub window_bounds :
      (user : String) (requests : List Request) (g n : ℕ) (s : Store)
      → counter redis global_key s ≡ pos g
      → counter redis (user_key user) s ≡ pos n
      → (count is_allowed (serve redis requests s).1 ≤ 20 - g)
        × (count (is_allowed_for user) (serve redis requests s).1 ≤ 5 - n)
  window_bounds user requests g n s h k =
      (serve-global_bound requests g s h, serve-user_bound user requests n s k)

  -- When Redis answers, a request is refused for all users exactly when 20 are counted, else for
  -- its user exactly when `GetRemainingQuota` gives zero, else allowed.
  pub verdict_by_quota :
      (user : String) (g n : ℕ) (s : Store)
      → counter redis global_key s ≡ pos g
      → counter redis (user_key user) s ≡ pos n
      → (allow redis (record { user = user; global_answers = true; user_answers = true }) s).1 ≡ (
          if leb 20 g
          then Verdict.rejected_globally
          else if is_zero (remaining_quota redis true user s)
          then Verdict.rejected_for_user
          else Verdict.allowed)
  unfolding allow check_limit remaining_quota
  verdict_by_quota user g n s h k =
      rw
        (
          count_up-val redis global_key 20 60 g s h,
          count_up-val redis (user_key user) 5 60 n (count_up redis global_key 20 60 s).0 (
              ap or_nought
                (count_up-other redis global_key (user_key user) 20 60 s (global_key-user_key user))
              ∙ k),
          quota_left-or_nought (get (user_key user) s) n k,
        )
        (ground arith)
