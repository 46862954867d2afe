-- ===== src/Gateway/Router/Health.antt =====
-- gateway.go: what the health check sends to the services.
use mini_lambda.Common.{
  ◌≡◌, refl, String, List, [], ◌∷◌, ◌++◌, ◌⊎◌, inl, inr, if-cases, All, All-append, length,
  length-append, ◌≤◌, arith,
}
use mini_lambda.Common.Text.{cat}
use mini_lambda.Gateway.RateLimit.Strategy.{RateLimiter}
use mini_lambda.Gateway.Router.{ServiceConfig, HttpResponse, Outgoing}
use mini_lambda.Gateway.Router.Handlers.{Gateway}
use mini_lambda.Gateway.Router.Routes.{
  Served, Ping, health_of, probe, check_service_health, handle_health,
}

-- A health check of one of the two services.
abbrev pub IsProbe : ServiceConfig → Outgoing → Type 0
IsProbe config out =
    (out.method ≡ "GET")
    × (out.headers ≡ [])
    × (out.body ≡ "")
    × ((out.url ≡ cat config.lambda_service_url "/health")
        ⊎ (out.url ≡ cat config.build_service_url "/health"))

check_service_health-IsProbe :
    (config : ServiceConfig) (url : String) (ping : Ping)
    → IsProbe config (probe url)
    → let sent = (check_service_health url ping).1 in All (IsProbe config) sent × (length sent ≤ 1)
unfolding check_service_health
check_service_health-IsProbe config url ping h =
    if-cases (λ (p : String × List Outgoing). All (IsProbe config) p.1 × (length p.1 ≤ 1))
      ping.request_made (health_of ping.answer, probe url ∷ []) ("unhealthy", [])
      (λ made. ((h, tt), omega arith)) (λ failed. (tt, omega arith))

module _ (invoke_limiter build_limiter : RateLimiter) where
  abbrev State : Type 0
  State = Gateway invoke_limiter build_limiter

  -- What the health check has sent, with the breakers as they were.
  abbrev pub Probed : State → State × HttpResponse → Type 0
  Probed g p =
      (probes : List Outgoing) × (p.0.sent ≡ probes ++ g.sent)
      × (length probes ≤ 2)
      × All (IsProbe g.config) probes
      × (p.0.breakers ≡ g.breakers)

  pub handle_health-Probed :
      (served : Served) (g : State) → Probed g (handle_health invoke_limiter build_limiter served g)
  unfolding handle_health
  handle_health-Probed served g =
      let lambda_url = cat g.config.lambda_service_url "/health" in
      let build_url = cat g.config.build_service_url "/health" in
      let first = (check_service_health lambda_url served.lambda_ping).1 in
      let second = (check_service_health build_url served.build_ping).1 in
      let a =
        check_service_health-IsProbe g.config lambda_url served.lambda_ping
          (refl, refl, refl, inl refl) in
      let b =
        check_service_health-IsProbe g.config build_url served.build_ping
          (refl, refl, refl, inr refl) in
      (
        second ++ first,
        refl,
        omega (arith, a.1, b.1, length-append second first),
        All-append (IsProbe g.config) second first b.0 a.0,
        refl,
      )
