-- ===== src/Gateway/Router/Shielding.antt =====
-- gateway.go with the circuit breakers and the limits on builds: what does not reach a service.
use text.Mathlib.Text.{◌==◌ as str_eq}
use mini_lambda.Common.{
  ℕ, ◌≡◌, ◌||◌, refl, ◌∙◌, String, true, false, not, some, List, [], ◌∷◌, arith, leb, All,
}
use mini_lambda.Common.Int.{pos}
use mini_lambda.Common.Maps.{lookup-insert}
use mini_lambda.Common.Text.{cat}
use mini_lambda.Gateway.CircuitBreaker.{CircuitBreaker, get, Attempt, open_circuit}
use mini_lambda.Gateway.CircuitBreaker.Laws.{StartsInTime, reject_early}
use mini_lambda.Gateway.RateLimit.Redis.{Redis}
use mini_lambda.Gateway.RateLimit.Build.{global_key, user_key, remaining_quota}
use mini_lambda.Gateway.RateLimit.Build.Check.{counter, quota_left-or_nought}
use mini_lambda.Gateway.RateLimit.Build.Window.{verdict_by_quota}
use mini_lambda.Gateway.RateLimit.Strategy.{RateLimiter, build_rate_limiter_adapter, without_reason}
use mini_lambda.Gateway.Router.{
  HttpRequest, HttpResponse, Outgoing, Downstream, parse_invoke_function_id, too_many_builds,
  client_error,
}
use mini_lambda.Gateway.Router.Handlers.{
  Gateway, call_downstream, forward_request, handle_invoke_function, handle_create_function,
  after_invoke_limit,
}
use mini_lambda.Gateway.Router.Forwarding.{if-end, limited-end, with_body-end, with_id-end}

-- The call of the breaker while a request is forwarded.
abbrev pub attempt_of : Downstream → Attempt (Unit {0})
attempt_of down = record {
  start = down.start;
  done = down.done;
  outcome = client_error down.answer;
}

module _ (invoke_limiter build_limiter : RateLimiter) (cb : CircuitBreaker) where
  abbrev State : Type 0
  State = Gateway invoke_limiter build_limiter

  -- The breaker of lambda-service is the given one.
  abbrev pub Guarded : State → Type 0
  Guarded g = get "lambda-service" g.breakers ≡ some cb

  -- Nothing has gone out since, and the breaker is as it was.
  abbrev pub Shielded : State → State × HttpResponse → Type 0
  Shielded g p = (p.0.sent ≡ g.sent) × Guarded p.0

  pub call_downstream-Shielded :
      (out : Outgoing) (down : Downstream) (g : State)
      → cb.state ≡ open_circuit
      → StartsInTime cb (attempt_of down)
      → Shielded g (call_downstream invoke_limiter build_limiter out "lambda-service" cb down g)
  unfolding call_downstream get
  call_downstream-Shielded out down g o t =
      rw (reject_early (attempt_of down) cb o t)
        (refl, lookup-insert "lambda-service" "lambda-service" cb g.breakers)

  pub forward_request-Shielded :
      (r : HttpRequest) (url : String) (down : Downstream) (g : State)
      → Guarded g
      → cb.state ≡ open_circuit
      → StartsInTime cb (attempt_of down)
      → Shielded g (forward_request invoke_limiter build_limiter r url "lambda-service" down g)
  unfolding forward_request
  forward_request-Shielded r url down g h o t =
      with_body-end invoke_limiter build_limiter (Shielded g) r.body _ g (refl, h)
        (λ body.
          if-end (Shielded g) (not down.request_made) _ _ (refl, h)
            (rw h (call_downstream-Shielded _ down g o t)))

  pub handle_invoke_function-Shielded :
      (r : HttpRequest) (down : Downstream) (g : State)
      → Guarded g
      → cb.state ≡ open_circuit
      → StartsInTime cb (attempt_of down)
      → Shielded g (handle_invoke_function invoke_limiter build_limiter r down g)
  unfolding handle_invoke_function after_invoke_limit
  handle_invoke_function-Shielded r down g h o t =
      let url = cat g.config.lambda_service_url r.path in
      if-end (Shielded g) (not (str_eq r.method "POST")) _ _ (refl, h)
        (with_id-end invoke_limiter build_limiter (Shielded g) (parse_invoke_function_id r.path) _ g
          (refl, h)
          (λ id.
            let (limits, answer) = invoke_limiter.allow id g.invoke_limits in
            limited-end (Shielded g) answer _ _ _ (refl, h) (refl, h)
              (forward_request-Shielded r url down (record g { invoke_limits = limits }) h o t)))

  -- Requests for invocations one after another, each with what happens while it is forwarded.
  unfoldable pub invoke_all : List (HttpRequest × Downstream) → State → State
  invoke_all [] g = g
  invoke_all ((r, down) ∷ later) g =
      invoke_all later (handle_invoke_function invoke_limiter build_limiter r down g).0

  -- While the circuit of lambda-service is OPEN and its timeout is not over, no request for an
  -- invocation, however many come and whatever the limiters answer, sends anything to the service
  -- or changes its breaker.
  pub outage_shields :
      (requests : List (HttpRequest × Downstream)) (g : State)
      → Guarded g
      → cb.state ≡ open_circuit
      → All (λ r. StartsInTime cb (attempt_of r.1)) requests
      → ((invoke_all requests g).sent ≡ g.sent) × Guarded (invoke_all requests g)
  unfolding invoke_all
  outage_shields [] g h o t = (refl, h)
  outage_shields ((r, down) ∷ later) g h o t =
      let next = handle_invoke_function-Shielded r down g h o t.0 in
      let rest =
        outage_shields later (handle_invoke_function invoke_limiter build_limiter r down g).0 next.1
          o t.1 in
      (rest.0 ∙ next.0, rest.1)

-- The verdict of the build limiter on a user whose counts are known.
build_limit-Refuses :
    (redis : Redis) (user : String) (n m : ℕ) (s : redis.Store)
    → counter redis global_key s ≡ pos n
    → counter redis (user_key user) s ≡ pos m
    → (leb 20 n || leb 5 m) ≡ true
    → ((build_rate_limiter_adapter redis true true).allow user s).1 ≡ some false
unfolding remaining_quota without_reason
build_limit-Refuses redis user n m s h k full =
    rw
      (
        verdict_by_quota redis user n m s h k,
        quota_left-or_nought (redis.get (user_key user) s) m k,
      )
      (ground arith)

-- With the build limiter: when 20 builds, or 5 of the user, are counted in the window, a request to
-- create a function is answered with 429 and nothing is sent to the build service.
pub build_quota_shields :
    (redis : Redis) (invoke_limiter : RateLimiter) (r : HttpRequest) (down : Downstream) (n m : ℕ)
    (g : Gateway invoke_limiter (build_rate_limiter_adapter redis true true))
    → str_eq r.method "POST" ≡ true
    → str_eq r.user_id "" ≡ false
    → counter redis global_key g.build_limits ≡ pos n
    → counter redis (user_key r.user_id) g.build_limits ≡ pos m
    → (leb 20 n || leb 5 m) ≡ true
    → let (g', reply) =
        handle_create_function invoke_limiter
          (build_rate_limiter_adapter redis true true)
          r
          down
          g in
      (g'.sent ≡ g.sent) × (reply ≡ too_many_builds)
unfolding handle_create_function
build_quota_shields redis invoke_limiter r down n m g post named h k full =
    rw (post, named, build_limit-Refuses redis r.user_id n m g.build_limits h k full) (refl, refl)
