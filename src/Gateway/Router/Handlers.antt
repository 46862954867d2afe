-- ===== src/Gateway/Router/Handlers.antt =====
-- gateway.go: the handlers, over the two rate limiters.
use text.Mathlib.Text.{◌==◌ as str_eq}
use mini_lambda.Common.{String, not, Option, none, some, List, ◌∷◌, if◌then◌else◌}
use mini_lambda.Common.Maps.{insert}
use mini_lambda.Common.Text.{cat}
use mini_lambda.Gateway.CircuitBreaker.{CircuitBreaker, Registry, get, call}
use mini_lambda.Gateway.RateLimit.Strategy.{RateLimiter}
use mini_lambda.Gateway.Router.{
  HttpRequest, HttpResponse, ServiceConfig, Outgoing, Downstream, http_error, method_not_allowed,
  internal_error, too_many, too_many_builds, parse_invoke_function_id, forwarded_headers,
  client_error, relay, limited,
}

module _ (invoke_limiter build_limiter : RateLimiter) where
  pub record Gateway : Type 0 where
    pub config : ServiceConfig
    pub invoke_limits : invoke_limiter.Limits
    pub build_limits : build_limiter.Limits
    pub breakers : Registry
    pub sent : List Outgoing

  -- The call through the breaker; the request goes out only if the breaker runs the function.
  unfoldable pub call_downstream :
      Outgoing → String → CircuitBreaker → Downstream → Gateway → Gateway × HttpResponse
  call_downstream out service cb down g =
      let (cb', reply) =
        call (record { start = down.start; done = down.done; outcome = client_error down.answer })
          cb in
      (
        record g {
          breakers = insert service cb' g.breakers;
          sent = if reply.ran then out ∷ g.sent else g.sent;
        },
        relay reply.error down.answer,
      )

  abbrev pub with_breaker :
      Option CircuitBreaker
      → (CircuitBreaker → Gateway × HttpResponse)
      → Gateway
      → Gateway × HttpResponse
  with_breaker none next g = (g, internal_error)
  with_breaker (some cb) next g = next cb

  abbrev pub with_body :
      Option String → (String → Gateway × HttpResponse) → Gateway → Gateway × HttpResponse
  with_body none next g = (g, http_error 400 "Failed to read request body")
  with_body (some body) next g = next body

  -- `forwardRequest`
  unfoldable pub forward_request :
      HttpRequest → String → String → Downstream → Gateway → Gateway × HttpResponse
  forward_request r url service down g =
      with_body r.body
        (λ body.
          if not down.request_made
          then (g, internal_error)
          else with_breaker (get service g.breakers)
              (λ cb.
                call_downstream
                  (record {
                    method = r.method;
                    url = url;
                    headers = forwarded_headers r.headers;
                    body = body;
                  })
                  service cb down g)
              g)
        g

  abbrev pub with_id :
      Option String → (String → Gateway × HttpResponse) → Gateway → Gateway × HttpResponse
  with_id none next g = (g, http_error 404 "404 page not found")
  with_id (some id) next g = next id

  -- The check of the invocations' limiter, and what follows it.
  unfoldable pub after_invoke_limit :
      String → (Gateway → Gateway × HttpResponse) → Gateway → Gateway × HttpResponse
  after_invoke_limit id next g =
      let (limits, answer) = invoke_limiter.allow id g.invoke_limits in
      let g' = record g { invoke_limits = limits } in
      limited answer (g', internal_error) (g', too_many) (next g')

  -- `HandleInvoke`. `decode` is the JSON decoder on the body: the function's ID and what it leaves
  -- unread, or an error; it is what it leaves that is forwarded.
  unfoldable pub handle_invoke :
      (Option String → Option (String × String))
      → HttpRequest
      → Downstream
      → Gateway
      → Gateway × HttpResponse
  handle_invoke decode r down g =
      if not (str_eq r.method "POST") then (g, method_not_allowed) else elim (decode r.body) [
        | none ↦ (g, http_error 400 "Invalid request body")
        | some (id, unread) ↦
            after_invoke_limit id
              (λ g'.
                forward_request (record r { body = some unread })
                  (cat g.config.lambda_service_url "/invoke") "lambda-service" down g')
              g
      ]

  -- `HandleInvokeFunction`
  unfoldable pub handle_invoke_function :
      HttpRequest → Downstream → Gateway → Gateway × HttpResponse
  handle_invoke_function r down g =
      if not (str_eq r.method "POST")
      then (g, method_not_allowed)
      else with_id (parse_invoke_function_id r.path)
          (λ id.
            after_invoke_limit id
              (forward_request r (cat g.config.lambda_service_url r.path) "lambda-service" down) g)
          g

  -- `HandleCreateFunction`
  unfoldable pub handle_create_function :
      HttpRequest → Downstream → Gateway → Gateway × HttpResponse
  handle_create_function r down g =
      let user = if str_eq r.user_id "" then "default_user" else r.user_id in
      let (limits, answer) = build_limiter.allow user g.build_limits in
      let g' = record g { build_limits = limits } in
      if not (str_eq r.method "POST")
      then (g, method_not_allowed)
      else limited answer (g', internal_error) (g', too_many_builds)
          (forward_request r (cat g.config.build_service_url "/functions") "build-service" down g')

  -- `HandleGetFunction`
  unfoldable pub handle_get_function : HttpRequest → Downstream → Gateway → Gateway × HttpResponse
  handle_get_function r down g =
      if not (str_eq r.method "GET")
      then (g, method_not_allowed)
      else if str_eq r.query_id ""
      then (g, http_error 400 "Missing function_id parameter")
      else forward_request r (cat g.config.lambda_service_url (cat "/functions?id=" r.query_id))
          "lambda-service" down g

  -- `HandleListFunctions`
  unfoldable pub handle_list_functions : HttpRequest → Downstream → Gateway → Gateway × HttpResponse
  handle_list_functions r down g =
      if not (str_eq r.method "GET")
      then (g, method_not_allowed)
      else forward_request r (cat g.config.lambda_service_url "/functions") "lambda-service" down g
