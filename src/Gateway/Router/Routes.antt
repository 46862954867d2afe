-- ===== src/Gateway/Router/Routes.antt =====
-- routes.go, and the health check of gateway.go. The multiplexer's cleaning of paths is left out; the
-- replies of the log stream and of the metrics, and what the services answer to the health check, are
-- arguments.
use text.Mathlib.Text.{◌==◌ as str_eq, starts_with}
use mini_lambda.Common.{String, Bool, Option, none, some, List, [], ◌∷◌, ◌++◌, ◌==◌, if◌then◌else◌}
use mini_lambda.Common.Text.{cat}
use mini_lambda.Gateway.RateLimit.Strategy.{RateLimiter}
use mini_lambda.Gateway.Router.{
  HttpRequest, HttpResponse, Outgoing, Downstream, http_error, method_not_allowed,
}
use mini_lambda.Gateway.Router.Handlers.{
  Gateway, handle_invoke_function, handle_create_function, handle_get_function,
  handle_list_functions,
}

-- A check of a service: whether its request can be made, and the answer; none is an error of the
-- client.
pub record Ping : Type 0 where
  pub request_made : Bool
  pub answer : Option HttpResponse

unfoldable pub health_of : Option HttpResponse → String
health_of none = "unhealthy"
health_of (some r) = if r.status == 200 then "healthy" else "unhealthy"

abbrev pub probe : String → Outgoing
probe url = record { method = "GET"; url = url; headers = []; body = "" }

-- `checkServiceHealth`: its word, and the requests that it sends, past the breakers and without the
-- gateway's header.
unfoldable pub check_service_health : String → Ping → String × List Outgoing
check_service_health url ping =
    if ping.request_made then (health_of ping.answer, probe url ∷ []) else ("unhealthy", [])

-- What is answered from outside: the replies of the log stream and of the metrics, the two checks
-- of the services, and the JSON encoder.
pub record Served : Type 0 where
  pub build_logs : HttpResponse
  pub metrics : HttpResponse
  pub lambda_ping : Ping
  pub build_ping : Ping
  pub encode : List (String × String) → String

module _ (invoke_limiter build_limiter : RateLimiter) where
  -- `HandleHealth`: what it says of the gateway and of the two services, one check after the other.
  unfoldable pub handle_health :
      Served
      → Gateway invoke_limiter build_limiter
      → Gateway invoke_limiter build_limiter × HttpResponse
  handle_health served g =
      let (lambda, first) =
        check_service_health (cat g.config.lambda_service_url "/health") served.lambda_ping in
      let (build, second) =
        check_service_health (cat g.config.build_service_url "/health") served.build_ping in
      (
        record g { sent = second ++ first ++ g.sent },
        record {
          status = 200;
          headers = ("Content-Type", "application/json") ∷ [];
          body =
              served.encode (
                ("gateway", "healthy")
                ∷ ("lambda-service", lambda)
                ∷ ("build-service", build)
                ∷ []);
        },
      )

  -- The handler of `/functions`.
  unfoldable pub handle_functions :
      HttpRequest
      → Downstream
      → Gateway invoke_limiter build_limiter
      → Gateway invoke_limiter build_limiter × HttpResponse
  handle_functions r down g =
      if str_eq r.method "POST"
      then handle_create_function invoke_limiter build_limiter r down g
      else if str_eq r.method "GET"
      then if str_eq r.query_id ""
        then handle_list_functions invoke_limiter build_limiter r down g
        else handle_get_function invoke_limiter build_limiter r down g
      else (g, method_not_allowed)

  -- The multiplexer of `SetupRoutes`.
  unfoldable pub route :
      Served
      → HttpRequest
      → Downstream
      → Gateway invoke_limiter build_limiter
      → Gateway invoke_limiter build_limiter × HttpResponse
  route served r down g =
      if starts_with r.path "/functions/"
      then handle_invoke_function invoke_limiter build_limiter r down g
      else if str_eq r.path "/functions"
      then handle_functions r down g
      else if starts_with r.path "/jobs/"
      then (g, served.build_logs)
      else if str_eq r.path "/health"
      then handle_health served g
      else if str_eq r.path "/metrics"
      then (g, served.metrics)
      else (g, http_error 404 "404 page not found")
