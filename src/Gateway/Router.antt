-- ===== src/Gateway/Router.antt =====
-- services/gateway/internal/router/gateway.go and routes.go. The HTTP library is not modelled: a
-- request is what a handler reads of it, and what a downstream service answers is an argument. The
-- state is what the handlers change: the limits, the circuit breakers, and the requests that have
-- gone out.
pub mod Paths
pub mod Handlers
pub mod Routes
pub mod Health
pub mod Forwarding
pub mod Shielding
pub mod Logs
mod Tests
use text.Mathlib.Text.{◌==◌ as str_eq, starts_with}
use mini_lambda.Common.{
  ℕ, String, Bool, true, false, not, ◌&&◌, ◌||◌, Option, none, some, List, [], ◌∷◌, ◌++◌, ◌==◌,
  if◌then◌else◌, keep,
}
use mini_lambda.Common.Maps.{insert}
use mini_lambda.Common.Text.{cat}
use mini_lambda.Common.Strings.{has_suffix, trim_prefix, trim_suffix, trim, contains, slash}
use mini_lambda.Gateway.CircuitBreaker.{CircuitBreaker, Registry, get, call, Attempt, Failure}
use mini_lambda.Gateway.RateLimit.Strategy.{RateLimiter}

-- The values of a header stand one after another.
abbrev pub Headers : Type 0
Headers = List (String × String)

pub record HttpRequest : Type 0 where
  pub method : String
  pub path : String
  pub query_id : String
  pub user_id : String
  pub headers : Headers
  -- none is a body that cannot be read.
  pub body : Option String

pub record HttpResponse : Type 0 where
  pub status : ℕ
  pub headers : Headers
  pub body : String

pub record ServiceConfig : Type 0 where
  pub lambda_service_url : String
  pub build_service_url : String

-- A request to a downstream service.
pub record Outgoing : Type 0 where
  pub method : String
  pub url : String
  pub headers : Headers
  pub body : String

-- While a request is forwarded: whether it can be made, when the breaker is called and the client
-- is back, and the answer; none is an error of the client.
pub record Downstream : Type 0 where
  pub request_made : Bool
  pub start : ℕ
  pub done : ℕ
  pub answer : Option HttpResponse

-- `http.Error`
abbrev pub http_error : ℕ → String → HttpResponse
http_error status text = record { status = status; headers = []; body = text }

abbrev pub retry_after : String → HttpResponse → HttpResponse
retry_after seconds r = record r { headers = ("X-RateLimit-Retry-After", seconds) ∷ r.headers }

abbrev pub method_not_allowed : HttpResponse
method_not_allowed = http_error 405 "Method not allowed"

abbrev pub internal_error : HttpResponse
internal_error = http_error 500 "Internal server error"

abbrev pub too_many : HttpResponse
too_many = retry_after "1" (http_error 429 "Rate limit exceeded")

abbrev pub too_many_builds : HttpResponse
too_many_builds =
    retry_after "60" (http_error 429 "Build rate limit exceeded. Max 5 per minute per user.")

unfoldable pub parse_invoke_function_id : String → Option String
parse_invoke_function_id path =
    let id = trim slash (trim_suffix (trim_prefix path "/functions/") "/invoke") in
    if not (starts_with path "/functions/") || not (has_suffix path "/invoke")
    then none
    else if str_eq id "" || contains slash id
    then none
    else some id

-- The copied headers, and the gateway's own in place of one that was there.
unfoldable pub forwarded_headers : Headers → Headers
forwarded_headers headers =
    keep (λ h. not (str_eq h.0 "X-Forwarded-By")) headers
    ++ ("X-Forwarded-By", "mini-lambda-gateway") ∷ []

-- What the function under the breaker returns: the error of the client.
abbrev pub client_error : Option HttpResponse → Option (Unit {0})
client_error none = some tt
client_error (some r) = none

-- The answer to the client after the call through the breaker.
unfoldable pub relay : Option (Failure (Unit {0})) → Option HttpResponse → HttpResponse
relay (some e) answer = http_error 503 "Service unavailable"
relay none none = http_error 503 "Service unavailable"
relay none (some r) = r

-- A check of a rate limiter: an error, a refusal or what follows.
abbrev pub limited {ℓ} : {A : Type ℓ} → Option Bool → A → A → A → A
limited none failure refusal next = failure
limited (some false) failure refusal next = refusal
limited (some true) failure refusal next = next
