-- ===== src/Gateway/Router/Tests.antt =====
-- Runs of the gateway.
use text.Mathlib.Text.{◌==◌ as str_eq}
use mini_lambda.Common.{
  ℕ, ◌≡◌, refl, String, true, false, none, some, List, [], ◌∷◌, ◌++◌, arith, if◌then◌else◌, Option,
}
use mini_lambda.Common.Int.{pos, ℤ}
use mini_lambda.Common.Maps.{lookup}
use mini_lambda.Common.Strings.{
  split, trim, trim_left, trim_right, has_suffix, trim_suffix, trim_prefix, contains,
}
use mini_lambda.Gateway.CircuitBreaker.{CircuitBreaker, open_circuit, new, get}
use mini_lambda.Gateway.RateLimit.TokenBucket.Tests.{plain}
use mini_lambda.Gateway.RateLimit.Build.{global_key, user_key}
use mini_lambda.Gateway.RateLimit.Strategy.{RateLimiter, build_rate_limiter_adapter}
use mini_lambda.Gateway.Router.{
  HttpRequest, HttpResponse, ServiceConfig, Downstream, too_many_builds, parse_invoke_function_id,
}
use mini_lambda.Gateway.Router.Handlers.{Gateway, handle_create_function}
use mini_lambda.Gateway.Router.Routes.{Served, route, handle_health, check_service_health, probe}
use mini_lambda.Gateway.Router.Paths.{invoke_path}
use mini_lambda.Gateway.Router.Shielding.{invoke_all, Guarded, outage_shields, build_quota_shields}
use mini_lambda.Gateway.Router.Logs.{Message, Turn, parse_build_logs_path, stream}
use mini_lambda.Gateway.Router.Logs.Order.{after, up_to_end, Reads, stream_is_log}

abbrev always : RateLimiter
always = record { Limits = Unit {0}; allow = λ key s. (s, some true) }

abbrev ok : HttpResponse
ok = record { status = 200; headers = []; body = "{}" }

abbrev quickly : ℕ → Downstream
quickly t = record { request_made = true; start = t; done = t; answer = some ok }

abbrev tripped : CircuitBreaker
tripped = record {
  max_failures = 3;
  reset_timeout = 30;
  state = open_circuit;
  failures = 3;
  last_failure_time = 3;
}

abbrev services : ServiceConfig
services = record { lambda_service_url = "http://lambda"; build_service_url = "http://build" }

abbrev gateway_with : CircuitBreaker → Gateway always always
gateway_with cb = record {
  config = services;
  invoke_limits = tt;
  build_limits = tt;
  breakers = ("lambda-service", cb) ∷ [];
  sent = [];
}

abbrev invocation : HttpRequest
invocation = record {
  method = "POST";
  path = "/functions/hello/invoke";
  query_id = "";
  user_id = "a";
  headers = ("X-Forwarded-By", "me") ∷ ("Accept", "*") ∷ [];
  body = some "{}";
}

abbrev served : Served
served = record {
  build_logs = ok;
  metrics = ok;
  lambda_ping = record { request_made = true; answer = some ok };
  build_ping = record { request_made = true; answer = none };
  encode = λ fields. "{}";
}

abbrev creation : HttpRequest
creation = record invocation { path = "/functions" }

-- The two requests of a health check.
health_sends :
    (route always always served
      (record invocation { path = "/health" })
      (quickly 5)
      (gateway_with (new 3 30))).0.sent
    ≡ probe "http://build/health" ∷ probe "http://lambda/health" ∷ []
unfolding route handle_health check_service_health
health_sends = refl

outage_shields_example :
    let g =
      invoke_all always always tripped
        ((invocation, quickly 5) ∷ (invocation, quickly 20) ∷ [])
        (gateway_with tripped) in
    (g.sent ≡ []) × Guarded always always tripped g
unfolding get lookup
outage_shields_example =
    outage_shields always always tripped ((invocation, quickly 5) ∷ (invocation, quickly 20) ∷ [])
      (gateway_with tripped) refl refl (omega arith, (omega arith, tt))

abbrev used_up : String → Option ℤ
used_up key =
    if str_eq key "ratelimit:builds:global"
    then some (pos 7)
    else if str_eq key "ratelimit:builds:user:a"
    then some (pos 5)
    else none

abbrev limited_gateway : Gateway always (build_rate_limiter_adapter plain true true)
limited_gateway = record {
  config = services;
  invoke_limits = tt;
  build_limits = used_up;
  breakers = [];
  sent = [];
}

build_quota_shields_example :
    let (g', reply) =
      handle_create_function always
        (build_rate_limiter_adapter plain true true)
        creation
        (quickly 5)
        limited_gateway in
    (g'.sent ≡ []) × (reply ≡ too_many_builds)
unfolding global_key user_key
build_quota_shields_example =
    build_quota_shields plain always creation (quickly 5) 7 5 limited_gateway refl refl refl refl
      refl

-- A log of three lines and one that comes after the last.
abbrev log : List Message
log =
    record { id = 1; log = "one" }
    ∷ record { id = 2; log = "two" }
    ∷ record { id = 5; log = "__BUILD_DONE__" }
    ∷ record { id = 6; log = "late" }
    ∷ []

-- Each read gives the next entry.
abbrev next_entry : List Message → List Message
next_entry [] = []
next_entry (m ∷ ms) = m ∷ []

abbrev one_by_one : Turn
one_by_one = record {
  timed_out = false;
  cancelled = false;
  read = λ last_id. some (next_entry (after last_id log));
}

abbrev past_first : List Message → List Message
past_first [] = []
past_first (m ∷ ms) = ms

next_entry-append : (ms : List Message) → ms ≡ next_entry ms ++ past_first ms
next_entry-append [] = refl
next_entry-append (m ∷ ms) = refl

one_by_one-Reads : Reads log one_by_one
one_by_one-Reads last_id = (past_first (after last_id log), next_entry-append (after last_id log))

stream_is_log_example :
    let p = stream (one_by_one ∷ one_by_one ∷ one_by_one ∷ one_by_one ∷ []) 0 in
    p.written ++ (if p.ended then [] else up_to_end (after p.last_id log)) ≡ up_to_end log
stream_is_log_example =
    stream_is_log log (one_by_one ∷ one_by_one ∷ one_by_one ∷ one_by_one ∷ [])
      (omega arith, (omega arith, (omega arith, (omega arith, tt))))
      (one_by_one-Reads, (one_by_one-Reads, (one_by_one-Reads, (one_by_one-Reads, tt))))

finds_job : parse_build_logs_path "/jobs/j1/logs/" ≡ some "j1"
unfolding parse_build_logs_path split trim trim_right trim_left
finds_job = refl

finds_function : parse_invoke_function_id (invoke_path "hello") ≡ some "hello"
unfolding parse_invoke_function_id has_suffix trim trim_right trim_left trim_suffix trim_prefix
    contains
finds_function = refl
