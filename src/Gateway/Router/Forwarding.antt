-- ===== src/Gateway/Router/Forwarding.antt =====
-- gateway.go: what goes out to the downstream services.
use text.Mathlib.Text.{◌==◌ as str_eq}
use mini_lambda.Common.{
  ◌≡◌, refl, ◌∙◌, String, Bool, true, false, not, Option, none, some, List, [], ◌∷◌, ◌⊎◌, inl, inr,
  if◌then◌else◌, keep, keep-append, Bool-cases,
}
use mini_lambda.Common.Text.{cat}
use mini_lambda.Gateway.CircuitBreaker.{CircuitBreaker, get, call, Attempt}
use mini_lambda.Gateway.RateLimit.Strategy.{RateLimiter}
use mini_lambda.Gateway.Router.{
  Headers, HttpRequest, HttpResponse, Outgoing, Downstream, http_error, internal_error,
  parse_invoke_function_id, forwarded_headers, client_error, limited, method_not_allowed,
}
use mini_lambda.Gateway.Router.Handlers.{
  Gateway, call_downstream, with_breaker, with_body, forward_request, with_id, after_invoke_limit,
  handle_invoke_function, handle_create_function, handle_get_function, handle_list_functions,
}
use mini_lambda.Gateway.Router.Routes.{handle_functions}

abbrev pub is_mark : String × String → Bool
is_mark h = str_eq h.0 "X-Forwarded-By"

pub keep-unmarked : (headers : Headers) → keep is_mark (keep (λ h. not (is_mark h)) headers) ≡ []
keep-unmarked [] = refl
keep-unmarked (h ∷ rest) = elim (Bool-cases (is_mark h)) [
  | inl e ↦ rw e (keep-unmarked rest)
  | inr e ↦ rw (e, e) (keep-unmarked rest)
]

-- At most one request goes out, to the method of the one that came in, and it carries the gateway's
-- mark once.
abbrev pub SentAfter : HttpRequest → List Outgoing → List Outgoing → Type 0
SentAfter r before after =
    (after ≡ before)
    ⊎ ((out : Outgoing) × (after ≡ out ∷ before)
        × (out.method ≡ r.method)
        × (keep is_mark out.headers ≡ ("X-Forwarded-By", "mini-lambda-gateway") ∷ []))

pub forwarded_headers-mark :
    (headers : Headers)
    → keep is_mark (forwarded_headers headers) ≡ ("X-Forwarded-By", "mini-lambda-gateway") ∷ []
unfolding forwarded_headers
forwarded_headers-mark headers =
    keep-append is_mark (keep (λ h. not (is_mark h)) headers)
      (("X-Forwarded-By", "mini-lambda-gateway") ∷ [])
    ∙ rw (keep-unmarked headers)

pub if-end {ℓ ℓ'} :
    {A : Type ℓ} (P : A → Type ℓ') (b : Bool) (x y : A) → P x → P y → P (if b then x else y)
if-end P true x y h k = h
if-end P false x y h k = k

pub limited-end {ℓ ℓ'} :
    {A : Type ℓ} (P : A → Type ℓ') (answer : Option Bool) (failure refusal next : A)
    → P failure
    → P refusal
    → P next
    → P (limited answer failure refusal next)
limited-end P none failure refusal next a b c = a
limited-end P (some false) failure refusal next a b c = b
limited-end P (some true) failure refusal next a b c = c

module _ (invoke_limiter build_limiter : RateLimiter) where
  abbrev State : Type 0
  State = Gateway invoke_limiter build_limiter

  -- What a handler's result has sent since the state before it.
  abbrev pub Sends : HttpRequest → State → State × HttpResponse → Type 0
  Sends r g p = SentAfter r g.sent p.0.sent

  pub call_downstream-Sends :
      (r : HttpRequest) (out : Outgoing) (service : String) (cb : CircuitBreaker)
      (down : Downstream) (g : State)
      → out.method ≡ r.method
      → keep is_mark out.headers ≡ ("X-Forwarded-By", "mini-lambda-gateway") ∷ []
      → Sends r g (call_downstream invoke_limiter build_limiter out service cb down g)
  unfolding call_downstream
  call_downstream-Sends r out service cb down g m k =
      let a : Attempt (Unit {0}) = record {
        start = down.start;
        done = down.done;
        outcome = client_error down.answer;
      } in
      elim (Bool-cases (call a cb).1.ran) [
        | inl e ↦ rw e (inr (out, refl, m, k))
        | inr e ↦ rw e (inl refl)
      ]

  pub with_body-end {ℓ} :
      (P : State × HttpResponse → Type ℓ) (body : Option String)
      (next : String → State × HttpResponse) (g : State)
      → P (g, http_error 400 "Failed to read request body")
      → ((b : String) → P (next b))
      → P (with_body invoke_limiter build_limiter body next g)
  with_body-end P none next g a b = a
  with_body-end P (some body) next g a b = b body

  pub with_breaker-end {ℓ} :
      (P : State × HttpResponse → Type ℓ) (found : Option CircuitBreaker)
      (next : CircuitBreaker → State × HttpResponse) (g : State)
      → P (g, internal_error)
      → ((cb : CircuitBreaker) → P (next cb))
      → P (with_breaker invoke_limiter build_limiter found next g)
  with_breaker-end P none next g a b = a
  with_breaker-end P (some cb) next g a b = b cb

  pub with_id-end {ℓ} :
      (P : State × HttpResponse → Type ℓ) (id : Option String)
      (next : String → State × HttpResponse) (g : State)
      → P (g, http_error 404 "404 page not found")
      → ((i : String) → P (next i))
      → P (with_id invoke_limiter build_limiter id next g)
  with_id-end P none next g a b = a
  with_id-end P (some id) next g a b = b id

  pub forward_request-Sends :
      (r : HttpRequest) (url service : String) (down : Downstream) (g : State)
      → Sends r g (forward_request invoke_limiter build_limiter r url service down g)
  unfolding forward_request
  forward_request-Sends r url service down g =
      with_body-end (Sends r g) r.body _ g (inl refl) (λ body.
        if-end (Sends r g) (not down.request_made) (g, internal_error) _ (inl refl)
          (with_breaker-end (Sends r g) (get service g.breakers) _ g (inl refl) (λ cb.
            call_downstream-Sends r _ service cb down g refl (forwarded_headers-mark r.headers))))

  pub after_invoke_limit-Sends :
      (r : HttpRequest) (id : String) (next : State → State × HttpResponse) (g : State)
      → ((limits : invoke_limiter.Limits) → Sends r g (next (record g { invoke_limits = limits })))
      → Sends r g (after_invoke_limit invoke_limiter build_limiter id next g)
  unfolding after_invoke_limit
  after_invoke_limit-Sends r id next g h =
      let (limits, answer) = invoke_limiter.allow id g.invoke_limits in
      limited-end (Sends r g) answer _ _ _ (inl refl) (inl refl) (h limits)

  pub handle_invoke_function-Sends :
      (r : HttpRequest) (down : Downstream) (g : State)
      → Sends r g (handle_invoke_function invoke_limiter build_limiter r down g)
  unfolding handle_invoke_function
  handle_invoke_function-Sends r down g =
      let url = cat g.config.lambda_service_url r.path in
      if-end (Sends r g) (not (str_eq r.method "POST")) (g, method_not_allowed) _ (inl refl)
        (with_id-end (Sends r g) (parse_invoke_function_id r.path) _ g (inl refl) (λ id.
          after_invoke_limit-Sends r id
            (forward_request invoke_limiter build_limiter r url "lambda-service" down) g
            (λ limits.
              forward_request-Sends r url "lambda-service" down
                (record g { invoke_limits = limits }))))

  pub handle_create_function-Sends :
      (r : HttpRequest) (down : Downstream) (g : State)
      → Sends r g (handle_create_function invoke_limiter build_limiter r down g)
  unfolding handle_create_function
  handle_create_function-Sends r down g =
      let user = if str_eq r.user_id "" then "default_user" else r.user_id in
      let (limits, answer) = build_limiter.allow user g.build_limits in
      if-end (Sends r g) (not (str_eq r.method "POST")) (g, method_not_allowed) _ (inl refl)
        (limited-end (Sends r g) answer _ _ _ (inl refl) (inl refl) (
          forward_request-Sends r (cat g.config.build_service_url "/functions") "build-service" down
            (record g { build_limits = limits })))

  pub handle_functions-Sends :
      (r : HttpRequest) (down : Downstream) (g : State)
      → Sends r g (handle_functions invoke_limiter build_limiter r down g)
  unfolding handle_functions handle_get_function handle_list_functions
  handle_functions-Sends r down g =
      if-end (Sends r g) (str_eq r.method "POST") _ _ (handle_create_function-Sends r down g) (
        if-end (Sends r g) (str_eq r.method "GET") _ _
          (if-end (Sends r g) (str_eq r.query_id "") _ _
            (if-end (Sends r g) (not (str_eq r.method "GET")) _ _ (inl refl) (
              forward_request-Sends r (cat g.config.lambda_service_url "/functions")
                "lambda-service" down g))
            (if-end (Sends r g) (not (str_eq r.method "GET")) _ _ (inl refl) (
              if-end (Sends r g) (str_eq r.query_id "") _ _ (inl refl) (
                forward_request-Sends r
                  (cat g.config.lambda_service_url (cat "/functions?id=" r.query_id))
                  "lambda-service" down g))))
          (inl refl))
