-- ===== src/LambdaService/Invoke/Records.antt =====
-- handler.go: what the invocation endpoint lets in, what it records, and what it answers.
use text.Mathlib.Text.{◌==◌ as str_eq}
use mini_lambda.Common.{
  ℕ, zero, suc, ◌+◌, ◌≡◌, refl, ap, String, true, Option, none, some, List, ◌∷◌, inl, inr,
  if◌then◌else◌, leb, arith, Bool-cases, if-cases,
}
use mini_lambda.Common.Strings.{size, first_bytes}
use mini_lambda.Shared.Functions.{Function}
use mini_lambda.Shared.Functions.Interfaces.{Found, found}
use mini_lambda.Shared.Functions.Execution.{Execution, success}
use mini_lambda.Gateway.Router.{parse_invoke_function_id}
use mini_lambda.LambdaService.Invoke.{
  ExecutionResult, RunResult, ran, Json, Answer, refuse, respond, parse_function_id,
  read_limited_body, normalize_output, encoded, Call, execution_of,
}

pub first_bytes-all : (n : ℕ) (s : String) → leb (size s) n ≡ true → first_bytes n s ≡ s
unfolding first_bytes size
first_bytes-all zero String.[] h = refl
first_bytes-all zero (String.◌∷◌ c s) h = absurd (ground (arith, h))
first_bytes-all (suc n) String.[] h = refl
first_bytes-all (suc n) (String.◌∷◌ c s) h =
    ap (λ r. String.◌∷◌ c r) (first_bytes-all n s (ground (arith, h)))

pub size-first_bytes : (n : ℕ) (s : String) → leb n (size s) ≡ true → size (first_bytes n s) ≡ n
unfolding first_bytes size
size-first_bytes zero s h = refl
size-first_bytes (suc n) String.[] h = absurd (ground (arith, h))
size-first_bytes (suc n) (String.◌∷◌ c s) h =
    ap (λ k. suc k) (size-first_bytes n s (ground (arith, h)))

-- A body that can be read is let in whole exactly if it has at most the given number of bytes.
pub read_limited_body-bound :
    (max_bytes : ℕ) (body : String)
    → read_limited_body max_bytes (some body)
      ≡ (if leb (size body) max_bytes then some body else none)
unfolding read_limited_body
read_limited_body-bound max_bytes body = elim (Bool-cases (leb (size body) max_bytes)) [
  | inl fits ↦
      rw (first_bytes-all (max_bytes + 1) body (ground (arith, fits))) (ground (arith, fits))
  | inr more ↦
      rw (size-first_bytes (max_bytes + 1) body (ground (arith, more))) (ground (arith, more))
]

encoded-IsValid :
    (json : Json) (s : String) (o : Option String)
    → json.marshal s ≡ o
    → json.valid (encoded json o) ≡ true
encoded-IsValid json s none h = json.valid-null
encoded-IsValid json s (some t) h = json.valid-marshal s t h

pub normalize_output-IsValid :
    (json : Json) (output : String) → json.valid (normalize_output json output) ≡ true
unfolding normalize_output
normalize_output-IsValid json output =
    let trimmed = json.trim_space output in
    if-cases (λ s. json.valid s ≡ true) (str_eq trimmed "") _ _ (λ e. json.valid-null)
      (λ e.
        if-cases (λ s. json.valid s ≡ true) (json.valid trimmed) _ _ (λ v. v)
          (λ v. encoded-IsValid json trimmed (json.marshal trimmed) refl))

module _ (json : Json) (get_function_meta : String → Found)
    (execute : Function → String → RunResult) (max_bytes : ℕ) where
  -- What an answer says of the executions that are recorded: 200 stands for one run of the function
  -- on the whole body, which has at most the bytes allowed; it is recorded as a success, and the
  -- output that is sent is valid JSON. Any other answer records nothing.
  abbrev pub Settles : Option String → Call → List Execution → List Execution → Answer → Type 0
  Settles body c saved saved' (refuse status text) = saved' ≡ saved
  Settles body c saved saved' (respond r) =
      (f : Function) × (payload : String) × (result : ExecutionResult) × (get_function_meta
          r.function_id
        ≡ found f)
      × (body ≡ some payload)
      × (leb (size payload) max_bytes ≡ true)
      × (execute f payload ≡ ran result)
      × (r.exit_code ≡ result.exit_code)
      × (saved' ≡ execution_of json get_function_meta execute max_bytes f payload result c ∷ saved)
      × ((execution_of json get_function_meta execute max_bytes f payload result c).status
          ≡ success)
      × (json.valid r.output ≡ true)

-- The gateway and this service read the same function's ID from every path.
pub parsers_agree : (path : String) → parse_function_id path ≡ parse_invoke_function_id path
unfolding parse_function_id parse_invoke_function_id
parsers_agree path = refl
