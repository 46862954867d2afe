-- ===== src/LambdaService/Invoke.antt =====
-- services/lambda-service/internal/invoke/handler.go: the endpoint that runs a function. The
-- runtimes and the JSON library are parameters; `saved` is what is handed to `SaveExecution`.
pub mod Records
mod Tests
use text.Mathlib.Text.{◌==◌ as str_eq, starts_with}
use mini_lambda.Common.{
  ℕ, suc, zero, ◌+◌, ◌*◌, ◌-◌, ◌/◌, ◌≡◌, String, Bool, true, false, not, ◌||◌, Option, none, some,
  List, [], ◌∷◌, ◌⊎◌, inl, inr, if◌then◌else◌, ltb, leb,
}
use mini_lambda.Common.Int.{ℤ, pos}
use mini_lambda.Common.Strings.{
  has_suffix, trim_prefix, trim_suffix, trim, contains, slash, size, first_bytes,
}
use mini_lambda.Shared.Functions.{Function}
use mini_lambda.Shared.Functions.Interfaces.{
  Found, found, not_found, unavailable, FunctionRepository,
}
use mini_lambda.Shared.Functions.Execution.{Execution, new_execution, mark_success}

-- `domain.ExecutionResult`
pub record ExecutionResult : Type 0 where
  pub output : String
  pub logs : String
  pub memory_used : ℤ
  pub exit_code : ℤ
  pub was_warm_start : Bool

-- What a runtime gives for a run: a result, a nil result, an error of the context, or another one.
pub data RunResult : Type 0 where
  ran : ExecutionResult → RunResult
  no_result timed_out broke : RunResult

-- The JSON library, with `strings.TrimSpace`.
pub record Json : Type 0 where
  pub trim_space : String → String
  pub valid : String → Bool
  pub marshal : String → Option String
  pub valid-null : valid "null" ≡ true
  pub valid-marshal : (s encoded : String) → marshal s ≡ some encoded → valid encoded ≡ true

pub record Response : Type 0 where
  pub function_id : String
  pub output : String
  pub logs : String
  pub exit_code : ℤ
  pub warm_start : Bool
  pub duration_ms : ℕ

-- The answer: a status with an error's text, or 200 with the response.
pub data Answer : Type 0 where
  refuse : ℕ → String → Answer
  respond : Response → Answer

unfoldable pub status_code : Answer → ℕ
status_code (refuse status text) = status
status_code (respond r) = 200

unfoldable pub parse_function_id : String → Option String
parse_function_id path =
    if not (starts_with path "/functions/") || not (has_suffix path "/invoke")
    then none
    else let id = trim slash (trim_suffix (trim_prefix path "/functions/") "/invoke") in
      if str_eq id "" || contains slash id then none else some id

-- `readLimitedBody`; a body that cannot be read is none, and none is an error.
unfoldable pub read_limited_body : ℕ → Option String → Option String
read_limited_body max_bytes none = none
read_limited_body max_bytes (some body) =
    let read = first_bytes (max_bytes + 1) body in
    if ltb max_bytes (size read) then none else some read

module _ (json : Json) where
  abbrev pub encoded : Option String → String
  encoded none = "null"
  encoded (some s) = s

  -- `normalizeOutput`
  unfoldable pub normalize_output : String → String
  normalize_output output =
      let trimmed = json.trim_space output in
      if str_eq trimmed ""
      then "null"
      else if json.valid trimmed
      then trimmed
      else encoded (json.marshal trimmed)

-- The outside world of one request: the new execution's identifier, and the times before and after
-- the run and at the execution's end.
pub record Call : Type 0 where
  pub execution_id : String
  pub start : ℕ
  pub done : ℕ
  pub recorded : ℕ

-- `maxBodyBytes` as `NewHandler` sets it.
unfoldable pub max_body : ℕ → ℕ
max_body given = if leb given 0 then 1024 * 1024 else given

module _ (json : Json) (get_function_meta : String → Found)
    (execute : Function → String → RunResult) (max_bytes : ℕ) where
  -- The execution that is recorded.
  unfoldable pub execution_of : Function → String → ExecutionResult → Call → Execution
  execution_of f payload result c =
      let fresh = new_execution c.execution_id f.id payload in
      let ended =
        mark_success c.recorded result.output (record fresh { started_at = some c.start }) in
      record ended { memory_used = result.memory_used; is_warm_start = result.was_warm_start }

  unfoldable pub response_of : String → ExecutionResult → Call → Response
  response_of id result c = record {
    function_id = id;
    output = normalize_output json result.output;
    logs = result.logs;
    exit_code = result.exit_code;
    warm_start = result.was_warm_start;
    duration_ms = (c.done - c.start) / 1_000_000;
  }

  -- What follows the run.
  unfoldable pub after_run :
      String → Function → String → Call → RunResult → List Execution → List Execution × Answer
  after_run id f payload c (ran result) saved =
      (execution_of f payload result c ∷ saved, respond (response_of id result c))
  after_run id f payload c no_result saved = (saved, refuse 500 "Runtime execution failed")
  after_run id f payload c timed_out saved = (saved, refuse 504 "Execution timeout")
  after_run id f payload c broke saved = (saved, refuse 500 "Runtime execution failed")

  unfoldable pub run_found :
      String → Found → String → Call → List Execution → List Execution × Answer
  run_found id (found f) payload c saved = after_run id f payload c (execute f payload) saved
  run_found id not_found payload c saved = (saved, refuse 404 "Function not found")
  run_found id unavailable payload c saved = (saved, refuse 500 "Internal server error")

  unfoldable pub with_payload :
      String → Option String → Call → List Execution → List Execution × Answer
  with_payload id none c saved = (saved, refuse 413 "Payload too large")
  with_payload id (some payload) c saved = run_found id (get_function_meta id) payload c saved

  unfoldable pub with_id :
      Option String → Option String → Call → List Execution → List Execution × Answer
  with_id none body c saved = (saved, refuse 404 "404 page not found")
  with_id (some id) body c saved = with_payload id (read_limited_body max_bytes body) c saved

  -- `HandleInvoke`
  unfoldable pub handle_invoke :
      String → String → Option String → Call → List Execution → List Execution × Answer
  handle_invoke method path body c saved =
      if not (str_eq method "POST")
      then (saved, refuse 405 "Method not allowed")
      else with_id (parse_function_id path) body c saved
