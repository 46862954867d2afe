-- ===== src/LambdaService/Invoke/Tests.antt =====
-- Runs of the invocation endpoint.
use text.Mathlib.Text.{◌==◌ as str_eq}
use mini_lambda.Common.{refl, String, true, some, if◌then◌else◌}
use mini_lambda.Common.Int.{pos}
use mini_lambda.Shared.Functions.{Function}
use mini_lambda.Shared.Functions.Interfaces.{Found, found, not_found}
use mini_lambda.Shared.Functions.Service.Tests.{hello}
use mini_lambda.LambdaService.Invoke.{RunResult, ran, Json, Call}

-- A library for which everything is JSON.
abbrev lenient : Json
lenient = record {
  trim_space = λ s. s;
  valid = λ s. true;
  marshal = λ s. some s;
  valid-null = refl;
  valid-marshal = λ s encoded e. refl;
}

abbrev one_function : String → Found
one_function id = if str_eq id "hello" then found hello else not_found

abbrev fails : Function → String → RunResult
fails f payload = ran (record {
  output = "{}";
  logs = "Traceback";
  memory_used = pos 128;
  exit_code = pos 1;
  was_warm_start = true;
})

abbrev call : Call
call = record { execution_id = "e1"; start = 1; done = 2; recorded = 3 }
