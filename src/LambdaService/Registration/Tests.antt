-- ===== src/LambdaService/Registration/Tests.antt =====
-- Runs of the registration of built functions.
use text.Mathlib.Text.{◌==◌ as str_eq}
use mini_lambda.Common.{
  refl, String, Bool, true, Option, none, some, List, [], ◌∷◌, arith, if◌then◌else◌,
}
use mini_lambda.Common.Int.{pos}
use mini_lambda.Common.Strings.{first_part}
use mini_lambda.Shared.BuildEvent.{FunctionBuiltEvent}
use mini_lambda.Shared.Functions.{Function}
use mini_lambda.Shared.Functions.Service.Tests.{table_repository, no_rows}
use mini_lambda.BuildService.Jobs.{BuildJob, queued}
use mini_lambda.BuildService.Artifacts.{Walked, file, upload_directory}
use mini_lambda.BuildService.Worker.{event_of, s3_prefix}
use mini_lambda.LambdaService.CodeStore.{build_key, store, retrieve_raw}
use mini_lambda.LambdaService.CodeStore.Tests.{bucket, escaped, nothing}
use mini_lambda.LambdaService.Registration.{
  handle, register_code, save_function, handler_key, handler_filename,
}
use mini_lambda.LambdaService.Registration.Limits.{HoldsInvalid, too_long_is_registered}

abbrev job : BuildJob
job = record {
  id = "j1";
  function_id = "1";
  name = "hello";
  runtime = "python3.9";
  handler = "main.handler";
  memory_mb = pos 128;
  timeout_secs = pos 1000;
  package_url = "packages/1/package.zip";
  repo_url = "";
  dockerfile = "";
  webhook_url = "";
  status = queued;
  created_at = 1;
  started_at = none;
  completed_at = none;
  error = "";
}

abbrev files : List Walked
files = file "main.py" (some "print(1)") ∷ []

abbrev one_file : String → Option String
one_file key = if str_eq "functions/1/main.py" key then some "print(1)" else none

abbrev before : String → Option String
before = nothing

abbrev evt : FunctionBuiltEvent
evt = event_of job 3

abbrev objects : String → Option String
objects = (upload_directory bucket "1" files before).0

abbrev table : Bool × (String → Option Function)
table = (true, no_rows)

abbrev registered : (String → Option String) × (Bool × (String → Option Function))
registered = (handle bucket escaped "" table_repository (some evt) 4 (objects, table)).0

too_long_example :
    HoldsInvalid bucket escaped "" table_repository evt 4 table
      (handle bucket escaped "" table_repository (some evt) 4 (one_file, table)).0.1
unfolding event_of retrieve_raw handler_key s3_prefix handler_filename first_part handle
    register_code store build_key save_function
too_long_example =
    too_long_is_registered bucket escaped "" table_repository evt "print(1)" 4 1000 one_file table
      (refl, omega arith, omega arith, refl, refl) refl refl
