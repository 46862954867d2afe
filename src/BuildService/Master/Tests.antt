-- ===== src/BuildService/Master/Tests.antt =====
-- Runs of the build master over a bucket that is a function.
use text.Mathlib.Text.{◌==◌ as str_eq}
use mini_lambda.Common.{◌≡◌, refl, String, true, false, none, some, [], if◌then◌else◌}
use mini_lambda.Common.Int.{pos}
use mini_lambda.Common.Text.{cat}
use mini_lambda.LambdaService.CodeStore.Tests.{bucket, nothing}
use mini_lambda.BuildService.Jobs.{CreateFunctionRequest, BuildMetadata}
use mini_lambda.BuildService.Artifacts.{Json, check_build_metadata}
use mini_lambda.BuildService.Notifier.{Network, Occasion}
use mini_lambda.BuildService.Backpressure.{
  can_accept_request, backpressure_thresholds, first_reached,
}
use mini_lambda.BuildService.Master.{
  Arrival, queued, conflict, hash_input, is_valid, Master, metadata_of, handle_create_function,
}
use mini_lambda.BuildService.Master.Idempotency.{second_is_conflict}

-- A name with a colon in it, and another request with the same text to hash.
abbrev first_request : CreateFunctionRequest
first_request = record {
  name = "a:b";
  runtime = "c";
  handler = "index.handler";
  package_data = "zip";
  repo_url = "";
  dockerfile = "";
  webhook_url = "";
  timeout = pos 30;
  memory = pos 128;
}

abbrev other_request : CreateFunctionRequest
other_request = record first_request { name = "a"; runtime = "b:c" }

abbrev pub offline : Network
offline = record { parse = λ url. none; lookup_ip = λ host. none }

abbrev pub no_notice : Occasion
no_notice = record { allow_private = false; request_made = false; status_code = none; now = 0 }

abbrev arrival : CreateFunctionRequest → String → Arrival
arrival r id = record {
  depth = some 0;
  request = some r;
  function_id = cat "f" id;
  job_id = cat "j" id;
  published = true;
  notice = no_notice;
  now = 1;
  saved_at = 2;
}

abbrev remembered : BuildMetadata
remembered = record {
  function_id = "f1";
  job_id = "j1";
  created_at = 2;
  runtime = "c";
  name = "a:b";
  hash = "a:b:c:zip";
}

abbrev json : Json
json = record {
  encode = λ m. m.job_id;
  decode = λ s. if str_eq s "j1" then some remembered else none;
}

abbrev same : String → String
same s = s

abbrev idle : Master bucket json same offline
idle = record { objects = nothing; jobs = []; notices = [] }

second_is_conflict_example :
    let a = arrival first_request "1" in
    let (m', reply) = handle_create_function bucket json same offline a idle in
    (reply ≡ queued "j1" "f1")
    × (handle_create_function bucket json same offline (arrival other_request "2") m'
        ≡ (m', conflict (metadata_of bucket json same offline first_request a)))
unfolding hash_input is_valid can_accept_request backpressure_thresholds first_reached
    check_build_metadata
second_is_conflict_example =
    second_is_conflict bucket json same offline (λ o. refl) (λ key body o. refl)
      (arrival first_request "1") (arrival other_request "2") first_request other_request idle refl
      refl refl refl refl refl refl refl refl refl
