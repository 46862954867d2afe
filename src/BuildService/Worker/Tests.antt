-- ===== src/BuildService/Worker/Tests.antt =====
-- Runs of the build worker.
use mini_lambda.Common.{refl, String, true, Option, none, some, [], ◌∷◌, inl, inr}
use mini_lambda.Common.Int.{pos}
use mini_lambda.Gateway.Router.Logs.{ends_log}
use mini_lambda.LambdaService.CodeStore.Tests.{bucket}
use mini_lambda.BuildService.Jobs.{BuildJob, queued}
use mini_lambda.BuildService.Artifacts.{file}
use mini_lambda.BuildService.Master.Tests.{offline, no_notice}
use mini_lambda.BuildService.Worker.{Work, Worker, build}
use mini_lambda.BuildService.Worker.Endings.{Ends, build-Ends}

abbrev package_there : String → Option String
package_there key = some "zip"

abbrev job : BuildJob
job = record {
  id = "j1";
  function_id = "f1";
  name = "hello";
  runtime = "python3.9";
  handler = "main.handler";
  memory_mb = pos 128;
  timeout_secs = pos 30;
  package_url = "packages/f1/package.zip";
  repo_url = "";
  dockerfile = "";
  webhook_url = "";
  status = queued;
  created_at = 1;
  started_at = none;
  completed_at = none;
  error = "";
}

abbrev work : Work
work = record {
  job = inr job;
  docker_lines = "Cloning repository: x" ∷ [];
  docker_build = inl "no docker";
  validate_package = λ data_of. none;
  process_package = λ data_of. inr (file "main.py" (some "print(1)") ∷ []);
  logged = λ line. true;
  published = true;
  at_start = no_notice;
  at_end = no_notice;
  started = 2;
  built_at = 3;
  ended = 4;
}

abbrev idle : Worker bucket offline work
idle = record {
  objects = package_there;
  log = [];
  expiries = 0;
  events = [];
  notices = [];
  removed = [];
}

build-Ends_example :
    Ends bucket offline work (λ line. refl) job idle (build bucket offline work job idle)
unfolding ends_log
build-Ends_example = build-Ends bucket offline work (λ line. refl) job idle (refl, tt) tt
