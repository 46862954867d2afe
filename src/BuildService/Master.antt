-- ===== src/BuildService/Master.antt =====
-- services/build-service/cmd/master/main.go: the handler of requests to create a function. The
-- hash and the JSON library are parameters; the state is what the handler changes: the bucket, the
-- queue of build jobs and the notices.
pub mod Queued
pub mod Idempotency
pub mod Tests
use text.Mathlib.Text.{◌==◌ as str_eq}
use mini_lambda.Common.{
  ℕ, String, Bool, true, false, not, ◌&&◌, ◌||◌, Option, none, some, List, [], ◌∷◌, if◌then◌else◌,
}
use mini_lambda.Common.Int.{ℤ, pos, leb_ℤ}
use mini_lambda.Common.Text.{cat}
use mini_lambda.Shared.Bucket.{Bucket}
use mini_lambda.BuildService.Backpressure.{
  Admission, accepted, rejected, queue_unknown, ThresholdInfo, can_accept_request,
}
use mini_lambda.BuildService.Jobs.{BuildStatus, BuildJob, CreateFunctionRequest, BuildMetadata}
use mini_lambda.BuildService.Artifacts.{
  Json, Existing, absent, damaged, existing, upload_package, check_build_metadata,
  save_build_metadata,
}
use mini_lambda.BuildService.Notifier.{Network, Occasion, Notices, notify_queued}

-- The outside world of one request: the depth of the queue, the decoded body, the new identifiers,
-- whether the publication succeeds, the notice's occasion, and the times.
pub record Arrival : Type 0 where
  pub depth : Option ℕ
  pub request : Option CreateFunctionRequest
  pub function_id : String
  pub job_id : String
  pub published : Bool
  pub notice : Occasion
  pub now : ℕ
  pub saved_at : ℕ

-- What is answered.
pub data Reply : Type 0 where
  internal_error invalid_body missing_fields upload_failed not_queued : Reply
  unavailable : ThresholdInfo → ℕ → Reply
  conflict : BuildMetadata → Reply
  queued : String → String → Reply

unfoldable pub status_of : Reply → ℕ
status_of internal_error = 500
status_of invalid_body = 400
status_of missing_fields = 400
status_of upload_failed = 500
status_of not_queued = 500
status_of (unavailable t depth) = 503
status_of (conflict m) = 409
status_of (queued job_id function_id) = 202

-- What `HandleCreateFunction` hashes to recognise a request.
unfoldable pub hash_input : CreateFunctionRequest → String
hash_input r =
    if str_eq r.package_data ""
    then cat r.name (cat ":" (cat r.runtime (cat ":" (cat r.repo_url (cat ":" r.dockerfile)))))
    else cat r.name (cat ":" (cat r.runtime (cat ":" r.package_data)))

-- A value that is not positive gives way to the default.
abbrev pub or_default : ℤ → ℤ → ℤ
or_default value default = if leb_ℤ value (pos 0) then default else value

unfoldable pub is_valid : CreateFunctionRequest → Bool
is_valid r =
    not (
      str_eq r.name "" || str_eq r.runtime "" || (str_eq r.package_data "" && str_eq r.repo_url ""))

-- The job for a request whose package is under the key.
unfoldable pub job_of : CreateFunctionRequest → String → Arrival → BuildJob
job_of r package_key a = record {
  id = a.job_id;
  function_id = a.function_id;
  name = r.name;
  runtime = r.runtime;
  handler = r.handler;
  memory_mb = or_default r.memory (pos 128);
  timeout_secs = or_default r.timeout (pos 30);
  package_url = package_key;
  repo_url = r.repo_url;
  dockerfile = r.dockerfile;
  webhook_url = r.webhook_url;
  status = BuildStatus.queued;
  created_at = a.now;
  started_at = none;
  completed_at = none;
  error = "";
}

module _ (bucket : Bucket) (json : Json) (sha256 : String → String) (net : Network) where
  pub record Master : Type 0 where
    pub objects : bucket.Objects
    pub jobs : List BuildJob
    pub notices : Notices

  abbrev pub metadata_of : CreateFunctionRequest → Arrival → BuildMetadata
  metadata_of r a = record {
    function_id = a.function_id;
    job_id = a.job_id;
    created_at = a.saved_at;
    runtime = r.runtime;
    name = r.name;
    hash = sha256 (hash_input r);
  }

  -- From the publication on.
  unfoldable pub enqueue : CreateFunctionRequest → String → Arrival → Master → Master × Reply
  enqueue r package_key a m = if not a.published then (m, not_queued) else (
    record {
      objects =
          (save_build_metadata bucket json (sha256 (hash_input r)) (metadata_of r a) m.objects).0;
      jobs = job_of r package_key a ∷ m.jobs;
      notices = (notify_queued net a.notice r.webhook_url a.job_id m.notices).0;
    },
    queued a.job_id a.function_id,
  )

  abbrev pub with_package :
      Option String → Master → (String → Master → Master × Reply) → Master × Reply
  with_package none m next = (m, upload_failed)
  with_package (some key) m next = next key m

  -- From the upload on.
  unfoldable pub upload_then_enqueue : CreateFunctionRequest → Arrival → Master → Master × Reply
  upload_then_enqueue r a m =
      let (o', uploaded) = upload_package bucket a.function_id r.package_data m.objects in
      if str_eq r.package_data ""
      then enqueue r "" a m
      else with_package uploaded (record m { objects = o' }) (λ key m'. enqueue r key a m')

  abbrev pub unless_existing : Existing → Master → (Master → Master × Reply) → Master × Reply
  unless_existing absent m next = next m
  unless_existing damaged m next = next m
  unless_existing (existing found) m next = (m, conflict found)

  abbrev pub with_request :
      Option CreateFunctionRequest
      → Master
      → (CreateFunctionRequest → Master × Reply)
      → Master × Reply
  with_request none m next = (m, invalid_body)
  with_request (some r) m next = next r

  abbrev pub if_accepted : Admission → Master → (Master → Master × Reply) → Master × Reply
  if_accepted accepted m next = next m
  if_accepted queue_unknown m next = (m, internal_error)
  if_accepted (rejected t depth) m next = (m, unavailable t depth)

  -- `handleCreateFunction`
  unfoldable pub handle_create_function : Arrival → Master → Master × Reply
  handle_create_function a m = if_accepted (can_accept_request a.depth) m (λ m'.
      with_request a.request m' (λ r.
        if not (is_valid r)
        then (m', missing_fields)
        else unless_existing (check_build_metadata bucket json (sha256 (hash_input r)) m'.objects)
            m' (upload_then_enqueue r a)))
