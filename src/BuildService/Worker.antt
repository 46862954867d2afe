-- ===== src/BuildService/Worker.antt =====
-- services/build-service/cmd/worker/main.go: the processing of a build job. The Docker builder, the
-- ZIP processor's answers and the broker are arguments; the state is what the worker changes: the
-- bucket, the log of the job, the published events, the notices and the directories removed. A
-- text of an error stands for the error.
pub mod Endings
mod Tests
use text.Mathlib.Text.{◌==◌ as str_eq}
use mini_lambda.Common.{
  ℕ, suc, String, Bool, true, false, Option, none, some, List, [], ◌∷◌, ◌++◌, ◌⊎◌, inl, inr,
  if◌then◌else◌,
}
use mini_lambda.Common.Text.{cat}
use mini_lambda.Shared.Bucket.{Bucket}
use mini_lambda.Shared.BuildEvent.{FunctionBuiltEvent}
use mini_lambda.BuildService.Jobs.{BuildStatus, building, completed, failed, BuildJob}
use mini_lambda.BuildService.Artifacts.{Walked, upload_package, upload_directory, download_package}
use mini_lambda.BuildService.Notifier.{
  Network, Occasion, Notices, notify_building, notify_completed, notify_failed,
}

-- The outside world of one job: the decoded message, what `CloneAndBuild` writes to the log (the
-- last line first) and gives, what the ZIP processor says of the package and what directory it
-- makes, whether an upload that is not modelled further succeeds, whether a line of the log and the
-- event can be written, the occasions of the notices, and the times.
pub record Work : Type 0 where
  pub job : String ⊎ BuildJob
  pub docker_lines : List String
  pub docker_build : String ⊎ String
  pub validate_package : String → Option String
  pub process_package : String → String ⊎ List Walked
  pub logged : String → Bool
  pub published : Bool
  pub at_start : Occasion
  pub at_end : Occasion
  pub started : ℕ
  pub built_at : ℕ
  pub ended : ℕ

-- The prefix of the files of a function.
unfoldable pub s3_prefix : String → String
s3_prefix function_id = cat "functions/" (cat function_id "/")

unfoldable pub done_line : String
done_line = "__BUILD_DONE__"

unfoldable pub failed_line : String → String
failed_line msg = cat "__BUILD_FAILED__: " msg

unfoldable pub event_of : BuildJob → ℕ → FunctionBuiltEvent
event_of job now = record {
  function_id = job.function_id;
  name = job.name;
  runtime = job.runtime;
  handler = job.handler;
  s3_prefix = s3_prefix job.function_id;
  memory_mb = job.memory_mb;
  timeout_secs = job.timeout_secs;
  built_at = now;
}

module _ (bucket : Bucket) (net : Network) (w : Work) where
  pub record Worker : Type 0 where
    pub objects : bucket.Objects
    pub log : List String
    pub expiries : ℕ
    pub events : List FunctionBuiltEvent
    pub notices : Notices
    pub removed : List String

  -- How a job ends: the state, the job's record, and the error.
  pub record Ending : Type 0 where
    pub worker : Worker
    pub job : Option BuildJob
    pub error : Option String

  -- `streamBuildLog`, with `buildlog.Append`
  unfoldable pub stream_build_log : String → Worker → Worker
  stream_build_log line s = if w.logged line then record s { log = line ∷ s.log } else s

  -- `expireBuildLog`, with `buildlog.Expire`
  unfoldable pub expire_build_log : Worker → Worker
  expire_build_log s = record s { expiries = suc s.expiries }

  -- `handleBuildFailure`
  unfoldable pub handle_build_failure : BuildJob → String → Worker → Ending
  handle_build_failure job msg s = record {
    worker = record s {
      notices = (notify_failed net w.at_end job.webhook_url job.id msg s.notices).0;
    };
    job = some (record job { completed_at = some w.ended; status = failed; error = msg });
    error = some msg;
  }

  -- `failBuild`
  unfoldable pub fail_build : BuildJob → String → Worker → Ending
  fail_build job msg s =
      handle_build_failure job msg (expire_build_log (stream_build_log (failed_line msg) s))

  -- The end of `processBuildJob`.
  unfoldable pub complete_build : BuildJob → Worker → Ending
  complete_build job s =
      let s' = stream_build_log done_line (expire_build_log s) in
      record {
        worker = record s' {
          notices = (notify_completed net w.at_end job.webhook_url job.id s'.notices).0;
        };
        job = some (record job { completed_at = some w.ended; status = completed });
        error = none;
      }

  -- What follows a step that may fail.
  unfoldable pub or_fail {ℓ} :
      {A : Type ℓ} → String → String ⊎ A → BuildJob → Worker → (A → Ending) → Ending
  or_fail what (inl err) job s next = fail_build job (cat what err) s
  or_fail what (inr a) job s next = next a

  abbrev pub succeeded : Option String → String ⊎ Unit {0}
  succeeded none = inr tt
  succeeded (some err) = inl err

  -- These two errors have no text of their own here.
  abbrev pub found : Option String → String ⊎ String
  found none = inl "not readable"
  found (some s) = inr s

  abbrev pub written : Bool → String ⊎ Unit {0}
  written true = inr tt
  written false = inl "not written"

  -- The branch of a job with a repository.
  unfoldable pub docker_build_job : BuildJob → Worker → Ending
  docker_build_job job s =
      let s1 = record s { log = w.docker_lines ++ s.log } in
      or_fail "Docker build failed: " w.docker_build job s1 (λ image_uri.
        let (o', uploaded) =
          upload_package bucket (cat job.function_id "_imageuri") image_uri s1.objects in
        let s2 = record s1 { objects = o' } in
        or_fail "Failed to save image URI metadata: " (found uploaded) job s2
          (λ key. complete_build job s2))

  -- The publication of the event; an error of it is only logged.
  unfoldable pub publish_event : BuildJob → Worker → Worker
  publish_event job s =
      let s' = stream_build_log "Publishing function.built event..." s in
      if w.published then record s' { events = event_of job w.built_at ∷ s'.events } else s'

  -- From the upload of the files on; the directory is removed at the end in any case.
  unfoldable pub upload_build : BuildJob → List Walked → Worker → Ending
  upload_build job files s =
      let s1 = stream_build_log "Uploading artifacts to S3..." s in
      let (o', ok) = upload_directory bucket job.function_id files s1.objects in
      let s2 = record s1 { objects = o'; removed = job.function_id ∷ s1.removed } in
      or_fail "Failed to upload artifacts: " (written ok) job s2
        (λ _. complete_build job (publish_event job s2))

  -- The branch of a job with a package.
  unfoldable pub zip_build_job : BuildJob → Worker → Ending
  zip_build_job job s =
      let s1 = stream_build_log "Downloading package from S3..." s in
      or_fail "Failed to download package: "
        (found (download_package bucket job.package_url s1.objects)) job s1
        (λ data_of.
          let s2 = stream_build_log "Validating ZIP package..." s1 in
          or_fail "Invalid package: " (succeeded (w.validate_package data_of)) job s2 (λ _.
            let s3 = stream_build_log "Extracting ZIP package..." s2 in
            or_fail "Failed to process package: " (w.process_package data_of) job s3
              (λ files. upload_build job files s3)))

  -- `processBuildJob` once the message is decoded.
  unfoldable pub build : BuildJob → Worker → Ending
  build queued s =
      let job = record queued { started_at = some w.started; status = building } in
      let s' = record s {
        notices = (notify_building net w.at_start job.webhook_url job.id s.notices).0;
      } in
      if str_eq job.repo_url "" then zip_build_job job s' else docker_build_job job s'

  abbrev of_message : String ⊎ BuildJob → Worker → Ending
  of_message (inl err) s = record { worker = s; job = none; error = some err }
  of_message (inr job) s = build job s

  -- `processBuildJob`
  unfoldable pub process_build_job : Worker → Ending
  process_build_job s = of_message w.job s
