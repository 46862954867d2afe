-- ===== src/BuildService/Worker/Endings.antt =====
-- main.go of the build worker: how the processing of a job ends, in the job's log, in the events
-- and in the error, as the gateway's reader of the log sees it.
use text.Mathlib.Text.{◌==◌ as str_eq}
use text.Mathlib.TextPositions.{starts_with-append}
use text.Mathlib.TextLemmas.{append_assoc}
use mini_lambda.Common.{
  ◌≡◌, refl, sym, ap, ◌∙◌, String, Bool, true, false, ◌&&◌, Option, none, some, List, ◌∷◌, ◌⊎◌, inl,
  inr, if◌then◌else◌, arith, if-cases, All, All-append,
}
use mini_lambda.Common.Text.{cat}
use mini_lambda.Shared.Bucket.{Bucket}
use mini_lambda.Gateway.Router.Logs.{ends_log}
use mini_lambda.BuildService.Jobs.{BuildJob}
use mini_lambda.BuildService.Artifacts.{Walked}
use mini_lambda.BuildService.Notifier.{Network}
use mini_lambda.BuildService.Worker.{
  Work, event_of, done_line, failed_line, Worker, Ending, stream_build_log, expire_build_log,
  handle_build_failure, fail_build, complete_build, or_fail, docker_build_job, publish_event,
  upload_build, zip_build_job, build,
}

-- A line that does not end the gateway's reading of the log.
abbrev pub IsQuiet : String → Type 0
IsQuiet line = ends_log line ≡ false

-- The last line for an error, or for none.
unfoldable pub last_line : Option String → String
last_line none = done_line
last_line (some msg) = failed_line msg

abbrev pub is_none : Option String → Bool
is_none none = true
is_none (some msg) = false

pub last_line-ends : (error : Option String) → ends_log (last_line error) ≡ true
unfolding last_line done_line failed_line ends_log
last_line-ends none = refl
last_line-ends (some msg) =
    let line = cat "__BUILD_FAILED__:" (cat " " msg) in
    let ends : ends_log line ≡ true =
      rw (starts_with-append "__BUILD_FAILED__:" (cat " " msg)) (ground arith) in
    ap ends_log (append_assoc "__BUILD_FAILED__:" " " msg) ∙ ends

downloading-IsQuiet : IsQuiet "Downloading package from S3..."
unfolding ends_log
downloading-IsQuiet = refl

validating-IsQuiet : IsQuiet "Validating ZIP package..."
unfolding ends_log
validating-IsQuiet = refl

extracting-IsQuiet : IsQuiet "Extracting ZIP package..."
unfolding ends_log
extracting-IsQuiet = refl

uploading-IsQuiet : IsQuiet "Uploading artifacts to S3..."
unfolding ends_log
uploading-IsQuiet = refl

publishing-IsQuiet : IsQuiet "Publishing function.built event..."
unfolding ends_log
publishing-IsQuiet = refl

module _ (bucket : Bucket) (net : Network) (w : Work)
    (logged : (line : String) → w.logged line ≡ true) where
  abbrev State : Type 0
  State = Worker bucket net w

  abbrev End : Type 0
  End = Ending bucket net w

  -- In the course of a build.
  abbrev Underway : State → State → Type 0
  Underway s s' = All IsQuiet s'.log × (s'.events ≡ s.events)

  -- At its end: the one last line, with the error's text, on top of lines that end nothing; and one
  -- event if the job has no repository, there is no error and the event can be published, else
  -- none.
  unfoldable pub Ends : BuildJob → State → End → Type 0
  Ends job s e =
      ((earlier : List String) × (e.worker.log ≡ last_line e.error ∷ earlier) × All IsQuiet earlier)
      × (ends_log (last_line e.error) ≡ true)
      × (e.worker.events ≡ (
          if is_none e.error && str_eq job.repo_url "" && w.published
          then event_of job w.built_at ∷ s.events
          else s.events))

  stream-Underway :
      (s s' : State) (line : String)
      → IsQuiet line
      → Underway s s'
      → Underway s (stream_build_log bucket net w line s')
  unfolding stream_build_log
  stream-Underway s s' line q (quiet, events) =
      if-cases (Underway s) (w.logged line) _ _ (λ e. ((q, quiet), events)) (λ e. (quiet, events))

  fail-Ends :
      (job : BuildJob) (msg : String) (s s' : State)
      → Underway s s'
      → Ends job s (fail_build bucket net w job msg s')
  unfolding Ends fail_build handle_build_failure expire_build_log stream_build_log last_line
      failed_line
  fail-Ends job msg s s' (quiet, events) =
      rw (logged (failed_line msg)) ((s'.log, refl, quiet), last_line-ends (some msg), events)

  complete-Ends :
      (job : BuildJob) (s s' : State) (told : Bool)
      → All IsQuiet s'.log
      → (str_eq job.repo_url "" && w.published) ≡ told
      → s'.events ≡ (if told then event_of job w.built_at ∷ s.events else s.events)
      → Ends job s (complete_build bucket net w job s')
  unfolding Ends complete_build expire_build_log stream_build_log last_line done_line
  complete-Ends job s s' told quiet h events = rw (logged done_line) (
    (s'.log, refl, quiet),
    last_line-ends none,
    events ∙ ap (λ b. if b then event_of job w.built_at ∷ s.events else s.events) (sym h),
  )

  or_fail-Ends {ℓ} :
      {A : Type ℓ} (what : String) (outcome : String ⊎ A) (job : BuildJob) (s s' : State)
      (next : A → End)
      → Underway s s'
      → ((a : A) → Ends job s (next a))
      → Ends job s (or_fail bucket net w what outcome job s' next)
  unfolding or_fail
  or_fail-Ends what (inl err) job s s' next u h = fail-Ends job (cat what err) s s' u
  or_fail-Ends what (inr a) job s s' next u h = h a

  docker-Ends :
      (job : BuildJob) (s s' : State)
      → All IsQuiet w.docker_lines
      → str_eq job.repo_url "" ≡ false
      → Underway s s'
      → Ends job s (docker_build_job bucket net w job s')
  unfolding docker_build_job
  docker-Ends job s s' lines repo (quiet, events) =
      let all = All-append IsQuiet w.docker_lines s'.log lines quiet in
      or_fail-Ends "Docker build failed: " w.docker_build job s _ _ (all, events)
        (λ image_uri.
          or_fail-Ends "Failed to save image URI metadata: " _ job s _ _ (all, events)
            (λ key. complete-Ends job s _ false all (ground (arith, repo)) events))

  upload-Ends :
      (job : BuildJob) (files : List Walked) (s s' : State)
      → str_eq job.repo_url "" ≡ true
      → Underway s s'
      → Ends job s (upload_build bucket net w job files s')
  unfolding upload_build publish_event
  upload-Ends job files s s' no_repo u =
      let u1 = stream-Underway s s' _ uploading-IsQuiet u in
      or_fail-Ends "Failed to upload artifacts: " _ job s _ _ u1 (λ _.
        let u2 = stream-Underway s _ _ publishing-IsQuiet u1 in
        if-cases (λ s'. Ends job s (complete_build bucket net w job s')) w.published _ _
          (λ e.
            complete-Ends job s _ true u2.0 (ground (arith, no_repo, e))
              (ap (λ l. event_of job w.built_at ∷ l) u2.1))
          (λ e. complete-Ends job s _ false u2.0 (ground (arith, no_repo, e)) u2.1))

  zip-Ends :
      (job : BuildJob) (s s' : State)
      → str_eq job.repo_url "" ≡ true
      → Underway s s'
      → Ends job s (zip_build_job bucket net w job s')
  unfolding zip_build_job
  zip-Ends job s s' no_repo u =
      let u1 = stream-Underway s s' _ downloading-IsQuiet u in
      or_fail-Ends "Failed to download package: " _ job s _ _ u1 (λ data_of.
        let u2 = stream-Underway s _ _ validating-IsQuiet u1 in
        or_fail-Ends "Invalid package: " _ job s _ _ u2 (λ _.
          let u3 = stream-Underway s _ _ extracting-IsQuiet u2 in
          or_fail-Ends "Failed to process package: " (w.process_package data_of) job s _ _ u3
            (λ files. upload-Ends job files s _ no_repo u3)))

  -- When the log can be written and the Docker builder's lines contain no last line, the processing
  -- of a job ends, whichever step fails, with exactly one last line in the log, which carries the
  -- error that is returned; and it publishes one event, that of the job, exactly if the job has no
  -- repository, nothing failed, and the broker takes the event.
  pub build-Ends :
      (job : BuildJob) (s : State)
      → All IsQuiet w.docker_lines
      → All IsQuiet s.log
      → Ends job s (build bucket net w job s)
  unfolding build event_of Ends
  build-Ends job s lines quiet =
      if-cases (Ends job s) (str_eq job.repo_url "") _ _ (λ e. zip-Ends _ s _ e (quiet, refl))
        (λ e. docker-Ends _ s _ lines e (quiet, refl))
