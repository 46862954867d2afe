-- ===== src/LambdaService/Events/Cron/Entries.antt =====
-- cron.go: the entries of the scheduler against the jobs of the cron library.
use text.Mathlib.Text.{◌==◌ as str_eq}
use text.Mathlib.TextEquality.{eq_iff}
use mathlib.Core.Path.{subst}
use mini_lambda.Common.{
  ℕ, ◌≡◌, refl, ap, String, Bool, Option, none, some, List, [], ◌∷◌, if◌then◌else◌, ◌==◌, arith,
  All, if-cases,
}
use mini_lambda.Common.Maps.{Map, lookup, insert, remove, lookup-remove, lookup-insert}
use mini_lambda.LambdaService.Events.{CronTrigger, validate_cron}
use mini_lambda.LambdaService.Events.Cron.Repository.{save_trigger}
use mini_lambda.LambdaService.Events.Cron.{
  Job, CronScheduler, Adding, Firing, not_saved, identified, cron_remove, unscheduled,
  remove_trigger, scheduled, stored, planned, named, checked, add_trigger, rerun, rerun_at, ran_job,
  run_job, parse_schedule,
}

-- Each job stands under its trigger's ID in the entries.
abbrev pub Entered : Map ℕ → List Job → Type 0
Entered entries = All (λ job. lookup job.trigger.id entries ≡ some job.entry)

-- No two triggers have the same entry.
abbrev Separate : Map ℕ → Type 0
Separate entries =
    (a b : String) (entry : ℕ)
    → lookup a entries ≡ some entry
    → lookup b entries ≡ some entry
    → a ≡ b

pub record Inv (s : CronScheduler) : Type 0 where
  pub entered : Entered s.entries s.jobs
  pub separate : Separate s.entries

-- The jobs of the other triggers.
unfoldable pub without : String → List Job → List Job
without id [] = []
without id (job ∷ jobs) =
    let kept = without id jobs in if str_eq job.trigger.id id then kept else job ∷ kept

-- A trigger is added under an ID that the scheduler does not have, and the cron library gives an
-- entry that it has not given to another one.
abbrev pub IsNewId : Adding → CronTrigger → CronScheduler → Type 0
IsNewId a t s = (id : String) → identified a.uuid t ≡ some id → lookup id s.entries ≡ none

abbrev pub IsNewEntry : Adding → CronScheduler → Type 0
IsNewEntry a s =
    (entry : ℕ) (id : String) → a.added ≡ some entry → ¬ (lookup id s.entries ≡ some entry)

pub cron_remove-without :
    (entries : Map ℕ) (id : String) (entry : ℕ) (jobs : List Job)
    → Entered entries jobs
    → Separate entries
    → lookup id entries ≡ some entry
    → cron_remove entry jobs ≡ without id jobs
unfolding cron_remove without
cron_remove-without entries id entry [] entered separate found = refl
cron_remove-without entries id entry (job ∷ jobs) entered separate found =
    let rest = cron_remove-without entries id entry jobs entered.1 separate found in
    let own = separate job.trigger.id id entry in
    ground (arith, eq_iff job.trigger.id id, entered.0, own, found, rest)

pub without-absent :
    (entries : Map ℕ) (id : String) (jobs : List Job)
    → Entered entries jobs
    → lookup id entries ≡ none
    → without id jobs ≡ jobs
unfolding without
without-absent entries id [] entered absent = refl
without-absent entries id (job ∷ jobs) entered absent =
    let rest = without-absent entries id jobs entered.1 absent in
    ground (arith, eq_iff job.trigger.id id, entered.0, absent, rest)

Entered-insert :
    (entries : Map ℕ) (id : String) (entry : ℕ) (jobs : List Job)
    → Entered entries jobs
    → lookup id entries ≡ none
    → Entered (insert id entry entries) jobs
Entered-insert entries id entry [] entered absent = tt
Entered-insert entries id entry (job ∷ jobs) entered absent = (
  ground (
    arith,
    eq_iff id job.trigger.id,
    lookup-insert id job.trigger.id entry entries,
    entered.0,
    absent,
  ),
  Entered-insert entries id entry jobs entered.1 absent,
)

Separate-insert :
    (entries : Map ℕ) (id : String) (entry : ℕ)
    → Separate entries
    → ((a : String) → ¬ (lookup a entries ≡ some entry))
    → Separate (insert id entry entries)
Separate-insert entries id entry separate fresh a b e at_a at_b = ground (
  arith,
  eq_iff id a,
  eq_iff id b,
  lookup-insert id a entry entries,
  lookup-insert id b entry entries,
  fresh a,
  fresh b,
  separate a b e,
  at_a,
  at_b,
)

Entered-remove :
    (entries : Map ℕ) (id : String) (entry : ℕ) (jobs : List Job)
    → Entered entries jobs
    → lookup id entries ≡ some entry
    → Entered (remove id entries) (cron_remove entry jobs)
unfolding cron_remove
Entered-remove entries id entry [] entered found = tt
Entered-remove entries id entry (job ∷ jobs) entered found =
    let rest = Entered-remove entries id entry jobs entered.1 found in
    ground (
      arith,
      eq_iff id job.trigger.id,
      lookup-remove id job.trigger.id entries,
      entered.0,
      found,
      rest,
    )

Separate-remove : (entries : Map ℕ) (id : String) → Separate entries → Separate (remove id entries)
Separate-remove entries id separate a b e at_a at_b =
    ground
      (arith, lookup-remove id a entries, lookup-remove id b entries, separate a b e, at_a, at_b)

Entered-rerun :
    (entries : Map ℕ) (f : Firing) (next : ℕ → ℕ) (entry : ℕ) (jobs : List Job)
    → Entered entries jobs
    → Entered entries (rerun_at f next entry jobs)
unfolding rerun_at rerun
Entered-rerun entries f next entry [] entered = tt
Entered-rerun entries f next entry (job ∷ jobs) entered =
    let rest = Entered-rerun entries f next entry jobs entered.1 in
    if-cases (Entered entries) (job.entry == entry) (rerun f next job ∷ rerun_at f next entry jobs)
      (job ∷ rerun_at f next entry jobs) (λ same. (entered.0, rest)) (λ other. (entered.0, rest))

scheduled-Inv :
    (added : Option ℕ) (t : CronTrigger) (s : CronScheduler)
    → Inv s
    → lookup t.id s.entries ≡ none
    → ((entry : ℕ) (id : String) → added ≡ some entry → ¬ (lookup id s.entries ≡ some entry))
    → Inv (scheduled added t s).1
unfolding scheduled
scheduled-Inv none t s inv new_id new_entry = inv
scheduled-Inv (some entry) t s inv new_id new_entry = record {
  entered = (
    ground (arith, eq_iff t.id t.id, lookup-insert t.id t.id entry s.entries),
    Entered-insert s.entries t.id entry s.jobs inv.entered new_id,
  );
  separate = Separate-insert s.entries t.id entry inv.separate (λ id. new_entry entry id refl);
}

stored-Inv :
    (a : Adding) (t : CronTrigger) (s : CronScheduler)
    → Inv s
    → lookup t.id s.entries ≡ none
    → IsNewEntry a s
    → Inv (stored a t s).1
unfolding stored
stored-Inv a t s inv new_id new_entry =
    let saved = save_trigger a.saved a.db_now t s.table in
    let s' = record s { table = saved.1 } in
    let kept : Inv s' = record { entered = inv.entered; separate = inv.separate } in
    if-cases (λ r. Inv r.1) saved.0 (if t.enabled then scheduled a.added t s' else (none, s'))
      (some not_saved, s)
      (λ ok.
        if-cases (λ r. Inv r.1) t.enabled (scheduled a.added t s') (none, s')
          (λ on. scheduled-Inv a.added t s' kept new_id new_entry) (λ off. kept))
      (λ failed. inv)

abbrev or_else : CronScheduler → Option CronScheduler → CronScheduler
or_else s none = s
or_else s (some s') = s'

module _ (parse : String → Option (ℕ → ℕ)) (encode : String → ℕ → String) where
  planned-Inv :
      (schedule : Option (ℕ → ℕ)) (a : Adding) (t : CronTrigger) (s : CronScheduler)
      → Inv s
      → lookup t.id s.entries ≡ none
      → IsNewEntry a s
      → Inv (planned parse encode schedule a t s).1
  unfolding planned
  planned-Inv none a t s inv new_id new_entry = inv
  planned-Inv (some next) a t s inv new_id new_entry =
      stored-Inv a (record t { next_run_at = next a.now; created_at = a.now; updated_at = a.now }) s
        inv new_id new_entry

  named-Inv :
      (name : Option String) (a : Adding) (t : CronTrigger) (s : CronScheduler)
      → Inv s
      → ((id : String) → name ≡ some id → lookup id s.entries ≡ none)
      → IsNewEntry a s
      → Inv (named parse encode name a t s).1
  unfolding named
  named-Inv none a t s inv new_id new_entry = inv
  named-Inv (some id) a t s inv new_id new_entry =
      planned-Inv (parse_schedule parse encode t.cron_expression t.timezone) a
        (record t { id = id }) s inv (new_id id refl) new_entry

  checked-Inv :
      (fault : Option String) (a : Adding) (t : CronTrigger) (s : CronScheduler)
      → Inv s
      → IsNewId a t s
      → IsNewEntry a s
      → Inv (checked parse encode fault a t s).1
  unfolding checked
  checked-Inv none a t s inv new_id new_entry =
      named-Inv (identified a.uuid t) a t s inv new_id new_entry
  checked-Inv (some error) a t s inv new_id new_entry = inv

  pub add_trigger-Inv :
      (a : Adding) (t : CronTrigger) (s : CronScheduler)
      → Inv s
      → IsNewId a t s
      → IsNewEntry a s
      → Inv (add_trigger parse encode a t s).1
  unfolding add_trigger
  add_trigger-Inv a t s = checked-Inv (validate_cron t) a t s

  ran_job-Inv :
      (f : Firing) (job : Job) (schedule : Option (ℕ → ℕ)) (s s' : CronScheduler)
      → Inv s
      → ran_job parse encode f job schedule s ≡ some s'
      → Inv s'
  unfolding ran_job
  ran_job-Inv f job none s s' inv ran = absurd (ground (arith, ran))
  ran_job-Inv f job (some next) s s' inv ran = subst Inv (ap (or_else s) ran) (record {
    entered = Entered-rerun s.entries f next job.entry s.jobs inv.entered;
    separate = inv.separate;
  })

  pub run_job-Inv :
      (f : Firing) (job : Job) (s s' : CronScheduler)
      → Inv s
      → run_job parse encode f job s ≡ some s'
      → Inv s'
  unfolding run_job
  run_job-Inv f job s s' inv =
      let schedule = parse_schedule parse encode job.trigger.cron_expression job.trigger.timezone in
      if-cases (λ r. r ≡ some s' → Inv s') f.publishes (ran_job parse encode f job schedule s)
        (some s) (λ published. ran_job-Inv f job schedule s s' inv)
        (λ failed same_state. subst Inv (ap (or_else s) same_state) inv)

unscheduled-Inv :
    (id : String) (found : Option ℕ) (s : CronScheduler)
    → Inv s
    → lookup id s.entries ≡ found
    → Inv (unscheduled id found s)
unfolding unscheduled
unscheduled-Inv id none s inv found = inv
unscheduled-Inv id (some entry) s inv found = record {
  entered = Entered-remove s.entries id entry s.jobs inv.entered found;
  separate = Separate-remove s.entries id inv.separate;
}

pub remove_trigger-Inv :
    (ok : Bool) (id : String) (s : CronScheduler) → Inv s → Inv (remove_trigger ok id s).1
unfolding remove_trigger
remove_trigger-Inv ok id s inv =
    let inv' = unscheduled-Inv id (lookup id s.entries) s inv refl in
    record { entered = inv'.entered; separate = inv'.separate }
