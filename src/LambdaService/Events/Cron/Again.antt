-- ===== src/LambdaService/Events/Cron/Again.antt =====
-- cron.go: a trigger that is added again under its ID.
use mathlib.Core.Path.{subst}
use mini_lambda.Common.{
  ℕ, ◌≡◌, refl, ap, ◌∙◌, String, Bool, true, Option, none, some, List, [], ◌∷◌, arith,
  if◌then◌else◌, if-cases,
}
use text.Mathlib.TextEquality.{eq_iff}
use mini_lambda.Common.Maps.{Map, lookup, insert, remove, lookup-insert, lookup-remove}
use mini_lambda.LambdaService.Events.{CronTrigger, validate_cron}
use mini_lambda.LambdaService.Events.Cron.Repository.{Table, save_trigger}
use mini_lambda.LambdaService.Events.Cron.{
  Job, CronScheduler, Adding, not_saved, identified, cron_remove, unscheduled, remove_trigger,
  add_trigger, checked, named, planned, stored, scheduled, parse_schedule,
}
use mini_lambda.LambdaService.Events.Cron.Entries.{Inv, Entered, IsNewEntry}
use mini_lambda.LambdaService.Events.Cron.Removal.{Reach, Reach-Inv}

-- The new state has one job more, and its entry under the ID.
abbrev Gained : String → ℕ → CronScheduler → CronScheduler → Type 0
Gained id entry s s' =
    (job : Job) × (s'.jobs ≡ job ∷ s.jobs)
    × (job.entry ≡ entry)
    × (s'.entries ≡ insert id entry s.entries)

-- What an addition needs so that the cron library gets the job.
abbrev pub IsTaken :
    (String → Option (ℕ → ℕ)) → (String → ℕ → String) → Adding → ℕ → CronTrigger → Type 0
IsTaken parse encode a entry t =
    (validate_cron t ≡ none)
    × (a.saved ≡ true)
    × (t.enabled ≡ true)
    × (a.added ≡ some entry)
    × ((next : ℕ → ℕ) × (parse_schedule parse encode t.cron_expression t.timezone ≡ some next))

scheduled-Gained :
    (added : Option ℕ) (entry : ℕ) (t : CronTrigger) (s : CronScheduler)
    → added ≡ some entry
    → Gained t.id entry s (scheduled added t s).1
unfolding scheduled
scheduled-Gained none entry t s got = absurd (ground (arith, got))
scheduled-Gained (some e) entry t s got =
    let same : e ≡ entry = ground (arith, got) in
    (
      record { entry = e; spec = t.cron_expression; trigger = t },
      refl,
      same,
      ap (λ x. insert t.id x s.entries) same,
    )

stored-Gained :
    (a : Adding) (entry : ℕ) (t : CronTrigger) (s : CronScheduler)
    → a.saved ≡ true
    → t.enabled ≡ true
    → a.added ≡ some entry
    → Gained t.id entry s (stored a t s).1
unfolding stored save_trigger
stored-Gained a entry t s saved enabled added =
    let kept = save_trigger a.saved a.db_now t s.table in
    let s' : CronScheduler = record s { table = kept.1 } in
    if-cases (λ r. Gained t.id entry s r.1) kept.0
      (if t.enabled then scheduled a.added t s' else (none, s')) (some not_saved, s)
      (λ ok.
        if-cases (λ r. Gained t.id entry s r.1) t.enabled (scheduled a.added t s') (none, s')
          (λ on. scheduled-Gained a.added entry t s' added)
          (λ off. absurd (ground (arith, enabled, off))))
      (λ failed. absurd (ground (arith, saved, failed)))

cron_remove-absent :
    (entries : Map ℕ) (entry : ℕ) (jobs : List Job)
    → Entered entries jobs
    → ((id : String) → ¬ (lookup id entries ≡ some entry))
    → cron_remove entry jobs ≡ jobs
unfolding cron_remove
cron_remove-absent entries entry [] entered fresh = refl
cron_remove-absent entries entry (job ∷ jobs) entered fresh =
    let rest = cron_remove-absent entries entry jobs entered.1 fresh in
    ground (arith, entered.0, fresh job.trigger.id, rest)

unscheduled-found :
    (id : String) (found : Option ℕ) (entry : ℕ) (s : CronScheduler)
    → found ≡ some entry
    → ((unscheduled id found s).jobs ≡ cron_remove entry s.jobs)
      × ((unscheduled id found s).entries ≡ remove id s.entries)
unfolding unscheduled
unscheduled-found id none entry s got = absurd (ground (arith, got))
unscheduled-found id (some e) entry s got =
    (ap (λ x. cron_remove x s.jobs) (ground (arith, got)), refl)

cron_remove-head :
    (entry : ℕ) (job : Job) (jobs : List Job)
    → job.entry ≡ entry
    → cron_remove entry (job ∷ jobs) ≡ cron_remove entry jobs
unfolding cron_remove
cron_remove-head entry job jobs own = ground (arith, own)

remove-Gained :
    (ok : Bool) (id : String) (entry : ℕ) (s s' : CronScheduler)
    → Inv s
    → ((asked : String) → ¬ (lookup asked s.entries ≡ some entry))
    → Gained id entry s s'
    → ((remove_trigger ok id s').1.jobs ≡ s.jobs)
      × (lookup id (remove_trigger ok id s').1.entries ≡ none)
unfolding remove_trigger
remove-Gained ok id entry s s' inv fresh gained =
    let found : lookup id s'.entries ≡ some entry =
      ap (lookup id) gained.3 ∙ ground (arith, eq_iff id id, lookup-insert id id entry s.entries) in
    let cut = unscheduled-found id (lookup id s'.entries) entry s' found in
    (
      cut.0
          ∙ ap (cron_remove entry) gained.1
          ∙ cron_remove-head entry gained.0 s.jobs gained.2
          ∙ cron_remove-absent s.entries entry s.jobs inv.entered fresh,
      ap (lookup id) cut.1 ∙ ground (arith, eq_iff id id, lookup-remove id id s'.entries),
    )

module _ (parse : String → Option (ℕ → ℕ)) (encode : String → ℕ → String) where
  planned-Gained :
      (schedule : Option (ℕ → ℕ)) (next : ℕ → ℕ) (a : Adding) (entry : ℕ) (t : CronTrigger)
      (s : CronScheduler)
      → schedule ≡ some next
      → a.saved ≡ true
      → t.enabled ≡ true
      → a.added ≡ some entry
      → Gained t.id entry s (planned parse encode schedule a t s).1
  unfolding planned
  planned-Gained none next a entry t s got saved enabled added = absurd (ground (arith, got))
  planned-Gained (some f) next a entry t s got saved enabled added =
      stored-Gained a entry
        (record t { next_run_at = f a.now; created_at = a.now; updated_at = a.now }) s saved enabled
        added

  named-Gained :
      (a : Adding) (entry : ℕ) (t : CronTrigger) (s : CronScheduler) (name : Option String)
      → name ≡ some t.id
      → IsTaken parse encode a entry t
      → Gained t.id entry s (named parse encode name a t s).1
  unfolding named
  named-Gained a entry t s none own taken = absurd (ground (arith, own))
  named-Gained a entry t s (some id) own taken =
      subst (λ x. Gained x entry s (named parse encode (some id) a t s).1) (ground (arith, own))
        (planned-Gained (parse_schedule parse encode t.cron_expression t.timezone) taken.4.0 a entry
          (record t { id = id }) s taken.4.1 taken.1 taken.2 taken.3)

  checked-Gained :
      (a : Adding) (entry : ℕ) (t : CronTrigger) (s : CronScheduler) (fault : Option String)
      → fault ≡ none
      → identified a.uuid t ≡ some t.id
      → IsTaken parse encode a entry t
      → Gained t.id entry s (checked parse encode fault a t s).1
  unfolding checked
  checked-Gained a entry t s none valid own taken =
      named-Gained a entry t s (identified a.uuid t) own taken
  checked-Gained a entry t s (some error) valid own taken = absurd (ground (arith, valid))

  -- After any such additions, removals and runs of jobs as in the theorem on `RemoveTrigger`: where
  -- an enabled trigger is valid and can be parsed, its ID is registered, and the database and the
  -- cron library take it once more, then adding it and removing it again gives the cron library
  -- back all the jobs that it had, those of the ID included, while the scheduler has no entry of
  -- the ID left.
  pub readded_keeps_job :
      (table : Table) (s : CronScheduler) (a : Adding) (entry : ℕ) (t : CronTrigger) (ok : Bool)
      (old : ℕ)
      → Reach parse encode table s
      → lookup t.id s.entries ≡ some old
      → identified a.uuid t ≡ some t.id
      → IsTaken parse encode a entry t
      → IsNewEntry a s
      → ((remove_trigger ok t.id (add_trigger parse encode a t s).1).1.jobs ≡ s.jobs)
        × (lookup t.id (remove_trigger ok t.id (add_trigger parse encode a t s).1).1.entries ≡ none)
  unfolding add_trigger
  readded_keeps_job table s a entry t ok old reach registered own taken fresh =
      remove-Gained ok t.id entry s (checked parse encode (validate_cron t) a t s).1
        (Reach-Inv parse encode table s reach) (λ id. fresh entry id taken.3)
        (checked-Gained a entry t s (validate_cron t) taken.0 own taken)
