-- ===== src/LambdaService/Events/Cron/Removal.antt =====
-- cron.go: what is left of a trigger after `RemoveTrigger`.
use mini_lambda.Common.{ℕ, ◌≡◌, refl, sym, String, Bool, Option, none, some, arith}
use mini_lambda.Common.Maps.{lookup}
use mini_lambda.LambdaService.Events.{CronTrigger}
use mini_lambda.LambdaService.Events.Cron.Repository.{Table}
use mini_lambda.LambdaService.Events.Cron.{
  Job, CronScheduler, new_cron_scheduler, Adding, Firing, unscheduled, remove_trigger, stop,
  add_trigger, run_job,
}
use mini_lambda.LambdaService.Events.Cron.Entries.{
  Inv, IsNewId, IsNewEntry, without, cron_remove-without, without-absent, add_trigger-Inv,
  run_job-Inv, remove_trigger-Inv,
}

module _ (parse : String → Option (ℕ → ℕ)) (encode : String → ℕ → String) where
  -- One call, or the run of a job. A trigger is added under an ID that the scheduler does not have.
  pub data Step : CronScheduler → CronScheduler → Type 0 where
    adds :
        (a : Adding) (t : CronTrigger) {s : CronScheduler}
        → IsNewId a t s
        → IsNewEntry a s
        → Step s (add_trigger parse encode a t s).1
    removes : (ok : Bool) (id : String) {s : CronScheduler} → Step s (remove_trigger ok id s).1
    runs :
        (f : Firing) (job : Job) {s s' : CronScheduler}
        → run_job parse encode f job s ≡ some s'
        → Step s s'
    stops : {s : CronScheduler} → Step s (stop s)

  pub data Reach (table : Table) : CronScheduler → Type 0 where
    here : Reach table (new_cron_scheduler table)
    next : {s s' : CronScheduler} → Reach table s → Step s s' → Reach table s'

  stop-Inv : (s : CronScheduler) → Inv s → Inv (stop s)
  unfolding stop
  stop-Inv s inv = record { entered = inv.entered; separate = inv.separate }

  Step-Inv : {s s' : CronScheduler} → Step s s' → Inv s → Inv s'
  Step-Inv (adds a t {s} new_id new_entry) inv =
      add_trigger-Inv parse encode a t s inv new_id new_entry
  Step-Inv (removes ok id {s}) inv = remove_trigger-Inv ok id s inv
  Step-Inv (runs f job {s} {s'} ran) inv = run_job-Inv parse encode f job s s' inv ran
  Step-Inv (stops {s}) inv = stop-Inv s inv

  new-Inv : (table : Table) → Inv (new_cron_scheduler table)
  unfolding new_cron_scheduler lookup
  new-Inv table = record {
    entered = tt;
    separate = λ a b entry found. absurd (ground (arith, found));
  }

  pub Reach-Inv : (table : Table) (s : CronScheduler) → Reach table s → Inv s
  Reach-Inv table s here = new-Inv table
  Reach-Inv table s (next {s = s0} reach step) = Step-Inv step (Reach-Inv table s0 reach)

  unscheduled-without :
      (id : String) (found : Option ℕ) (s : CronScheduler)
      → Inv s
      → lookup id s.entries ≡ found
      → (unscheduled id found s).jobs ≡ without id s.jobs
  unfolding unscheduled
  unscheduled-without id none s inv found =
      sym (without-absent s.entries id s.jobs inv.entered found)
  unscheduled-without id (some entry) s inv found =
      cron_remove-without s.entries id entry s.jobs inv.entered inv.separate found

  -- After any additions under IDs that the scheduler does not have, removals and runs of jobs:
  -- `RemoveTrigger`, whatever the database answers, takes the jobs of that trigger from the cron
  -- library, all of them, and no other job.
  pub remove_trigger-Silences :
      (table : Table) (s : CronScheduler) (ok : Bool) (id : String)
      → Reach table s
      → (remove_trigger ok id s).1.jobs ≡ without id s.jobs
  unfolding remove_trigger
  remove_trigger-Silences table s ok id reach =
      unscheduled-without id (lookup id s.entries) s (Reach-Inv table s reach) refl
