-- ===== src/LambdaService/Events/Cron/Tests.antt =====
-- Runs of the cron scheduler.
use Prim.Native.Nat.{◌+◌}
use mini_lambda.Common.{
  ℕ, ◌≡◌, refl, ap, sym, ◌∙◌, String, true, false, Option, none, some, [], ◌∷◌, arith,
}
use mini_lambda.Common.Maps.{lookup, insert, lookup-insert}
use mini_lambda.LambdaService.Events.{CronTrigger, validate_cron}
use mini_lambda.LambdaService.Events.Cron.Repository.{save_trigger}
use mini_lambda.LambdaService.Events.Cron.{
  CronScheduler, new_cron_scheduler, Adding, identified, remove_trigger, add_trigger, checked,
  named, planned, stored, scheduled, parse_schedule,
}
use mini_lambda.LambdaService.Events.Cron.Entries.{IsNewId, IsNewEntry, without}
use mini_lambda.LambdaService.Events.Cron.Removal.{Reach, here, next, adds, remove_trigger-Silences}
use mini_lambda.LambdaService.Events.Cron.Again.{IsTaken, readded_keeps_job}

abbrev parse : String → Option (ℕ → ℕ)
parse spec = some (λ now. now + 60)

abbrev encode : String → ℕ → String
encode id now = id

abbrev adding : ℕ → Adding
adding entry = record { uuid = some "u"; now = 100; saved = true; db_now = 101; added = some entry }

abbrev daily : CronTrigger
daily = record {
  id = "t1";
  function_id = "f1";
  name = "daily";
  cron_expression = "0 0 0 * * *";
  timezone = "Asia/Kolkata";
  enabled = true;
  last_run_at = 0;
  next_run_at = 0;
  created_at = 0;
  updated_at = 0;
}

abbrev one : CronScheduler
one = (add_trigger parse encode (adding 1) daily (new_cron_scheduler [])).1

one_entries : one.entries ≡ insert "t1" 1 []
unfolding add_trigger checked named planned stored scheduled identified validate_cron parse_schedule
    save_trigger new_cron_scheduler
one_entries = refl

new-IsNewId : IsNewId (adding 1) daily (new_cron_scheduler [])
unfolding new_cron_scheduler lookup
new-IsNewId id own = refl

new-IsNewEntry : IsNewEntry (adding 1) (new_cron_scheduler [])
unfolding new_cron_scheduler lookup
new-IsNewEntry entry id given found = ground (arith, found)

one-Reach : Reach parse encode [] one
one-Reach = next here (adds (adding 1) daily new-IsNewId new-IsNewEntry)

remove_trigger-Silences_example : (remove_trigger true "t1" one).1.jobs ≡ without "t1" one.jobs
remove_trigger-Silences_example = remove_trigger-Silences parse encode [] one true "t1" one-Reach

one-IsNewEntry : IsNewEntry (adding 2) one
unfolding lookup
one-IsNewEntry entry id given found =
    ground (arith, given, sym found ∙ ap (lookup id) one_entries ∙ lookup-insert "t1" id 1 [])

one_daily : lookup "t1" one.entries ≡ some 1
one_daily = ap (lookup "t1") one_entries ∙ lookup-insert "t1" "t1" 1 []

daily_taken : identified (some "u") daily ≡ some "t1"
unfolding identified
daily_taken = refl

daily-IsTaken : IsTaken parse encode (adding 2) 2 daily
unfolding validate_cron parse_schedule
daily-IsTaken = (refl, refl, refl, refl, (λ now. now + 60, refl))

readded_keeps_job_example :
    ((remove_trigger false "t1" (add_trigger parse encode (adding 2) daily one).1).1.jobs
      ≡ one.jobs)
    × (lookup "t1"
          (remove_trigger false "t1" (add_trigger parse encode (adding 2) daily one).1).1.entries
        ≡ none)
readded_keeps_job_example =
    readded_keeps_job parse encode [] one (adding 2) 2 daily false 1 one-Reach one_daily daily_taken
      daily-IsTaken one-IsNewEntry

-- The job is run by the expression alone, in the zone of the cron library.
zone_is_dropped :
    one.jobs
    ≡ record {
      entry = 1;
      spec = "0 0 0 * * *";
      trigger = record daily { next_run_at = 160; created_at = 100; updated_at = 100 };
    }
      ∷ []
unfolding add_trigger checked named planned stored scheduled identified validate_cron parse_schedule
    save_trigger new_cron_scheduler
zone_is_dropped = refl
