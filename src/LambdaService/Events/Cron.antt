-- ===== src/LambdaService/Events/Cron.antt =====
-- services/lambda-service/internal/events/cron.go and cron_helpers.go. The parser of cron
-- expressions and the encoding of payloads are parameters. The cron library is its list of jobs: it
-- answers AddFunc with an entry ID or an error, and may run any job at any time once it is started.
pub mod Repository
pub mod Entries
pub mod Removal
mod Again
mod Tests
use text.Mathlib.Text.{◌==◌ as str_eq}
use mini_lambda.Common.{
  ℕ, String, Bool, true, false, Option, none, some, List, [], ◌∷◌, if◌then◌else◌, ◌==◌,
}
use mini_lambda.Common.Int.{pos}
use mini_lambda.Common.Maps.{Map, lookup, insert, remove}
use mini_lambda.Common.Text.{cat}
use mini_lambda.LambdaService.Events.{Event, CronTrigger, validate_cron}
use mini_lambda.LambdaService.Events.Cron.Repository.{
  Table, save_trigger, list_triggers, delete_trigger, update_next_run,
}

-- A function that was given to `cron.AddFunc`: the entry, the expression that the cron library runs
-- it by, and the trigger that the function has captured.
pub record Job : Type 0 where
  pub entry : ℕ
  pub spec : String
  pub trigger : CronTrigger

-- `jobs` and `running` are the state of `cron`, `published` that of the event bus.
pub record CronScheduler : Type 0 where
  pub jobs : List Job
  pub running : Bool
  pub published : List Event
  pub table : Table
  pub entries : Map ℕ

unfoldable pub new_cron_scheduler : Table → CronScheduler
new_cron_scheduler table = record {
  jobs = [];
  running = false;
  published = [];
  table = table;
  entries = [];
}

-- What `AddTrigger` is answered: a new UUID, the clock, the database with its clock, and `AddFunc`.
pub record Adding : Type 0 where
  pub uuid : Option String
  pub now : ℕ
  pub saved : Bool
  pub db_now : ℕ
  pub added : Option ℕ

-- What a job is answered.
pub record Firing : Type 0 where
  pub event_id : String
  pub now : ℕ
  pub publishes : Bool
  pub ran : ℕ
  pub updates : Bool
  pub db_now : ℕ

pub data AddError : Type 0 where
  invalid : String → AddError
  no_id bad_schedule not_saved not_added : AddError

-- The ID that the trigger gets; none is a failure of the generator.
unfoldable pub identified : Option String → CronTrigger → Option String
identified uuid t = if str_eq t.id "" then uuid else some t.id

-- `cron.Remove`
unfoldable pub cron_remove : ℕ → List Job → List Job
cron_remove entry [] = []
cron_remove entry (job ∷ jobs) =
    let kept = cron_remove entry jobs in if job.entry == entry then kept else job ∷ kept

unfoldable pub unscheduled : String → Option ℕ → CronScheduler → CronScheduler
unscheduled id none s = s
unscheduled id (some entry) s = record s {
  jobs = cron_remove entry s.jobs;
  entries = remove id s.entries;
}

-- False is an error.
unfoldable pub remove_trigger : Bool → String → CronScheduler → Bool × CronScheduler
remove_trigger ok id s =
    let s' = unscheduled id (lookup id s.entries) s in
    let deleted = delete_trigger ok id s'.table in (deleted.0, record s' { table = deleted.1 })

unfoldable pub stop : CronScheduler → CronScheduler
stop s = record s { running = false }

-- `AddFunc` and the entry; the expression is passed without the time zone.
unfoldable pub scheduled : Option ℕ → CronTrigger → CronScheduler → Option AddError × CronScheduler
scheduled none t s = (some not_added, s)
scheduled (some entry) t s = (
  none,
  record s {
    jobs = record { entry = entry; spec = t.cron_expression; trigger = t } ∷ s.jobs;
    entries = insert t.id entry s.entries;
  },
)

unfoldable pub stored : Adding → CronTrigger → CronScheduler → Option AddError × CronScheduler
stored a t s =
    let saved = save_trigger a.saved a.db_now t s.table in
    if saved.0
    then if t.enabled
      then scheduled a.added t (record s { table = saved.1 })
      else (none, record s { table = saved.1 })
    else (some not_saved, s)

-- What the job's function leaves in the trigger that it has captured.
unfoldable pub rerun : Firing → (ℕ → ℕ) → Job → Job
rerun f next job = record job {
  trigger = record job.trigger { last_run_at = f.ran; next_run_at = next f.ran };
}

unfoldable pub rerun_at : Firing → (ℕ → ℕ) → ℕ → List Job → List Job
rerun_at f next entry [] = []
rerun_at f next entry (job ∷ jobs) =
    let rest = rerun_at f next entry jobs in
    if job.entry == entry then rerun f next job ∷ rest else job ∷ rest

module _ (parse : String → Option (ℕ → ℕ)) (encode : String → ℕ → String) where
  unfoldable pub parse_schedule : String → String → Option (ℕ → ℕ)
  parse_schedule spec timezone =
      parse (if str_eq timezone "" then spec else cat "CRON_TZ=" (cat timezone (cat " " spec)))

  unfoldable pub build_cron_payload : CronTrigger → ℕ → String
  build_cron_payload t now = encode t.id now

  unfoldable pub planned :
      Option (ℕ → ℕ) → Adding → CronTrigger → CronScheduler → Option AddError × CronScheduler
  planned none a t s = (some bad_schedule, s)
  planned (some next) a t s =
      stored a (record t { next_run_at = next a.now; created_at = a.now; updated_at = a.now }) s

  unfoldable pub named :
      Option String → Adding → CronTrigger → CronScheduler → Option AddError × CronScheduler
  named none a t s = (some no_id, s)
  named (some id) a t s =
      planned (parse_schedule t.cron_expression t.timezone) a (record t { id = id }) s

  unfoldable pub checked :
      Option String → Adding → CronTrigger → CronScheduler → Option AddError × CronScheduler
  checked (some error) a t s = (some (invalid error), s)
  checked none a t s = named (identified a.uuid t) a t s

  unfoldable pub add_trigger :
      Adding → CronTrigger → CronScheduler → Option AddError × CronScheduler
  add_trigger a t s = checked (validate_cron t) a t s

  -- The loop of `loadTriggers`, whose errors are only logged; `answers` is by the trigger's ID.
  unfoldable pub add_enabled : (String → Adding) → List CronTrigger → CronScheduler → CronScheduler
  add_enabled answers [] s = s
  add_enabled answers (t ∷ rest) s =
      add_enabled answers rest (if t.enabled then (add_trigger (answers t.id) t s).1 else s)

  unfoldable pub loaded :
      (String → Adding) → Option (List CronTrigger) → CronScheduler → Bool × CronScheduler
  loaded answers none s = (false, s)
  loaded answers (some triggers) s = (true, add_enabled answers triggers s)

  unfoldable pub load_triggers : Bool → (String → Adding) → CronScheduler → Bool × CronScheduler
  load_triggers ok answers s = loaded answers (list_triggers ok "" s.table) s

  -- `Start` until it waits for the end of its context.
  unfoldable pub start : Bool → (String → Adding) → CronScheduler → Bool × CronScheduler
  start ok answers s =
      let l = load_triggers ok answers s in
      if l.0 then (true, record l.1 { running = true }) else (false, l.1)

  unfoldable pub cron_event : Firing → CronTrigger → Event
  cron_event f t = record {
    id = f.event_id;
    function_id = t.function_id;
    event_type = "cron";
    payload = build_cron_payload t f.now;
    metadata =
        insert "schedule" t.cron_expression
          (insert "trigger_name" t.name (insert "trigger_id" t.id []));
    timestamp = f.now;
    retry_count = pos 0;
    max_retries = pos 3;
  }

  -- None is the panic of a schedule that is nil.
  unfoldable pub ran_job : Firing → Job → Option (ℕ → ℕ) → CronScheduler → Option CronScheduler
  ran_job f job none s = none
  ran_job f job (some next) s = some (record s {
    jobs = rerun_at f next job.entry s.jobs;
    published = cron_event f job.trigger ∷ s.published;
    table = (update_next_run f.updates f.db_now job.trigger.id (next f.ran) s.table).1;
  })

  -- A run of the function that `createJobFunc` gives for the job's trigger.
  unfoldable pub run_job : Firing → Job → CronScheduler → Option CronScheduler
  run_job f job s =
      if f.publishes
      then ran_job f job (parse_schedule job.trigger.cron_expression job.trigger.timezone) s
      else some s
