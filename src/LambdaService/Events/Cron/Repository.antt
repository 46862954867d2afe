-- ===== src/LambdaService/Events/Cron/Repository.antt =====
-- services/lambda-service/internal/storage/event_repo.go: the table of cron triggers. `now` is the
-- clock of the database, which may also answer with an error instead.
use text.Mathlib.Text.{◌==◌ as str_eq}
use mini_lambda.Common.{
  ℕ, String, Bool, true, false, Option, none, some, List, [], ◌∷◌, if◌then◌else◌, ltb,
}
use mini_lambda.Common.Maps.{Map, lookup, insert, remove}
use mini_lambda.LambdaService.Events.{CronTrigger}

abbrev pub Table : Type 0
Table = Map CronTrigger

-- What ON CONFLICT keeps of the row that is there.
unfoldable pub upserted : ℕ → CronTrigger → Option CronTrigger → CronTrigger
upserted now t none = t
upserted now t (some row) = record t { created_at = row.created_at; updated_at = now }

-- False is an error of the database.
unfoldable pub save_trigger : Bool → ℕ → CronTrigger → Table → Bool × Table
save_trigger ok now t table =
    if ok then (true, insert t.id (upserted now t (lookup t.id table)) table) else (false, table)

unfoldable pub get_trigger : Bool → String → Table → Option CronTrigger
get_trigger ok id table = if ok then lookup id table else none

-- ORDER BY created_at DESC
unfoldable pub ranked : CronTrigger → List CronTrigger → List CronTrigger
ranked t [] = t ∷ []
ranked t (u ∷ rest) =
    let below = ranked t rest in if ltb t.created_at u.created_at then u ∷ below else t ∷ u ∷ rest

unfoldable pub newest_first : (CronTrigger → Bool) → Table → List CronTrigger
newest_first wanted [] = []
newest_first wanted (row ∷ table) =
    let rest = newest_first wanted table in if wanted row.1 then ranked row.1 rest else rest

abbrev of_function : String → CronTrigger → Bool
of_function function_id t = if str_eq function_id "" then true else str_eq t.function_id function_id

unfoldable pub list_triggers : Bool → String → Table → Option (List CronTrigger)
list_triggers ok function_id table =
    if ok then some (newest_first (of_function function_id) table) else none

unfoldable pub list_all_enabled : Bool → Table → Option (List CronTrigger)
list_all_enabled ok table = if ok then some (newest_first (λ t. t.enabled) table) else none

abbrev is_some : Option CronTrigger → Bool
is_some none = false
is_some (some t) = true

-- False also where no row is deleted.
unfoldable pub delete_trigger : Bool → String → Table → Bool × Table
delete_trigger ok id table =
    if ok then (is_some (lookup id table), remove id table) else (false, table)

abbrev ran_at : ℕ → ℕ → String → Option CronTrigger → Table → Table
ran_at now next id none table = table
ran_at now next id (some row) table =
    insert id (record row { next_run_at = next; last_run_at = now }) table

unfoldable pub update_next_run : Bool → ℕ → String → ℕ → Table → Bool × Table
update_next_run ok now id next table =
    if ok then (true, ran_at now next id (lookup id table) table) else (false, table)
