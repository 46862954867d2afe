-- ===== src/Shared/Functions/Execution.antt =====
-- shared/domain/execution.go: the record of one execution. Times are nanoseconds; `none` is the
-- zero time, which is so far back that a difference from it is cut to the longest duration.
use mini_lambda.Common.{ℕ, ◌-◌, ◌^◌, String, Bool, true, false, Option, none, some}
use mini_lambda.Common.Int.{ℤ, pos, ◌-ℤ◌}

pub data Status : Type 0 where
  pending running success failed timeout : Status

pub record Execution : Type 0 where
  pub id : String
  pub function_id : String
  pub status : Status
  pub input : String
  pub output : String
  pub error : String
  pub is_warm_start : Bool
  pub started_at : Option ℕ
  pub completed_at : Option ℕ
  pub duration : ℤ
  pub memory_used : ℤ

abbrev pub max_duration : ℤ
max_duration = pos (2 ^ 63 - 1)

-- `now.Sub(start)`
unfoldable pub since : Option ℕ → ℕ → ℤ
since none now = max_duration
since (some start) now = pos now -ℤ pos start

unfoldable pub mark_started : ℕ → Execution → Execution
mark_started now e = record e { status = running; started_at = some now }

-- What the three ends have in common.
abbrev pub complete : ℕ → Status → Execution → Execution
complete now status e = record e {
  status = status;
  completed_at = some now;
  duration = since e.started_at now;
}

unfoldable pub mark_success : ℕ → String → Execution → Execution
mark_success now output e = record (complete now success e) { output = output }

unfoldable pub mark_failed : ℕ → String → Execution → Execution
mark_failed now err e = record (complete now failed e) { error = err }

unfoldable pub mark_timeout : ℕ → Execution → Execution
mark_timeout now e = record (complete now timeout e) { error = "execution exceeded timeout limit" }

unfoldable pub is_complete : Execution → Bool
is_complete e = elim (e.status) [
  | pending ↦ false
  | running ↦ false
  | success ↦ true
  | failed ↦ true
  | timeout ↦ true
]

unfoldable pub new_execution : String → String → String → Execution
new_execution id function_id input = record {
  id = id;
  function_id = function_id;
  status = pending;
  input = input;
  output = "";
  error = "";
  is_warm_start = false;
  started_at = none;
  completed_at = none;
  duration = pos 0;
  memory_used = pos 0;
}
