-- ===== src/LambdaService/Events/Processor.antt =====
-- services/lambda-service/internal/events/processor.go, and the handling of a delivery in
-- rabbitmq.go beside it. The metrics and the logs are left out.
pub mod Fate
pub mod Tests
use mini_lambda.Common.{
  ℕ, ◌-◌, ◌/◌, String, Bool, true, false, ◌&&◌, Option, none, some, List, [], ◌∷◌, ◌⊎◌, inl, inr,
  if◌then◌else◌,
}
use mini_lambda.Common.Int.{ℤ, leb_ℤ, ltb_ℤ}
use mini_lambda.Shared.Functions.{Function}
use mini_lambda.Shared.Functions.Execution.{Execution, new_execution, mark_started, mark_success}
use mini_lambda.LambdaService.Events.{Event, DeadLetterItem, EventAuditLog}

-- What the runtime gives for an execution.
pub record ExecutionResult : Type 0 where
  pub output : String
  pub memory_used : ℤ
  pub was_warm_start : Bool

-- What the parts that the processor calls answer for one event; an error is its text. `started`
-- and `ended` are the clock, in nanoseconds.
pub record Answers : Type 0 where
  pub got : String ⊎ Function
  pub executed : String ⊎ ExecutionResult
  pub audit_added : Bool
  pub execution_id : String
  pub execution_saved : Bool
  pub pushed : Bool
  pub started : ℕ
  pub ended : ℕ

-- The records that are kept: `audit` is none where there is no audit repository.
pub record Records : Type 0 where
  pub audit : Option (List EventAuditLog)
  pub dead_letters : List DeadLetterItem
  pub executions : List Execution

abbrev pub audit_of : Event → String → Answers → EventAuditLog
audit_of event status a = record {
  event_id = event.id;
  function_id = event.function_id;
  event_type = event.event_type;
  status = status;
  duration_ms = (a.ended - a.started) / 1_000_000;
  created_at = a.ended;
}

abbrev pub add_audit :
    Bool → EventAuditLog → Option (List EventAuditLog) → Option (List EventAuditLog)
add_audit added entry none = none
add_audit added entry (some log) = some (if added then entry ∷ log else log)

-- `logAudit`; the failure of an addition is ignored.
unfoldable pub log_audit : Bool → EventAuditLog → Records → Records
log_audit added entry r = record r { audit = add_audit added entry r.audit }

unfoldable pub dead_letter_of : Event → String → ℕ → DeadLetterItem
dead_letter_of event err now = record {
  event_id = event.id;
  function_id = event.function_id;
  event_type = event.event_type;
  payload = event.payload;
  error_message = err;
  retry_count = event.retry_count;
  max_retries = event.max_retries;
  first_attempt_at = now;
  status = "failed";
}

-- `handleError`; the result is whether it returns nil.
unfoldable pub handle_error : Answers → Event → String → Records → Records × Bool
handle_error a event err r =
    let audited = log_audit a.audit_added (audit_of event "failed" a) r in
    if leb_ℤ event.max_retries event.retry_count
    then if a.pushed
      then (
        record audited { dead_letters = dead_letter_of event err a.ended ∷ audited.dead_letters },
        true,
      )
      else (audited, false)
    else (audited, true)

unfoldable pub execution_of : Answers → Event → Function → ExecutionResult → Execution
execution_of a event f result =
    let ended =
      mark_success a.ended result.output
        (mark_started a.ended (new_execution a.execution_id f.id event.payload)) in
    record ended { memory_used = result.memory_used; is_warm_start = result.was_warm_start }

-- `Process` once the execution has succeeded.
unfoldable pub succeed : Answers → Event → Function → ExecutionResult → Records → Records × Bool
succeed a event f result r =
    let audited = log_audit a.audit_added (audit_of event "success" a) r in
    (
      if a.execution_saved
          then record audited { executions = execution_of a event f result ∷ audited.executions }
          else audited,
      true,
    )

-- `Process`, from the function and the result of its execution.
unfoldable pub outcome :
    Answers → Event → String ⊎ Function → String ⊎ ExecutionResult → Records → Records × Bool
outcome a event (inl err) executed r = handle_error a event err r
outcome a event (inr f) (inl err) r = handle_error a event err r
outcome a event (inr f) (inr result) r = succeed a event f result r

-- `Process`
unfoldable pub process : Answers → Event → Records → Records × Bool
process a event r = outcome a event a.got a.executed r

-- What the broker is told of a delivery. `nack` is a nack without requeueing: the broker passes the
-- message on to the exchange `mini-lambda-dlq`, which each queue is declared with.
pub data Disposition : Type 0 where
  ack requeue nack : Disposition

-- `handleMessage`; none is a body that is not an event.
unfoldable pub handle_message : Answers → Option Event → Records → Records × Disposition
handle_message a none r = (r, nack)
handle_message a (some event) r =
    let (r', ok) = process a event r in
    (r', if ok then ack else if ltb_ℤ event.retry_count event.max_retries then requeue else nack)

unfoldable pub handle_all : List (Answers × Option Event) → Records → Records × List Disposition
handle_all [] r = (r, [])
handle_all (d ∷ later) r =
    let (r', told) = handle_message d.0 d.1 r in
    let (last, rest) = handle_all later r' in (last, told ∷ rest)
