-- ===== src/LambdaService/Events.antt =====
-- shared/domain/event.go: events, webhooks and their validation. Maps of texts are association
-- lists; times are natural numbers, and 0 is the zero time.
pub mod Cron
pub mod Processor
pub mod Webhooks
use text.Mathlib.Text.{◌==◌ as str_eq}
use mini_lambda.Common.{ℕ, String, Bool, Option, none, some, if◌then◌else◌}
use mini_lambda.Common.Int.{ℤ}
use mini_lambda.Common.Maps.{Map}

pub record Event : Type 0 where
  pub id : String
  pub event_type : String
  pub function_id : String
  pub payload : String
  pub metadata : Map String
  pub timestamp : ℕ
  pub retry_count : ℤ
  pub max_retries : ℤ

pub record CronTrigger : Type 0 where
  pub id : String
  pub function_id : String
  pub name : String
  pub cron_expression : String
  pub timezone : String
  pub enabled : Bool
  pub last_run_at : ℕ
  pub next_run_at : ℕ
  pub created_at : ℕ
  pub updated_at : ℕ

pub record Webhook : Type 0 where
  pub id : String
  pub function_id : String
  pub name : String
  pub path : String
  pub secret : String
  pub signature_header : String
  pub enabled : Bool
  pub headers : Map String
  pub created_at : ℕ
  pub updated_at : ℕ

pub record EventSubscription : Type 0 where
  pub id : String
  pub function_id : String
  pub event_type : String
  pub queue_name : String
  pub routing_key : String
  pub enabled : Bool

pub record DeadLetterItem : Type 0 where
  pub event_id : String
  pub function_id : String
  pub event_type : String
  pub payload : String
  pub error_message : String
  pub retry_count : ℤ
  pub max_retries : ℤ
  pub first_attempt_at : ℕ
  pub status : String

pub record EventAuditLog : Type 0 where
  pub event_id : String
  pub function_id : String
  pub event_type : String
  pub status : String
  pub duration_ms : ℕ
  pub created_at : ℕ

-- A check that a field is there, before the checks that follow.
abbrev pub required : String → String → Option String → Option String
required field error next = if str_eq field "" then some error else next

-- The `Validate` methods; none is a nil error.
unfoldable pub validate_cron : CronTrigger → Option String
validate_cron c = required c.function_id "function_id is required" (
    required c.cron_expression "cron_expression is required"
      (required c.name "name is required" none))

unfoldable pub validate_webhook : Webhook → Option String
validate_webhook w = required w.function_id "function_id is required" (
    required w.name "name is required" (
      required w.path "path is required" (
        required w.secret "secret is required"
          (required w.signature_header "signature_header is required" none))))

unfoldable pub validate_subscription : EventSubscription → Option String
validate_subscription e = required e.function_id "function_id is required" (
    required e.event_type "event_type is required"
      (required e.queue_name "queue_name is required" none))
