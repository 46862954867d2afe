-- ===== src/Shared/Functions.antt =====
-- shared/domain: functions, their validation, and the service that keeps them. A byte slice is the
-- string of its bytes, so the conversions between the two are left out.
pub mod Execution
pub mod Interfaces
pub mod Service
use text.Mathlib.Text.{◌==◌ as str_eq}
use mini_lambda.Common.{ℕ, ◌*◌, String, Option, none, some, if◌then◌else◌}
use mini_lambda.Common.Int.{ℤ, pos, ltb_ℤ, leb_ℤ}
use mini_lambda.Common.Maps.{Map}

-- The record that the repository keeps has the key of the code in place of the code.
pub record Function : Type 0 where
  pub id : String
  pub name : String
  pub runtime : String
  pub handler : String
  pub code : String
  pub timeout : ℤ
  pub memory : ℤ
  pub environment : Map String
  pub created_at : ℕ
  pub updated_at : ℕ

pub data DomainError : Type 0 where
  invalid_function_name invalid_runtime empty_code invalid_timeout invalid_memory : DomainError
  timeout_too_long memory_too_high function_not_found : DomainError

-- `DomainError.Error`
unfoldable pub message : DomainError → String
message invalid_function_name = "function name cannot be empty"
message invalid_runtime = "runtime must be specified"
message empty_code = "function code cannot be empty"
message invalid_timeout = "timeout must be positive"
message invalid_memory = "memory must be positive"
message timeout_too_long = "timeout cannot exceed 15 minutes"
message memory_too_high = "memory cannot exceed 10GB"
message function_not_found = "function not found"

-- 15 minutes, in nanoseconds.
abbrev pub max_timeout : ℤ
max_timeout = pos (15 * 60 * 1_000_000_000)

abbrev pub one_gb : ℕ
one_gb = 1024

-- `Function.Validate`; none is a nil error.
unfoldable pub validate : Function → Option DomainError
validate f =
    if str_eq f.name ""
    then some invalid_function_name
    else if str_eq f.runtime ""
    then some invalid_runtime
    else if str_eq f.code ""
    then some empty_code
    else if leb_ℤ f.memory (pos 0)
    then some invalid_memory
    else if ltb_ℤ max_timeout f.timeout
    then some timeout_too_long
    else if ltb_ℤ (pos (10 * one_gb)) f.memory
    then some memory_too_high
    else none
