-- ===== src/Shared/BuildEvent.antt =====
-- shared/domain/build_event.go: what the build worker tells the lambda service of a built function.
use mini_lambda.Common.{ℕ, String}
use mini_lambda.Common.Int.{ℤ}

unfoldable pub function_built_queue : String
function_built_queue = "function.built"

pub record FunctionBuiltEvent : Type 0 where
  pub function_id : String
  pub name : String
  pub runtime : String
  pub handler : String
  pub s3_prefix : String
  pub memory_mb : ℤ
  pub timeout_secs : ℤ
  pub built_at : ℕ
