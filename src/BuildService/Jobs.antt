-- ===== src/BuildService/Jobs.antt =====
-- services/build-service/internal/builder/types.go. Times are nanoseconds; none is a nil pointer.
use mini_lambda.Common.{ℕ, String, Option}
use mini_lambda.Common.Int.{ℤ}

pub data BuildStatus : Type 0 where
  queued building completed failed : BuildStatus

pub record BuildJob : Type 0 where
  pub id : String
  pub function_id : String
  pub name : String
  pub runtime : String
  pub handler : String
  pub memory_mb : ℤ
  pub timeout_secs : ℤ
  pub package_url : String
  pub repo_url : String
  pub dockerfile : String
  pub webhook_url : String
  pub status : BuildStatus
  pub created_at : ℕ
  pub started_at : Option ℕ
  pub completed_at : Option ℕ
  pub error : String

pub record CreateFunctionRequest : Type 0 where
  pub name : String
  pub runtime : String
  pub handler : String
  pub package_data : String
  pub repo_url : String
  pub dockerfile : String
  pub webhook_url : String
  pub timeout : ℤ
  pub memory : ℤ

pub record BuildMetadata : Type 0 where
  pub function_id : String
  pub job_id : String
  pub created_at : ℕ
  pub runtime : String
  pub name : String
  pub hash : String
