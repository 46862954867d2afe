-- ===== src/LambdaService/Postgres.antt =====
-- services/lambda-service/internal/storage/postgres.go: the table of functions. A statement is
-- answered or fails; the clock is the database's, and `stamp` the precision of its times. JSON
-- gives a map back as it was, and the division of the seconds is taken as exact.
pub mod Repository
mod Tests
use text.Mathlib.Text.{◌==◌ as str_eq}
use mini_lambda.Common.{
  ℕ, suc, ◌/◌, String, Bool, true, false, Option, none, some, List, [], ◌∷◌, if◌then◌else◌,
}
use mini_lambda.Common.Int.{ℤ, pos, negsuc, sub_ℕ, ◌*ℤ◌}
use mini_lambda.Common.Maps.{Map, lookup, insert, remove}
use mini_lambda.Shared.Functions.{Function}
use mini_lambda.Shared.Functions.Interfaces.{Found, found, not_found, unavailable, found_in}

pub record Row : Type 0 where
  pub id : String
  pub name : String
  pub runtime : String
  pub handler : String
  pub code_key : String
  pub timeout_seconds : ℤ
  pub memory_mb : ℤ
  pub environment : Option (Map String)
  pub created_at : ℕ
  pub updated_at : ℕ

-- `int(Timeout.Seconds())`
unfoldable pub seconds : ℤ → ℤ
seconds (pos n) = pos (n / 1_000_000_000)
seconds (negsuc n) = sub_ℕ 0 (suc n / 1_000_000_000)

-- An empty map is NULL.
abbrev pub env_json : Map String → Option (Map String)
env_json [] = none
env_json (e ∷ env) = some (e ∷ env)

abbrev pub env_of : Option (Map String) → Map String
env_of none = []
env_of (some env) = env

unfoldable pub row_of : (ℕ → ℕ) → Function → Row
row_of stamp f = record {
  id = f.id;
  name = f.name;
  runtime = f.runtime;
  handler = f.handler;
  code_key = f.code;
  timeout_seconds = seconds f.timeout;
  memory_mb = f.memory;
  environment = env_json f.environment;
  created_at = stamp f.created_at;
  updated_at = stamp f.updated_at;
}

-- What ON CONFLICT makes of the row that is there.
unfoldable pub upserted : ℕ → Row → Option Row → Row
upserted now row none = row
upserted now row (some old) = record row { created_at = old.created_at; updated_at = now }

-- The function that a row is scanned into.
unfoldable pub function_of : Row → Function
function_of row = record {
  id = row.id;
  name = row.name;
  runtime = row.runtime;
  handler = row.handler;
  code = row.code_key;
  timeout = row.timeout_seconds *ℤ pos 1_000_000_000;
  memory = row.memory_mb;
  environment = env_of row.environment;
  created_at = row.created_at;
  updated_at = row.updated_at;
}

abbrev pub scanned : Option Row → Option Function
scanned none = none
scanned (some row) = some (function_of row)

-- `Save`; false is an error.
unfoldable pub save : (ℕ → ℕ) → Bool → ℕ → Function → Map Row → Map Row × Bool
save stamp ok now f table =
    if ok
    then (insert f.id (upserted now (row_of stamp f) (lookup f.id table)) table, true)
    else (table, false)

-- `FindByID`
unfoldable pub find_by_id : Bool → String → Map Row → Found
find_by_id ok id table = if ok then found_in (scanned (lookup id table)) else unavailable

abbrev pub named : String → Map Row → Option Row
named name [] = none
named name (entry ∷ table) =
    let rest = named name table in if str_eq entry.1.name name then some entry.1 else rest

-- `FindByName`
unfoldable pub find_by_name : Bool → String → Map Row → Found
find_by_name ok name table = if ok then found_in (scanned (named name table)) else unavailable

abbrev pub present : Option Row → Bool
present none = false
present (some row) = true

-- `Delete`, which fails too where no row is deleted.
unfoldable pub delete : Bool → String → Map Row → Map Row × Bool
delete ok id table = if ok then (remove id table, present (lookup id table)) else (table, false)

-- `Exists`; none is an error.
unfoldable pub exists : Bool → String → Map Row → Option Bool
exists ok id table = if ok then some (present (lookup id table)) else none
