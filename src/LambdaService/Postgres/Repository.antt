-- ===== src/LambdaService/Postgres/Repository.antt =====
-- postgres.go as the repository that the function service is given.
use text.Mathlib.Text.{◌==◌ as str_eq}
use mini_lambda.Common.{
  ℕ, zero, suc, ◌/◌, ◌*◌, ◌≡◌, refl, sym, ap, ◌∙◌, String, Bool, true, false, ◌&&◌, Option, none,
  some, [], ◌∷◌, if◌then◌else◌, arith, Bool-cases, inl, inr,
}
use mini_lambda.Common.Int.{ℤ, pos, negsuc, sub_ℕ, ◌*ℤ◌}
use mini_lambda.Common.Text.{eq_of_str_eq}
use mini_lambda.Common.Maps.{Map, lookup, lookup-insert, lookup-remove}
use mini_lambda.Shared.Functions.{Function}
use mini_lambda.Shared.Functions.Interfaces.{
  FunctionRepository, found_in, unavailable, whole_seconds, saved_row,
}
use mini_lambda.LambdaService.Postgres.{
  Row, seconds, env_json, env_of, row_of, upserted, function_of, scanned, save, find_by_id,
  find_by_name, delete, present,
}

-- The table, whether its statements are answered, and the clock of the database.
pub record Database : Type 0 where
  pub table : Map Row
  pub reads : Bool
  pub writes : Bool
  pub now : ℕ

times-second : (m : ℕ) → sub_ℕ 0 m *ℤ pos 1_000_000_000 ≡ sub_ℕ 0 (m * 1_000_000_000)
unfolding ◌*ℤ◌
times-second zero = refl
times-second (suc m) = ground arith

seconds-whole : (t : ℤ) → seconds t *ℤ pos 1_000_000_000 ≡ whole_seconds t
unfolding seconds whole_seconds ◌*ℤ◌
seconds-whole (pos n) = ground arith
seconds-whole (negsuc n) = times-second (suc n / 1_000_000_000)

env_of-env_json : (env : Map String) → env_of (env_json env) ≡ env
env_of-env_json [] = refl
env_of-env_json (e ∷ env) = refl

-- What is read of the row that a save leaves.
function_of-upserted :
    (stamp : ℕ → ℕ) (now : ℕ) (f : Function) (old : Option Row)
    → function_of (upserted now (row_of stamp f) old) ≡ saved_row stamp now f (scanned old)
unfolding function_of upserted row_of saved_row
function_of-upserted stamp now f none =
    rw (seconds-whole f.timeout, env_of-env_json f.environment) refl
function_of-upserted stamp now f (some old) =
    rw (seconds-whole f.timeout, env_of-env_json f.environment) refl

pub rows-save_lem :
    (stamp : ℕ → ℕ) (ok : Bool) (now : ℕ) (asked : String) (f : Function) (table : Map Row)
    → scanned (lookup asked (save stamp ok now f table).0) ≡ (
        if (save stamp ok now f table).1 && str_eq f.id asked
        then some (saved_row stamp now f (scanned (lookup f.id table)))
        else scanned (lookup asked table))
unfolding save
rows-save_lem stamp false now asked f table = refl
rows-save_lem stamp true now asked f table =
    let row = upserted now (row_of stamp f) (lookup f.id table) in
    ap scanned (lookup-insert f.id asked row table) ∙ elim (Bool-cases (str_eq f.id asked)) [
      | inl e ↦ rw e (ap some (function_of-upserted stamp now f (lookup f.id table)))
      | inr e ↦ rw e refl
    ]

absent_or :
    (asked id : String) (table : Map Row) (old : Option Row)
    → lookup id table ≡ old
    → scanned (if str_eq id asked then none else lookup asked table)
      ≡ (if present old && str_eq id asked then none else scanned (lookup asked table))
absent_or asked id table none absent = elim (Bool-cases (str_eq id asked)) [
  | inl e ↦ rw (e, sym (eq_of_str_eq id asked e), absent) refl
  | inr e ↦ rw e refl
]
absent_or asked id table (some row) there = elim (Bool-cases (str_eq id asked)) [
  | inl e ↦ rw e refl
  | inr e ↦ rw e refl
]

pub rows-delete_lem :
    (ok : Bool) (asked id : String) (table : Map Row)
    → scanned (lookup asked (delete ok id table).0)
      ≡ (if (delete ok id table).1 && str_eq id asked then none else scanned (lookup asked table))
unfolding delete
rows-delete_lem false asked id table = refl
rows-delete_lem true asked id table =
    ap scanned (lookup-remove id asked table) ∙ absent_or asked id table (lookup id table) refl

pub find_by_id-answers :
    (ok : Bool) (id : String) (table : Map Row)
    → find_by_id ok id table ≡ (if ok then found_in (scanned (lookup id table)) else unavailable)
unfolding find_by_id
find_by_id-answers ok id table = refl

-- `PostgresRepository`, whose times have the precision `stamp`.
abbrev pub postgres_repository : (ℕ → ℕ) → FunctionRepository
postgres_repository stamp = record {
  Db = Database;
  stamp = stamp;
  clock = λ d. d.now;
  rows = λ id d. scanned (lookup id d.table);
  answers = λ d. d.reads;
  find_by_id = λ id d. find_by_id d.reads id d.table;
  find_by_name = λ name d. find_by_name d.reads name d.table;
  save = λ f d.
      let (table, ok) = save stamp d.writes d.now f d.table in (record d { table = table }, ok);
  delete = λ id d. let (table, ok) = delete d.writes id d.table in (record d { table = table }, ok);
  find_by_id-rows = λ id d. find_by_id-answers d.reads id d.table;
  rows-save = λ asked f d. rows-save_lem stamp d.writes d.now asked f d.table;
  rows-delete = λ asked id d. rows-delete_lem d.writes asked id d.table;
}
