-- ===== src/Shared/Functions/Interfaces.antt =====
-- shared/domain/repository.go: the interfaces that the service is given, with what the repository of
-- services/lambda-service/internal/storage/postgres.go keeps of a function. `rows` is what the table
-- of functions holds, `peek` what the bucket holds; a call may fail at any time, and one that fails
-- changes nothing. A store that succeeds answers with the key under which the code is found.
use text.Mathlib.Text.{◌==◌ as str_eq}
use mini_lambda.Common.Int.{ℤ, pos, negsuc, sub_ℕ}
use mini_lambda.Common.{
  ℕ, suc, ◌/◌, ◌*◌, ◌≡◌, String, Bool, ◌&&◌, Option, none, some, if◌then◌else◌,
}
use mini_lambda.Shared.Functions.{Function}

pub data Found : Type 0 where
  found : Function → Found
  not_found unavailable : Found

abbrev pub found_in : Option Function → Found
found_in none = not_found
found_in (some f) = found f

-- `int(Timeout.Seconds())`, as the duration that is read back: the fraction of a second is cut off.
unfoldable pub whole_seconds : ℤ → ℤ
whole_seconds (pos n) = pos (n / 1_000_000_000 * 1_000_000_000)
whole_seconds (negsuc n) = sub_ℕ 0 ((suc n) / 1_000_000_000 * 1_000_000_000)

-- The row that `Save` leaves of a function, at the time `now` of the database, in place of the row
-- that was there: that one's creation time is kept, and the time of the update is the database's.
-- `stamp` is the precision of its times.
unfoldable pub saved_row : (ℕ → ℕ) → ℕ → Function → Option Function → Function
saved_row stamp now f none = record f {
  timeout = whole_seconds f.timeout;
  created_at = stamp f.created_at;
  updated_at = stamp f.updated_at;
}
saved_row stamp now f (some old) = record f {
  timeout = whole_seconds f.timeout;
  created_at = old.created_at;
  updated_at = now;
}

-- `clock` is the time that the next statement reads.
pub record FunctionRepository : Type 1 where
  pub Db : Type 0
  pub stamp : ℕ → ℕ
  pub clock : Db → ℕ
  pub rows : String → Db → Option Function
  pub answers : Db → Bool
  pub find_by_id : String → Db → Found
  pub find_by_name : String → Db → Found
  pub save : Function → Db → Db × Bool
  pub delete : String → Db → Db × Bool
  pub find_by_id-rows :
      (id : String) (d : Db)
      → find_by_id id d ≡ (if answers d then found_in (rows id d) else unavailable)
  pub rows-save :
      (asked : String) (f : Function) (d : Db)
      → rows asked (save f d).0 ≡ (
          if (save f d).1 && str_eq f.id asked
          then some (saved_row stamp (clock d) f (rows f.id d))
          else rows asked d)
  pub rows-delete :
      (asked id : String) (d : Db)
      → rows asked (delete id d).0
        ≡ (if (delete id d).1 && str_eq id asked then none else rows asked d)

abbrev pub stored_at : Option String → String → String → Option String → Option String
stored_at none asked code old = old
stored_at (some key) asked code old = if str_eq key asked then some code else old

pub record CodeStorage : Type 1 where
  pub Blobs : Type 0
  pub peek : String → Blobs → Option String
  pub answers : Blobs → Bool
  pub store : String → String → Blobs → Blobs × Option String
  pub retrieve : String → Blobs → Option String
  pub delete : String → Blobs → Blobs × Bool
  pub retrieve-peek :
      (key : String) (b : Blobs) → retrieve key b ≡ (if answers b then peek key b else none)
  pub peek-store :
      (asked id code : String) (b : Blobs)
      → peek asked (store id code b).0 ≡ stored_at (store id code b).1 asked code (peek asked b)
  pub peek-delete :
      (asked key : String) (b : Blobs)
      → peek asked (delete key b).0
        ≡ (if (delete key b).1 && str_eq key asked then none else peek asked b)
