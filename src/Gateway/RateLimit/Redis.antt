-- ===== src/Gateway/RateLimit/Redis.antt =====
-- The Redis commands that the limiters issue. Redis is a service, so its store and commands are
-- parameters; the laws are what its documentation says of them. A stored value is read as the
-- number that its text stands for. The expiry of a key is a change of the store between two
-- commands.
use text.Mathlib.Text.{◌==◌ as str_eq}
use mini_lambda.Common.{ℕ, ◌≡◌, String, Option, none, some, if◌then◌else◌}
use mini_lambda.Common.Int.{ℤ, pos, ◌+ℤ◌}

-- INCR takes an absent key for 0.
abbrev pub or_nought : Option ℤ → ℤ
or_nought none = pos 0
or_nought (some n) = n

pub record Redis : Type 1 where
  pub Store : Type 0
  pub get : String → Store → Option ℤ
  pub set : String → ℤ → Store → Store
  pub incr : String → Store → Store
  pub expire : String → ℕ → Store → Store
  pub del : String → Store → Store
  pub get-set :
      (key asked : String) (v : ℤ) (s : Store)
      → get asked (set key v s) ≡ (if str_eq key asked then some v else get asked s)
  pub get-incr :
      (key asked : String) (s : Store)
      → get asked (incr key s)
        ≡ (if str_eq key asked then some (or_nought (get key s) +ℤ pos 1) else get asked s)
  pub get-expire :
      (key asked : String) (ttl : ℕ) (s : Store) → get asked (expire key ttl s) ≡ get asked s
  pub get-del :
      (key asked : String) (s : Store)
      → get asked (del key s) ≡ (if str_eq key asked then none else get asked s)
