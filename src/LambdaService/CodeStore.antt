-- ===== src/LambdaService/CodeStore.antt =====
-- services/lambda-service/internal/storage/s3.go: code kept in a bucket under its hash. The
-- hash is not part of the repository: it is a function without collisions whose values are
-- hexadecimal.
pub mod Contract
pub mod Sharing
pub mod Tests
use text.Mathlib.Text.{◌==◌ as str_eq}
use Prim.Native.String.{slice}
use mini_lambda.Common.{◌≡◌, String, Bool, true, false, ◌&&◌, Option, none, some, if◌then◌else◌}
use mini_lambda.Common.Text.{cat}
use mini_lambda.Shared.Bucket.{Bucket}
use mini_lambda.Common.Strings.{contains, last_part, slash}

-- `blake3`, in hexadecimal.
pub record Hash : Type 0 where
  pub hash : String → String
  pub hash-free : (code : String) → contains slash (hash code) ≡ false
  pub hash-injective : (a b : String) → hash a ≡ hash b → a ≡ b

module _ (bucket : Bucket) (blake3 : Hash) (prefix : String) where
  open bucket use {Objects, get, head, put, remove}
  open blake3 use {hash}

  unfoldable pub build_key : String → String
  build_key h =
      if str_eq prefix ""
      then cat (slice h 0 2) (cat "/" h)
      else cat prefix (cat "/" (cat (slice h 0 2) (cat "/" h)))

  -- `Store`; none is an error. The function's ID goes into the object's metadata only.
  unfoldable pub store : String → String → Objects → Objects × Option String
  store function_id code o =
      let key = build_key (hash code) in
      let (o', written) = put key code o in
      if str_eq code ""
      then (o, none)
      else if head key o
      then (o, some key)
      else if written
      then (o', some key)
      else (o', none)

  -- The integrity check of `Retrieve` on what an object holds.
  unfoldable pub verified : String → Option String → Option String
  verified key none = none
  verified key (some code) =
      let h = last_part slash key in
      if str_eq h "" then some code else if str_eq (hash code) h then some code else none

  -- `Retrieve`
  unfoldable pub retrieve : String → Objects → Option String
  retrieve key o = if str_eq key "" then none else verified key (get key o)

  -- `RetrieveRaw`
  unfoldable pub retrieve_raw : String → Objects → Option String
  retrieve_raw key o = if str_eq key "" then none else get key o

  -- `Delete`
  unfoldable pub delete : String → Objects → Objects × Bool
  delete key o = if str_eq key "" then (o, false) else remove key o

  -- `Exists`; none is an error.
  unfoldable pub exists : String → Objects → Option Bool
  exists key o = if str_eq key "" then none else some (head key o)
