-- ===== src/Shared/Bucket.antt =====
-- The buckets of the object storage that both services keep code and packages in. The storage is a
-- service, so its calls are parameters, with what its documentation says of them: `object` is what
-- a bucket holds; a call may fail at any time, and one that fails changes nothing. A read that
-- fails halfway is a call that fails.
use text.Mathlib.Text.{◌==◌ as str_eq}
use mini_lambda.Common.{◌≡◌, String, Bool, true, ◌&&◌, Option, none, some, if◌then◌else◌}

pub record Bucket : Type 1 where
  pub Objects : Type 0
  pub object : String → Objects → Option String
  pub answers : Objects → Bool
  pub get : String → Objects → Option String
  pub head : String → Objects → Bool
  pub put : String → String → Objects → Objects × Bool
  pub remove : String → Objects → Objects × Bool
  pub get-object :
      (key : String) (o : Objects) → get key o ≡ (if answers o then object key o else none)
  pub head-object :
      (key : String) (o : Objects)
      → head key o ≡ true
      → (body : String) × (object key o ≡ some body)
  pub object-put :
      (asked key body : String) (o : Objects)
      → object asked (put key body o).0
        ≡ (if (put key body o).1 && str_eq key asked then some body else object asked o)
  pub object-remove :
      (asked key : String) (o : Objects)
      → object asked (remove key o).0
        ≡ (if (remove key o).1 && str_eq key asked then none else object asked o)
