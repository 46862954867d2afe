-- ===== src/LambdaService/CodeStore/Tests.antt =====
-- Runs of s3.go over a bucket that is a function, with a hash that escapes the slash.
use Prim.Native.Char.{code}
use text.Mathlib.Text.{◌==◌ as str_eq}
use text.Mathlib.TextEquality.{Char-path}
use mini_lambda.Common.{
  ◌≡◌, refl, sym, ap, ◌∙◌, String, Bool, true, false, ◌&&◌, Option, none, some, inl, inr,
  if◌then◌else◌, arith, Bool-cases,
}
use mini_lambda.Common.Strings.{is_char, contains, slash}
use mini_lambda.Shared.Functions.Interfaces.{stored_at}
use mini_lambda.Shared.Functions.Service.{with_code, get_function, delete_function}
use mini_lambda.Shared.Functions.Service.Loss.{missing_code}
use mini_lambda.Shared.Functions.Service.Tests.{table_repository, hello, two_rows}
use mini_lambda.Shared.Bucket.{Bucket}
use mini_lambda.LambdaService.CodeStore.{Hash, build_key, store, retrieve, delete}
use mini_lambda.LambdaService.CodeStore.Contract.{
  Intact, peek, store-Intact, s3_code_storage, s3_implements_code_storage,
}
use mini_lambda.LambdaService.CodeStore.Sharing.{delete_loses_same_code}

abbrev pub found_at : Option String → Bool
found_at none = false
found_at (some body) = true

pub found_at-body : (o : Option String) → found_at o ≡ true → (body : String) × (o ≡ some body)
found_at-body none h = absurd (ground arith)
found_at-body (some body) h = (body, refl)

abbrev pub bucket : Bucket
bucket = record {
  Objects = String → Option String;
  object = λ key o. o key;
  answers = λ o. true;
  get = λ key o. o key;
  head = λ key o. found_at (o key);
  put = λ key body o. (λ asked. if str_eq key asked then some body else o asked, true);
  remove = λ key o. (λ asked. if str_eq key asked then none else o asked, true);
  get-object = λ key o. refl;
  head-object = λ key o h. found_at-body (o key) h;
  object-put = λ asked key body o. refl;
  object-remove = λ asked key o. refl;
}

-- Each character becomes two, of which none is a slash.
abbrev pub escape : String → String
escape String.[] = ""
escape (String.◌∷◌ c s) =
    let rest = escape s in
    if is_char slash c
    then String.◌∷◌ "s" (String.◌∷◌ "s" rest)
    else String.◌∷◌ "c" (String.◌∷◌ c rest)

abbrev pub unescape : String → String
unescape String.[] = ""
unescape (String.◌∷◌ a String.[]) = ""
unescape (String.◌∷◌ a (String.◌∷◌ c s)) =
    String.◌∷◌ (if is_char b's' a then "/" else c) (unescape s)

pub unescape-escape : (s : String) → unescape (escape s) ≡ s
unescape-escape String.[] = refl
unescape-escape (String.◌∷◌ c s) = elim (Bool-cases (is_char slash c)) [
  | inl e ↦ rw e (
      ap (λ r. String.◌∷◌ "/" r) (unescape-escape s)
      ∙ ap (λ k. String.◌∷◌ k s) (Char-path "/" c (ground (arith, e))))
  | inr e ↦ rw e (ap (λ r. String.◌∷◌ c r) (unescape-escape s))
]

pub escape-free : (s : String) → contains slash (escape s) ≡ false
unfolding contains
escape-free String.[] = refl
escape-free (String.◌∷◌ c s) = elim (Bool-cases (is_char slash c)) [
  | inl e ↦ rw e (escape-free s)
  | inr e ↦ rw (e, e) (escape-free s)
]

abbrev pub escaped : Hash
escaped = record {
  hash = escape;
  hash-free = escape-free;
  hash-injective = λ a b e. sym (unescape-escape a) ∙ ap unescape e ∙ unescape-escape b;
}

abbrev pub nothing : String → Option String
nothing key = none

pub nothing-Intact : Intact bucket escaped "" nothing
nothing-Intact code body e = absurd (ground (arith, e))

-- A bucket with the code of two functions.
abbrev stored : String → Option String
stored = (store bucket escaped "" "1" "print(1)" nothing).0

stored-Intact : Intact bucket escaped "" stored
stored-Intact = store-Intact bucket escaped "" "1" "print(1)" nothing nothing-Intact

s3_implements_example :
    let (stored', answer) = store bucket escaped "" "2" "print(2)" stored in
    let (after, deleted) = delete bucket escaped "" "cc/cacb" stored in
    (peek bucket escaped "" "cp/x" stored'
      ≡ stored_at answer "cp/x" "print(2)" (peek bucket escaped "" "cp/x" stored))
    × (peek bucket escaped "" "cp/x" after ≡ (
        if deleted && str_eq "cc/cacb" "cp/x" then none else peek bucket escaped "" "cp/x" stored))
    × (retrieve bucket escaped "" "cp/x" stored ≡ peek bucket escaped "" "cp/x" stored)
    × Intact bucket escaped "" stored'
    × Intact bucket escaped "" after
s3_implements_example =
    s3_implements_code_storage bucket escaped "" "cp/x" "2" "print(2)" "cc/cacb" stored
      stored-Intact

abbrev key : String
key = build_key bucket escaped "" (escape "print(1)")

delete_loses_same_code_example :
    let storage = s3_code_storage bucket escaped "" in
    let after =
      (delete_function table_repository storage "1"
        ((true, two_rows key), (stored, stored-Intact))).0 in
    get_function table_repository storage "2" after ≡ missing_code table_repository storage after.0
unfolding store delete build_key
delete_loses_same_code_example =
    delete_loses_same_code bucket escaped "" table_repository "1" "2" "print(1)"
      (with_code hello key) (with_code (record hello { id = "2" }) key) (true, two_rows key) stored
      nothing stored stored-Intact refl refl refl refl refl refl refl
