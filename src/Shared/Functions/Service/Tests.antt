-- ===== src/Shared/Functions/Service/Tests.antt =====
-- Runs of the function service over stores that are functions, the bucket keyed by content.
use text.Mathlib.Text.{◌==◌ as str_eq}
use mini_lambda.Common.{
  ◌≡◌, refl, String, Bool, true, false, ◌&&◌, Option, none, some, inr, [], if◌then◌else◌,
}
use mini_lambda.Common.Int.{pos}
use mini_lambda.Common.Text.{cat}
use mini_lambda.Shared.Functions.{Function, validate}
use mini_lambda.Shared.Functions.Interfaces.{
  whole_seconds, saved_row, FunctionRepository, CodeStorage, found_in, not_found,
}
use mini_lambda.Shared.Functions.Service.{
  with_code, create_function, create_save, get_function, update_function, update_code, update_save,
}
use mini_lambda.Shared.Functions.Service.Roundtrip.{create_then_get, update_then_get}
use mini_lambda.Shared.Functions.Service.Loss.{missing_code, failed_update_loses_code}

-- A table, and whether it can be written.
abbrev pub table_repository : FunctionRepository
table_repository = record {
  Db = Bool × (String → Option Function);
  stamp = λ t. t;
  clock = λ d. 50;
  rows = λ id d. d.1 id;
  answers = λ d. true;
  find_by_id = λ id d. found_in (d.1 id);
  find_by_name = λ name d. not_found;
  save = λ f d. (
    (
      d.0,
      λ asked.
          if d.0 && str_eq f.id asked then some (saved_row (λ t. t) 50 f (d.1 f.id)) else d.1 asked,
    ),
    d.0,
  );
  delete = λ id d. ((d.0, λ asked. if d.0 && str_eq id asked then none else d.1 asked), d.0);
  find_by_id-rows = λ id d. refl;
  rows-save = λ asked f d. refl;
  rows-delete = λ asked id d. refl;
}

abbrev key_of : String → String
key_of code = cat "code/" code

abbrev content_storage : CodeStorage
content_storage = record {
  Blobs = String → Option String;
  peek = λ key b. b key;
  answers = λ b. true;
  store = λ id code b.
      (λ asked. if str_eq (key_of code) asked then some code else b asked, some (key_of code));
  retrieve = λ key b. b key;
  delete = λ key b. (λ asked. if str_eq key asked then none else b asked, true);
  retrieve-peek = λ key b. refl;
  peek-store = λ asked id code b. refl;
  peek-delete = λ asked key b. refl;
}

abbrev pub hello : Function
hello = record {
  id = "1";
  name = "hello";
  runtime = "python";
  handler = "main";
  code = "print(1)";
  timeout = pos 30_000_000_000;
  memory = pos 128;
  environment = [];
  created_at = 0;
  updated_at = 0;
}

-- A table with two functions, kept with the key given.
abbrev pub two_rows : String → String → Option Function
two_rows key id =
    if str_eq id "1"
    then some (with_code hello key)
    else if str_eq id "2"
    then some (with_code (record hello { id = "2" }) key)
    else none

abbrev pub no_rows : String → Option Function
no_rows id = none

abbrev one_blob : String → Option String
one_blob key = if str_eq key "code/old" then some "old" else none

create_then_get_example :
    get_function table_repository content_storage "1"
      (create_function table_repository content_storage hello ((true, no_rows), one_blob)).0
    ≡ inr hello
unfolding create_function create_save validate saved_row whole_seconds
create_then_get_example =
    create_then_get table_repository content_storage hello (true, no_rows) one_blob refl
      (refl, refl)

update_then_get_example :
    get_function table_repository content_storage "1"
      (update_function table_repository content_storage hello
        ((true, two_rows "code/old"), one_blob)).0
    ≡ inr (record hello { updated_at = 50 })
unfolding update_function update_code update_save validate saved_row whole_seconds
update_then_get_example =
    update_then_get table_repository content_storage hello (true, two_rows "code/old") one_blob refl
      (refl, refl)

failed_update_loses_code_example :
    let after =
      (update_function table_repository content_storage hello
        ((false, two_rows "code/old"), one_blob)).0 in
    get_function table_repository content_storage "1" after
    ≡ missing_code table_repository content_storage after.0
unfolding validate
failed_update_loses_code_example =
    failed_update_loses_code table_repository content_storage hello (with_code hello "code/old")
      "code/print(1)" (false, two_rows "code/old") one_blob refl refl refl refl refl refl
