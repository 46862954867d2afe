-- ===== src/Shared/Functions/Service/Loss.antt =====
-- shared/domain/repository.go: where `FunctionService` loses code that the repository still points
-- at.
use text.Mathlib.Text.{◌==◌ as str_eq}
use mini_lambda.Common.{
  ◌≡◌, sym, ap, ◌∙◌, String, Bool, true, false, Option, none, some, ◌⊎◌, inl, inr, if◌then◌else◌,
  arith, Bool-cases,
}
use mini_lambda.Common.Text.{str_eq_refl}
use mini_lambda.Shared.Functions.{Function, validate}
use mini_lambda.Shared.Functions.Interfaces.{
  found, unavailable, FunctionRepository, CodeStorage, found_in,
}
use mini_lambda.Shared.Functions.Service.{
  ServiceError, with_code, get_function, update_function, update_save, update_code, delete_function,
  repository_failed, storage_failed,
}
use mini_lambda.Shared.Functions.Service.Roundtrip.{validate-code}

pub if_found_in :
    (answers : Bool) (row : Option Function) (f : Function)
    → (if answers then found_in row else unavailable) ≡ found f
    → row ≡ some f
if_found_in true none f h = absurd (ground arith)
if_found_in true (some g) f h = ground arith
if_found_in false row f h = absurd (ground arith)

module _ (repo : FunctionRepository) (storage : CodeStorage) where
  open repo use {Db, rows, find_by_id, save, find_by_id-rows, rows-save, rows-delete}
  open storage use {Blobs, peek, store, retrieve-peek, peek-store, peek-delete}

  -- The error of `GetFunction` for a row whose code is not there.
  abbrev pub missing_code : Db → ServiceError ⊎ Function
  missing_code d = if repo.answers d then inl storage_failed else inl repository_failed

  pub get_function-missing :
      (id : String) (f : Function) (d : Db) (b : Blobs)
      → rows id d ≡ some f
      → peek f.code b ≡ none
      → get_function repo storage id (d, b) ≡ missing_code d
  unfolding get_function
  get_function-missing id f d b h c = elim (Bool-cases (repo.answers d)) [
    | inl e ↦ elim (Bool-cases (storage.answers b)) [
      | inl a ↦ rw (find_by_id-rows, e, h, retrieve-peek, a, c)
      | inr a ↦ rw (find_by_id-rows, e, h, retrieve-peek, a)
    ]
    | inr e ↦ rw (find_by_id-rows, e)
  ]

  pub rows-found :
      (id : String) (f : Function) (d : Db) → find_by_id id d ≡ found f → rows id d ≡ some f
  rows-found id f d h = if_found_in (repo.answers d) (rows id d) f (sym (find_by_id-rows id d) ∙ h)

  pub peek-deleted :
      (key : String) (b : Blobs)
      → (storage.delete key b).1 ≡ true
      → peek key (storage.delete key b).0 ≡ none
  peek-deleted key b h = rw (peek-delete, h, str_eq_refl)

  -- When `UpdateFunction` stores changed code under another key and its last step, the save, fails,
  -- the row still names the old key, whose code is deleted: no later `GetFunction` on that state
  -- gives the function.
  pub failed_update_loses_code :
      (f old : Function) (key : String) (d : Db) (b : Blobs)
      → validate f ≡ none
      → find_by_id f.id d ≡ found old
      → (store f.id f.code b).1 ≡ some key
      → str_eq old.code key ≡ false
      → (storage.delete old.code (store f.id f.code b).0).1 ≡ true
      → (save (with_code f key) d).1 ≡ false
      → let after = (update_function repo storage f (d, b)).0 in
        get_function repo storage f.id after ≡ missing_code after.0
  unfolding update_function update_code update_save
  failed_update_loses_code f old key d b v found_old stored differs deleted unsaved =
      rw (v, found_old, validate-code f v, stored, differs)
        (get_function-missing f.id old (save (with_code f key) d).0
          (storage.delete old.code (store f.id f.code b).0).0
          (rw (rows-save, unsaved) (rows-found f.id old d found_old))
          (peek-deleted old.code (store f.id f.code b).0 deleted))

  -- When two functions have their code under the same key, deleting one of them, with both
  -- deletions successful, leaves the other in the repository without its code.
  pub delete_loses_shared_code :
      (id other : String) (f g : Function) (d : Db) (b : Blobs)
      → find_by_id id d ≡ found f
      → rows other d ≡ some g
      → str_eq id other ≡ false
      → f.code ≡ g.code
      → (repo.delete id d).1 ≡ true
      → (storage.delete f.code b).1 ≡ true
      → let after = (delete_function repo storage id (d, b)).0 in
        get_function repo storage other after ≡ missing_code after.0
  unfolding delete_function
  delete_loses_shared_code id other f g d b found_f row differs same deleted code_deleted =
      rw (found_f, deleted)
        (get_function-missing other g (repo.delete id d).0 (storage.delete f.code b).0
          (rw (rows-delete, differs) (ground (arith, row)))
          (ap (λ key. peek key (storage.delete f.code b).0) (sym same)
            ∙ peek-deleted f.code b code_deleted))
