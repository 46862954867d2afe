-- ===== src/Shared/Functions/Service.antt =====
-- shared/domain/repository.go: `FunctionService`, over the interfaces that it is given.
pub mod Roundtrip
pub mod Loss
pub mod Tests
use text.Mathlib.Text.{◌==◌ as str_eq}
use mini_lambda.Common.{
  String, Bool, true, false, not, ◌&&◌, Option, none, some, ◌⊎◌, inl, inr, if◌then◌else◌,
}
use mini_lambda.Shared.Functions.{Function, DomainError, validate}
use mini_lambda.Shared.Functions.Interfaces.{
  Found, found, not_found, unavailable, FunctionRepository, CodeStorage,
}

pub data ServiceError : Type 0 where
  invalid : DomainError → ServiceError
  function_exists no_function repository_failed storage_failed : ServiceError

abbrev pub with_code : Function → String → Function
with_code f code = record f { code = code }

-- What is kept of an error when a check comes first.
abbrev pub unless_invalid {ℓ} : {A : Type ℓ} → Option DomainError → (ServiceError → A) → A → A
unless_invalid none refuse next = next
unless_invalid (some e) refuse next = refuse (invalid e)

-- The lookup by name of `CreateFunction`.
abbrev pub unless_named {ℓ} : {A : Type ℓ} → Found → (ServiceError → A) → A → A
unless_named (found f) refuse next = refuse function_exists
unless_named not_found refuse next = next
unless_named unavailable refuse next = refuse repository_failed

-- The lookup by identifier of the other operations.
abbrev pub if_found {ℓ} : {A : Type ℓ} → Found → (ServiceError → A) → (Function → A) → A
if_found (found f) refuse next = next f
if_found not_found refuse next = refuse no_function
if_found unavailable refuse next = refuse repository_failed

abbrev pub if_some {ℓ} : {A : Type ℓ} → Option String → (ServiceError → A) → (String → A) → A
if_some none refuse next = refuse storage_failed
if_some (some s) refuse next = next s

abbrev pub save_error : Bool → Option ServiceError
save_error true = none
save_error false = some repository_failed

module _ (repo : FunctionRepository) (storage : CodeStorage) where
  open repo use {Db, find_by_id, find_by_name, save, delete as delete_row}
  open storage use {Blobs, store, retrieve, delete as delete_code}

  abbrev pub State : Type 0
  State = Db × Blobs

  -- `CreateFunction` from the save on, with the code stored under the key.
  unfoldable pub create_save : Function → String → State → State × Option ServiceError
  create_save f key (d, b) =
      let (d', saved) = save (with_code f key) d in
      ((d', if saved then b else (delete_code key b).0), save_error saved)

  -- `CreateFunction`
  unfoldable pub create_function : Function → State → State × Option ServiceError
  create_function f (d, b) =
      unless_invalid (validate f) (λ e. ((d, b), some e))
        (unless_named (find_by_name f.name d) (λ e. ((d, b), some e))
          (let (b', stored) = store f.id f.code b in
            if_some stored (λ e. ((d, b'), some e)) (λ key. create_save f key (d, b'))))

  -- `GetFunction`
  unfoldable pub get_function : String → State → ServiceError ⊎ Function
  get_function id (d, b) =
      if_found (find_by_id id d) (λ e. inl e)
        (λ f. if_some (retrieve f.code b) (λ e. inl e) (λ code. inr (with_code f code)))

  -- `GetFunctionMeta`
  unfoldable pub get_function_meta : String → State → Found
  get_function_meta id (d, b) = find_by_id id d

  -- `UpdateFunction` from the save on.
  unfoldable pub update_save : Function → String → State → State × Option ServiceError
  update_save f key (d, b) =
      let (d', saved) = save (with_code f key) d in ((d', b), save_error saved)

  -- `UpdateFunction` from the store of new code on.
  unfoldable pub update_code : Function → String → State → State × Option ServiceError
  update_code f old_key (d, b) =
      let (b', stored) = store f.id f.code b in
      if_some stored (λ e. ((d, b'), some e))
        (λ key.
          update_save f key (d, if str_eq old_key key then b' else (delete_code old_key b').0))

  -- `UpdateFunction`
  unfoldable pub update_function : Function → State → State × Option ServiceError
  update_function f (d, b) =
      unless_invalid (validate f) (λ e. ((d, b), some e))
        (if_found (find_by_id f.id d) (λ e. ((d, b), some e))
          (λ existing.
            if str_eq f.code ""
            then update_save f existing.code (d, b)
            else update_code f existing.code (d, b)))

  -- `DeleteFunction`
  unfoldable pub delete_function : String → State → State × Option ServiceError
  delete_function id (d, b) =
      if_found (find_by_id id d) (λ e. ((d, b), some e))
        (λ f.
          let (d', deleted) = delete_row id d in
          if deleted
          then ((d', (delete_code f.code b).0), none)
          else ((d', b), some repository_failed))
