-- ===== src/Shared/Functions/Service/Roundtrip.antt =====
-- shared/domain/repository.go: what is created or updated is what `GetFunction` gives back, and a
-- creation that fails leaves nothing behind.
use text.Mathlib.Text.{◌==◌ as str_eq}
use mini_lambda.Common.{
  ℕ, ◌≡◌, refl, sym, ap, ◌∙◌, String, true, false, Option, none, some, inl, inr, arith, Bool-cases,
  Option-cases,
}
use mini_lambda.Common.Text.{str_eq_refl}
use mini_lambda.Shared.Functions.{Function, DomainError, validate}
use mini_lambda.Shared.Functions.Interfaces.{
  Found, found, not_found, unavailable, saved_row, FunctionRepository, CodeStorage,
}
use mini_lambda.Shared.Functions.Service.{
  ServiceError, with_code, unless_invalid, unless_named, if_found, if_some, save_error, State,
  create_function, create_save, get_function, update_function, update_save, update_code, invalid,
  function_exists, no_function, repository_failed, storage_failed,
}

-- A property of a check's result, from those of its ends.
module _ {ℓ ℓ'} {A : Type ℓ} (P : A → Type ℓ') where
  pub unless_invalid-end :
      (v : Option DomainError) (refuse : ServiceError → A) (next : A)
      → ((e : ServiceError) → P (refuse e))
      → P next
      → P (unless_invalid v refuse next)
  unless_invalid-end none refuse next a b = b
  unless_invalid-end (some e) refuse next a b = a (invalid e)

  pub unless_named-end :
      (n : Found) (refuse : ServiceError → A) (next : A)
      → ((e : ServiceError) → P (refuse e))
      → P next
      → P (unless_named n refuse next)
  unless_named-end (found f) refuse next a b = a function_exists
  unless_named-end not_found refuse next a b = b
  unless_named-end unavailable refuse next a b = a repository_failed

  pub if_found-end :
      (n : Found) (refuse : ServiceError → A) (next : Function → A)
      → ((e : ServiceError) → P (refuse e))
      → ((f : Function) → P (next f))
      → P (if_found n refuse next)
  if_found-end (found f) refuse next a b = b f
  if_found-end not_found refuse next a b = a no_function
  if_found-end unavailable refuse next a b = a repository_failed

  pub if_some-end :
      (o : Option String) (refuse : ServiceError → A) (next : String → A)
      → ((e : ServiceError) → P (refuse e))
      → ((s : String) → o ≡ some s → P (next s))
      → P (if_some o refuse next)
  if_some-end none refuse next a b = a storage_failed
  if_some-end (some s) refuse next a b = b s refl

pub ok_not_error {ℓ} : {A : Type ℓ} (e : ServiceError) → some e ≡ none → A
ok_not_error e h = absurd (ground arith)

-- A function that is valid has code.
pub validate-code : (f : Function) → validate f ≡ none → str_eq f.code "" ≡ false
unfolding validate
validate-code f h = ground arith

module _ (repo : FunctionRepository) (storage : CodeStorage) where
  open repo use {Db, rows, save, find_by_id-rows, rows-save}
  open storage use {Blobs, peek, store, retrieve-peek, peek-store, peek-delete}

  -- That the two stores can be read in a state.
  abbrev pub Readable : State repo storage → Type 0
  Readable (d, b) = (repo.answers d ≡ true) × (storage.answers b ≡ true)

  -- What is kept of a function that is saved: the function with its code, the timeout in whole
  -- seconds, and the times that the row has.
  abbrev pub kept_as : Function → Db → Function
  kept_as f d = saved_row repo.stamp (repo.clock d) f (rows f.id d)

  pub with_code-saved_row :
      (f : Function) (key : String) (now : ℕ) (old : Option Function)
      → with_code (saved_row repo.stamp now (with_code f key) old) f.code
        ≡ saved_row repo.stamp now f old
  unfolding saved_row
  with_code-saved_row f key now none = refl
  with_code-saved_row f key now (some old) = refl

  pub code-saved_row :
      (f : Function) (now : ℕ) (old : Option Function)
      → (saved_row repo.stamp now f old).code ≡ f.code
  unfolding saved_row
  code-saved_row f now none = refl
  code-saved_row f now (some old) = refl

  pub get_function-kept :
      (f : Function) (key : String) (before d : Db) (b : Blobs)
      → Readable (d, b)
      → rows f.id d ≡ some (kept_as (with_code f key) before)
      → peek key b ≡ some f.code
      → get_function repo storage f.id (d, b) ≡ inr (kept_as f before)
  unfolding get_function
  get_function-kept f key before d b h r c =
      rw
        (
          find_by_id-rows,
          h.0,
          r,
          code-saved_row (with_code f key) (repo.clock before) (rows f.id before),
          retrieve-peek,
          h.1,
          c,
        )
        (ap inr (with_code-saved_row f key (repo.clock before) (rows f.id before)))

  pub rows-saved :
      (f : Function) (key : String) (d : Db)
      → (save (with_code f key) d).1 ≡ true
      → rows f.id (save (with_code f key) d).0 ≡ some (kept_as (with_code f key) d)
  rows-saved f key d h = rw (rows-save, h, str_eq_refl)

  pub peek-stored :
      (f : Function) (key : String) (b : Blobs)
      → (store f.id f.code b).1 ≡ some key
      → peek key (store f.id f.code b).0 ≡ some f.code
  peek-stored f key b h = rw (peek-store, h, str_eq_refl)

  pub peek-deleted_other :
      (key asked : String) (b : Blobs)
      → str_eq key asked ≡ false
      → peek asked (storage.delete key b).0 ≡ peek asked b
  peek-deleted_other key asked b h = rw (peek-delete, h) (ground arith)

  pub create_save-ok :
      (f : Function) (key : String) (d : Db) (b : Blobs)
      → (save (with_code f key) d).1 ≡ true
      → create_save repo storage f key (d, b) ≡ (((save (with_code f key) d).0, b), none)
  unfolding create_save
  create_save-ok f key d b e = rw e

  pub create_save-fails :
      (f : Function) (key : String) (d : Db) (b : Blobs)
      → (save (with_code f key) d).1 ≡ false
      → create_save repo storage f key (d, b)
        ≡ (((save (with_code f key) d).0, (storage.delete key b).0), some repository_failed)
  unfolding create_save
  create_save-fails f key d b e = rw e

  -- That a result without an error gives the function back, as a save to the database keeps it.
  abbrev pub Kept : Function → Db → State repo storage × Option ServiceError → Type 0
  Kept f d (s, error) =
      error ≡ none → Readable s → get_function repo storage f.id s ≡ inr (kept_as f d)

  pub create_save-Kept :
      (f : Function) (key : String) (d : Db) (b : Blobs)
      → peek key b ≡ some f.code
      → Kept f d (create_save repo storage f key (d, b))
  create_save-Kept f key d b c = elim (Bool-cases (save (with_code f key) d).1) [
    | inl e ↦
        rw (create_save-ok f key d b e) (λ h r.
          get_function-kept f key d (save (with_code f key) d).0 b r (rows-saved f key d e) c)
    | inr e ↦ rw (create_save-fails f key d b e) (λ h r. ok_not_error repository_failed h)
  ]

  pub create_function-Kept :
      (f : Function) (d : Db) (b : Blobs) → Kept f d (create_function repo storage f (d, b))
  unfolding create_function
  create_function-Kept f d b =
      unless_invalid-end (Kept f d) (validate f) (λ e. ((d, b), some e)) _
        (λ e h r. ok_not_error e h)
        (unless_named-end (Kept f d) (repo.find_by_name f.name d) (λ e. ((d, b), some e)) _
          (λ e h r. ok_not_error e h)
          (if_some-end (Kept f d) (store f.id f.code b).1
            (λ e. ((d, (store f.id f.code b).0), some e))
            (λ key. create_save repo storage f key (d, (store f.id f.code b).0))
            (λ e h r. ok_not_error e h)
            (λ key e. create_save-Kept f key d (store f.id f.code b).0 (peek-stored f key b e))))

  -- After `CreateFunction` without an error, `GetFunction` gives the function that was created, with
  -- its code, if the two stores can be read then: with the timeout in whole seconds and its times at
  -- the database's precision, or, if there was a row with its ID, that row's creation time and the
  -- time of the save as the time of the update.
  pub create_then_get :
      (f : Function) (d : Db) (b : Blobs)
      → (create_function repo storage f (d, b)).1 ≡ none
      → Readable (create_function repo storage f (d, b)).0
      → get_function repo storage f.id (create_function repo storage f (d, b)).0 ≡ inr (kept_as f d)
  create_then_get f d b h r = create_function-Kept f d b h r

  pub update_save-Kept :
      (f : Function) (key : String) (d : Db) (b : Blobs)
      → peek key b ≡ some f.code
      → Kept f d (update_save repo storage f key (d, b))
  unfolding update_save
  update_save-Kept f key d b c = elim (Bool-cases (save (with_code f key) d).1) [
    | inl e ↦
        λ h r. get_function-kept f key d (save (with_code f key) d).0 b r (rows-saved f key d e) c
    | inr e ↦ λ h r. ok_not_error repository_failed (ap save_error (sym e) ∙ h)
  ]

  pub update_code-Kept :
      (f : Function) (old_key : String) (d : Db) (b : Blobs)
      → Kept f d (update_code repo storage f old_key (d, b))
  unfolding update_code
  update_code-Kept f old_key d b =
      let b' = (store f.id f.code b).0 in
      if_some-end (Kept f d) (store f.id f.code b).1 (λ e. ((d, b'), some e)) _
        (λ e h r. ok_not_error e h)
        (λ key e. elim (Bool-cases (str_eq old_key key)) [
          | inl same ↦ rw same (update_save-Kept f key d b' (peek-stored f key b e))
          | inr other ↦ rw other (
              update_save-Kept f key d (storage.delete old_key b').0
                (peek-deleted_other old_key key b' other ∙ peek-stored f key b e))
        ])

  pub update_function-Kept :
      (f : Function) (d : Db) (b : Blobs) → Kept f d (update_function repo storage f (d, b))
  unfolding update_function
  update_function-Kept f d b = elim (Option-cases (validate f)) [
    | inl v ↦
        rw (v, validate-code f v)
          (if_found-end (Kept f d) (repo.find_by_id f.id d) (λ e. ((d, b), some e)) _
            (λ e h r. ok_not_error e h) (λ old. update_code-Kept f old.code d b))
    | inr (e, v) ↦ rw v (λ h r. ok_not_error (invalid e) h)
  ]

  -- After `UpdateFunction` without an error, `GetFunction` gives the function that was passed, with
  -- its code, if the two stores can be read then: with the timeout in whole seconds, the creation
  -- time of the row that was there, and the time of the save as the time of the update.
  pub update_then_get :
      (f : Function) (d : Db) (b : Blobs)
      → (update_function repo storage f (d, b)).1 ≡ none
      → Readable (update_function repo storage f (d, b)).0
      → get_function repo storage f.id (update_function repo storage f (d, b)).0 ≡ inr (kept_as f d)
  update_then_get f d b h r = update_function-Kept f d b h r
