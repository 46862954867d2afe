-- ===== src/LambdaService/Registration/Limits.antt =====
-- consumer.go against the limits of shared/domain/function.go.
use text.Mathlib.Text.{◌==◌ as str_eq}
use mini_lambda.Common.{
  ℕ, ◌*◌, ◌^◌, ◌<◌, ◌≡◌, refl, ap, ◌∙◌, String, true, false, Option, none, some, inl, inr, arith,
  Bool-cases,
}
use mini_lambda.Common.Int.{ℤ, pos, leb_ℤ, ltb_ℤ, wrap64_pos, ◌*ℤ◌, wrap64}
use mini_lambda.Shared.Bucket.{Bucket}
use mini_lambda.Shared.BuildEvent.{FunctionBuiltEvent}
use mini_lambda.Shared.Functions.{Function, validate, timeout_too_long, max_timeout}
use mini_lambda.Shared.Functions.Interfaces.{whole_seconds, saved_row, FunctionRepository}
use mini_lambda.LambdaService.CodeStore.{Hash, store, retrieve_raw, build_key}
use mini_lambda.LambdaService.CodeStore.Contract.{build_key-not_empty}
use mini_lambda.LambdaService.CodeStore.Sharing.{store-key}
use mini_lambda.LambdaService.Registration.Pipeline.{served, save-row}
use mini_lambda.LambdaService.Registration.{
  function_of, handler_key, save_function, if_key, register_code, handle, second, or_default,
}

pub pos-times : (a b : ℕ) → pos a *ℤ pos b ≡ pos (a * b)
unfolding ◌*ℤ◌
pos-times a b = ground arith

or_default-kept : (n : ℕ) (d : ℤ) → 0 < n → or_default (pos n) d ≡ pos n
or_default-kept n d h = ground (arith, h)

pub timeout-kept :
    (evt : FunctionBuiltEvent) (key : String) (now n : ℕ)
    → evt.timeout_secs ≡ pos n
    → 900 < n
    → n < 2 ^ 33
    → (function_of evt key now).timeout ≡ pos (n * second)
unfolding function_of
timeout-kept evt key now n h long short =
    ap (λ t. wrap64 (or_default t (pos 30) *ℤ pos second)) h
    ∙ ap (λ t. wrap64 (t *ℤ pos second)) (or_default-kept n (pos 30) (omega (arith, long)))
    ∙ ap wrap64 (pos-times n second)
    ∙ wrap64_pos (n * second) (omega (arith, short))

pub or_default-positive : (m : ℤ) → leb_ℤ (or_default m (pos 128)) (pos 0) ≡ false
or_default-positive m = elim (Bool-cases (leb_ℤ m (pos 0))) [ inl e ↦ rw e refl | inr e ↦ rw e e ]

memory_of :
    (evt : FunctionBuiltEvent) (key : String) (now : ℕ)
    → leb_ℤ (function_of evt key now).memory (pos 0) ≡ false
unfolding function_of
memory_of evt key now = or_default-positive evt.memory_mb

pub validate-long :
    (f : Function)
    → str_eq f.name "" ≡ false
    → str_eq f.runtime "" ≡ false
    → str_eq f.code "" ≡ false
    → leb_ℤ f.memory (pos 0) ≡ false
    → ltb_ℤ max_timeout f.timeout ≡ true
    → validate f ≡ some timeout_too_long
unfolding validate
validate-long f named runs keyed memory time = rw (named, runs, keyed, memory, time) refl

-- The conditions of an event whose function has too long a timeout, of n seconds.
abbrev pub IsTooLong : FunctionBuiltEvent → ℕ → Type 0
IsTooLong evt n =
    (evt.timeout_secs ≡ pos n)
    × (900 < n)
    × (n < 2 ^ 33)
    × (str_eq evt.name "" ≡ false)
    × (str_eq evt.runtime "" ≡ false)

too_long-validate :
    (evt : FunctionBuiltEvent) (key : String) (now n : ℕ)
    → IsTooLong evt n
    → str_eq key "" ≡ false
    → validate (function_of evt key now) ≡ some timeout_too_long
unfolding function_of
too_long-validate evt key now n (h, long, short, named, runs) keyed =
    validate-long (function_of evt key now) named runs keyed (memory_of evt key now)
      (ap (ltb_ℤ max_timeout) (timeout-kept evt key now n h long short) ∙ ground (arith, long))

validate-saved_row :
    (stamp : ℕ → ℕ) (now : ℕ) (f : Function) (old : Option Function)
    → whole_seconds f.timeout ≡ f.timeout
    → validate (saved_row stamp now f old) ≡ validate f
unfolding validate saved_row
validate-saved_row stamp now f none whole = rw whole refl
validate-saved_row stamp now f (some old) whole = rw whole refl

whole-timeout :
    (evt : FunctionBuiltEvent) (key : String) (now n : ℕ)
    → IsTooLong evt n
    → whole_seconds (function_of evt key now).timeout ≡ (function_of evt key now).timeout
unfolding whole_seconds
whole-timeout evt key now n (h, long, short, named, runs) =
    rw (timeout-kept evt key now n h long short) (ap pos (omega arith))

module _ (bucket : Bucket) (blake3 : Hash) (prefix : String) (repo : FunctionRepository) where
  -- The table holds the function of the event, which is not valid.
  abbrev pub HoldsInvalid : FunctionBuiltEvent → ℕ → repo.Db → repo.Db → Type 0
  HoldsInvalid evt now before d =
      (key : String) × (repo.rows evt.function_id d
        ≡ some (served bucket blake3 prefix repo evt key now before))
      × (validate (served bucket blake3 prefix repo evt key now before) ≡ some timeout_too_long)

  if_key-HoldsInvalid :
      (evt : FunctionBuiltEvent) (code : String) (now n : ℕ) (o : bucket.Objects) (d : repo.Db)
      (key : Option String)
      → IsTooLong evt n
      → ((k : String) → key ≡ some k → str_eq k "" ≡ false)
      → let p =
          if_key bucket blake3 prefix repo key
            (o, d)
            (λ k. save_function bucket blake3 prefix repo evt k now (o, d)) in
        p.1 ≡ true → HoldsInvalid evt now d p.0.1
  if_key-HoldsInvalid evt code now n o d none long keyed h = absurd (ground (arith, h))
  if_key-HoldsInvalid evt code now n o d (some k) long keyed h = (
    k,
    save-row bucket blake3 prefix repo evt k now o d h,
    validate-saved_row repo.stamp (repo.clock d) (function_of evt k now)
          (repo.rows evt.function_id d) (whole-timeout evt k now n long)
        ∙ too_long-validate evt k now n long (keyed k refl),
  )

  stored-keyed :
      (id code k : String) (o : bucket.Objects)
      → (store bucket blake3 prefix id code o).1 ≡ some k
      → str_eq k "" ≡ false
  stored-keyed id code k o h =
      let e : k ≡ build_key bucket blake3 prefix (blake3.hash code) =
        ground (arith, store-key bucket blake3 prefix id code k o h) in
      ap (λ k. str_eq k "") e ∙ build_key-not_empty bucket blake3 prefix code

  -- The event of a function with a timeout of more than 15 minutes is acknowledged like any other:
  -- the table then holds a function that `Validate` refuses, which the runtimes ask before they run
  -- it.
  pub too_long_is_registered :
      (evt : FunctionBuiltEvent) (code : String) (now n : ℕ) (o : bucket.Objects) (d : repo.Db)
      → IsTooLong evt n
      → retrieve_raw bucket blake3 prefix (handler_key evt) o ≡ some code
      → (handle bucket blake3 prefix repo (some evt) now (o, d)).1 ≡ true
      → HoldsInvalid evt now d (handle bucket blake3 prefix repo (some evt) now (o, d)).0.1
  unfolding handle register_code
  too_long_is_registered evt code now n o d long found_code = rw found_code (
      if_key-HoldsInvalid evt code now n (store bucket blake3 prefix evt.function_id code o).0 d
        (store bucket blake3 prefix evt.function_id code o).1 long
        (λ k h. stored-keyed evt.function_id code k o h))
