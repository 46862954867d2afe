-- ===== src/LambdaService/Registration/Pipeline.antt =====
-- From the upload of a built function by the worker, over its event and its registration, to the
-- service that gives it out: build-service's s3.go and main.go, consumer.go, the lambda service's
-- s3.go, and shared/domain/repository.go.
use text.Mathlib.Text.{◌==◌ as str_eq}
use mini_lambda.Common.{
  ℕ, ◌≡◌, refl, sym, ap, ◌∙◌, String, true, false, Option, none, some, List, [], ◌∷◌, inl, inr,
  if◌then◌else◌, arith, Bool-cases,
}
use mini_lambda.Common.Text.{cat, str_eq_refl, str_eq-cat}
use mini_lambda.Common.Strings.{contains, slash}
use mini_lambda.Common.Strings.Laws.{contains-cat}
use mini_lambda.Shared.Bucket.{Bucket}
use mini_lambda.Shared.BuildEvent.{FunctionBuiltEvent}
use mini_lambda.Shared.Functions.{Function}
use mini_lambda.Shared.Functions.Interfaces.{saved_row, FunctionRepository, CodeStorage}
use mini_lambda.Shared.Functions.Service.{get_function}
use mini_lambda.BuildService.Artifacts.{
  Walked, walk_error, directory, file, artifact_key, upload_directory,
}
use mini_lambda.BuildService.Worker.{s3_prefix}
use mini_lambda.LambdaService.CodeStore.{Hash}
use mini_lambda.LambdaService.CodeStore.Contract.{Intact, not_empty, s3_code_storage}
use mini_lambda.LambdaService.Registration.{function_of, save_function}

-- What the walk of a directory leaves under a path that held the given contents.
abbrev pub uploaded : String → List Walked → Option String → Option String
uploaded rel_path [] old = old
uploaded rel_path (walk_error ∷ later) old = old
uploaded rel_path (directory ∷ later) old = uploaded rel_path later old
uploaded rel_path (file name none ∷ later) old = old
uploaded rel_path (file name (some contents) ∷ later) old =
    uploaded rel_path later (if str_eq name rel_path then some contents else old)

pub upload-uploaded :
    (bucket : Bucket) (id rel_path : String) (files : List Walked) (o : bucket.Objects)
    → (upload_directory bucket id files o).1 ≡ true
    → bucket.object (artifact_key id rel_path) (upload_directory bucket id files o).0
      ≡ uploaded rel_path files (bucket.object (artifact_key id rel_path) o)
unfolding upload_directory artifact_key s3_prefix
upload-uploaded bucket id rel_path [] o h = refl
upload-uploaded bucket id rel_path (walk_error ∷ later) o h = absurd (ground (arith, h))
upload-uploaded bucket id rel_path (directory ∷ later) o h =
    upload-uploaded bucket id rel_path later o h
upload-uploaded bucket id rel_path (file name none ∷ later) o h = absurd (ground (arith, h))
upload-uploaded bucket id rel_path (file name (some contents) ∷ later) o h =
    let (o', written) = bucket.put (artifact_key id name) contents o in
    elim (Bool-cases written) [
      | inl w ↦
          let rest = upload-uploaded bucket id rel_path later o' (
            ap (λ b. (if b then upload_directory bucket id later o' else (o', false)).1) (sym w)
            ∙ h) in
          let here : bucket.object (artifact_key id rel_path) o' ≡ (
              if str_eq name rel_path
              then some contents
              else bucket.object (artifact_key id rel_path) o) =
            rw (bucket.object-put, w, str_eq-cat (s3_prefix id) name rel_path) refl in
          ap
            (λ b.
              bucket.object (artifact_key id rel_path)
                (if b then upload_directory bucket id later o' else (o', false)).0)
            w
          ∙ rest
          ∙ ap (uploaded rel_path later) here
      | inr w ↦ absurd (ground (arith, h, w))
    ]

pub uploaded-over :
    (rel_path : String) (files : List Walked) (old : Option String) (code : String)
    → uploaded rel_path files none ≡ some code
    → uploaded rel_path files old ≡ some code
uploaded-over rel_path [] old code h = absurd (ground (arith, h))
uploaded-over rel_path (walk_error ∷ later) old code h = absurd (ground (arith, h))
uploaded-over rel_path (directory ∷ later) old code h = uploaded-over rel_path later old code h
uploaded-over rel_path (file name none ∷ later) old code h = absurd (ground (arith, h))
uploaded-over rel_path (file name (some contents) ∷ later) old code h =
    elim (Bool-cases (str_eq name rel_path)) [
      | inl e ↦
          rw e (ap (λ b. uploaded rel_path later (if b then some contents else none)) (sym e) ∙ h)
      | inr e ↦ rw e (
          uploaded-over rel_path later old code
            (ap (λ b. uploaded rel_path later (if b then some contents else none)) (sym e) ∙ h))
    ]

pub artifact_key-not_empty : (id rel_path : String) → str_eq (artifact_key id rel_path) "" ≡ false
unfolding artifact_key contains
artifact_key-not_empty id rel_path = not_empty _ (
    rw
      (
        contains-cat slash (cat "functions/" (cat id "/")) rel_path,
        contains-cat slash "functions/" (cat id "/"),
      )
      refl)

module _ (bucket : Bucket) (blake3 : Hash) (prefix : String) (repo : FunctionRepository) where
  abbrev storage : CodeStorage
  storage = s3_code_storage bucket blake3 prefix

  -- The row of the function that an event registers, and, with the code in place of the key, the
  -- function that is given out: as the event describes it, with the times that the database keeps.
  abbrev pub served : FunctionBuiltEvent → String → ℕ → repo.Db → Function
  served evt code now d =
      saved_row repo.stamp (repo.clock d) (function_of evt code now) (repo.rows evt.function_id d)

  pub save-row :
      (evt : FunctionBuiltEvent) (key : String) (now : ℕ) (o : bucket.Objects) (d : repo.Db)
      → (save_function bucket blake3 prefix repo evt key now (o, d)).1 ≡ true
      → repo.rows evt.function_id (save_function bucket blake3 prefix repo evt key now (o, d)).0.1
        ≡ some (served evt key now d)
  unfolding save_function function_of
  save-row evt key now o d h = rw (repo.rows-save, h, str_eq_refl evt.function_id) refl

  -- The function is given out with its code, when the stores answer.
  abbrev Served : FunctionBuiltEvent → String → ℕ → repo.Db → bucket.Objects × repo.Db → Type 0
  Served evt code now first p =
      (i : Intact bucket blake3 prefix p.0)
      → bucket.answers p.0 ≡ true
      → repo.answers p.1 ≡ true
      → get_function repo storage evt.function_id (p.1, (p.0, i)) ≡ inr (served evt code now first)
