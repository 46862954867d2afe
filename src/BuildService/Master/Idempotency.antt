-- ===== src/BuildService/Master/Idempotency.antt =====
-- main.go of the build master: how a request is recognised when it comes again.
use text.Mathlib.Text.{◌==◌ as str_eq}
use mini_lambda.Common.{◌≡◌, refl, ap, ◌∙◌, String, true, some, inl, inr, Bool-cases}
use mini_lambda.Common.Text.{str_eq_refl}
use mini_lambda.Shared.Bucket.{Bucket}
use mini_lambda.BuildService.Backpressure.{accepted, can_accept_request}
use mini_lambda.BuildService.Jobs.{CreateFunctionRequest, BuildMetadata}
use mini_lambda.BuildService.Artifacts.{
  Json, absent, existing, upload_package, check_build_metadata, save_build_metadata,
}
use mini_lambda.BuildService.Notifier.{Network}
use mini_lambda.BuildService.Master.{
  Arrival, Reply, conflict, queued, hash_input, is_valid, Master, metadata_of, enqueue,
  upload_then_enqueue, handle_create_function, unless_existing,
}

module _ (bucket : Bucket) (json : Json) (sha256 : String → String) (net : Network)
    (answers : (o : bucket.Objects) → bucket.answers o ≡ true)
    (writes : (key body : String) (o : bucket.Objects) → (bucket.put key body o).1 ≡ true) where
  open bucket use {Objects, object, put, object-put, get-object}

  abbrev State : Type 0
  State = Master bucket json sha256 net

  pub check-save :
      (hash : String) (o : Objects) (r : CreateFunctionRequest) (a : Arrival)
      → let b = metadata_of bucket json sha256 net r a in
        json.decode (json.encode b) ≡ some b
        → check_build_metadata bucket json hash (save_build_metadata bucket json hash b o).0
          ≡ existing b
  unfolding check_build_metadata save_build_metadata
  check-save hash o r a read = rw (get-object, answers, object-put, writes, str_eq_refl, read) refl

  -- The state after a request that is queued.
  abbrev pub Remembers : CreateFunctionRequest → Arrival → State × Reply → Type 0
  Remembers r a p =
      (p.1 ≡ queued a.job_id a.function_id)
      × (check_build_metadata bucket json (sha256 (hash_input r)) p.0.objects
          ≡ existing (metadata_of bucket json sha256 net r a))

  -- The decoder reads the metadata back from its own text.
  abbrev pub ReadsBack : CreateFunctionRequest → Arrival → Type 0
  ReadsBack r a =
      json.decode (json.encode (metadata_of bucket json sha256 net r a))
      ≡ some (metadata_of bucket json sha256 net r a)

  enqueue-Remembers :
      (r : CreateFunctionRequest) (key : String) (a : Arrival) (m : State)
      → ReadsBack r a
      → a.published ≡ true
      → Remembers r a (enqueue bucket json sha256 net r key a m)
  unfolding enqueue
  enqueue-Remembers r key a m read h =
      simp (h, check-save (sha256 (hash_input r)) m.objects r a read) (refl, refl)

  upload-Remembers :
      (r : CreateFunctionRequest) (a : Arrival) (m : State)
      → ReadsBack r a
      → a.published ≡ true
      → Remembers r a (upload_then_enqueue bucket json sha256 net r a m)
  unfolding upload_then_enqueue upload_package
  upload-Remembers r a m read h = elim (Bool-cases (str_eq r.package_data "")) [
    | inl e ↦ rw e (enqueue-Remembers r "" a m read h)
    | inr e ↦ rw (e, writes) (enqueue-Remembers r _ a _ read h)
  ]

  abbrev Admits : Arrival → CreateFunctionRequest → Type 0
  Admits a r = (can_accept_request a.depth ≡ accepted) × (a.request ≡ some r) × (is_valid r ≡ true)

  handle-lookup :
      (a : Arrival) (r : CreateFunctionRequest) (m : State)
      → Admits a r
      → handle_create_function bucket json sha256 net a m
        ≡ unless_existing bucket json sha256 net
            (check_build_metadata bucket json (sha256 (hash_input r)) m.objects)
            m
            (upload_then_enqueue bucket json sha256 net r a)
  unfolding handle_create_function
  handle-lookup a r m (admitted, asked, valid) = simp (admitted, asked, valid) refl

  handle-new :
      (a : Arrival) (r : CreateFunctionRequest) (m : State)
      → Admits a r
      → check_build_metadata bucket json (sha256 (hash_input r)) m.objects ≡ absent
      → handle_create_function bucket json sha256 net a m
        ≡ upload_then_enqueue bucket json sha256 net r a m
  handle-new a r m h unknown = handle-lookup a r m h ∙ simp unknown refl

  handle-known :
      (a : Arrival) (r : CreateFunctionRequest) (m : State) (b : BuildMetadata)
      → Admits a r
      → check_build_metadata bucket json (sha256 (hash_input r)) m.objects ≡ existing b
      → handle_create_function bucket json sha256 net a m ≡ (m, conflict b)
  handle-known a r m b h known = handle-lookup a r m h ∙ simp known refl

  -- When the bucket works, a valid request that is not known yet, is admitted and can be published
  -- is queued; a later admitted request with the same hash, be it the same request or not, is
  -- answered 409 with the identifiers of the first and changes nothing.
  pub second_is_conflict :
      (a later : Arrival) (r r' : CreateFunctionRequest) (m : State)
      → ReadsBack r a
      → can_accept_request a.depth ≡ accepted
      → a.request ≡ some r
      → is_valid r ≡ true
      → check_build_metadata bucket json (sha256 (hash_input r)) m.objects ≡ absent
      → a.published ≡ true
      → can_accept_request later.depth ≡ accepted
      → later.request ≡ some r'
      → is_valid r' ≡ true
      → sha256 (hash_input r') ≡ sha256 (hash_input r)
      → let (m', reply) = handle_create_function bucket json sha256 net a m in
        (reply ≡ queued a.job_id a.function_id)
        × (handle_create_function bucket json sha256 net later m'
            ≡ (m', conflict (metadata_of bucket json sha256 net r a)))
  second_is_conflict a later r r' m read admitted asked valid unknown published admitted' asked'
        valid' same =
      let known = upload-Remembers r a m read published in
      let new = handle-new a r m (admitted, asked, valid) unknown in
      let b = metadata_of bucket json sha256 net r a in
      let found =
        ap
          (λ h.
            check_build_metadata bucket json h
              (handle_create_function bucket json sha256 net a m).0.objects)
          same
        ∙ ap (λ p. check_build_metadata bucket json (sha256 (hash_input r)) p.0.objects) new
        ∙ known.1 in
      (ap (λ p. p.1) new ∙ known.0, handle-known later r' _ b (admitted', asked', valid') found)
