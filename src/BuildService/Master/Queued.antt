-- ===== src/BuildService/Master/Queued.antt =====
-- main.go of the build master: which requests are queued, and what the queue then holds.
use text.Mathlib.Text.{◌==◌ as str_eq}
use mini_lambda.Common.{◌≡◌, String, true, false, some, ◌∷◌, if◌then◌else◌, arith}
use mini_lambda.Common.Text.{cat, str_eq_of_ne, heads_differ}
use mini_lambda.Shared.Bucket.{Bucket}
use mini_lambda.BuildService.Jobs.{CreateFunctionRequest}
use mini_lambda.BuildService.Artifacts.{Json, package_key, metadata_key}
use mini_lambda.BuildService.Notifier.{Network}
use mini_lambda.BuildService.Master.{Arrival, Reply, queued, is_valid, job_of, Master}

pub package_key-metadata_key :
    (id hash : String) → str_eq (metadata_key hash) (package_key id) ≡ false
unfolding package_key metadata_key
package_key-metadata_key id hash =
    str_eq_of_ne (cat "metadata/" (cat hash ".json")) (cat "packages/" (cat id "/package.zip")) (
      heads_differ "m" "p" "etadata/" "ackages/" (cat hash ".json") (cat id "/package.zip")
        (omega arith))

-- The key of a request's package; a request without one has the empty key.
abbrev pub key_for : CreateFunctionRequest → Arrival → String
key_for r a = if str_eq r.package_data "" then "" else package_key a.function_id

module _ (bucket : Bucket) (json : Json) (sha256 : String → String) (net : Network) where
  open bucket use {Objects, object, put, object-put}

  abbrev State : Type 0
  State = Master bucket json sha256 net

  -- What a reply says of the state after it: for a queued job, the request is valid, its job is
  -- the next in the queue, and the package that the job names is in the bucket; for any other
  -- reply, nothing is queued and nobody is told.
  abbrev pub Outcome : Arrival → State → State → Reply → Type 0
  Outcome a m m' (queued job_id function_id) =
      (r : CreateFunctionRequest) × (a.request ≡ some r)
      × (is_valid r ≡ true)
      × (job_id ≡ a.job_id)
      × (function_id ≡ a.function_id)
      × (m'.jobs ≡ job_of r (key_for r a) a ∷ m.jobs)
      × ((if str_eq r.package_data "" then some "" else object (key_for r a) m'.objects)
          ≡ some r.package_data)
  Outcome a m m' _ = (m'.jobs ≡ m.jobs) × (m'.notices ≡ m.notices)

  abbrev pub Ends : Arrival → State → State × Reply → Type 0
  Ends a m p = Outcome a m p.0 p.1
