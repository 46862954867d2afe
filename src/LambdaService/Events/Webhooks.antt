-- ===== src/LambdaService/Events/Webhooks.antt =====
-- services/lambda-service/internal/events/webhook.go. HMAC-SHA256 in hexadecimal is a parameter; the
-- repository and the event bus answer by arguments.
pub mod Prefixes
pub mod Signatures
mod Tests
use Prim.Native.String.{len, slice}
use text.Mathlib.Text.{◌==◌ as str_eq, starts_with}
use mini_lambda.Common.{
  ℕ, ◌<◌, String, Bool, true, false, not, ◌&&◌, ◌||◌, Option, none, some, List, [], ◌∷◌, ◌≡◌, ltb,
  if◌then◌else◌,
}
use mini_lambda.Common.Int.{ℤ, pos}
use mini_lambda.Common.Maps.{Map, lookup, insert}
use mini_lambda.Common.Text.{cat}
use mini_lambda.LambdaService.Events.{Event, Webhook, validate_webhook}

-- Of the digest the proofs use that it is written in 64 hexadecimal digits, so it does not begin
-- with a prefix that has another character.
pub record Hmac : Type 0 where
  pub mac : String → String → String
  pub len-mac : (key text : String) → len (mac key text) ≡ 64
  pub mac-sha256 : (key text : String) → starts_with (mac key text) "sha256=" ≡ false
  pub mac-sha1 : (key text : String) → starts_with (mac key text) "sha1=" ≡ false
  pub mac-v0 : (key text : String) → starts_with (mac key text) "v0=" ≡ false

unfoldable pub remove_prefix : String → String → String
remove_prefix s prefix =
    if ltb (len prefix) (len s) && starts_with s prefix then slice s (len prefix) (len s) else s

-- The prefixes that `ValidateSignature` takes away, in their order.
unfoldable pub bare : String → String
bare signature = remove_prefix (remove_prefix (remove_prefix signature "sha256=") "sha1=") "v0="

unfoldable pub add_headers : Map String → Map String → Map String
add_headers [] metadata = metadata
add_headers (header ∷ rest) metadata =
    add_headers rest (insert (cat "header_" header.0) header.1 metadata)

unfoldable pub event_of : Webhook → String → String → ℕ → Event
event_of w payload id now = record {
  id = id;
  event_type = "webhook";
  function_id = w.function_id;
  payload = payload;
  metadata =
      add_headers w.headers
        (insert "webhook_path" w.path (insert "webhook_name" w.name (insert "webhook_id" w.id [])));
  timestamp = now;
  retry_count = pos 0;
  max_retries = pos 3;
}

pub data Lookup : Type 0 where
  lookup_failed no_webhook : Lookup
  hit : Webhook → Lookup

pub data RequestError : Type 0 where
  repository_error webhook_not_found invalid_signature publish_failed : RequestError

unfoldable pub normalized : String → String
normalized path = if not (str_eq path "") && not (starts_with path "/") then cat "/" path else path

-- `RegisterWebhook`, with the webhooks that are saved; the error of a save has no text.
unfoldable pub register_webhook :
    Bool → String → ℕ → Webhook → List Webhook → List Webhook × Option String
register_webhook saved new_id now w ws = elim (validate_webhook w) [
  | some err ↦ (ws, some err)
  | none ↦
      let stamped = record w {
        id = if str_eq w.id "" then new_id else w.id;
        created_at = now;
        updated_at = now;
        signature_header =
            if str_eq w.signature_header "" then "X-Signature" else w.signature_header;
      } in
      if saved then (stamped ∷ ws, none) else (ws, some "")
]

module _ (hmac : Hmac) where
  open hmac use {mac}

  unfoldable pub validate_signature : Webhook → String → String → Bool
  validate_signature w payload signature = str_eq (bare signature) (mac w.secret payload)

  -- A request whose header may carry a signature.
  unfoldable pub signature_refused : Webhook → String → Option String → Bool
  signature_refused w payload none = false
  signature_refused w payload (some signature) = not (validate_signature w payload signature)

  -- `HandleRequest` for the webhook that was found, with the events that the bus has taken.
  unfoldable pub deliver :
      Webhook
      → String
      → Map String
      → Bool
      → String
      → ℕ
      → List Event
      → List Event × Option RequestError
  deliver w payload headers published id now bus =
      if signature_refused w payload (lookup w.signature_header headers)
      then (bus, some invalid_signature)
      else if published
      then (event_of w payload id now ∷ bus, none)
      else (bus, some publish_failed)

  abbrev pub on_lookup :
      Lookup
      → (Webhook → List Event × Option RequestError)
      → List Event
      → List Event × Option RequestError
  on_lookup lookup_failed next bus = (bus, some repository_error)
  on_lookup no_webhook next bus = (bus, some webhook_not_found)
  on_lookup (hit w) next bus = next w

  -- `HandleRequest`
  unfoldable pub handle_request :
      (String → Lookup)
      → String
      → String
      → Map String
      → Bool
      → String
      → ℕ
      → List Event
      → List Event × Option RequestError
  handle_request find path payload headers published id now bus =
      on_lookup (find (normalized path)) (λ w. deliver w payload headers published id now bus) bus

  unfoldable pub validate_github_signature : String → String → String → Bool
  validate_github_signature secret payload signature =
      if ltb (len signature) 7 || not (starts_with signature "sha256=")
      then false
      else str_eq signature (mac secret payload)

  unfoldable pub validate_stripe_signature : String → String → String → String → Bool
  validate_stripe_signature secret payload signature timestamp =
      str_eq signature (mac secret (cat timestamp (cat "." payload)))
