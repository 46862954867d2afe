-- ===== src/LambdaService/Events/Webhooks/Signatures.antt =====
-- services/lambda-service/internal/events/webhook.go: which requests reach the event bus.
use Prim.Native.String.{len}
use mathlib.Core.Path.{subst}
use text.Mathlib.Text.{◌==◌ as str_eq, starts_with}
use mini_lambda.Common.{
  ℕ, ◌<◌, String, Bool, true, false, Option, none, some, List, [], ◌∷◌, ◌≡◌, refl, ap, sym, ◌∙◌,
  if◌then◌else◌, arith, Bool-cases, inl, inr, ◌⊎◌, if-cases,
}
use mini_lambda.Common.Maps.{Map, lookup, insert, remove, lookup-insert}
use mini_lambda.Common.Text.{cat, str_eq_refl, eq_of_str_eq}
use mini_lambda.LambdaService.Events.{Event, Webhook}
use mini_lambda.LambdaService.Events.Webhooks.{
  Hmac, remove_prefix, bare, add_headers, normalized, Lookup, hit, RequestError, invalid_signature,
  publish_failed, event_of, validate_signature, signature_refused, deliver, handle_request,
  validate_github_signature,
}
use mini_lambda.LambdaService.Events.Webhooks.Prefixes.{
  Optional, remove_prefix-Optional, remove_prefix-cat, remove_prefix-absent, sha1-not-sha256,
  v0-not-sha256, v0-not-sha1, header-not-webhook,
}

pub prefixed_differs :
    (s t prefix : String)
    → starts_with s prefix ≡ true
    → starts_with t prefix ≡ false
    → str_eq s t ≡ false
prefixed_differs s t prefix h k = elim (Bool-cases (str_eq s t)) [
  | inl e ↦ absurd (ground (arith, sym h ∙ ap (λ u. starts_with u prefix) (eq_of_str_eq s t e) ∙ k))
  | inr e ↦ e
]

add_headers-other :
    (rest : String) (headers metadata : Map String)
    → lookup (cat "w" rest) (add_headers headers metadata) ≡ lookup (cat "w" rest) metadata
unfolding add_headers
add_headers-other rest [] metadata = refl
add_headers-other rest (header ∷ later) metadata =
    add_headers-other rest later (insert (cat "header_" header.0) header.1 metadata)
    ∙ lookup-insert (cat "header_" header.0) (cat "w" rest) header.1 metadata
    ∙ rw (header-not-webhook header.0 rest) refl

abbrev own_metadata : Webhook → Map String
own_metadata w =
    insert "webhook_path" w.path (insert "webhook_name" w.name (insert "webhook_id" w.id []))

own_fields :
    (w : Webhook)
    → (lookup "webhook_id" (own_metadata w) ≡ some w.id)
      × (lookup "webhook_name" (own_metadata w) ≡ some w.name)
      × (lookup "webhook_path" (own_metadata w) ≡ some w.path)
unfolding lookup insert remove
own_fields w = (refl, refl, refl)

module _ (hmac : Hmac) where
  open hmac use {mac, len-mac, mac-sha256, mac-sha1, mac-v0}

  pub bare-mac : (key text : String) → bare (mac key text) ≡ mac key text
  unfolding bare
  bare-mac key text = rw (
    remove_prefix-absent (mac key text) "sha256=" (mac-sha256 key text),
    remove_prefix-absent (mac key text) "sha1=" (mac-sha1 key text),
    remove_prefix-absent (mac key text) "v0=" (mac-v0 key text),
  )

  -- The signature is the code of the payload under the webhook's secret, after some of the
  -- prefixes.
  abbrev pub IsSigned : Webhook → String → String → Type 0
  IsSigned w payload signature =
      (a : String) × (b : String) × Optional "sha256=" signature a
      × Optional "sha1=" a b
      × Optional "v0=" b (mac w.secret payload)

  -- A request may pass without its signature header, and else only if it is signed.
  abbrev pub MayPass : Webhook → String → Option String → Type 0
  MayPass w payload none = Unit {0}
  MayPass w payload (some signature) = IsSigned w payload signature

  -- The header carries the code after one prefix at most.
  abbrev pub IsPlain : Webhook → String → Option String → Type 0
  IsPlain w payload none = Unit {0}
  IsPlain w payload (some signature) =
      let code = mac w.secret payload in
      (signature ≡ code)
      ⊎ ((signature ≡ cat "sha256=" code)
          ⊎ ((signature ≡ cat "sha1=" code) ⊎ (signature ≡ cat "v0=" code)))

  validate_signature-IsSigned :
      (w : Webhook) (payload signature : String)
      → validate_signature hmac w payload signature ≡ true
      → IsSigned w payload signature
  unfolding validate_signature bare
  validate_signature-IsSigned w payload signature h =
      let a = remove_prefix signature "sha256=" in
      let b = remove_prefix a "sha1=" in
      (
        a,
        b,
        remove_prefix-Optional signature "sha256=",
        remove_prefix-Optional a "sha1=",
        subst (Optional "v0=" b) (eq_of_str_eq (remove_prefix b "v0=") (mac w.secret payload) h)
            (remove_prefix-Optional b "v0="),
      )

  bare-IsPlain :
      (w : Webhook) (payload signature : String)
      → IsPlain w payload (some signature)
      → bare signature ≡ mac w.secret payload
  unfolding bare
  bare-IsPlain w payload signature plain =
      let code = mac w.secret payload in
      let long : 0 < len code = omega (arith, len-mac w.secret payload) in
      let sha1 = remove_prefix-absent code "sha1=" (mac-sha1 w.secret payload) in
      let v0 = remove_prefix-absent code "v0=" (mac-v0 w.secret payload) in
      elim plain [
        | inl e ↦ ap bare e ∙ bare-mac w.secret payload
        | inr (inl e) ↦ ap bare e ∙ rw (remove_prefix-cat "sha256=" code long, sha1, v0) refl
        | inr (inr (inl e)) ↦
            ap bare e
            ∙ rw
                (
                  remove_prefix-absent (cat "sha1=" code) "sha256=" (sha1-not-sha256 code),
                  remove_prefix-cat "sha1=" code long,
                  v0,
                )
                refl
        | inr (inr (inr e)) ↦
            ap bare e
            ∙ rw
                (
                  remove_prefix-absent (cat "v0=" code) "sha256=" (v0-not-sha256 code),
                  remove_prefix-absent (cat "v0=" code) "sha1=" (v0-not-sha1 code),
                  remove_prefix-cat "v0=" code long,
                )
                refl
      ]

  refused-MayPass :
      (w : Webhook) (payload : String) (header : Option String)
      → signature_refused hmac w payload header ≡ false
      → MayPass w payload header
  unfolding signature_refused
  refused-MayPass w payload none h = tt
  refused-MayPass w payload (some signature) h =
      validate_signature-IsSigned w payload signature (ground (arith, h))

  plain-not-refused :
      (w : Webhook) (payload : String) (header : Option String)
      → IsPlain w payload header
      → signature_refused hmac w payload header ≡ false
  unfolding signature_refused validate_signature
  plain-not-refused w payload none plain = refl
  plain-not-refused w payload (some signature) plain =
      rw (bare-IsPlain w payload signature plain, str_eq_refl (mac w.secret payload)) refl

  -- What a request for a webhook comes to: an error and no event; or one event, of a request that
  -- may pass, for the webhook's function, with the whole payload and the webhook's own fields.
  abbrev pub Settled :
      Webhook
      → String
      → Option String
      → String
      → List Event
      → List Event × Option RequestError
      → Type 0
  Settled w payload header id bus (bus', some error) = bus' ≡ bus
  Settled w payload header id bus (bus', none) =
      (e : Event) × (bus' ≡ e ∷ bus)
      × MayPass w payload header
      × (e.id ≡ id)
      × (e.event_type ≡ "webhook")
      × (e.function_id ≡ w.function_id)
      × (e.payload ≡ payload)
      × (lookup "webhook_id" e.metadata ≡ some w.id)
      × (lookup "webhook_name" e.metadata ≡ some w.name)
      × (lookup "webhook_path" e.metadata ≡ some w.path)

  deliver-Settled :
      (w : Webhook) (payload : String) (headers : Map String) (published : Bool) (id : String)
      (now : ℕ) (bus : List Event)
      → Settled w payload
          (lookup w.signature_header headers)
          id
          bus
          (deliver hmac w payload headers published id now bus)
  unfolding deliver event_of
  deliver-Settled w payload headers published id now bus =
      let header = lookup w.signature_header headers in
      let own = own_metadata w in
      if-cases (Settled w payload header id bus) (signature_refused hmac w payload header)
        (bus, some invalid_signature)
        (if published then (event_of w payload id now ∷ bus, none) else (bus, some publish_failed))
        (λ refused. refl)
        (λ passes.
          if-cases (Settled w payload header id bus) published
            (event_of w payload id now ∷ bus, none) (bus, some publish_failed)
            (λ sent. (
              event_of w payload id now,
              refl,
              refused-MayPass w payload header passes,
              refl,
              refl,
              refl,
              refl,
              add_headers-other "ebhook_id" w.headers own ∙ (own_fields w).0,
              add_headers-other "ebhook_name" w.headers own ∙ (own_fields w).1,
              add_headers-other "ebhook_path" w.headers own ∙ (own_fields w).2,
            ))
            (λ failed. refl))

  -- For a webhook that is found: a request that gives an error changes nothing; one that gives
  -- none has published one event, for the webhook's function, with the whole payload and the
  -- webhook's own fields, and its signature header is missing or carries the code of the payload
  -- under the secret, after some of the prefixes `sha256=`, `sha1=` and `v0=`; and no request is
  -- refused as wrongly signed whose header is missing or carries that code after one of them at
  -- most.
  pub request_verdict :
      (find : String → Lookup) (path payload : String) (headers : Map String) (published : Bool)
      (id : String) (now : ℕ) (bus : List Event) (w : Webhook)
      → find (normalized path) ≡ hit w
      → let header = lookup w.signature_header headers in
        let answer = handle_request hmac find path payload headers published id now bus in
        Settled w payload header id bus answer
        × (IsPlain w payload header → answer.1 ≡ (if published then none else some publish_failed))
  unfolding handle_request deliver
  request_verdict find path payload headers published id now bus w h = rw h (
    deliver-Settled w payload headers published id now bus,
    λ plain.
        rw (plain-not-refused w payload (lookup w.signature_header headers) plain) (ground arith),
  )

  -- No signature at all passes the check of GitHub's signatures.
  pub github_never_valid :
      (secret payload signature : String)
      → validate_github_signature hmac secret payload signature ≡ false
  unfolding validate_github_signature
  github_never_valid secret payload signature =
      elim (Bool-cases (starts_with signature "sha256=")) [
        | inl e ↦
            rw
              (
                e,
                prefixed_differs signature (mac secret payload) "sha256=" e
                    (mac-sha256 secret payload),
              )
              (ground arith)
        | inr e ↦ rw e (ground arith)
      ]
