-- ===== src/LambdaService/Events/Webhooks/Tests.antt =====
-- Runs of the webhooks, with a digest that stands for the real one.
use mini_lambda.Common.{◌≡◌, refl, String, true, false, none, some, [], ◌∷◌, inl, inr}
use mini_lambda.Common.Maps.{Map, lookup}
use mini_lambda.LambdaService.Events.{Webhook, validate_webhook}
use mini_lambda.LambdaService.Events.Webhooks.{Hmac, Lookup, hit, handle_request, register_webhook}
use mini_lambda.LambdaService.Events.Webhooks.Signatures.{request_verdict, Settled, IsPlain}

abbrev code : String
code = "0123456789abcdef0123456789abcdef0123456789abcdef0123456789abcdef"

abbrev digest : Hmac
digest = record {
  mac = λ key text. code;
  len-mac = λ key text. refl;
  mac-sha256 = λ key text. refl;
  mac-sha1 = λ key text. refl;
  mac-v0 = λ key text. refl;
}

abbrev hook : Webhook
hook = record {
  id = "w";
  function_id = "f";
  name = "hook";
  path = "/hook";
  secret = "s";
  signature_header = "X-Signature";
  enabled = false;
  headers = [];
  created_at = 0;
  updated_at = 0;
}

-- A webhook without a signature header is refused before its default is set.
no_default_header :
    register_webhook true "n" 0 (record hook { signature_header = "" }) []
    ≡ ([], some "signature_header is required")
unfolding register_webhook validate_webhook
no_default_header = refl

abbrev always : String → Lookup
always path = hit hook

abbrev signed : Map String
signed =
    ("X-Signature", "sha256=0123456789abcdef0123456789abcdef0123456789abcdef0123456789abcdef") ∷ []

request_verdict_example :
    let answer = handle_request digest always "hook" "{}" signed true "e" 0 [] in
    Settled digest hook "{}" (lookup "X-Signature" signed) "e" [] answer
    × (IsPlain digest hook "{}" (lookup "X-Signature" signed) → answer.1 ≡ none)
request_verdict_example = request_verdict digest always "hook" "{}" signed true "e" 0 [] hook refl

-- The request above is published.
signed_passes : (handle_request digest always "hook" "{}" signed true "e" 0 []).1 ≡ none
unfolding lookup
signed_passes =
    (request_verdict digest always "hook" "{}" signed true "e" 0 [] hook refl).1 (inr (inl refl))
