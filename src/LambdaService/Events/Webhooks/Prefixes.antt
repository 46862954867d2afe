-- ===== src/LambdaService/Events/Webhooks/Prefixes.antt =====
-- services/lambda-service/internal/events/webhook.go: what `ValidateSignature` takes away from a
-- signature.
use Prim.Native.String.{len, slice}
use mathlib.Core.Path.{subst}
use text.Mathlib.Text.{◌==◌ as str_eq, starts_with}
use text.Mathlib.TextPositions.{slice-append_right, len-append, starts_with-append}
use text.Mathlib.TextEquality.{starts_with_iff}
use mini_lambda.Common.{
  String, true, false, ◌≡◌, ◌≢◌, refl, ap, sym, ◌∙◌, arith, Bool-cases, inl, inr, ltb, ◌&&◌, ◌⊎◌,
  if-cases, ◌<◌, ◌+◌,
}
use mini_lambda.Common.Text.{cat, heads_differ, tails_differ, str_eq_of_ne}
use mini_lambda.LambdaService.Events.Webhooks.{remove_prefix}

-- A text, with the prefix before it or without.
abbrev pub Optional : String → String → String → Type 0
Optional prefix s rest = (s ≡ rest) ⊎ (s ≡ cat prefix rest)

-- The text after a prefix that it begins with.
after_prefix :
    (s prefix : String)
    → starts_with s prefix ≡ true
    → (rest : String) × (s ≡ cat prefix rest) × (slice s (len prefix) (len s) ≡ rest)
after_prefix s prefix h =
    let (rest, e) = (starts_with_iff s prefix).0 h in
    (
      rest,
      sym e,
      subst (λ u. slice u (len prefix) (len u) ≡ rest) e
          (ap (λ k. slice (cat prefix rest) (len prefix) k) (len-append prefix rest)
            ∙ slice-append_right prefix rest),
    )

pub remove_prefix-Optional : (s prefix : String) → Optional prefix s (remove_prefix s prefix)
unfolding remove_prefix
remove_prefix-Optional s prefix = elim (Bool-cases (starts_with s prefix)) [
  | inl e ↦
      let (rest, whole, cut) = after_prefix s prefix e in
      if-cases (Optional prefix s) (ltb (len prefix) (len s) && starts_with s prefix)
        (slice s (len prefix) (len s)) s (λ longer. inr (whole ∙ ap (cat prefix) (sym cut)))
        (λ short. inl refl)
  | inr e ↦ rw e (inl (ground arith))
]

pub remove_prefix-cat : (prefix s : String) → 0 < len s → remove_prefix (cat prefix s) prefix ≡ s
unfolding remove_prefix
remove_prefix-cat prefix s h =
    let longer : ltb (len prefix) (len prefix + len s) ≡ true = ground (arith, h) in
    rw (starts_with-append prefix s, len-append prefix s, longer) (slice-append_right prefix s)

pub remove_prefix-absent :
    (s prefix : String) → starts_with s prefix ≡ false → remove_prefix s prefix ≡ s
unfolding remove_prefix
remove_prefix-absent s prefix h = rw h (ground arith)

-- A text that goes on differently does not begin with the prefix.
differs-absent :
    (prefix s : String) → ((rest : String) → s ≢ cat prefix rest) → starts_with s prefix ≡ false
differs-absent prefix s differ = elim (Bool-cases (starts_with s prefix)) [
  | inl e ↦ let (rest, whole, cut) = after_prefix s prefix e in absurd (differ rest whole)
  | inr e ↦ e
]

pub sha1-not-sha256 : (s : String) → starts_with (cat "sha1=" s) "sha256=" ≡ false
sha1-not-sha256 s = differs-absent "sha256=" (cat "sha1=" s) (λ rest.
    tails_differ "sha" "1=" "256=" s rest (heads_differ "1" "2" "=" "56=" s rest (omega arith)))

pub v0-not-sha256 : (s : String) → starts_with (cat "v0=" s) "sha256=" ≡ false
v0-not-sha256 s =
    differs-absent "sha256=" (cat "v0=" s)
      (λ rest. heads_differ "v" "s" "0=" "ha256=" s rest (omega arith))

pub v0-not-sha1 : (s : String) → starts_with (cat "v0=" s) "sha1=" ≡ false
v0-not-sha1 s =
    differs-absent "sha1=" (cat "v0=" s)
      (λ rest. heads_differ "v" "s" "0=" "ha1=" s rest (omega arith))

-- The names of a webhook's headers in the metadata are not its own fields' names.
pub header-not-webhook : (name rest : String) → str_eq (cat "header_" name) (cat "w" rest) ≡ false
header-not-webhook name rest =
    str_eq_of_ne (cat "header_" name) (cat "w" rest)
      (heads_differ "h" "w" "eader_" "" name rest (omega arith))
