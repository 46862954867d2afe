-- ===== src/Common/Strings/Laws.antt =====
-- The functions of package strings on texts that are put together.
use Prim.Native.Char.{Char}
use Prim.Native.String.{String, len, slice}
use Prim.Native.Nat.{ℕ}
use Prim.Native.String.len.{cons}
use mathlib.Core.Path.{◌≡◌, refl, ap, ◌∙◌}
use mathlib.Core.Bool.{true, false, ◌||◌}
use native.Mathlib.Omega.{arith}
use text.Mathlib.Text.{◌==◌ as str_eq}
use text.Mathlib.TextPositions.{slice-append_right, len-append, starts_with-append, len_utf8-pos}
use text.Mathlib.TextLemmas.{cons-append, nil-append}
use mini_lambda.Common.Text.{cat, str_eq_refl, str_eq_of_ne}
use mini_lambda.Common.Strings.{
  is_char, has_suffix, trim_prefix, trim_suffix, trim_left, trim_right, trim, contains, last_part,
}

pub trim_prefix-cat : (prefix s : String) → trim_prefix (cat prefix s) prefix ≡ s
unfolding trim_prefix
trim_prefix-cat prefix s = rw (starts_with-append prefix s) (
    ap (λ k. slice (cat prefix s) (len prefix) k) (len-append prefix s)
    ∙ slice-append_right prefix s)

pub has_suffix_self : (s : String) → has_suffix s s ≡ true
unfolding has_suffix
has_suffix_self String.[] = str_eq_refl ""
has_suffix_self (String.◌∷◌ c s) = rw (str_eq_refl (String.◌∷◌ c s))

pub has_suffix-cons :
    (c : Char) (s suffix : String)
    → has_suffix s suffix ≡ true
    → has_suffix (String.◌∷◌ c s) suffix ≡ true
unfolding has_suffix
has_suffix-cons c s suffix h = rw h (ground arith)

pub has_suffix-cat : (s suffix : String) → has_suffix (cat s suffix) suffix ≡ true
has_suffix-cat String.[] suffix = rw (nil-append suffix) (has_suffix_self suffix)
has_suffix-cat (String.◌∷◌ c s) suffix =
    rw (cons-append c s suffix) (has_suffix-cons c (cat s suffix) suffix (has_suffix-cat s suffix))

-- A text is not its own tail.
pub cons-cat-differs :
    (c : Char) (s suffix : String) → str_eq (String.◌∷◌ c (cat s suffix)) suffix ≡ false
cons-cat-differs c s suffix = str_eq_of_ne (String.◌∷◌ c (cat s suffix)) suffix (λ e.
    absurd
      (omega (arith, ap len e, cons c (cat s suffix), len-append s suffix, (len_utf8-pos c).1)))

pub trim_suffix_self : (s : String) → trim_suffix s s ≡ ""
unfolding trim_suffix
trim_suffix_self String.[] = refl
trim_suffix_self (String.◌∷◌ c s) = rw (str_eq_refl (String.◌∷◌ c s))

pub trim_suffix-cons :
    (c : Char) (s suffix : String)
    → str_eq (String.◌∷◌ c s) suffix ≡ false
    → trim_suffix (String.◌∷◌ c s) suffix ≡ String.◌∷◌ c (trim_suffix s suffix)
unfolding trim_suffix
trim_suffix-cons c s suffix h = rw h

pub trim_suffix-cat : (s suffix : String) → trim_suffix (cat s suffix) suffix ≡ s
trim_suffix-cat String.[] suffix = rw (nil-append suffix) (trim_suffix_self suffix)
trim_suffix-cat (String.◌∷◌ c s) suffix = rw (cons-append c s suffix) (
    trim_suffix-cons c (cat s suffix) suffix (cons-cat-differs c s suffix)
    ∙ ap (λ t. String.◌∷◌ c t) (trim_suffix-cat s suffix))

pub contains-cons :
    (n : ℕ) (c : Char) (s : String)
    → contains n (String.◌∷◌ c s) ≡ false
    → (is_char n c ≡ false) × (contains n s ≡ false)
unfolding contains
contains-cons n c s h = (ground (arith, h), ground (arith, h))

pub trim_left-free : (n : ℕ) (s : String) → contains n s ≡ false → trim_left n s ≡ s
unfolding trim_left
trim_left-free n String.[] h = refl
trim_left-free n (String.◌∷◌ c s) h = rw (contains-cons n c s h).0

pub trim_right-free : (n : ℕ) (s : String) → contains n s ≡ false → trim_right n s ≡ s
unfolding trim_right
trim_right-free n String.[] h = refl
trim_right-free n (String.◌∷◌ c s) h =
    let parts = contains-cons n c s h in rw (trim_right-free n s parts.1, parts.0) (ground arith)

pub trim-free : (n : ℕ) (s : String) → contains n s ≡ false → trim n s ≡ s
unfolding trim
trim-free n s h = rw (trim_left-free n s h) (trim_right-free n s h)

pub contains-cat : (n : ℕ) (s t : String) → contains n (cat s t) ≡ (contains n s || contains n t)
unfolding contains
contains-cat n String.[] t = rw (nil-append t) refl
contains-cat n (String.◌∷◌ c s) t = rw (cons-append c s t, contains-cat n s t) (ground arith)

pub last_part_self :
    (n : ℕ) (c : Char) (s : String)
    → is_char n c ≡ true
    → contains n s ≡ false
    → last_part n (String.◌∷◌ c s) ≡ s
unfolding last_part
last_part_self n c s h k = rw (k, h) refl

pub last_part-cat :
    (n : ℕ) (s t : String) → contains n t ≡ true → last_part n (cat s t) ≡ last_part n t
unfolding last_part
last_part-cat n String.[] t h = rw (nil-append t) refl
last_part-cat n (String.◌∷◌ c s) t h =
    rw (cons-append c s t, contains-cat n s t, h) (ground (arith, last_part-cat n s t h))
