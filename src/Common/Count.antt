-- ===== src/Common/Count.antt =====
-- How many elements of a list pass a test.
use Prim.Native.Nat.{ℕ, ◌+◌, ◌≤◌}
use Prim.Native.String.{String}
use mathlib.Core.Path.{◌≡◌}
use mathlib.Core.Bool.{Bool, true, false, not}
use mathlib.Core.Option.{some}
use mathlib.Core.List.{List, [], ◌∷◌, ◌++◌}
use native.Mathlib.Omega.{arith}
use text.Mathlib.Text.{◌==◌ as str_eq}
use text.Mathlib.TextEquality.{eq_iff}
use mini_lambda.Common.Tests.{if◌then◌else◌}
use mini_lambda.Common.Lists.{keep}
use mini_lambda.Common.Maps.{Map, lookup, remove}

abbrev pub unit_if : Bool → ℕ
unit_if true = 1
unit_if false = 0

module _ {ℓ} {A : Type ℓ} where
  abbrev pub count : (A → Bool) → List A → ℕ
  count test [] = 0
  count test (x ∷ xs) = unit_if (test x) + count test xs

  pub count-append :
      (test : A → Bool) (xs ys : List A) → count test (xs ++ ys) ≡ count test xs + count test ys
  count-append test [] ys = omega arith
  count-append test (x ∷ xs) ys = omega (arith, count-append test xs ys)

  -- A test and its negation split a list in two.
  pub count-keep :
      (test split : A → Bool) (xs : List A)
      → count test (keep split xs) + count test (keep (λ x. not (split x)) xs) ≡ count test xs
  count-keep test split [] = omega arith
  count-keep test split (x ∷ xs) = ground (arith, count-keep test split xs)

module _ {ℓ} {V : Type ℓ} where
  abbrev pub has_key : String → String × V → Bool
  has_key key entry = str_eq entry.0 key

  pub count-remove :
      (key asked : String) (m : Map V)
      → count (has_key asked) (remove key m)
        ≡ (if str_eq key asked then 0 else count (has_key asked) m)
  unfolding remove
  count-remove key asked [] = ground arith
  count-remove key asked (entry ∷ m) =
      ground (
        arith,
        eq_iff key asked,
        eq_iff entry.0 key,
        eq_iff entry.0 asked,
        count-remove key asked m,
      )

  pub count-lookup :
      (key : String) (v : V) (m : Map V) → lookup key m ≡ some v → 1 ≤ count (has_key key) m
  unfolding lookup
  count-lookup key v [] e = absurd (cc)
  count-lookup key v (entry ∷ m) e = ground (arith, count-lookup key v m)
