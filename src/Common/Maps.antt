-- ===== src/Common/Maps.antt =====
-- Go maps with text keys, as association lists with at most one entry for a key.
use Prim.Native.String.{String}
use mathlib.Core.Path.{◌≡◌}
use mathlib.Core.Option.{Option, none, some}
use mathlib.Core.List.{List, [], ◌∷◌}
use native.Mathlib.Omega.{arith}
use text.Mathlib.Text.{◌==◌}
use text.Mathlib.TextEquality.{eq_iff}
use mini_lambda.Common.Tests.{if◌then◌else◌}

-- `map[string]V`
abbrev pub Map {ℓ} : Type ℓ → Type ℓ
Map V = List (String × V)

module _ {ℓ} {V : Type ℓ} where
  -- `v, found := m[key]`
  unfoldable pub lookup : String → Map V → Option V
  lookup key [] = none
  lookup key (entry ∷ m) = if entry.0 == key then some entry.1 else lookup key m

  -- `delete(m, key)`
  unfoldable pub remove : String → Map V → Map V
  remove key [] = []
  remove key (entry ∷ m) = let kept = remove key m in if entry.0 == key then kept else entry ∷ kept

  -- `m[key] = v`
  unfoldable pub insert : String → V → Map V → Map V
  insert key v m = (key, v) ∷ remove key m

  pub lookup-remove :
      (key asked : String) (m : Map V)
      → lookup asked (remove key m) ≡ (if key == asked then none else lookup asked m)
  unfolding lookup remove
  lookup-remove key asked [] = ground arith
  lookup-remove key asked (entry ∷ m) =
      ground (
        arith,
        eq_iff key asked,
        eq_iff entry.0 key,
        eq_iff entry.0 asked,
        lookup-remove key asked m,
      )

  pub lookup-insert :
      (key asked : String) (v : V) (m : Map V)
      → lookup asked (insert key v m) ≡ (if key == asked then some v else lookup asked m)
  unfolding lookup insert
  lookup-insert key asked v m = ground (arith, lookup-remove key asked m)
