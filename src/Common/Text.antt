-- ===== src/Common/Text.antt =====
-- Texts that are put together from a fixed prefix and a name, such as the keys of a store.
use Prim.Native.Char.{Char, code}
use Prim.Native.String
use Prim.Native.String.{String}
use mathlib.Core.Path.{◌≡◌, sym, ◌∙◌, ap}
use mathlib.Core.Logic.{◌≢◌}
use mathlib.Core.Bool.{true, false}
use native.Mathlib.Omega.{arith}
use text.Mathlib.Text.{◌==◌ as str_eq}
use text.Mathlib.TextEquality.{eq_iff}
use text.Mathlib.TextLemmas.{append_cancel_left, append_assoc, cons-append, head-eq_of_cons-eq}

abbrev pub cat : String → String → String
cat s t = String.◌++◌ s t

-- A common prefix does not matter to a comparison.
pub str_eq-cat : (pre s t : String) → str_eq (cat pre s) (cat pre t) ≡ str_eq s t
str_eq-cat pre s t =
    ground (arith, eq_iff (cat pre s) (cat pre t), eq_iff s t, append_cancel_left pre s t)

pub heads_differ :
    (c d : Char) (xs ys s t : String)
    → code c ≢ code d
    → cat (String.◌∷◌ c xs) s ≢ cat (String.◌∷◌ d ys) t
heads_differ c d xs ys s t h p =
    h (ap code (head-eq_of_cons-eq (sym (cons-append c xs s) ∙ p ∙ cons-append d ys t)))

pub tails_differ :
    (pre x y s t : String) → cat x s ≢ cat y t → cat (cat pre x) s ≢ cat (cat pre y) t
tails_differ pre x y s t h p = h (
    append_cancel_left pre (cat x s) (cat y t)
      (sym (append_assoc pre x s) ∙ p ∙ append_assoc pre y t))

pub str_eq_of_ne : (s t : String) → s ≢ t → str_eq s t ≡ false
str_eq_of_ne s t h = ground (arith, eq_iff s t)

pub str_eq_refl : (s : String) → str_eq s s ≡ true
str_eq_refl s = ground (arith, eq_iff s s)

pub eq_of_str_eq : (a b : String) → str_eq a b ≡ true → a ≡ b
eq_of_str_eq a b h = ground (arith, eq_iff a b)
