-- ===== src/Common/Strings.antt =====
-- The functions of Go's package strings that the code uses, over the characters of a text.
pub mod Laws
use Prim.Native.Char.{Char, code}
use Prim.Native.String
use Prim.Native.String.{String, len, slice}
use Prim.Native.Nat.{ℕ, zero, suc}
use mathlib.Core.Bool.{Bool, true, false, ◌&&◌, ◌||◌}
use mathlib.Core.List.{List, [], ◌∷◌}
use text.Mathlib.Text.{◌==◌ as str_eq, starts_with}
use mini_lambda.Common.Tests.{◌==◌, if◌then◌else◌}

abbrev pub is_char : ℕ → Char → Bool
is_char n c = code c == n

abbrev pub slash : ℕ
slash = b'/'

-- `strings.HasSuffix`
unfoldable pub has_suffix : String → String → Bool
has_suffix String.[] suffix = str_eq "" suffix
has_suffix (String.◌∷◌ c s) suffix = str_eq (String.◌∷◌ c s) suffix || has_suffix s suffix

-- `strings.TrimPrefix`
unfoldable pub trim_prefix : String → String → String
trim_prefix s prefix = if starts_with s prefix then slice s (len prefix) (len s) else s

-- `strings.TrimSuffix`
unfoldable pub trim_suffix : String → String → String
trim_suffix String.[] suffix = ""
trim_suffix (String.◌∷◌ c s) suffix =
    let kept = String.◌∷◌ c (trim_suffix s suffix) in
    if str_eq (String.◌∷◌ c s) suffix then "" else kept

-- The two halves of `strings.Trim` with a cutset of one character.
unfoldable pub trim_left : ℕ → String → String
trim_left n String.[] = ""
trim_left n (String.◌∷◌ c s) =
    let rest = trim_left n s in if is_char n c then rest else String.◌∷◌ c s

unfoldable pub trim_right : ℕ → String → String
trim_right n String.[] = ""
trim_right n (String.◌∷◌ c s) =
    let rest = trim_right n s in if str_eq rest "" && is_char n c then "" else String.◌∷◌ c rest

unfoldable pub trim : ℕ → String → String
trim n s = trim_right n (trim_left n s)

-- `strings.Contains` of one character.
unfoldable pub contains : ℕ → String → Bool
contains n String.[] = false
contains n (String.◌∷◌ c s) = is_char n c || contains n s

abbrev onto_head : Char → List String → List String
onto_head c [] = String.◌∷◌ c "" ∷ []
onto_head c (s ∷ rest) = String.◌∷◌ c s ∷ rest

-- `strings.Split` at one character.
unfoldable pub split : ℕ → String → List String
split n String.[] = "" ∷ []
split n (String.◌∷◌ c s) =
    let rest = split n s in if is_char n c then "" ∷ rest else onto_head c rest

-- `strings.ReplaceAll` of one character by another.
unfoldable pub replace_char : ℕ → Char → String → String
replace_char n by String.[] = ""
replace_char n by (String.◌∷◌ c s) =
    let rest = replace_char n by s in if is_char n c then String.◌∷◌ by rest else String.◌∷◌ c rest

-- What follows the last occurrence of a character; without one, the whole text.
unfoldable pub last_part : ℕ → String → String
last_part n String.[] = ""
last_part n (String.◌∷◌ c s) =
    let rest = last_part n s in
    if contains n s then rest else if is_char n c then s else String.◌∷◌ c s

-- The first of the parts that `strings.SplitN` gives at one character.
unfoldable pub first_part : ℕ → String → String
first_part n String.[] = ""
first_part n (String.◌∷◌ c s) =
    let rest = first_part n s in if is_char n c then "" else String.◌∷◌ c rest

-- The number of bytes of a text whose characters are bytes.
unfoldable pub size : String → ℕ
size String.[] = 0
size (String.◌∷◌ c s) = suc (size s)

-- What `io.LimitReader` lets through of such a text.
unfoldable pub first_bytes : ℕ → String → String
first_bytes zero s = ""
first_bytes (suc n) String.[] = ""
first_bytes (suc n) (String.◌∷◌ c s) = String.◌∷◌ c (first_bytes n s)
