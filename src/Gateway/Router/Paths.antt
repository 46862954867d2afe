-- ===== src/Gateway/Router/Paths.antt =====
-- gateway.go: the parsing of the path of an invocation.
use text.Mathlib.Text.{◌==◌ as str_eq}
use text.Mathlib.TextPositions.{starts_with-append}
use text.Mathlib.TextLemmas.{append_assoc}
use mini_lambda.Common.{◌≡◌, sym, String, false, some}
use mini_lambda.Common.Text.{cat}
use mini_lambda.Common.Strings.{contains, slash}
use mini_lambda.Common.Strings.Laws.{trim_prefix-cat, has_suffix-cat, trim_suffix-cat, trim-free}
use mini_lambda.Gateway.Router.{parse_invoke_function_id}

-- The path of the invocation of a function.
abbrev pub invoke_path : String → String
invoke_path id = cat "/functions/" (cat id "/invoke")

-- The path of an invocation gives back the function's ID, if that is not empty and has no slash.
pub parse-invoke_path :
    (id : String)
    → str_eq id "" ≡ false
    → contains slash id ≡ false
    → parse_invoke_function_id (invoke_path id) ≡ some id
unfolding parse_invoke_function_id
parse-invoke_path id h k = rw (
  starts_with-append "/functions/" (cat id "/invoke"),
  sym (append_assoc "/functions/" id "/invoke"),
  has_suffix-cat (cat "/functions/" id) "/invoke",
  append_assoc "/functions/" id "/invoke",
  trim_prefix-cat "/functions/" (cat id "/invoke"),
  trim_suffix-cat id "/invoke",
  trim-free slash id k,
  h,
  k,
)
