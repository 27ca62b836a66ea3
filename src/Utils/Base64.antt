-- ===== src/Utils/Base64.antt =====
-- `is_string_base64` of crates/js-x-ray/src/utils/is_string_base64.rs. The regular expressions are
-- those of the source; their matching is a parameter.
use js_x_ray_rs.Prelude.{
  String, Bool, false, ◌&&◌, Option, is_some_and, not, if◌then◌else◌, codes, length, eqb,
}
use js_x_ray_rs.Std.{Std}

pub record Base64Options : Type 0 where
  pub allow_mime : Option Bool
  pub mime_required : Option Bool
  pub padding_required : Option Bool
  pub allow_empty : Option Bool

abbrev pub default_base64 : String
default_base64 = "(?i)^(?:[A-Za-z0-9+/]{4})*(?:[A-Za-z0-9+/]{2}==|[A-Za-z0-9+/]{3}=)?$"

abbrev pub base64_no_padding : String
base64_no_padding = "(?i)^(?:[A-Za-z0-9+/]{4})*(?:[A-Za-z0-9+/]{2}(?:==)?|[A-Za-z0-9+/]{3}=?)?$"

abbrev pub base64_allow_mime : String
base64_allow_mime =
    "(?i)^(?:data:\\w+/[a-zA-Z+\\-.]+;base64,)?(?:[A-Za-z0-9+/]{4})*(?:[A-Za-z0-9+/]{2}==|[A-Za-z0-9+/]{3}=)?$"

abbrev pub base64_allow_mime_no_padding : String
base64_allow_mime_no_padding =
    "(?i)^(?:data:\\w+/[a-zA-Z+\\-.]+;base64,)?(?:[A-Za-z0-9+/]{4})*(?:[A-Za-z0-9+/]{2}(?:==)?|[A-Za-z0-9+/]{3}=?)?$"

abbrev pub base64_require_mime : String
base64_require_mime =
    "(?i)^(?:data:\\w+/[a-zA-Z+\\-.]+;base64,)(?:[A-Za-z0-9+/]{4})*(?:[A-Za-z0-9+/]{2}==|[A-Za-z0-9+/]{3}=)?$"

abbrev pub base64_require_mime_no_padding : String
base64_require_mime_no_padding =
    "(?i)^(?:data:\\w+/[a-zA-Z+\\-.]+;base64,)(?:[A-Za-z0-9+/]{4})*(?:[A-Za-z0-9+/]{2}(?:==)?|[A-Za-z0-9+/]{3}=?)?$"

-- `== Some(true)` and `== Some(false)`.
abbrev asked : Option Bool → Bool
asked option = is_some_and (λ b. b) option

abbrev refused : Option Bool → Bool
refused option = is_some_and not option

-- The regular expression that the options choose.
unfoldable pub pattern_for : Base64Options → String
pattern_for opts =
    if asked opts.mime_required
    then if refused opts.padding_required
      then base64_require_mime_no_padding
      else base64_require_mime
    else if asked opts.allow_mime
    then if refused opts.padding_required then base64_allow_mime_no_padding else base64_allow_mime
    else if refused opts.padding_required
    then base64_no_padding
    else default_base64

unfoldable pub is_string_base64 : Std → String → Base64Options → Bool
unfolding pattern_for
is_string_base64 std v opts =
    if refused opts.allow_empty && eqb (length (codes v)) 0
    then false
    else std.is_match (pattern_for opts) (codes v)
