-- ===== src/Utils/Svg/Literals.antt =====
-- `is_svg` and `is_svg_path` of crates/js-x-ray/src/utils/is_svg.rs, on the code points of a text.
use js_x_ray_rs.Prelude.{
  ℕ, ◌+◌, String, Bool, ◌&&◌, ◌||◌, [], ◌∷◌, if◌then◌else◌, ltb, eqb, length, codes, is_whitespace,
}
use js_x_ray_rs.Std.{Std}
use js_x_ray_rs.Json.{Value}
use js_x_ray_rs.Estree.Literal.{to_value}
use js_x_ray_rs.Utils.Svg.{Text, is_string_svg, begins}

abbrev pub svg_path_start : String
svg_path_start = "(?i)^[mzlhvcsqta]\\s*[-+.0-9][^mlhvzcsqta]+"

abbrev pub svg_path_end : String
svg_path_end = "(?i)[\\dz]$"

-- The standard library's `trim_start` and `trim_end`.
unfoldable pub trimmed_start : Text → Text
unfolding is_whitespace
trimmed_start [] = []
trimmed_start (c ∷ cs) = let rest = trimmed_start cs in if is_whitespace c then rest else c ∷ cs

unfoldable pub trimmed_end : Text → Text
unfolding is_whitespace
trimmed_end [] = []
trimmed_end (c ∷ cs) =
    let rest = trimmed_end cs in if eqb (length rest) 0 && is_whitespace c then [] else c ∷ rest

-- `str::len`: bytes in UTF-8.
unfoldable pub byte_count : Text → ℕ
byte_count [] = 0
byte_count (c ∷ cs) =
    (if ltb c 128 then 1 else if ltb c 2048 then 2 else if ltb c 65536 then 3 else 4)
    + byte_count cs

unfoldable pub is_svg_path : Std → String → Bool
unfolding trimmed_start trimmed_end byte_count
is_svg_path std str_ =
    let trim_str = trimmed_start (trimmed_end (codes str_)) in
    ltb 4 (byte_count trim_str)
    && std.is_match svg_path_start trim_str
    && std.is_match svg_path_end trim_str

unfoldable pub is_svg : Std → Value → Bool
unfolding to_value trimmed_start is_string_svg is_svg_path
is_svg std str_or_literal =
    let value = to_value std str_or_literal in
    begins "<" (trimmed_start (codes value))
      && is_string_svg std.is_alphabetic std.is_alphanumeric value
    || is_svg_path std value
