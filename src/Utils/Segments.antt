-- ===== src/Utils/Segments.antt =====
-- Paths of member expressions: crates/js-x-ray/src/utils/get_sub_member_expression_segments.rs,
-- make_prefix_remover.rs, strip_node_prefix.rs and is_evil_identifier.rs.
pub mod Split
use Prim.Native.Char.{code}
use Prim.Native.String.{len, slice}
use text.Mathlib.Text.{starts_with}
use js_x_ray_rs.Prelude.{
  ℕ, zero, suc, ◌+◌, ◌-◌, String, Bool, true, false, not, ◌&&◌, Option, none, some, List, [], ◌∷◌,
  ◌==◌, if◌then◌else◌, any, find, map, take, length, split, join, contains_text, strip_prefix,
  unwrap_or, ◌≡◌, refl, ltb,
}
use js_x_ray_rs.Std.{Std}

-- The proper beginnings of a list that are not empty, the shortest first.
abbrev pub beginnings : List String → List (List String)
beginnings [] = []
beginnings (s ∷ []) = []
beginnings (s ∷ t ∷ rest) = (s ∷ []) ∷ map (λ begin. s ∷ begin) (beginnings (t ∷ rest))

-- `(1..parts.len()).map(|len| parts[..len].join("."))`
unfoldable pub get_sub_member_expression_segments : String → List String
unfolding split join
get_sub_member_expression_segments path = map (join ".") (beginnings (split b'.' path))

-- `expr.get(prefix.len() + 1..)`, given what is after the prefix: nothing past the end, or inside of a
-- character of more bytes.
abbrev pub after_joint : String → String
after_joint String.[] = ""
after_joint (String.◌∷◌ c s) = if ltb (code c) 128 then s else ""

unfoldable pub make_prefix_remover : List String → String → String
unfolding contains_text
make_prefix_remover prefixes expr =
    if not (contains_text expr ".")
    then expr
    else elim (find (λ global_id. starts_with expr global_id) prefixes) [
      | none ↦ expr
      | some matched_prefix ↦ after_joint (slice expr (len matched_prefix) (len expr))
    ]

unfoldable pub strip_node_prefix : String → String
unfolding strip_prefix
strip_node_prefix value = unwrap_or value (strip_prefix value "node:")

unfoldable pub is_evil_identifier_path : Std → String → Bool
unfolding contains_text
is_evil_identifier_path std identifier =
    starts_with identifier "Function.prototype"
    && any (λ needle. contains_text (std.lowercase identifier) needle)
        ("call" ∷ "apply" ∷ "bind" ∷ [])

unfoldable pub is_neutral_callable : String → Bool
is_neutral_callable identifier = identifier == "Function.prototype.call"

segments_run : get_sub_member_expression_segments "a.b.c" ≡ "a" ∷ "a.b" ∷ []
unfolding get_sub_member_expression_segments
segments_run = refl

remover_runs : make_prefix_remover ("globalThis" ∷ []) "globalThis.fetch" ≡ "fetch"
unfolding make_prefix_remover
remover_runs = refl
