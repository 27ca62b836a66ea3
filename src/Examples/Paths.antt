-- ===== src/Examples/Paths.antt =====
-- Runs of the path functions.
use js_x_ray_rs.Prelude.{
  List, String, get_elem?, if◌then◌else◌, ltb, length, take, some, none, List, [], ◌∷◌, ◌++◌, ◌≡◌,
  refl, join,
}
use js_x_ray_rs.Utils.Segments.{get_sub_member_expression_segments}
use js_x_ray_rs.Utils.Segments.Split.{get_sub_member_expression_segments-join}
use js_x_ray_rs.EntryFiles.{
  Component, root_dir, cur_dir, parent_dir, normal, normalize_path, relative_parts,
}
use js_x_ray_rs.EntryFiles.RoundTrip.{normalize_path-relative_parts, names}

abbrev winding : List Component
winding = normal "a" ∷ cur_dir ∷ parent_dir ∷ parent_dir ∷ normal "b" ∷ []

normalize_path-relative_parts_example :
    normalize_path (
      (root_dir ∷ names ("src" ∷ "lib" ∷ []))
      ++ relative_parts
          (root_dir ∷ names ("src" ∷ "lib" ∷ []))
          (root_dir ∷ names ("src" ∷ "a.js" ∷ [])))
    ≡ root_dir ∷ names ("src" ∷ "a.js" ∷ [])
normalize_path-relative_parts_example =
    normalize_path-relative_parts ("src" ∷ "lib" ∷ []) ("src" ∷ "a.js" ∷ [])

abbrev three_parts : List String
three_parts = "a" ∷ "b" ∷ "c" ∷ []

get_sub_member_expression_segments-join_example :
    get_elem? (get_sub_member_expression_segments (join "." three_parts)) 1
    ≡ (if ltb 2 (length three_parts) then some (join "." (take 2 three_parts)) else none)
get_sub_member_expression_segments-join_example =
    get_sub_member_expression_segments-join "a" ("b" ∷ "c" ∷ []) 1 (refl, tt)
      ((refl, tt), ((refl, tt), tt))

abbrev climbing : List String
climbing = "src" ∷ "." ∷ ".." ∷ ".." ∷ "" ∷ "lib" ∷ []
