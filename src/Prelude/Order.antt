-- ===== src/Prelude/Order.antt =====
-- `sort()` of a list of texts.
use Prim.Native.String.{String, compare}
use mathlib.Core.List.{List, [], ◌∷◌}
use text.Mathlib.Text.{is_le}
use js_x_ray_rs.Prelude.Tests.{if◌then◌else◌}

abbrev pub insert_sorted : String → List String → List String
insert_sorted s [] = s ∷ []
insert_sorted s (t ∷ rest) = if is_le (compare s t) then s ∷ t ∷ rest else t ∷ insert_sorted s rest

abbrev pub sort : List String → List String
sort [] = []
sort (s ∷ rest) = insert_sorted s (sort rest)
