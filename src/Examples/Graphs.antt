-- ===== src/Examples/Graphs.antt =====
-- The graph of two files that import each other.
use js_x_ray_rs.Prelude.{String, true, none, some, List, ◌≡◌, refl, All, max}
use js_x_ray_rs.Prelude.IndexMap.{contains, get, modify_or, modify}
use js_x_ray_rs.DiGraph.{
  DiGraph, empty, add_vertex, add_edge, get_deep_children, find_deep_dependencies, enough, Found,
  nothing_found, find_cycles,
}
use js_x_ray_rs.DiGraph.WellFormed.{
  IsWellFormed, empty-IsWellFormed, add_vertex-IsWellFormed, add_edge-IsWellFormed,
}
use js_x_ray_rs.DiGraph.Search.{get_deep_children-IsWithin, IsWithin}
use js_x_ray_rs.DiGraph.Complete.{find_deep_dependencies_complete, start, onward}
use js_x_ray_rs.DiGraph.Cycles.{find_cycles_returns}

abbrev two : DiGraph
two = add_vertex "b.js" (add_vertex "a.js" empty)

abbrev pair : DiGraph
pair = add_edge "b.js" "a.js" (add_edge "a.js" "b.js" two)

two-IsWellFormed : IsWellFormed two
two-IsWellFormed =
    add_vertex-IsWellFormed "b.js" (add_vertex "a.js" empty)
      (add_vertex-IsWellFormed "a.js" empty empty-IsWellFormed)

add_edge-IsWellFormed_example : IsWellFormed (add_edge "a.js" "b.js" two)
add_edge-IsWellFormed_example = add_edge-IsWellFormed "a.js" "b.js" two two-IsWellFormed

get_deep_children-IsWithin_example :
    (out : List String) × (get_deep_children pair "a.js" 2 ≡ some out)
    × All (IsWithin pair "a.js" (some (max 1 2))) out
get_deep_children-IsWithin_example = get_deep_children-IsWithin pair "a.js" 2

find_cycles_returns_example : (cycles : List (List String)) × (find_cycles pair ≡ some cycles)
find_cycles_returns_example = find_cycles_returns pair

find_deep_dependencies_complete_example :
    (found : Found) × (find_deep_dependencies pair (enough pair) "a.js" none "b.js" nothing_found
      ≡ some found)
    × (contains found.out "a.js" ≡ true)
unfolding add_vertex add_edge get modify_or modify
find_deep_dependencies_complete_example =
    find_deep_dependencies_complete pair "a.js" "b.js" "a.js" refl (onward start refl refl refl)
