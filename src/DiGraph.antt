-- ===== src/DiGraph.antt =====
-- The dependency graph of the entry files: `DiGraph` of crates/js-x-ray/src/entry_files_analyser.rs.
-- A search takes fuel; `none` is a search that runs out of it, or the panic of an `expect`.
pub mod WellFormed
pub mod Search
pub mod Cycles
pub mod Complete
use js_x_ray_rs.Prelude.{
  ℕ, zero, suc, ◌+◌, ◌-◌, String, Bool, true, false, not, ◌||◌, ◌&&◌, Option, none, some, ◌>>=◌,
  List, [], ◌∷◌, ◌++◌, ◌==◌, if◌then◌else◌, length, eqb, ltb, any, retain, take, drop, option_map,
  is_some_and, get_elem?, flat_map, map, ◌≡◌, refl,
}
use js_x_ray_rs.Prelude.IndexMap
use js_x_ray_rs.Prelude.Order.{sort}
use js_x_ray_rs.Prelude.IndexMap.{
  IndexMap, contains, contains_key, modify_or, modify, get, insert_set,
}

pub record Vertex : Type 0 where
  pub adjacent_to : List String

pub record DiGraph : Type 0 where
  pub vertices : IndexMap Vertex

abbrev pub empty : DiGraph
empty = record { vertices = [] }

abbrev pub has_vertex : DiGraph → String → Bool
has_vertex g id = contains_key id g.vertices

unfoldable pub add_vertex : String → DiGraph → DiGraph
add_vertex id g = record {
  vertices = modify_or id (record { adjacent_to = [] }) (λ v. v) g.vertices;
}

abbrev pub add_adjacent : String → Vertex → Vertex
add_adjacent to vertex =
    if contains vertex.adjacent_to to
    then vertex
    else record { adjacent_to = vertex.adjacent_to ++ to ∷ [] }

unfoldable pub add_edge : String → String → DiGraph → DiGraph
add_edge from to g =
    if from == to || not (has_vertex g to)
    then g
    else record { vertices = modify from (add_adjacent to) g.vertices }

-- The `visited` and `out` of `find_deep_dependencies`.
pub record Found : Type 0 where
  pub visited : List String
  pub out : List String

abbrev pub nothing_found : Found
nothing_found = record { visited = []; out = [] }

abbrev pub mark : String → Found → Found
mark id found = record { visited = found.visited ++ id ∷ []; out = found.out ++ id ∷ [] }

abbrev first_occurrences : List String → List String → List String
first_occurrences seen [] = []
first_occurrences seen (id ∷ path) =
    let rest = first_occurrences (id ∷ seen) path in if contains seen id then rest else id ∷ rest

abbrev position : String → List String → Option ℕ
position id [] = none
position id (x ∷ xs) = if x == id then some 0 else option_map suc (position id xs)

module _ (g : DiGraph) where
  -- The loop over the adjacent vertices that are in the graph.
  unfoldable pub visit_each : (String → Found → Option Found) → List String → Found → Option Found
  visit_each visit [] found = some found
  visit_each visit (adjacent_id ∷ rest) found =
      if has_vertex g adjacent_id
      then (do found' ← visit adjacent_id found; visit_each visit rest found')
      else visit_each visit rest found

  abbrev adjacent : String → List String
  adjacent id = elim (get id g.vertices) [ none ↦ [] | some vertex ↦ vertex.adjacent_to ]

  abbrev is_zero : Option ℕ → Bool
  is_zero = is_some_and (λ d. eqb d 0)

  -- `find_deep_dependencies`; no `depth_remaining` is unlimited.
  unfoldable pub find_deep_dependencies : ℕ → String → Option ℕ → String → Found → Option Found
  unfolding visit_each get
  find_deep_dependencies zero root_id depth_remaining traversed_id found = none
  find_deep_dependencies (suc fuel) root_id depth_remaining traversed_id found =
      let deeper =
        visit_each (find_deep_dependencies fuel root_id (option_map (λ d. d - 1) depth_remaining))
          (adjacent traversed_id) (mark traversed_id found) in
      if contains found.visited traversed_id
      then some found
      else if root_id == traversed_id || is_zero depth_remaining
      then some (mark traversed_id found)
      else deeper

  -- One more than the vertices is enough.
  abbrev pub enough : ℕ
  enough = length g.vertices + 1

  abbrev children_of : String → ℕ → Vertex → Option (List String)
  children_of root_id depth_limit root = do
    found ←
        visit_each (find_deep_dependencies enough root_id (some (depth_limit - 1))) root.adjacent_to
          nothing_found
    some found.out

  -- `get_deep_children`
  unfoldable pub get_deep_children : String → ℕ → Option (List String)
  unfolding find_deep_dependencies
  get_deep_children root_id depth_limit = elim (get root_id g.vertices) [
    | none ↦ some []
    | some root ↦ children_of root_id depth_limit root
  ]

  -- `collect_root_adjacency_lists`
  unfoldable pub collect_root_adjacency_lists : List (String × String)
  unfolding get
  collect_root_adjacency_lists =
      flat_map
        (λ (root_id, vertex).
          map (λ adjacent_id. (root_id, adjacent_id)) (retain (has_vertex g) vertex.adjacent_to))
        g.vertices

  -- `backtrack_vertices_involved_in_cycle`: a round at the counter `i`, and the loop. The counter is
  -- not computed anew from the path, which shrinks. `none` is the panic of `path[i - 1]`.
  abbrev is_parent : List String → ℕ → String → Bool
  is_parent path i current_node =
      is_some_and (λ node_before. contains (adjacent node_before) current_node)
        (get_elem? path (i - 2))

  abbrev backtrack_round : ℕ → List String → Option (List String)
  backtrack_round i path = do
    current_node ← get_elem? path (i - 1)
    some (if is_parent path i current_node then path else take (i - 2) path ++ drop (i - 1) path)

  unfoldable pub backtrack : ℕ → List String → Option (List String)
  unfolding get
  backtrack zero path = some path
  backtrack (suc zero) path = some path
  backtrack (suc (suc i)) path = do
    path' ← backtrack_round (suc (suc i)) path
    backtrack (suc i) path'

  unfoldable pub backtrack_vertices_involved_in_cycle : List String → Option (List String)
  unfolding backtrack
  backtrack_vertices_involved_in_cycle path = do
    path' ← backtrack (length path) path
    some (first_occurrences [] path')

  -- The cycle that is recorded where the root is among the vertices met so far; `none` is the panic
  -- of `expect`.
  unfoldable pub record_cycle :
      String → List String → List (List String) → Option (List (List String))
  unfolding backtrack_vertices_involved_in_cycle
  record_cycle root_id adjacency_list cycles = do
    index ← position root_id adjacency_list
    cycle ← backtrack_vertices_involved_in_cycle (root_id ∷ take (index + 1) adjacency_list)
    some (cycles ++ cycle ∷ [])

  -- The loop over `deep_dependencies` for one root.
  unfoldable pub scan_dependencies :
      String → List String → List (List String) → List String → Option (List (List String))
  unfolding record_cycle insert_set
  scan_dependencies root_id adjacency_list cycles [] = some cycles
  scan_dependencies root_id adjacency_list cycles (deep_id ∷ rest) =
      let adjacency_list' = insert_set deep_id adjacency_list in
      if deep_id == root_id || contains adjacency_list' root_id
      then (do
        cycles' ← record_cycle root_id adjacency_list' cycles
        scan_dependencies root_id adjacency_list' cycles' rest)
      else scan_dependencies root_id adjacency_list' cycles rest

  unfoldable pub scan_roots :
      List (String × String) → List (List String) → Option (List (List String))
  unfolding find_deep_dependencies scan_dependencies
  scan_roots [] cycles = some cycles
  scan_roots ((root_id, root_adjacent_id) ∷ rest) cycles = do
    found ← find_deep_dependencies enough root_id none root_adjacent_id nothing_found
    cycles' ← scan_dependencies root_id [] cycles found.out
    scan_roots rest cycles'

abbrev pub same_texts : List String → List String → Bool
same_texts [] [] = true
same_texts (s ∷ ss) (t ∷ ts) = s == t && same_texts ss ts
same_texts _ _ = false

-- `keep_unique_vertices_paths`: of two paths over the same vertices the first stays.
unfoldable pub keep_unique : List (List String) → List (List String) → List (List String)
keep_unique unique [] = unique
keep_unique unique (path ∷ paths) =
    keep_unique
      (if any
          (λ existing.
            eqb (length existing) (length path) && same_texts (sort existing) (sort path))
          unique
        then unique
        else unique ++ path ∷ [])
      paths

-- `find_cycles`
unfoldable pub find_cycles : DiGraph → Option (List (List String))
unfolding collect_root_adjacency_lists scan_roots keep_unique
find_cycles g = do
  cycles ← scan_roots g (collect_root_adjacency_lists g) []
  some (keep_unique [] cycles)

abbrev ring : DiGraph
ring = record {
  vertices =
      ("a", record { adjacent_to = "b" ∷ [] })
      ∷ ("b", record { adjacent_to = "c" ∷ [] })
      ∷ ("c", record { adjacent_to = "a" ∷ [] })
      ∷ [];
}

ring_runs : find_cycles ring ≡ some (("a" ∷ "b" ∷ "c" ∷ []) ∷ [])
unfolding find_cycles
ring_runs = refl

deep_children_runs : get_deep_children ring "a" 1 ≡ some ("b" ∷ [])
unfolding get_deep_children
deep_children_runs = refl
