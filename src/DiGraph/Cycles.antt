-- ===== src/DiGraph/Cycles.antt =====
-- The search for cycles returns: it never runs out of fuel, and the `expect` and the index that it
-- panics on are always in place (crates/js-x-ray/src/entry_files_analyser.rs: `find_cycles`).
use js_x_ray_rs.Prelude.{
  ℕ, zero, suc, ◌+◌, ◌-◌, ◌≤◌, ◌<◌, String, true, ◌||◌, none, some, ◌>>=◌, List, [], ◌∷◌, ◌++◌,
  ◌==◌, ◌≡◌, refl, arith, eq_iff, Bool-cases, inl, inr, eq_refl, length, All, All-append, get_elem?,
  take, drop, retain, map, flat_map,
}
use js_x_ray_rs.Prelude.IndexMap.{contains-last, IndexMap, contains, insert_set}
use js_x_ray_rs.DiGraph.{
  DiGraph, Vertex, has_vertex, is_parent, backtrack_round, backtrack, first_occurrences, position,
  record_cycle, scan_dependencies, scan_roots, collect_root_adjacency_lists, find_cycles,
  keep_unique,
}
use js_x_ray_rs.DiGraph.Search.{find_deep_dependencies_returns}

get_elem?-some :
    (xs : List String) (i : ℕ) → i < length xs → (x : String) × (get_elem? xs i ≡ some x)
get_elem?-some [] i h = elim h [ ]
get_elem?-some (x ∷ xs) zero h = (x, refl)
get_elem?-some (x ∷ xs) (suc i) h = get_elem?-some xs i (omega arith)

length-remove :
    (xs : List String) (i : ℕ)
    → i < length xs
    → suc (length (take i xs ++ drop (suc i) xs)) ≡ length xs
length-remove [] i h = elim h [ ]
length-remove (x ∷ xs) zero h = refl
length-remove (x ∷ xs) (suc i) h = omega (arith, length-remove xs i (omega arith))

position-some :
    (id : String) (xs : List String) → contains xs id ≡ true → (i : ℕ) × (position id xs ≡ some i)
position-some id [] h = absurd (ground arith)
position-some id (x ∷ xs) h = elim (Bool-cases (x == id)) [
  | inl e ↦ (0, rw e refl)
  | inr e ↦ let (i, p) = position-some id xs (ground arith) in (suc i, rw (e, p) refl)
]

module _ (g : DiGraph) where
  -- A round shortens the path by one vertex at most.
  backtrack_round_returns :
      (i : ℕ) (path : List String)
      → suc (suc i) ≤ length path
      → (path' : List String) × (backtrack_round g (suc (suc i)) path ≡ some path')
        × (suc i ≤ length path')
  backtrack_round_returns i path h =
      let (node, p) = get_elem?-some path (suc i) (omega arith) in
      let before : suc (suc i) - 1 ≡ suc i = omega arith in
      let two_before : suc (suc i) - 2 ≡ i = omega arith in
      elim (Bool-cases (is_parent g path (suc (suc i)) node)) [
        | inl e ↦ (path, rw (before, p, e) refl, omega arith)
        | inr e ↦ (
          take i path ++ drop (suc i) path,
          rw (before, p, e, two_before) refl,
          omega (arith, length-remove path i (omega arith)),
        )
      ]

  -- The counter never passes the end of the path, though the path shrinks below it.
  backtrack_returns :
      (i : ℕ) (path : List String)
      → i ≤ length path
      → (path' : List String) × (backtrack g i path ≡ some path')
  unfolding backtrack
  backtrack_returns zero path h = (path, refl)
  backtrack_returns (suc zero) path h = (path, refl)
  backtrack_returns (suc (suc i)) path h =
      let (shorter, p, le) = backtrack_round_returns i path h in
      let (path', q) = backtrack_returns (suc i) shorter le in (path', rw (p, ◌>>=◌) q)

  record_cycle_returns :
      (root_id : String) (adjacency_list : List String) (cycles : List (List String))
      → contains adjacency_list root_id ≡ true
      → (cycles' : List (List String)) × (record_cycle g root_id adjacency_list cycles
          ≡ some cycles')
  unfolding record_cycle
  record_cycle_returns root_id adjacency_list cycles h =
      let (index, p) = position-some root_id adjacency_list h in
      let path = root_id ∷ take (index + 1) adjacency_list in
      let (path', q) = backtrack_returns (length path) path (omega arith) in
      (cycles ++ first_occurrences [] path' ∷ [], rw (p, q) refl)

  contains-insert_set : (id : String) (l : List String) → contains (insert_set id l) id ≡ true
  unfolding insert_set
  contains-insert_set id l = ground (arith, contains-last l id id, eq_refl id)

  -- Where a cycle is recorded, the root is among the vertices met so far.
  scan_dependencies_returns :
      (root_id : String) (adjacency_list : List String) (cycles : List (List String))
      (deep : List String)
      → (cycles' : List (List String)) × (scan_dependencies g root_id adjacency_list cycles deep
          ≡ some cycles')
  unfolding scan_dependencies
  scan_dependencies_returns root_id adjacency_list cycles [] = (cycles, refl)
  scan_dependencies_returns root_id adjacency_list cycles (id ∷ rest) =
      let list' = insert_set id adjacency_list in
      elim (Bool-cases (id == root_id || contains list' root_id)) [
        | inl met ↦
            let root_met : contains list' root_id ≡ true =
              ground (arith, eq_iff id root_id, contains-insert_set id adjacency_list) in
            let (cycles', p) = record_cycle_returns root_id list' cycles root_met in
            let (cycles'', q) = scan_dependencies_returns root_id list' cycles' rest in
            (cycles'', rw (met, p) q)
        | inr unmet ↦
            let (cycles', q) = scan_dependencies_returns root_id list' cycles rest in
            (cycles', rw unmet q)
      ]

  scan_roots_returns :
      (roots : List (String × String)) (cycles : List (List String))
      → All (λ (r : String × String). has_vertex g r.1 ≡ true) roots
      → (cycles' : List (List String)) × (scan_roots g roots cycles ≡ some cycles')
  unfolding scan_roots
  scan_roots_returns [] cycles h = (cycles, refl)
  scan_roots_returns ((root_id, adjacent_id) ∷ rest) cycles h =
      let (found, p, _) = find_deep_dependencies_returns g root_id none adjacent_id h.0 in
      let (cycles', q) = scan_dependencies_returns root_id [] cycles found.out in
      let (cycles'', r) = scan_roots_returns rest cycles' h.1 in (cycles'', rw (p, q) r)

  targets_of :
      (root_id : String) (l : List String)
      → All
          (λ (r : String × String). has_vertex g r.1 ≡ true)
          (map (λ id. (root_id, id)) (retain (has_vertex g) l))
  targets_of root_id [] = tt
  targets_of root_id (id ∷ l) = elim (Bool-cases (has_vertex g id)) [
    | inl e ↦ rw e (e, targets_of root_id l)
    | inr e ↦ rw e (targets_of root_id l)
  ]

  target_roots :
      (m : IndexMap Vertex)
      → All
          (λ (r : String × String). has_vertex g r.1 ≡ true)
          (flat_map
            (λ (root_id, vertex).
              map (λ id. (root_id, id)) (retain (has_vertex g) vertex.adjacent_to))
            m)
  target_roots [] = tt
  target_roots ((root_id, vertex) ∷ m) =
      All-append _ (map (λ id. (root_id, id)) (retain (has_vertex g) vertex.adjacent_to)) _
        (targets_of root_id vertex.adjacent_to) (target_roots m)

  -- `find_cycles` returns on every graph: the fuel is enough, `expect` finds the root, and no index of
  -- the backtracking is past the end of its path.
  pub find_cycles_returns : (cycles : List (List String)) × (find_cycles g ≡ some cycles)
  unfolding find_cycles
  find_cycles_returns =
      let (cycles, p) =
        scan_roots_returns (collect_root_adjacency_lists g) []
          (unfold collect_root_adjacency_lists in target_roots g.vertices) in
      (keep_unique [] cycles, rw p refl)
