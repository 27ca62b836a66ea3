-- ===== src/DiGraph/WellFormed.antt =====
-- The graph's invariant: an edge leads to another vertex of the graph, and each once
-- (crates/js-x-ray/src/entry_files_analyser.rs: `add_vertex`, `add_edge`).
use js_x_ray_rs.Prelude.{
  String, Bool, true, false, not, ◌||◌, none, some, List, [], ◌∷◌, ◌++◌, ◌==◌, ◌≡◌, refl,
  if◌then◌else◌, arith, eq_iff, Bool-cases, Option-cases, inl, inr, subst,
}
use js_x_ray_rs.Prelude.IndexMap.{contains-last, contains, get, get-modify, get-modify_or}
use js_x_ray_rs.DiGraph.{DiGraph, Vertex, empty, has_vertex, add_vertex, add_edge, add_adjacent}

-- Of the vertices adjacent to `id`: each is in the graph, is another one, and is listed once.
abbrev Adjacent : DiGraph → String → List String → Type 0
Adjacent g id [] = Unit
Adjacent g id (to ∷ rest) =
    (has_vertex g to ≡ true)
    × ((id == to) ≡ false)
    × (contains rest to ≡ false)
    × Adjacent g id rest

pub record IsWellFormed (g : DiGraph) : Type 0 where
  pub edges :
      (id : String) (vertex : Vertex)
      → get id g.vertices ≡ some vertex
      → Adjacent g id vertex.adjacent_to

pub empty-IsWellFormed : IsWellFormed empty
unfolding get
empty-IsWellFormed = record { edges = λ id vertex h. cc }

Adjacent-mono :
    (g h : DiGraph) (id : String) (l : List String)
    → ((j : String) → has_vertex g j ≡ true → has_vertex h j ≡ true)
    → Adjacent g id l
    → Adjacent h id l
Adjacent-mono g h id [] grows a = tt
Adjacent-mono g h id (to ∷ rest) grows a =
    (grows to a.0, a.1, a.2, Adjacent-mono g h id rest grows a.3)

Adjacent-last :
    (g : DiGraph) (id to : String) (l : List String)
    → has_vertex g to ≡ true
    → (id == to) ≡ false
    → contains l to ≡ false
    → Adjacent g id l
    → Adjacent g id (l ++ to ∷ [])
Adjacent-last g id to [] h e c a = (h, e, refl, tt)
Adjacent-last g id to (x ∷ rest) h e c a = (
  a.0,
  a.1,
  ground (arith, contains-last rest to x, a.2, eq_iff x to, eq_iff to x),
  Adjacent-last g id to rest h e (ground arith) a.3,
)

pub has_vertex-add_vertex :
    (id j : String) (g : DiGraph) → has_vertex (add_vertex id g) j ≡ (id == j || has_vertex g j)
unfolding add_vertex
has_vertex-add_vertex id j g =
    ground (arith, get-modify_or id j (record { adjacent_to = [] }) (λ (v : Vertex). v) g.vertices)

pub has_vertex-add_edge :
    (from to j : String) (g : DiGraph) → has_vertex (add_edge from to g) j ≡ has_vertex g j
unfolding add_edge
has_vertex-add_edge from to j g = ground (arith, get-modify from j (add_adjacent to) g.vertices)

get-add_vertex :
    (id j : String) (g : DiGraph)
    → get j (add_vertex id g).vertices ≡ elim (get j g.vertices) [
      | none ↦ if id == j then some (record { adjacent_to = [] }) else none
      | some vertex ↦ some vertex
    ]
unfolding add_vertex
get-add_vertex id j g =
    ground (arith, get-modify_or id j (record { adjacent_to = [] }) (λ (v : Vertex). v) g.vertices)

add_vertex-grows :
    (id : String) (g : DiGraph) (k : String)
    → has_vertex g k ≡ true
    → has_vertex (add_vertex id g) k ≡ true
add_vertex-grows id g k h = ground (arith, has_vertex-add_vertex id k g)

add_edge-grows :
    (from to : String) (g : DiGraph) (k : String)
    → has_vertex g k ≡ true
    → has_vertex (add_edge from to g) k ≡ true
add_edge-grows from to g k h = ground (arith, has_vertex-add_edge from to k g)

-- Adding a vertex keeps the invariant: a new one has no edges, and an old one keeps its edges.
pub add_vertex-IsWellFormed :
    (id : String) (g : DiGraph) → IsWellFormed g → IsWellFormed (add_vertex id g)
add_vertex-IsWellFormed id g h = record {
  edges = λ j vertex e. elim (Option-cases (get j g.vertices)) [
    | inl new ↦
        let is_empty : record { adjacent_to = [] } ≡ vertex =
          ground (arith, get-add_vertex id j g) in
        subst (λ (v : Vertex). Adjacent (add_vertex id g) j v.adjacent_to) is_empty tt
    | inr (old, was) ↦
        let same : old ≡ vertex = ground (arith, get-add_vertex id j g) in
        subst (λ (v : Vertex). Adjacent (add_vertex id g) j v.adjacent_to) same
          (Adjacent-mono g (add_vertex id g) j old.adjacent_to (add_vertex-grows id g)
            (h.edges j old was))
  ];
}

-- The edges of a vertex after `add_edge`, behind its guards.
get-add_edge :
    (from to j : String) (g : DiGraph)
    → get j (add_edge from to g).vertices ≡ (
        if (from == to || not (has_vertex g to)) || not (from == j)
        then get j g.vertices
        else elim (get j g.vertices) [ none ↦ none | some vertex ↦ some (add_adjacent to vertex) ])
unfolding add_edge
get-add_edge from to j g = ground (arith, get-modify from j (add_adjacent to) g.vertices)

add_adjacent-Adjacent :
    (g : DiGraph) (id to : String) (vertex : Vertex)
    → has_vertex g to ≡ true
    → (id == to) ≡ false
    → Adjacent g id vertex.adjacent_to
    → Adjacent g id (add_adjacent to vertex).adjacent_to
add_adjacent-Adjacent g id to vertex has ne a = elim (Bool-cases (contains vertex.adjacent_to to)) [
  | inl old ↦ rw old a
  | inr new ↦ rw new (Adjacent-last g id to vertex.adjacent_to has ne new a)
]

add_edge_guard :
    (same : Bool) (has : Bool) (here : Bool)
    → ((same || not has) || not here) ≡ false
    → (same ≡ false) × (has ≡ true) × (here ≡ true)
add_edge_guard same has here h = ground arith

-- Adding an edge keeps the invariant: no edge from a vertex to itself, to a vertex that the graph
-- does not have, or for a second time.
pub add_edge-IsWellFormed :
    (from to : String) (g : DiGraph) → IsWellFormed g → IsWellFormed (add_edge from to g)
add_edge-IsWellFormed from to g h = record {
  edges = λ j vertex e.
      let family = λ (v : Vertex). Adjacent (add_edge from to g) j v.adjacent_to in
      let kept = λ (v : Vertex).
        Adjacent-mono g (add_edge from to g) j v.adjacent_to (add_edge-grows from to g) in
      let guard = (from == to || not (has_vertex g to)) || not (from == j) in
      elim (Option-cases (get j g.vertices)) [
        | inl new ↦ absurd (ground (arith, get-add_edge from to j g))
        | inr (old, was) ↦ elim (Bool-cases guard) [
          | inl blocked ↦
              let same : old ≡ vertex = ground (arith, get-add_edge from to j g) in
              subst family same (kept old (h.edges j old was))
          | inr open_ ↦
              let (ne, has, here) =
                add_edge_guard (from == to) (has_vertex g to) (from == j) open_ in
              let new : add_adjacent to old ≡ vertex = ground (arith, get-add_edge from to j g) in
              let j_ne : (j == to) ≡ false =
                ground (arith, eq_iff from j, eq_iff from to, eq_iff j to) in
              subst family new (
                kept (add_adjacent to old)
                  (add_adjacent-Adjacent g j to old has j_ne (h.edges j old was)))
        ]
      ];
}
