-- ===== src/DiGraph/Complete.antt =====
-- A search without a limit finds all that can be reached
-- (crates/js-x-ray/src/entry_files_analyser.rs: `find_deep_dependencies`).
use js_x_ray_rs.Prelude.{
  ℕ, zero, suc, String, true, false, ◌||◌, Option, none, some, List, [], ◌∷◌, ◌++◌, ◌==◌, ◌≡◌, refl,
  arith, eq_iff, Bool-cases, Option-cases, inl, inr, eq_refl, subst, ap, sym,
}
use js_x_ray_rs.Prelude.IndexMap.{contains, contains-last}
use js_x_ray_rs.DiGraph.{
  DiGraph, Found, nothing_found, mark, has_vertex, visit_each, find_deep_dependencies, adjacent,
  enough,
}
use js_x_ray_rs.DiGraph.Search.{find_deep_dependencies_returns}

module _ (g : DiGraph) (root_id : String) where
  -- What a part of the search does from `before` to `after`: what was visited stays, each new vertex
  -- but the root has its neighbours visited, and the output stays the list of the visited.
  record Explores (before after : Found) : Type 0 where
    keeps : (v : String) → contains before.visited v ≡ true → contains after.visited v ≡ true
    closes :
        (v w : String)
        → contains after.visited v ≡ true
        → contains before.visited v ≡ false
        → (root_id == v) ≡ false
        → contains (adjacent g v) w ≡ true
        → has_vertex g w ≡ true
        → contains after.visited w ≡ true
    lists : before.out ≡ before.visited → after.out ≡ after.visited

  Explores-refl : (found : Found) → Explores found found
  Explores-refl found = record {
    keeps = λ v h. h;
    closes = λ v w now was r a h. absurd (ground (arith, now, was));
    lists = λ same. same;
  }

  Explores-trans : (a b c : Found) → Explores a b → Explores b c → Explores a c
  Explores-trans a b c h k = record {
    keeps = λ v e. k.keeps v (h.keeps v e);
    closes = λ v w now was r adj has. elim (Bool-cases (contains b.visited v)) [
      | inl e ↦ k.keeps w (h.closes v w e was r adj has)
      | inr e ↦ k.closes v w now e r adj has
    ];
    lists = λ same. k.lists (h.lists same);
  }

  mark-lists :
      (id : String) (found : Found)
      → found.out ≡ found.visited
      → (mark id found).out ≡ (mark id found).visited
  mark-lists id found same = ap (λ l. l ++ id ∷ []) same

  contains-mark :
      (id v : String) (found : Found)
      → contains (mark id found).visited v ≡ (contains found.visited v || id == v)
  contains-mark id v found = contains-last found.visited id v

  -- The root is marked and not gone through.
  mark_root-Explores :
      (id : String) (found : Found) → (root_id == id) ≡ true → Explores found (mark id found)
  mark_root-Explores id found r = record {
    keeps = λ v e. ground (arith, contains-mark id v found, e);
    closes = λ v w now was other adj has.
        absurd (ground (arith, contains-mark id v found, now, was, other, r, eq_iff id v));
    lists = mark-lists id found;
  }

  -- Another is marked, and then its neighbours are visited.
  mark-Explores :
      (id : String) (found after : Found)
      → Explores (mark id found) after
      → ((w : String)
          → contains (adjacent g id) w ≡ true
          → has_vertex g w ≡ true
          → contains after.visited w ≡ true)
      → Explores found after
  mark-Explores id found after h neighbours = record {
    keeps = λ v e. h.keeps v (ground (arith, contains-mark id v found, e));
    closes = λ v w now was other adj has. elim (Bool-cases (id == v)) [
      | inl same ↦
          neighbours w
            (subst (λ u. contains (adjacent g u) w ≡ true)
              ((eq_iff v id).0 (ground (arith, same, eq_iff id v, eq_iff v id))) adj)
            has
      | inr ne ↦ h.closes v w now (ground (arith, contains-mark id v found, was, ne)) other adj has
    ];
    lists = λ same. h.lists (mark-lists id found same);
  }

  -- What a visit does to its vertex and from there.
  abbrev VisitExplores : (String → Found → Option Found) → Type 0
  VisitExplores visit =
      (id : String) (f a : Found)
      → visit id f ≡ some a
      → Explores f a × (contains a.visited id ≡ true)

  abbrev AllVisited : List String → Found → Type 0
  AllVisited l after =
      (w : String) → contains l w ≡ true → has_vertex g w ≡ true → contains after.visited w ≡ true

  visit_each-Explores :
      (visit : String → Found → Option Found) (l : List String) (found after : Found)
      → VisitExplores visit
      → visit_each g visit l found ≡ some after
      → Explores found after × AllVisited l after
  unfolding visit_each
  visit_each-Explores visit [] found after explores e =
      let same : found ≡ after = ground arith in
      (subst (Explores found) same (Explores-refl found), λ w c has. absurd (ground arith))
  visit_each-Explores visit (id ∷ rest) found after explores e =
      elim (Bool-cases (has_vertex g id)) [
        | inl has_id ↦ elim (Option-cases (visit id found)) [
          | inl stuck ↦ absurd (ground arith)
          | inr (found', p) ↦
              let rest_e : visit_each g visit rest found' ≡ some after = ground arith in
              let (first, seen) = explores id found found' p in
              let (later, all) = visit_each-Explores visit rest found' after explores rest_e in
              (
                Explores-trans found found' after first later,
                λ w c has. elim (Bool-cases (id == w)) [
                  | inl same ↦
                      subst (λ u. contains after.visited u ≡ true) ((eq_iff id w).0 same)
                        (later.keeps id seen)
                  | inr other ↦ all w (ground arith) has
                ],
              )
        ]
        | inr no_vertex ↦
            let rest_e : visit_each g visit rest found ≡ some after = ground arith in
            let (later, all) = visit_each-Explores visit rest found after explores rest_e in
            (
              later,
              λ w c has. elim (Bool-cases (id == w)) [
                | inl same ↦ absurd (cc (no_vertex, has, (eq_iff id w).0 same))
                | inr other ↦ all w (ground arith) has
              ],
            )
      ]

  contains-marked : (id : String) (found : Found) → contains (mark id found).visited id ≡ true
  contains-marked id found = ground (arith, contains-mark id id found, eq_refl id)

  find_deep_dependencies-Explores :
      (fuel : ℕ) → VisitExplores (find_deep_dependencies g fuel root_id none)
  unfolding find_deep_dependencies
  find_deep_dependencies-Explores zero id found after e = cc
  find_deep_dependencies-Explores (suc fuel) id found after e =
      elim (Bool-cases (contains found.visited id)) [
        | inl old ↦
            let same : found ≡ after = ground arith in
            subst (λ a. Explores found a × (contains a.visited id ≡ true)) same
              (Explores-refl found, old)
        | inr new ↦ elim (Bool-cases (root_id == id)) [
          | inl stop ↦
              let same : mark id found ≡ after = ground arith in
              subst (λ a. Explores found a × (contains a.visited id ≡ true)) same
                (mark_root-Explores id found stop, contains-marked id found)
          | inr go ↦
              let visit = find_deep_dependencies g fuel root_id none in
              let deeper : visit_each g visit (adjacent g id) (mark id found) ≡ some after =
                ground arith in
              let (h, all) =
                visit_each-Explores visit (adjacent g id) (mark id found) after
                  (find_deep_dependencies-Explores fuel) deeper in
              (mark-Explores id found after h all, h.keeps id (contains-marked id found))
        ]
      ]

  -- What can be reached from a vertex along edges to vertices of the graph, without going on from the
  -- root.
  pub data Reach (from : String) : String → Type 0 where
    start : Reach from from
    onward :
        {b c : String}
        → Reach from b
        → (root_id == b) ≡ false
        → contains (adjacent g b) c ≡ true
        → has_vertex g c ≡ true
        → Reach from c

  Reach-visited :
      (from : String) (found : Found)
      → Explores nothing_found found
      → contains found.visited from ≡ true
      → {v : String} → Reach from v
      → contains found.visited v ≡ true
  Reach-visited from found h first start = first
  Reach-visited from found h first (onward {b} {c} r other adj has) =
      h.closes b c (Reach-visited from found h first r) refl other adj has

  -- A search without a limit, from a vertex of the graph, returns, and each vertex that can be reached
  -- from there along edges to vertices of the graph, without going on from the root, is in what it
  -- finds.
  pub find_deep_dependencies_complete :
      (id v : String)
      → has_vertex g id ≡ true
      → Reach id v
      → (found : Found) × (find_deep_dependencies g (enough g) root_id none id nothing_found
          ≡ some found)
        × (contains found.out v ≡ true)
  find_deep_dependencies_complete id v has r =
      let (found, p, _) = find_deep_dependencies_returns g root_id none id has in
      let (h, first) = find_deep_dependencies-Explores (enough g) id nothing_found found p in
      let seen = Reach-visited id found h first r in
      (found, p, subst (λ l. contains l v ≡ true) (sym (h.lists refl)) seen)
