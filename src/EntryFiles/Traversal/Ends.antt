-- ===== src/EntryFiles/Traversal/Ends.antt =====
-- The traversal ends on a finite set of files, and the graph stays well formed
-- (crates/js-x-ray/src/entry_files_analyser.rs: `analyse_file`).
use js_x_ray_rs.Prelude.{
  ℕ, suc, ◌≤◌, ◌<◌, String, Bool, true, false, Option, some, List, [], ◌∷◌, ◌==◌, if◌then◌else◌,
  is_some, ◌<>◌, ◌≡◌, refl, arith, eq_iff, eq_refl, Bool-cases, Option-cases, inl, inr, length,
  length-append, ◌∙◌, ap,
}
use js_x_ray_rs.Prelude.IndexMap
use js_x_ray_rs.Prelude.IndexMap.{IndexMap, contains, insert, get-insert}
use js_x_ray_rs.DiGraph.{DiGraph, has_vertex, add_vertex, add_edge}
use js_x_ray_rs.DiGraph.WellFormed.{
  IsWellFormed, add_vertex-IsWellFormed, add_edge-IsWellFormed, has_vertex-add_vertex,
  has_vertex-add_edge,
}
use js_x_ray_rs.EntryFiles.{FilePath}
use js_x_ray_rs.EntryFiles.Traversal.{
  Io, ok, error, Run, done, failed, stuck, ◌>>=◌, read, System, Settings, Analysis,
  get_relative_file_path, resolve_internal_dep_path, keep_path, get_internal_dep_path, Visit,
  try_extensions, with_vertex, with_edge, with_import, follow, reported,
}

-- How many of the files are not in the graph.
abbrev pub unseen : List String → DiGraph → ℕ
unseen [] g = 0
unseen (file ∷ files) g = if has_vertex g file then unseen files g else suc (unseen files g)

abbrev pub Grows : DiGraph → DiGraph → Type 0
Grows g h = (id : String) → has_vertex g id ≡ true → has_vertex h id ≡ true

pub unseen-Grows :
    (files : List String) (g h : DiGraph) → Grows g h → unseen files h ≤ unseen files g
unseen-Grows [] g h grows = omega arith
unseen-Grows (file ∷ files) g h grows = ground (arith, unseen-Grows files g h grows, grows file)

unseen-new :
    (files : List String) (g h : DiGraph) (id : String)
    → Grows g h
    → contains files id ≡ true
    → has_vertex g id ≡ false
    → has_vertex h id ≡ true
    → unseen files h < unseen files g
unseen-new [] g h id grows c n y = cc
unseen-new (file ∷ files) g h id grows c n y =
    ground (
      arith,
      unseen-new files g h id grows,
      unseen-Grows files g h grows,
      grows file,
      eq_iff file id,
    )

module _ {S : Type 0} (system : System) (settings : Settings S) (files : List String) where
  -- Each dependency that is found on the file system is one of the files.
  abbrev pub IsCovered : Type 0
  IsCovered =
      (path file : FilePath)
      → resolve_internal_dep_path system settings path ≡ done (some file)
      → contains files (get_relative_file_path system settings file) ≡ true

  -- The graph is well formed, the cache has found files only, and each report is counted.
  pub record IsSound (st : Analysis S) : Type 0 where
    pub graph : IsWellFormed st.dependencies
    pub cached :
        (key : String) (file : FilePath)
        → IndexMap.get key st.dep_path_cache ≡ some (some file)
        → contains files (get_relative_file_path system settings file) ≡ true
    pub counted : st.number_of_files_processed ≡ length st.out

  -- A run from `before` does not get stuck; where it returns, the state is sound and the graph has grown.
  abbrev pub Ends : Analysis S → Run (Analysis S) → Type 0
  Ends before stuck = ⊥
  Ends before (failed e) = Unit
  Ends before (done after) = IsSound after × Grows before.dependencies after.dependencies

  pub with_vertex-IsSound :
      (id : String) (st : Analysis S) → IsSound st → IsSound (with_vertex system settings id st)
  with_vertex-IsSound id st h = record {
    graph = add_vertex-IsWellFormed id st.dependencies h.graph;
    cached = h.cached;
    counted = h.counted;
  }

  with_edge-IsSound :
      (from to : String) (st : Analysis S)
      → IsSound st
      → IsSound (with_edge system settings from to st)
  with_edge-IsSound from to st h = record {
    graph = add_edge-IsWellFormed from to st.dependencies h.graph;
    cached = h.cached;
    counted = h.counted;
  }

  pub with_import-IsSound :
      (file : FilePath) (st : Analysis S)
      → IsSound st
      → IsSound (with_import system settings file st)
  with_import-IsSound file st h = record { graph = h.graph; cached = h.cached; counted = h.counted }

  pub reported-IsSound :
      (id : String) (report : S × Option (List String)) (st : Analysis S)
      → IsSound st
      → IsSound (reported system settings id report st)
  reported-IsSound id report st h = record {
    graph = h.graph;
    cached = h.cached;
    counted = omega (arith, h.counted, length-append st.out ((id, is_some report.1) ∷ []));
  }

  pub add_vertex-Grows : (id : String) (g : DiGraph) → Grows g (add_vertex id g)
  add_vertex-Grows id g j h = ground (arith, has_vertex-add_vertex id j g, h)

  add_edge-Grows : (from to : String) (g : DiGraph) → Grows g (add_edge from to g)
  add_edge-Grows from to g j h = ground (arith, has_vertex-add_edge from to j g, h)

  pub Ends-bind :
      (before : Analysis S) (r : Run (Analysis S)) (k : Analysis S → Run (Analysis S))
      → Ends before r
      → ((mid : Analysis S)
          → IsSound mid
          → Grows before.dependencies mid.dependencies
          → Ends before (k mid))
      → Ends before (r >>= k)
  Ends-bind before stuck k h next = h
  Ends-bind before (failed e) k h next = tt
  Ends-bind before (done mid) k h next = next mid h.0 h.1

  -- What ends from a later state ends from an earlier one.
  pub Ends-earlier :
      (before mid : Analysis S) (r : Run (Analysis S))
      → Grows before.dependencies mid.dependencies
      → Ends mid r
      → Ends before r
  Ends-earlier before mid stuck grows h = h
  Ends-earlier before mid (failed e) grows h = tt
  Ends-earlier before mid (done after) grows h = (h.0, λ id has. h.1 id (grows id has))

  -- Resolving does not get stuck, keeps the graph, and what it finds is one of the files.
  abbrev pub Resolves : Analysis S → Run (Option FilePath × Analysis S) → Type 0
  Resolves st stuck = ⊥
  Resolves st (failed e) = Unit
  Resolves st (done (found, after)) =
      IsSound after
      × (after.dependencies ≡ st.dependencies)
      × ((file : FilePath)
          → found ≡ some file
          → contains files (get_relative_file_path system settings file) ≡ true)

  abbrev IsUnstuck : {A : Type 0} → Run A → Type 0
  IsUnstuck stuck = ⊥
  IsUnstuck _ = Unit

  read_then-IsUnstuck :
      {A B : Type 0} (io : Io A) (k : A → Run B)
      → ((a : A) → IsUnstuck (k a))
      → IsUnstuck (read io >>= k)
  read_then-IsUnstuck (ok a) k h = h a
  read_then-IsUnstuck (error e) k h = tt

  found_or_later :
      (found : Bool) (file : FilePath) (later : Run (Option FilePath))
      → IsUnstuck later
      → IsUnstuck (if found then done (some file) else later)
  found_or_later true file later h = tt
  found_or_later false file later h = h

  try_extensions-IsUnstuck :
      (file : FilePath) (l : List String) → IsUnstuck (try_extensions system settings file l)
  try_extensions-IsUnstuck file [] = tt
  try_extensions-IsUnstuck file (ext ∷ rest) =
      read_then-IsUnstuck (system.exists (system.components (system.text file <> "." <> ext))) _
        λ found.
          found_or_later found (system.components (system.text file <> "." <> ext))
            (try_extensions system settings file rest) (try_extensions-IsUnstuck file rest)

  keep_path-IsSound :
      (key : String) (found : Option FilePath) (st : Analysis S)
      → IsSound st
      → ((file : FilePath)
          → found ≡ some file
          → contains files (get_relative_file_path system settings file) ≡ true)
      → IsSound (keep_path system settings key found st)
  keep_path-IsSound key found st h known = record {
    graph = h.graph;
    cached = λ k file e. elim (Bool-cases (key == k)) [
      | inl same ↦ known file (ground (arith, get-insert key k found st.dep_path_cache, e, same))
      | inr other ↦
          h.cached k file (ground (arith, get-insert key k found st.dep_path_cache, e, other))
    ];
    counted = h.counted;
  }

  resolve-IsUnstuck : (file : FilePath) → IsUnstuck (resolve_internal_dep_path system settings file)
  unfolding resolve_internal_dep_path
  resolve-IsUnstuck file = elim (Option-cases (system.extension file)) [
    | inl e ↦ rw (e, IsUnstuck) (try_extensions-IsUnstuck file settings.allowed_extensions)
    | inr (extension, e) ↦
        rw (e, IsUnstuck)
          (elim (Bool-cases (contains settings.allowed_extensions extension)) [
            | inl a ↦ rw (a, IsUnstuck) (read_then-IsUnstuck (system.exists file) _ (λ found. tt))
            | inr a ↦ rw (a, IsUnstuck) tt
          ])
  ]

  Resolves-fresh :
      (key : String) (r : Run (Option FilePath)) (st : Analysis S)
      → IsSound st
      → IsUnstuck r
      → ((file : FilePath)
          → r ≡ done (some file)
          → contains files (get_relative_file_path system settings file) ≡ true)
      → Resolves st (r >>= λ resolved. done (resolved, keep_path system settings key resolved st))
  Resolves-fresh key stuck st h u known = u
  Resolves-fresh key (failed e) st h u known = tt
  Resolves-fresh key (done found) st h u known =
      let covered = λ (file : FilePath) (e : found ≡ some file). known file (ap done e) in
      (keep_path-IsSound key found st h covered, refl, covered)

  pub get_internal_dep_path-Resolves :
      (file : FilePath) (st : Analysis S)
      → IsCovered
      → IsSound st
      → Resolves st (get_internal_dep_path system settings file st)
  unfolding get_internal_dep_path
  get_internal_dep_path-Resolves file st covered h =
      elim (Option-cases (IndexMap.get (system.text file) st.dep_path_cache)) [
        | inl e ↦
            rw (e, Resolves)
              (Resolves-fresh (system.text file) (resolve_internal_dep_path system settings file) st
                h (resolve-IsUnstuck file) (λ found. covered file found))
        | inr (cached, e) ↦
            rw (e, Resolves)
              (h, refl, λ found same. h.cached (system.text file) found (e ∙ ap some same))
      ]

  -- Visits of files end, where fewer than `n` files are not in the graph.
  abbrev pub VisitsEnd : Visit system settings → ℕ → Type 0
  VisitsEnd visit n =
      (file : FilePath) (id : String) (st : Analysis S)
      → IsSound st
      → unseen files st.dependencies < n
      → Ends st (visit file id st)

  with_edge-Ends :
      (id dep : String) (st mid : Analysis S)
      → IsSound mid
      → Grows st.dependencies mid.dependencies
      → Ends st (done (with_edge system settings id dep mid))
  with_edge-Ends id dep st mid s grows = (
    with_edge-IsSound id dep mid s,
    λ j has. add_edge-Grows id dep mid.dependencies j (grows j has),
  )

  pub follow-Ends :
      (visit : Visit system settings) (n : ℕ) (id : String) (file : FilePath) (st : Analysis S)
      → VisitsEnd visit n
      → IsSound st
      → unseen files st.dependencies ≤ n
      → contains files (get_relative_file_path system settings file) ≡ true
      → Ends st (follow system settings visit id file st)
  follow-Ends visit n id file st ends h few covered =
      let dep = get_relative_file_path system settings file in
      let edge = with_edge-Ends id dep st in
      elim (Bool-cases (has_vertex st.dependencies dep)) [
        | inl old ↦ rw old (edge st h (λ j has. has))
        | inr new ↦
            let st' = with_vertex system settings dep st in
            let grows = add_vertex-Grows dep st.dependencies in
            let here : has_vertex st'.dependencies dep ≡ true =
              ground (arith, has_vertex-add_vertex dep dep st.dependencies, eq_refl dep) in
            let fewer =
              unseen-new files st.dependencies st'.dependencies dep grows covered new here in
            rw new (
              Ends-bind st (visit file dep st') _
                (Ends-earlier st st' (visit file dep st') grows
                  (ends file dep st' (with_vertex-IsSound dep st h) (omega arith)))
                edge)
      ]
