-- ===== src/EntryFiles/Traversal/Returns.antt =====
-- The traversal returns with as much fuel as there are files
-- (crates/js-x-ray/src/entry_files_analyser.rs: `analyse_file`).
use js_x_ray_rs.Prelude.{
  ℕ, zero, suc, ◌+◌, ◌≤◌, ◌<◌, String, Bool, true, false, Option, none, some, List, [], ◌∷◌, ◌≡◌,
  refl, arith, Bool-cases, Option-cases, inl, inr, contains_text, length, if◌then◌else◌, sym, subst,
}
use js_x_ray_rs.Prelude.IndexMap.{contains, get}
use js_x_ray_rs.DiGraph.{DiGraph, has_vertex}
use js_x_ray_rs.DiGraph.WellFormed.{empty-IsWellFormed}
use js_x_ray_rs.EntryFiles.{FilePath, normalize_path}
use js_x_ray_rs.EntryFiles.Traversal.{
  Io, ok, error, Run, done, failed, stuck, ◌>>=◌, read, System, Settings, Analysis, join_path,
  get_relative_file_path, get_internal_dep_path, Visit, with_vertex, with_import, follow,
  follow_found, each_dependency, reported, after_report, analyse_file, reset, unless_missing,
  normalize_and_clean_entry_file, analyse_entry, analyse_entries, count_imports, analyse,
}
use js_x_ray_rs.EntryFiles.Traversal.Ends.{
  unseen, unseen-Grows, Grows, IsCovered, IsSound, Ends, Ends-bind, Ends-earlier, VisitsEnd,
  follow-Ends, Resolves, get_internal_dep_path-Resolves, with_vertex-IsSound, with_import-IsSound,
  reported-IsSound, add_vertex-Grows,
}

module _ {S : Type 0} (system : System) (settings : Settings S) (files : List String) where
  Resolves-bind :
      (st : Analysis S) (r : Run (Option FilePath × Analysis S))
      (k : Option FilePath × Analysis S → Run (Analysis S))
      → Resolves system settings files st r
      → ((found : Option FilePath) (mid : Analysis S)
          → IsSound system settings files mid
          → mid.dependencies ≡ st.dependencies
          → ((file : FilePath)
              → found ≡ some file
              → contains files (get_relative_file_path system settings file) ≡ true)
          → Ends system settings files st (k (found, mid)))
      → Ends system settings files st (r >>= k)
  Resolves-bind st stuck k h next = h
  Resolves-bind st (failed e) k h next = tt
  Resolves-bind st (done (found, mid)) k h next = next found mid h.0 h.1 h.2

  read-Ends :
      {A : Type 0} (st : Analysis S) (io : Io A) (k : A → Run (Analysis S))
      → ((a : A) → Ends system settings files st (k a))
      → Ends system settings files st (read io >>= k)
  read-Ends st (ok a) k h = h a
  read-Ends st (error e) k h = tt

  Grows-same : (g h : DiGraph) → h ≡ g → Grows g h
  Grows-same g h same id has = subst (λ (d : DiGraph). has_vertex d id ≡ true) (sym same) has

  follow_found-Ends :
      (visit : Visit system settings) (n : ℕ) (id : String) (found : Option FilePath)
      (st : Analysis S) (next : Analysis S → Run (Analysis S))
      → VisitsEnd system settings files visit n
      → IsSound system settings files st
      → unseen files st.dependencies ≤ n
      → ((file : FilePath)
          → found ≡ some file
          → contains files (get_relative_file_path system settings file) ≡ true)
      → ((later : Analysis S)
          → IsSound system settings files later
          → unseen files later.dependencies ≤ n
          → Ends system settings files later (next later))
      → Ends system settings files st (follow_found system settings visit id next (found, st))
  follow_found-Ends visit n id none st next ends h few known after = after st h few
  follow_found-Ends visit n id (some file) st next ends h few known after =
      let imported = with_import system settings file st in
      Ends-bind system settings files st (follow system settings visit id file imported) next
        (follow-Ends system settings files visit n id file imported ends
          (with_import-IsSound system settings files file st h) few (known file refl))
        (λ mid s grows.
          Ends-earlier system settings files st mid (next mid) grows (
            after mid s (omega (arith, unseen-Grows files st.dependencies mid.dependencies grows))))

  each_dependency-Ends :
      (visit : Visit system settings) (n : ℕ) (id : String) (parent : FilePath)
      (names : List String) (st : Analysis S)
      → IsCovered system settings files
      → VisitsEnd system settings files visit n
      → IsSound system settings files st
      → unseen files st.dependencies ≤ n
      → Ends system settings files st (each_dependency system settings visit id parent names st)
  unfolding each_dependency
  each_dependency-Ends visit n id parent [] st covered ends h few = (h, λ j has. has)
  each_dependency-Ends visit n id parent (name ∷ rest) st covered ends h few =
      elim (Bool-cases (contains settings.package_dependencies name)) [
        | inl e ↦ rw (e, Ends) (each_dependency-Ends visit n id parent rest st covered ends h few)
        | inr e ↦
            rw (e, Ends)
              (Resolves-bind st
                (get_internal_dep_path system settings
                  (normalize_path (join_path system settings parent name)) st)
                (follow_found system settings visit id
                  (λ st'. each_dependency system settings visit id parent rest st'))
                (get_internal_dep_path-Resolves system settings files
                  (normalize_path (join_path system settings parent name)) st covered h)
                λ found mid sound same known.
                  let fewer : unseen files mid.dependencies ≤ n = omega (
                    arith,
                    unseen-Grows files st.dependencies mid.dependencies
                        (Grows-same st.dependencies mid.dependencies same),
                  ) in
                  Ends-earlier system settings files st mid
                    (follow_found system settings visit id
                      (λ st'. each_dependency system settings visit id parent rest st')
                      (found, mid))
                    (Grows-same st.dependencies mid.dependencies same)
                    (follow_found-Ends visit n id found mid _ ends sound fewer known
                      (λ later s few'.
                        each_dependency-Ends visit n id parent rest later covered ends s few')))
      ]

  report-Ends :
      (each : String → FilePath → List String → Analysis S → Run (Analysis S)) (file : FilePath)
      (id : String) (names : Option (List String)) (st : Analysis S)
      → IsSound system settings files st
      → ((parent : FilePath) (l : List String)
          → Ends system settings files st (each id parent l st))
      → Ends system settings files st (after_report system settings each file id names st)
  report-Ends each file id none st h ends = (h, λ j has. has)
  report-Ends each file id (some names) st h ends = elim (Option-cases (system.parent file)) [
    | inl e ↦ rw (e, Ends) (h, λ j has. has)
    | inr (parent, e) ↦ rw (e, Ends) (ends parent names)
  ]

  analyse_file-VisitsEnd :
      (fuel : ℕ)
      → IsCovered system settings files
      → VisitsEnd system settings files (analyse_file system settings fuel) fuel
  unfolding analyse_file
  analyse_file-VisitsEnd zero covered file id st h few = absurd (omega arith)
  analyse_file-VisitsEnd (suc fuel) covered file id st h few =
      elim (Bool-cases (contains_text (system.text file) "d.ts")) [
        | inl e ↦ rw (e, Ends) (h, λ j has. has)
        | inr e ↦
            let added = with_vertex system settings id st in
            let grows = add_vertex-Grows system settings files id st.dependencies in
            let sound = with_vertex-IsSound system settings files id st h in
            rw (e, Ends)
              (read-Ends st (settings.analyse added.analyser file) _ λ report.
                let after = reported system settings id report added in
                Ends-earlier system settings files st after _ grows (
                  report-Ends (each_dependency system settings (analyse_file system settings fuel))
                    file id report.1 after
                    (reported-IsSound system settings files id report added sound)
                    λ parent l.
                      each_dependency-Ends (analyse_file system settings fuel) fuel id parent l
                        after covered (analyse_file-VisitsEnd fuel covered)
                        (reported-IsSound system settings files id report added sound)
                        (omega
                          (arith, unseen-Grows files st.dependencies added.dependencies grows))))
      ]

  unseen-le-length : (l : List String) (g : DiGraph) → unseen l g ≤ length l
  unseen-le-length [] g = omega arith
  unseen-le-length (file ∷ l) g = ground (arith, unseen-le-length l g)

  abbrev EndsSound : Analysis S → Run (Analysis S) → Type 0
  EndsSound = Ends system settings files

  found_or_not-Ends :
      (found : Bool) (visited : Run (Analysis S)) (st : Analysis S)
      → IsSound system settings files st
      → EndsSound st visited
      → EndsSound st (if found then visited else done st)
  found_or_not-Ends true visited st h ends = ends
  found_or_not-Ends false visited st h ends = (h, λ j has. has)

  unless_missing-Ends :
      (ignored : Bool) (existing : Io Bool) (visited : Run (Analysis S)) (st : Analysis S)
      → IsSound system settings files st
      → EndsSound st visited
      → EndsSound st (unless_missing system settings ignored existing visited st)
  unless_missing-Ends false existing visited st h ends = ends
  unless_missing-Ends true existing visited st h ends =
      read-Ends st existing _ λ found. found_or_not-Ends found visited st h ends

  analyse_entry-Ends :
      (file : FilePath) (st : Analysis S)
      → IsCovered system settings files
      → IsSound system settings files st
      → EndsSound st (analyse_entry system settings (length files + 1) file st)
  analyse_entry-Ends file st covered h =
      let fuel = length files + 1 in
      let few : unseen files st.dependencies < fuel =
        omega (arith, unseen-le-length files st.dependencies) in
      let visited =
        analyse_file-VisitsEnd fuel covered file (get_relative_file_path system settings file) st h
          few in
      unless_missing-Ends settings.ignore_enoent (system.exists file) _ st h visited

  reset-IsSound : (st : Analysis S) → IsSound system settings files (reset system settings st)
  unfolding get
  reset-IsSound st = record {
    graph = empty-IsWellFormed;
    cached = λ key file e. cc;
    counted = refl;
  }

  analyse_entries-Ends :
      (entries : List FilePath) (st : Analysis S)
      → IsCovered system settings files
      → IsSound system settings files st
      → EndsSound st (analyse_entries system settings (length files + 1) entries st)
  unfolding analyse_entries
  analyse_entries-Ends [] st covered h = (h, λ j has. has)
  analyse_entries-Ends (file ∷ rest) st covered h =
      let cleaned = normalize_and_clean_entry_file system settings file in
      Ends-bind system settings files st
        (analyse_entry system settings (length files + 1) cleaned st) _
        (analyse_entry-Ends cleaned st covered h)
        (λ mid sound grows.
          Ends-earlier system settings files st mid _ grows
            (analyse_entries-Ends rest mid covered sound))

  -- A run returns a sound state with the number of its imports, or fails by reading, and is not stuck.
  abbrev pub Finishes : Run (Analysis S) → Type 0
  Finishes stuck = ⊥
  Finishes (failed e) = Unit
  Finishes (done after) =
      IsSound system settings files after
      × (after.number_of_imports_detected ≡ length after.unique_imports)

  counted-Finishes :
      (before : Analysis S) (r : Run (Analysis S))
      → EndsSound before r
      → Finishes (r >>= λ after. done (count_imports system settings after))
  counted-Finishes before stuck h = h
  counted-Finishes before (failed e) h = tt
  counted-Finishes before (done after) h =
      (record { graph = h.0.graph; cached = h.0.cached; counted = h.0.counted }, refl)

  -- Where each dependency that is found on the file system is one of `files`, the analysis of the entry
  -- files does not run out of a fuel of one more than the files; unless reading fails, it returns a graph
  -- that is well formed, a report for each file that it counts, and the number of the imports.
  pub analyse-Finishes :
      (entries : List FilePath) (st : Analysis S)
      → IsCovered system settings files
      → Finishes (analyse system settings (length files + 1) entries st)
  unfolding analyse
  analyse-Finishes entries st covered =
      counted-Finishes (reset system settings st) _
        (analyse_entries-Ends entries (reset system settings st) covered (reset-IsSound st))
