-- ===== src/EntryFiles/Traversal.antt =====
-- The traversal from an entry file: `analyse_file`, `get_internal_dep_path` and
-- `resolve_internal_dep_path` of crates/js-x-ray/src/entry_files_analyser.rs. The splitting of paths,
-- the file system and the analyser of one file, with its state `S`, are parameters.
pub mod Ends
pub mod Returns
use js_x_ray_rs.Prelude.{
  ℕ, zero, suc, ◌+◌, String, Bool, true, false, not, ◌&&◌, ◌||◌, Option, none, some, List, [], ◌∷◌,
  ◌++◌, ◌==◌, if◌then◌else◌, is_some, contains_text, ◌<>◌, length,
}
use js_x_ray_rs.Prelude.IndexMap
use js_x_ray_rs.Prelude.IndexMap.{IndexMap, contains, insert, insert_set}
use js_x_ray_rs.DiGraph.{DiGraph, empty, has_vertex, add_vertex, add_edge}
use js_x_ray_rs.EntryFiles.{Component, FilePath, root_dir, normalize_path, relative_path}

-- What a parameter that reads files returns: `io::Result`.
pub data Io (A : Type 0) : Type 0 where
  ok : A → Io A
  error : String → Io A

-- A run of the traversal returns, fails with an error, or runs out of fuel.
pub data Run (A : Type 0) : Type 0 where
  done : A → Run A
  failed : String → Run A
  stuck : Run A

infixl 5 ◌>>=◌
abbrev pub ◌>>=◌ : {A B : Type 0} → Run A → (A → Run B) → Run B
done a >>= f = f a
failed e >>= f = failed e
stuck >>= f = stuck

abbrev pub read : {A : Type 0} → Io A → Run A
read (ok a) = done a
read (error e) = failed e

-- `std::path` and `std::fs`.
pub record System : Type 0 where
  pub components : String → FilePath
  pub text : FilePath → String
  pub extension : FilePath → Option String
  pub parent : FilePath → Option FilePath
  pub exists : FilePath → Io Bool

-- The settings of `EntryFilesAnalyser`, and `AstAnalyser::analyse_file`: the dependencies of a file
-- whose report is ok.
pub record Settings (S : Type 0) : Type 0 where
  pub allowed_extensions : List String
  pub root_path : Option FilePath
  pub package_dependencies : List String
  pub ignore_enoent : Bool
  pub analyse : S → FilePath → Io (S × Option (List String))

pub record Analysis (S : Type 0) : Type 0 where
  pub dependencies : DiGraph
  pub number_of_imports_detected : ℕ
  pub number_of_files_processed : ℕ
  pub unique_imports : List String
  pub dep_path_cache : IndexMap (Option FilePath)
  pub out : List (String × Bool)
  pub analyser : S

module _ {S : Type 0} (system : System) (settings : Settings S) where
  -- `Path::join`
  abbrev pub join_path : FilePath → String → FilePath
  join_path parent name = elim (system.components name) [
    | [] ↦ parent
    | root_dir ∷ rest ↦ root_dir ∷ rest
    | c ∷ rest ↦ parent ++ (c ∷ rest)
  ]

  unfoldable pub get_relative_file_path : FilePath → String
  unfolding relative_path
  get_relative_file_path file = elim settings.root_path [
    | none ↦ system.text file
    | some root ↦ relative_path root file
  ]

  -- The loop over the extensions, for a path without one.
  abbrev pub try_extensions : FilePath → List String → Run (Option FilePath)
  try_extensions file [] = done none
  try_extensions file (ext ∷ rest) =
      let candidate = system.components (system.text file <> "." <> ext) in
      let later = try_extensions file rest in
      read (system.exists candidate) >>= λ found. if found then done (some candidate) else later

  unfoldable pub resolve_internal_dep_path : FilePath → Run (Option FilePath)
  resolve_internal_dep_path file = elim (system.extension file) [
    | none ↦ try_extensions file settings.allowed_extensions
    | some extension ↦
        if contains settings.allowed_extensions extension
        then (read (system.exists file) >>= λ found. done (if found then some file else none))
        else done none
  ]

  abbrev pub keep_path : String → Option FilePath → Analysis S → Analysis S
  keep_path key resolved st = record st { dep_path_cache = insert key resolved st.dep_path_cache }

  -- The cache is keyed by the path's text.
  unfoldable pub get_internal_dep_path : FilePath → Analysis S → Run (Option FilePath × Analysis S)
  unfolding resolve_internal_dep_path
  get_internal_dep_path file st = elim (IndexMap.get (system.text file) st.dep_path_cache) [
    | some cached ↦ done (cached, st)
    | none ↦ resolve_internal_dep_path file >>= λ resolved.
        done (resolved, keep_path (system.text file) resolved st)
  ]

  abbrev pub Visit : Type 0
  Visit = FilePath → String → Analysis S → Run (Analysis S)

  abbrev pub with_vertex : String → Analysis S → Analysis S
  with_vertex id st = record st { dependencies = add_vertex id st.dependencies }

  abbrev pub with_edge : String → String → Analysis S → Analysis S
  with_edge from to st = record st { dependencies = add_edge from to st.dependencies }

  abbrev pub with_import : FilePath → Analysis S → Analysis S
  with_import file st = record st {
    unique_imports = insert_set (system.text file) st.unique_imports;
  }

  -- A dependency that was found: it is analysed where it is new, and the edge is added.
  abbrev pub follow : Visit → String → FilePath → Analysis S → Run (Analysis S)
  follow visit relative_file dep_file st =
      let dep_relative = get_relative_file_path dep_file in
      let visited = visit dep_file dep_relative (with_vertex dep_relative st) in
      (if has_vertex st.dependencies dep_relative then done st else visited) >>= λ after.
      done (with_edge relative_file dep_relative after)

  -- The rest of a round of the loop, and what comes after it.
  abbrev pub follow_found :
      Visit
      → String
      → (Analysis S → Run (Analysis S))
      → Option FilePath × Analysis S
      → Run (Analysis S)
  follow_found visit relative_file next (none, st) = next st
  follow_found visit relative_file next (some dep_file, st) =
      follow visit relative_file dep_file (with_import dep_file st) >>= next

  -- The loop over the dependencies of a file.
  unfoldable pub each_dependency :
      Visit → String → FilePath → List String → Analysis S → Run (Analysis S)
  unfolding get_relative_file_path get_internal_dep_path insert_set normalize_path add_edge
      add_vertex
  each_dependency visit relative_file parent [] st = done st
  each_dependency visit relative_file parent (name ∷ rest) st =
      if contains settings.package_dependencies name
      then each_dependency visit relative_file parent rest st
      else (get_internal_dep_path (normalize_path (join_path parent name)) st
          >>= follow_found visit relative_file
              (λ st'. each_dependency visit relative_file parent rest st'))

  -- The state after the report on a file.
  abbrev pub reported : String → S × Option (List String) → Analysis S → Analysis S
  reported relative_file (analyser, report) st = record st {
    analyser = analyser;
    number_of_files_processed = st.number_of_files_processed + 1;
    out = st.out ++ (relative_file, is_some report) ∷ [];
  }

  abbrev pub after_report :
      (String → FilePath → List String → Analysis S → Run (Analysis S))
      → FilePath
      → String
      → Option (List String)
      → Analysis S
      → Run (Analysis S)
  after_report each file relative_file none st = done st
  after_report each file relative_file (some names) st = elim (system.parent file) [
    | none ↦ done st
    | some parent ↦ each relative_file parent names st
  ]

  -- `analyse_file`
  unfoldable pub analyse_file : ℕ → FilePath → String → Analysis S → Run (Analysis S)
  unfolding each_dependency contains_text add_vertex
  analyse_file zero file relative_file st = stuck
  analyse_file (suc fuel) file relative_file st =
      let added = with_vertex relative_file st in
      if contains_text (system.text file) "d.ts"
      then done st
      else read (settings.analyse added.analyser file) >>= λ report.
          after_report (each_dependency (analyse_file fuel)) file relative_file report.1
            (reported relative_file report added)

  -- `analyse`: the state is reset, each entry file is analysed once, and the imports are counted.
  abbrev pub reset : Analysis S → Analysis S
  reset st = record {
    dependencies = empty;
    number_of_imports_detected = 0;
    number_of_files_processed = 0;
    unique_imports = [];
    dep_path_cache = [];
    out = [];
    analyser = st.analyser;
  }

  abbrev is_absolute : FilePath → Bool
  is_absolute (root_dir ∷ path) = true
  is_absolute _ = false

  abbrev clean_under : Option FilePath → FilePath → FilePath
  unfolding normalize_path
  clean_under none normalized = normalized
  clean_under (some root) normalized =
      if is_absolute normalized then normalized else normalize_path (root ++ normalized)

  unfoldable pub normalize_and_clean_entry_file : FilePath → FilePath
  unfolding clean_under
  normalize_and_clean_entry_file file = clean_under settings.root_path (normalize_path file)

  -- With `ignore_enoent` an entry file that does not exist is passed over.
  abbrev pub unless_missing : Bool → Io Bool → Run (Analysis S) → Analysis S → Run (Analysis S)
  unless_missing false existing visited st = visited
  unless_missing true existing visited st =
      read existing >>= λ found. if found then visited else done st

  abbrev pub analyse_entry : ℕ → FilePath → Analysis S → Run (Analysis S)
  analyse_entry fuel file st =
      unless_missing settings.ignore_enoent (system.exists file)
        (analyse_file fuel file (get_relative_file_path file) st) st

  unfoldable pub analyse_entries : ℕ → List FilePath → Analysis S → Run (Analysis S)
  unfolding analyse_file get_relative_file_path normalize_and_clean_entry_file
  analyse_entries fuel [] st = done st
  analyse_entries fuel (file ∷ rest) st =
      analyse_entry fuel (normalize_and_clean_entry_file file) st >>= λ after.
      analyse_entries fuel rest after

  abbrev pub count_imports : Analysis S → Analysis S
  count_imports st = record st { number_of_imports_detected = length st.unique_imports }

  unfoldable pub analyse : ℕ → List FilePath → Analysis S → Run (Analysis S)
  unfolding analyse_entries
  analyse fuel unique_entries st =
      analyse_entries fuel unique_entries (reset st) >>= λ after. done (count_imports after)
