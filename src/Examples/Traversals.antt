-- ===== src/Examples/Traversals.antt =====
-- A traversal of two files: every import leads to `b.js`.
use js_x_ray_rs.Prelude.{
  ◌+◌, String, true, Option, none, some, List, [], ◌∷◌, ◌≡◌, refl, length, ap, subst,
}
use js_x_ray_rs.Prelude.IndexMap.{contains}
use js_x_ray_rs.DiGraph.{empty}
use js_x_ray_rs.EntryFiles.{FilePath, normal}
use js_x_ray_rs.EntryFiles.Traversal.{
  ok, Run, done, System, Settings, Analysis, get_relative_file_path, resolve_internal_dep_path,
  analyse,
}
use js_x_ray_rs.EntryFiles.Traversal.Ends.{IsCovered}
use js_x_ray_rs.EntryFiles.Traversal.Returns.{Finishes, analyse-Finishes}

abbrev first_name : FilePath → String
first_name [] = "."
first_name (normal name ∷ path) = name
first_name _ = "/"

abbrev system : System
system = record {
  components = λ s. normal "b.js" ∷ [];
  text = first_name;
  extension = λ path. none;
  parent = λ path. some [];
  exists = λ path. ok true;
}

abbrev settings : Settings Unit
settings = record {
  allowed_extensions = "js" ∷ [];
  root_path = none;
  package_dependencies = "fs" ∷ [];
  ignore_enoent = true;
  analyse = λ s file. ok (s, some ("fs" ∷ "./b" ∷ []));
}

abbrev files : List String
files = "a.js" ∷ "b.js" ∷ []

abbrev file_of : Run (Option FilePath) → FilePath
file_of (done (some file)) = file
file_of _ = []

files-IsCovered : IsCovered system settings files
unfolding resolve_internal_dep_path get_relative_file_path
files-IsCovered path file h =
    let same : normal "b.js" ∷ [] ≡ file = ap file_of h in
    subst (λ f. contains files (first_name f) ≡ true) same refl

abbrev start : Analysis Unit
start = record {
  dependencies = empty;
  number_of_imports_detected = 7;
  number_of_files_processed = 7;
  unique_imports = [];
  dep_path_cache = [];
  out = [];
  analyser = tt;
}

analyse-Finishes_example :
    Finishes system settings files
      (analyse system settings (length files + 1) ((normal "a.js" ∷ []) ∷ []) start)
analyse-Finishes_example =
    analyse-Finishes system settings files ((normal "a.js" ∷ []) ∷ []) start files-IsCovered
