-- ===== src/SourceFile.antt =====
-- What the analysis of one source collects: crates/js-x-ray/src/source_file.rs. `none` is a panic of
-- `generate_warning`.
pub mod Literals
pub mod Dependencies
pub mod Paths
pub mod Analysis
use Prim.Native.Char.{code}
use js_x_ray_rs.Prelude.{
  ℕ, zero, suc, ◌+◌, ◌-◌, String, Bool, true, false, not, ◌&&◌, ◌||◌, Option, none, some, ◌>>=◌,
  List, [], ◌∷◌, ◌++◌, ◌==◌, if◌then◌else◌, leb, ltb, eqb, length, get_elem?, modify_elem,
  unwrap_or, is_some_and, strip_suffix, is_blank, split, join, ◌<>◌, flat_map, ◌≡◌, refl,
}
use js_x_ray_rs.Prelude.IndexMap
use js_x_ray_rs.Prelude.IndexMap.{IndexMap, insert, contains_key}
use js_x_ray_rs.Json.{Fields, bool, end, set_field}
use js_x_ray_rs.Estree.{SourceLocation, root_location}
use js_x_ray_rs.Utils.Location.{SourceArrayLocation, to_array_location}
use js_x_ray_rs.Collectable.{CollectableSetRegistry, add_to_registry}
use js_x_ray_rs.Tracer.{VariableTracer}
use js_x_ray_rs.Obfuscation.{Deobfuscator}
use js_x_ray_rs.Warnings.{
  Warning, WarningLocation, multiple, null, single, generate_warning, GenerateWarningOptions,
  no_options,
}

pub record Dependency : Type 0 where
  pub unsafe_ : Bool
  pub in_try : Bool
  pub location : Option SourceLocation

pub data Sensitivity : Type 0 where
  conservative aggressive : Sensitivity

-- The flags are a set, by insertion.
pub record SourceFile : Type 0 where
  pub tracer : VariableTracer
  pub in_try_statement : Bool
  pub dependency_auto_warning : Bool
  pub deobfuscator : Deobfuscator
  pub dependencies : IndexMap Dependency
  pub encoded_literals : IndexMap ℕ
  pub warnings : List Warning
  pub flags : List String
  pub path_location : Option String
  pub sensitivity : Sensitivity
  pub metadata : Option Fields
  pub collectables_set_registry : CollectableSetRegistry
  pub package_name : Option String

-- `..` on the segments so far, the last of them first.
abbrev pub climb : List String → List String
climb [] = ".." ∷ []
climb (last ∷ rest) = if last == ".." then ".." ∷ last ∷ rest else rest

-- The loop of `posix_join`.
abbrev pub push_segment : String → List String → List String
push_segment part out =
    if part == "" || part == "." then out else if part == ".." then climb out else part ∷ out

abbrev pub push_segments : List String → List String → List String
push_segments [] out = out
push_segments (part ∷ rest) out = push_segments rest (push_segment part out)

abbrev pub reversed : List String → List String → List String
reversed [] onto = onto
reversed (s ∷ rest) onto = reversed rest (s ∷ onto)

abbrev starts_with_slash : String → Bool
starts_with_slash String.[] = false
starts_with_slash (String.◌∷◌ c s) = eqb (code c) b'/'

abbrev is_absolute : List String → Bool
is_absolute [] = false
is_absolute (part ∷ rest) = starts_with_slash part

unfoldable pub posix_join : List String → String
unfolding split join
posix_join parts =
    let out = push_segments (flat_map (split b'/') parts) [] in
    let segments = join "/" (reversed out []) in
    let joined = if is_absolute parts then "/" <> segments else segments in
    if joined == "" then "." else joined

-- `SourceFilePath::resolve`
unfoldable pub resolve : Option String → List String → String
unfolding posix_join
resolve none parts = posix_join parts
resolve (some location) parts = posix_join (location ∷ parts)

-- `warnings.push(generate_warning(...))`
abbrev pub warn : String → GenerateWarningOptions → SourceFile → Option SourceFile
warn kind options file = do
  warning ← generate_warning kind options
  some (record file { warnings = file.warnings ++ warning ∷ [] })

abbrev pub value_at : String → Option SourceLocation → GenerateWarningOptions
value_at value location = record no_options { value = some value; location = location }

-- The dependency is collected, unless it is the package itself.
abbrev pub collect_dependency : String → Option SourceLocation → Bool → SourceFile → SourceFile
collect_dependency name location unsafe_ file =
    if is_some_and (λ own. own == name) file.package_name
    then file
    else (let metadata = unwrap_or end file.metadata in
        let metadata' =
          set_field "unsafe" (bool unsafe_)
            (set_field "inTry" (bool file.in_try_statement) metadata) in
        record file {
          collectables_set_registry =
              add_to_registry "dependency" name file.path_location (to_array_location location)
                (some metadata') file.collectables_set_registry;
        })

abbrev pub keep_dependency : String → Option SourceLocation → Bool → SourceFile → SourceFile
keep_dependency name location unsafe_ file = record file {
  dependencies =
      insert name
        (record { unsafe_ = unsafe_; in_try = file.in_try_statement; location = location })
        file.dependencies;
}

unfoldable pub add_dependency_with :
    String → Option SourceLocation → Bool → SourceFile → Option SourceFile
unfolding is_blank strip_suffix to_array_location add_to_registry generate_warning
add_dependency_with name location unsafe_ file =
    let dependency_name = unwrap_or name (strip_suffix name "/") in
    let collected =
      collect_dependency dependency_name location unsafe_
        (keep_dependency dependency_name location unsafe_ file) in
    if is_blank name
    then some file
    else if file.dependency_auto_warning
    then warn "unsafe-import" (value_at dependency_name location) collected
    else some collected

unfoldable pub add_dependency : String → Option SourceLocation → SourceFile → Option SourceFile
unfolding add_dependency_with
add_dependency name location file =
    add_dependency_with name location file.dependency_auto_warning file

-- `warnings.get_mut(index)`, and one more location where it has a list of them.
abbrev pub add_location : SourceArrayLocation → Warning → Warning
add_location location warning = elim warning.location [
  | multiple locations ↦ record warning { location = multiple (locations ++ location ∷ []) }
  | single l ↦ warning
  | null ↦ warning
]

-- The value has a warning already.
abbrev pub add_occurrence : ℕ → Option SourceLocation → SourceFile → SourceFile
add_occurrence index location file = record file {
  warnings =
      modify_elem index (add_location (to_array_location (some (unwrap_or root_location location))))
        file.warnings;
}

abbrev pub add_first_occurrence : String → Option SourceLocation → SourceFile → Option SourceFile
add_first_occurrence value location file = do
  warned ← warn "encoded-literal" (value_at value location) file
  some (record warned {
    encoded_literals = insert value (length warned.warnings - 1) warned.encoded_literals;
  })

unfoldable pub add_encoded_literal : String → Option SourceLocation → SourceFile → Option SourceFile
unfolding generate_warning to_array_location root_location
add_encoded_literal value location file =
    let new = add_first_occurrence value location file in
    if ltb 10 (length file.encoded_literals)
    then some file
    else elim (IndexMap.get value file.encoded_literals) [
      | none ↦ new
      | some index ↦ some (add_occurrence index location file)
    ]

join_runs : posix_join ("/a/b" ∷ "../c/./d" ∷ []) ≡ "/a/c/d"
unfolding posix_join
join_runs = refl
