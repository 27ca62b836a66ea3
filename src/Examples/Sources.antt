-- ===== src/Examples/Sources.antt =====
-- Runs on a source file, and of the probe runner.
use js_x_ray_rs.Warnings.{WarningData, information, warning_of, no_options}
use js_x_ray_rs.Prelude.{
  map, ℕ, suc, String, true, false, not, Option, none, some, List, [], ◌∷◌, ◌≡◌, arith, retain,
  is_some_and, ◌==◌,
}
use js_x_ray_rs.Prelude.IndexMap.{get, insert_set}
use js_x_ray_rs.Json.{null}
use js_x_ray_rs.Collectable.{new, new_registry}
use js_x_ray_rs.SourceFile.{SourceFile, conservative, add_encoded_literal, add_dependency_with}
use js_x_ray_rs.SourceFile.Literals.{IsIndexed, add_encoded_literal-IsIndexed}
use js_x_ray_rs.SourceFile.Dependencies.{IsAdded, add_dependency_with-IsAdded}
use js_x_ray_rs.Tracer
use js_x_ray_rs.Obfuscation.{Deobfuscator}
use js_x_ray_rs.Obfuscation.Counter.{NodeCounter}
use js_x_ray_rs.SourceFile.Analysis.{Mean, get_result}
use js_x_ray_rs.SourceFile.Analysis.Sound.{IsSound}
use js_x_ray_rs.SourceFile.Analysis.Runs.{
  run, run-IsSound, adding_dependency, adding_encoded_literal, analyzing_literal,
  setting_auto_warning, bookkeeping,
}
use js_x_ray_rs.SourceFile.Analysis.Result.{IsReport, get_result-IsReport}
use js_x_ray_rs.Probe.{Probe, ProbeCtx, matched, walk_probes}
use js_x_ray_rs.Probe.Groups.{walk_probes-break}
use js_x_ray_rs.Examples.Trees.{ascii, call}

abbrev untouched : Deobfuscator
untouched =
    let counter : NodeCounter = record {
      kind = "Property";
      lookup = none;
      name = "Property";
      filter_fn = λ n. true;
      count = 0;
      properties = [];
    } in
    record {
      deep_binary_expression = 0;
      encoded_array_value = 0;
      has_dictionary_string = false;
      has_prefixed_identifiers = false;
      morse_literals = [];
      literal_scores = [];
      identifiers = [];
      counters = record {
        variable_declaration = counter;
        assignment_expression = counter;
        function_declaration = counter;
        member_expression = counter;
        property = counter;
        double_unary_expression = counter;
        variable_declarator = counter;
      };
    }

abbrev empty_file : SourceFile
empty_file = record {
  tracer = Tracer.new;
  in_try_statement = true;
  dependency_auto_warning = true;
  deobfuscator = untouched;
  dependencies = [];
  encoded_literals = [];
  warnings = [];
  flags = [];
  path_location = some "a.js";
  sensitivity = conservative;
  metadata = none;
  collectables_set_registry = new_registry (new "dependency" ∷ []);
  package_name = none;
}

empty_file-IsIndexed : IsIndexed empty_file
unfolding get
empty_file-IsIndexed = record { indexed = λ value index e. cc; few = omega arith }

add_encoded_literal-IsIndexed_example :
    (file : SourceFile) × (add_encoded_literal "68656c6c6f" none empty_file ≡ some file)
    × IsIndexed file
add_encoded_literal-IsIndexed_example =
    add_encoded_literal-IsIndexed "68656c6c6f" none empty_file empty_file-IsIndexed

add_dependency_with-IsAdded_example :
    (after : SourceFile) × (add_dependency_with "fs/" none false empty_file ≡ some after)
    × IsAdded "fs/" none false empty_file after
add_dependency_with-IsAdded_example =
    add_dependency_with-IsAdded "fs/" none false empty_file empty_file-IsIndexed

-- A probe that counts its runs and breaks its group.
abbrev counting : Option String → Probe ℕ Unit Unit
counting group = record {
  name = "counting";
  node_types = none;
  initialize = λ n. n;
  validate_node = λ node ctx n. (n, some null);
  main = λ node data_ ctx n. (suc n, matched);
  finalize = λ n. n;
  teardown = λ n. n;
  break_on_match = true;
  break_group = group;
  on_tracer_event = λ event n. n;
}

abbrev three : List (Probe ℕ Unit Unit)
three = counting (some "import") ∷ counting (some "regex") ∷ counting (some "import") ∷ []

abbrev no_call : ProbeCtx Unit
no_call = record { traced_identifier = none; traced_data = none }

walk_probes-break_example :
    walk_probes call no_call "CallExpression" (insert_set "import" []) three 0
    ≡ walk_probes call no_call "CallExpression" []
        (retain
          (λ (probe : Probe ℕ Unit Unit). not (is_some_and (λ g. "import" == g) probe.break_group))
          three)
        0
walk_probes-break_example = walk_probes-break call no_call "CallExpression" three "import" [] 0

run-IsSound_example :
    (after : SourceFile) × (run ascii
        (some "a.js")
        (record { metadata = none; package_name = none; collectable_registry = none })
        (setting_auto_warning true
          ∷ adding_dependency "fs" none
          ∷ bookkeeping call
          ∷ analyzing_literal call true
          ∷ adding_encoded_literal "68" none
          ∷ [])
      ≡ some after)
    × IsSound after
run-IsSound_example =
    run-IsSound ascii (some "a.js")
      (record { metadata = none; package_name = none; collectable_registry = none })
      (setting_auto_warning true
        ∷ adding_dependency "fs" none
        ∷ bookkeeping call
        ∷ analyzing_literal call true
        ∷ adding_encoded_literal "68" none
        ∷ [])

abbrev some_row : WarningData
some_row = record {
  name = "encoded-literal";
  i18n = "sast_warnings.encoded_literal";
  severity = information;
  experimental = false;
}

abbrev eleven : List String
eleven = "a" ∷ "b" ∷ "c" ∷ "d" ∷ "e" ∷ "f" ∷ "g" ∷ "h" ∷ "i" ∷ "j" ∷ "k" ∷ []

-- More than ten encoded literals, a warning of one and another, and an identifier.
abbrev full_file : SourceFile
full_file = record empty_file {
  deobfuscator = record untouched { identifiers = record { name = "ab"; kind = "Property" } ∷ [] };
  encoded_literals = map (λ value. (value, 0)) eleven;
  warnings =
      warning_of "encoded-literal" no_options some_row
      ∷ warning_of "shady-link" no_options some_row
      ∷ [];
}

get_result-IsReport_example :
    (after : SourceFile) × (ids : Mean) × (score : Mean) × (get_result ascii false full_file
      ≡ some (after, ids, score))
    × IsReport false full_file after ids score
get_result-IsReport_example =
    get_result-IsReport ascii false full_file ((λ empty. ground (arith, empty)), tt)
