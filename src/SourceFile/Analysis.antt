-- ===== src/SourceFile/Analysis.antt =====
-- The construction of a source file, the analysis of its literals, its bookkeeping and its result
-- (crates/js-x-ray/src/source_file.rs). A mean is a sum and a number of values.
pub mod Sound
pub mod Runs
pub mod Result
use js_x_ray_rs.Prelude.{
  ℕ, zero, suc, ◌+◌, ◌*◌, ◌/◌, ◌%◌, ◌^◌, String, Bool, true, false, not, ◌&&◌, ◌||◌, Option, none,
  some, ◌>>=◌, List, [], ◌∷◌, ◌++◌, ◌==◌, map, retain, if◌then◌else◌, leb, ltb, eqb, length,
  unwrap_or, is_some_and, codes, decimal,
}
use js_x_ray_rs.Json
use js_x_ray_rs.Json.{Node, Fields, get_str, is_null}
use js_x_ray_rs.Std.{Std}
use js_x_ray_rs.Estree.{SourceLocation, location_of, is_type}
use js_x_ray_rs.Utils.Base64.{is_string_base64}
use js_x_ray_rs.Utils.Svg.Literals.{is_svg}
use js_x_ray_rs.Collectable.{CollectableSetRegistry, new_registry}
use js_x_ray_rs.Tracer
use js_x_ray_rs.Tracer.{enable_default_tracing}
use js_x_ray_rs.Tracer.Walk.Declarator
use js_x_ray_rs.Obfuscation
use js_x_ray_rs.Obfuscation.{Deobfuscator, analyze_string, assert_obfuscation}
use js_x_ray_rs.Obfuscation.Score.{utf16_count}
use js_x_ray_rs.Obfuscation.Verify.{ObfuscatedIdentifier}
use js_x_ray_rs.Warnings.{Warning, generate_warning, GenerateWarningOptions, no_options}
use js_x_ray_rs.SourceFile.{SourceFile, Sensitivity, conservative, warn, add_encoded_literal}

pub record SourceFileOptions : Type 0 where
  pub metadata : Option Fields
  pub package_name : Option String
  pub collectable_registry : Option CollectableSetRegistry

-- The file around a new deobfuscator.
abbrev pub fresh : Option String → SourceFileOptions → Deobfuscator → SourceFile
unfolding enable_default_tracing
fresh source_location options deobfuscator = record {
  tracer = enable_default_tracing Tracer.new;
  in_try_statement = false;
  dependency_auto_warning = false;
  deobfuscator = deobfuscator;
  dependencies = [];
  encoded_literals = [];
  warnings = [];
  flags = [];
  path_location = source_location;
  sensitivity = conservative;
  metadata = options.metadata;
  collectables_set_registry = unwrap_or (new_registry []) options.collectable_registry;
  package_name = options.package_name;
}

-- `none` is a panic of `Deobfuscator::new`.
unfoldable pub new : Option String → SourceFileOptions → Option SourceFile
unfolding enable_default_tracing Obfuscation.new
new source_location options = do
  deobfuscator ← Obfuscation.new
  some (fresh source_location options deobfuscator)

abbrev pub hex_seq : String
hex_seq = "\\\\x[a-fA-F0-9]{2}"

abbrev pub unicode_seq : String
unicode_seq = "\\\\u[a-fA-F0-9]{4}"

-- The counter is a `u32`.
abbrev pub count_encoded_array_value : Deobfuscator → Deobfuscator
count_encoded_array_value d = record d {
  encoded_array_value = (d.encoded_array_value + 1) % 2 ^ 32;
}

-- Whether the text, as it is written in the source, is an encoded one.
unfoldable pub is_encoded : Std → Node → String → Bool
unfolding get_str is_string_base64
is_encoded std node value =
    let raw = get_str "raw" node in
    let has_hexadecimal_sequence = is_some_and (λ r. std.is_match hex_seq (codes r)) raw in
    let has_unicode_sequence = is_some_and (λ r. std.is_match unicode_seq (codes r)) raw in
    (has_hexadecimal_sequence || has_unicode_sequence)
    && is_string_base64 std value (record {
      allow_mime = none;
      mime_required = none;
      padding_required = none;
      allow_empty = some false;
    })

abbrev pub analyze_value : Std → Node → Bool → String → SourceFile → Option SourceFile
unfolding analyze_string is_encoded add_encoded_literal location_of
analyze_value std node in_array_expr value file =
    let analyzed = record file { deobfuscator = analyze_string value file.deobfuscator } in
    if is_encoded std node value
    then if in_array_expr
      then some (record analyzed { deobfuscator = count_encoded_array_value analyzed.deobfuscator })
      else add_encoded_literal value (location_of node) analyzed
    else some analyzed

unfoldable pub analyze_literal : Std → Node → Bool → SourceFile → Option SourceFile
unfolding get_str is_svg analyze_string is_encoded add_encoded_literal location_of
analyze_literal std node in_array_expr file = elim (get_str "value" node) [
  | none ↦ some file
  | some value ↦
      if is_svg std node then some file else analyze_value std node in_array_expr value file
]

-- The walks of the tracer and of the deobfuscator, and whether a `try` with a handler is open.
unfoldable pub walk_bookkeeping : Std → Node → SourceFile → SourceFile
unfolding Tracer.Walk.Declarator.walk Obfuscation.walk is_type Json.get is_null
walk_bookkeeping std node file =
    let walked = record file {
      tracer = Tracer.Walk.Declarator.walk std node file.tracer;
      deobfuscator = Obfuscation.walk std node file.deobfuscator;
    } in
    if is_type node "TryStatement" && is_some_and (λ h. not (is_null h)) (Json.get "handler" node)
    then record walked { in_try_statement = true }
    else if is_type node "CatchClause"
    then record walked { in_try_statement = false }
    else walked

pub record Mean : Type 0 where
  pub sum : ℕ
  pub count : ℕ

abbrev pub sum_of : List ℕ → ℕ
sum_of [] = 0
sum_of (n ∷ ns) = n + sum_of ns

unfoldable pub mean : List ℕ → Mean
mean arr = record { sum = sum_of arr; count = length arr }

-- The mean of nothing is 0.
unfoldable pub js_float_string : Std → Mean → String
unfolding decimal
js_float_string std value =
    if eqb value.count 0
    then "0"
    else if eqb (value.sum % value.count) 0
    then decimal (value.sum / value.count)
    else std.quotient_text value.sum value.count

-- The lengths of the identifiers that are no properties.
unfoldable pub ids_lengths : List ObfuscatedIdentifier → List ℕ
ids_lengths identifiers =
    map (λ (value : ObfuscatedIdentifier). utf16_count (codes value.name))
      (retain (λ (value : ObfuscatedIdentifier). not (value.kind == "Property")) identifiers)

abbrev pub value_only : String → GenerateWarningOptions
value_only value = record no_options { value = some value }

abbrev pub warn_if : Bool → String → GenerateWarningOptions → SourceFile → Option SourceFile
unfolding generate_warning
warn_if test kind options file =
    let warned = warn kind options file in if test then warned else some file

abbrev pub warn_obfuscator : Option String → SourceFile → Option SourceFile
unfolding generate_warning
warn_obfuscator none file = some file
warn_obfuscator (some name) file = warn "obfuscated-code" (value_only name) file

-- `filtered_len > 5 && ids_length_avg <= 1.5`, unless the code is minified.
abbrev pub has_short_identifiers : Bool → Mean → Bool
has_short_identifiers is_minified ids =
    not is_minified && ltb 5 ids.count && leb (2 * ids.sum) (3 * ids.count)

-- `string_score >= 3.0`
abbrev pub is_suspicious : Mean → Bool
is_suspicious score = ltb 0 score.count && leb (3 * score.count) score.sum

abbrev pub is_full : SourceFile → Bool
is_full file = ltb 10 (length file.encoded_literals)

abbrev pub without_encoded : SourceFile → SourceFile
without_encoded file = record file {
  warnings = retain (λ (w : Warning). not (w.kind == "encoded-literal")) file.warnings;
}

-- Past ten encoded literals one warning stands for all of theirs.
abbrev pub summarize_literals : SourceFile → Option SourceFile
unfolding generate_warning
summarize_literals file =
    let summary = (do
      warned ← warn "suspicious-file" no_options file
      some (without_encoded warned)) in
    if is_full file then summary else some file

unfoldable pub get_result : Std → Bool → SourceFile → Option (SourceFile × Mean × Mean)
unfolding assert_obfuscation generate_warning ids_lengths mean js_float_string
get_result std is_minified file = do
  (deobfuscator, obfuscator_name) ← assert_obfuscation file.deobfuscator
  named ← warn_obfuscator obfuscator_name (record file { deobfuscator = deobfuscator })
  let ids = mean (ids_lengths deobfuscator.identifiers) in
      let score = mean deobfuscator.literal_scores in
      (do
        short ←
            warn_if (has_short_identifiers is_minified ids) "short-identifiers"
              (value_only (js_float_string std ids)) named
        suspicious ←
            warn_if (is_suspicious score) "suspicious-literal"
              (value_only (js_float_string std score)) short
        summed ← summarize_literals suspicious
        some (summed, ids, score))
