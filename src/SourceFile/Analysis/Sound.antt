-- ===== src/SourceFile/Analysis/Sound.antt =====
-- The invariant of a source file over a run of the analysis (crates/js-x-ray/src/source_file.rs).
use js_x_ray_rs.Prelude.{
  String, Bool, true, false, not, ◌&&◌, Option, none, some, ◌==◌, ◌≡◌, refl, sym, subst,
  if◌then◌else◌, ltb, length, unwrap_or, is_some_and, Bool-cases, Option-cases, inl, inr, is_blank,
  strip_suffix,
}
use js_x_ray_rs.Prelude.IndexMap
use js_x_ray_rs.Json
use js_x_ray_rs.Json.{Node, get_str, is_null}
use js_x_ray_rs.Std.{Std}
use js_x_ray_rs.Estree.{SourceLocation, location_of, is_type}
use js_x_ray_rs.Utils.Svg.Literals.{is_svg}
use js_x_ray_rs.Tracer
use js_x_ray_rs.Tracer.{VariableTracer, TraceOptions, trace, drain_events, enable_default_tracing}
use js_x_ray_rs.Tracer.Sound.{IsWellFormed}
use js_x_ray_rs.Tracer.Walk.Declarator
use js_x_ray_rs.Tracer.Walk.Declarator.Sound.{walk-Grows}
use js_x_ray_rs.Obfuscation
use js_x_ray_rs.Obfuscation.{analyze_string}
use js_x_ray_rs.Obfuscation.Run
use js_x_ray_rs.Warnings.{generate_warning, GenerateWarningOptions}
use js_x_ray_rs.SourceFile.{
  SourceFile, warn, value_at, add_dependency_with, add_encoded_literal, add_first_occurrence,
  collect_dependency, keep_dependency,
}
use js_x_ray_rs.SourceFile.Literals.{IsIndexed, add_encoded_literal-IsIndexed}
use js_x_ray_rs.SourceFile.Dependencies.{add_dependency_with-IsAdded}
use js_x_ray_rs.SourceFile.Analysis.{
  analyze_value, analyze_literal, is_encoded, count_encoded_array_value, walk_bookkeeping,
}

-- The encoded literals are indexed, and the tracer and the deobfuscator keep their invariants.
pub record IsSound (file : SourceFile) : Type 0 where
  pub literals : IsIndexed file
  pub traced : IsWellFormed file.tracer
  pub deobfuscated : Obfuscation.Run.IsSound file.deobfuscator

record Keeps (before after : SourceFile) : Type 0 where
  tracer : after.tracer ≡ before.tracer
  deobfuscator : after.deobfuscator ≡ before.deobfuscator

-- What an operation gives has the tracer and the deobfuscator of before.
abbrev Kept : SourceFile → Option SourceFile → Type 0
Kept before none = Unit
Kept before (some after) = Keeps before after

Kept-if :
    (test : Bool) (before : SourceFile) (x y : Option SourceFile)
    → Kept before x
    → Kept before y
    → Kept before (if test then x else y)
Kept-if true before x y k l = k
Kept-if false before x y k l = l

warn-Kept :
    (kind : String) (options : GenerateWarningOptions) (file before : SourceFile)
    → Keeps before file
    → Kept before (warn kind options file)
warn-Kept kind options file before k = elim (Option-cases (generate_warning kind options)) [
  | inl e ↦ rw e tt
  | inr (w, e) ↦ rw e (record { tracer = k.tracer; deobfuscator = k.deobfuscator })
]

add_first_occurrence-Kept :
    (value : String) (location : Option SourceLocation) (file : SourceFile)
    → Kept file (add_first_occurrence value location file)
add_first_occurrence-Kept value location file =
    elim (Option-cases (generate_warning "encoded-literal" (value_at value location))) [
      | inl e ↦ rw e tt
      | inr (w, e) ↦ rw e (record { tracer = refl; deobfuscator = refl })
    ]

add_encoded_literal-Kept :
    (value : String) (location : Option SourceLocation) (file : SourceFile)
    → Kept file (add_encoded_literal value location file)
unfolding add_encoded_literal
add_encoded_literal-Kept value location file =
    elim (Bool-cases (ltb 10 (length file.encoded_literals))) [
      | inl e ↦ rw e (record { tracer = refl; deobfuscator = refl })
      | inr e ↦ elim (Option-cases (IndexMap.get value file.encoded_literals)) [
        | inl f ↦ rw (e, f) (add_first_occurrence-Kept value location file)
        | inr (i, f) ↦ rw (e, f) (record { tracer = refl; deobfuscator = refl })
      ]
    ]

collect_dependency-Keeps :
    (name : String) (location : Option SourceLocation) (unsafe_ : Bool) (file : SourceFile)
    → Keeps file
        (collect_dependency name location unsafe_ (keep_dependency name location unsafe_ file))
collect_dependency-Keeps name location unsafe_ file =
    elim (Bool-cases (is_some_and (λ own. own == name) file.package_name)) [
      | inl e ↦ rw e (record { tracer = refl; deobfuscator = refl })
      | inr e ↦ rw e (record { tracer = refl; deobfuscator = refl })
    ]

add_dependency_with-Kept :
    (name : String) (location : Option SourceLocation) (unsafe_ : Bool) (file : SourceFile)
    → Kept file (add_dependency_with name location unsafe_ file)
unfolding add_dependency_with
add_dependency_with-Kept name location unsafe_ file =
    let stored = unwrap_or name (strip_suffix name "/") in
    let kept = collect_dependency-Keeps stored location unsafe_ file in
    Kept-if (is_blank name) file _ _ (record { tracer = refl; deobfuscator = refl })
      (Kept-if file.dependency_auto_warning file _ _
        (warn-Kept "unsafe-import" (value_at stored location) _ file kept) kept)

-- An operation that returns and keeps.
Keeps-IsSound :
    (before : SourceFile) (result : Option SourceFile) (after : SourceFile)
    → IsSound before
    → Kept before result
    → result ≡ some after
    → IsIndexed after
    → IsSound after
Keeps-IsSound before result after h k e literals =
    let kept : Keeps before after = subst (Kept before) e k in
    record {
      literals = literals;
      traced = subst IsWellFormed (sym kept.tracer) h.traced;
      deobfuscated = subst Obfuscation.Run.IsSound (sym kept.deobfuscator) h.deobfuscated;
    }

-- An operation on a sound file returns a sound one.
abbrev pub Returns : (SourceFile → Option SourceFile) → SourceFile → Type 0
Returns operation file = (after : SourceFile) × (operation file ≡ some after) × IsSound after

pub add_encoded_literal-Returns :
    (value : String) (location : Option SourceLocation) (file : SourceFile)
    → IsSound file
    → Returns (add_encoded_literal value location) file
add_encoded_literal-Returns value location file h =
    let (after, e, literals) = add_encoded_literal-IsIndexed value location file h.literals in
    (
      after,
      e,
      Keeps-IsSound file _ after h (add_encoded_literal-Kept value location file) e literals,
    )

pub add_dependency_with-Returns :
    (name : String) (location : Option SourceLocation) (unsafe_ : Bool) (file : SourceFile)
    → IsSound file
    → Returns (add_dependency_with name location unsafe_) file
add_dependency_with-Returns name location unsafe_ file h =
    let (after, e, added) = add_dependency_with-IsAdded name location unsafe_ file h.literals in
    (
      after,
      e,
      Keeps-IsSound file _ after h (add_dependency_with-Kept name location unsafe_ file) e
          added.literals,
    )

analyze_value-Returns :
    (std : Std) (node : Node) (in_array_expr : Bool) (value : String) (file : SourceFile)
    → IsSound file
    → Returns (analyze_value std node in_array_expr value) file
unfolding analyze_value analyze_string
analyze_value-Returns std node in_array_expr value file h =
    let d = Obfuscation.Run.analyze_string-IsSound value file.deobfuscator h.deobfuscated in
    let analyzed : SourceFile = record file {
      deobfuscator = analyze_string value file.deobfuscator;
    } in
    let sound : IsSound analyzed = record {
      literals = record { indexed = h.literals.indexed; few = h.literals.few };
      traced = h.traced;
      deobfuscated = d;
    } in
    elim (Bool-cases (is_encoded std node value)) [
      | inr e ↦ (analyzed, rw e refl, sound)
      | inl e ↦ elim (Bool-cases in_array_expr) [
        | inl f ↦ (
          record analyzed { deobfuscator = count_encoded_array_value analyzed.deobfuscator },
          rw (e, f) refl,
          record {
            literals = record { indexed = h.literals.indexed; few = h.literals.few };
            traced = h.traced;
            deobfuscated = record {
              scored = d.scored;
              morse = d.morse;
              once = d.once;
              unprefixed = d.unprefixed;
            };
          },
        )
        | inr f ↦
            let (after, g, k) =
              add_encoded_literal-Returns value (location_of node) analyzed sound in
            (after, rw (e, f) g, k)
      ]
    ]

pub analyze_literal-Returns :
    (std : Std) (node : Node) (in_array_expr : Bool) (file : SourceFile)
    → IsSound file
    → Returns (analyze_literal std node in_array_expr) file
unfolding analyze_literal
analyze_literal-Returns std node in_array_expr file h = elim (Option-cases (get_str "value" node)) [
  | inl e ↦ (file, rw (analyze_literal, e) refl, h)
  | inr (value, e) ↦ elim (Bool-cases (is_svg std node)) [
    | inl f ↦ (file, rw (analyze_literal, e, f) refl, h)
    | inr f ↦
        let (after, g, k) = analyze_value-Returns std node in_array_expr value file h in
        (after, rw (analyze_literal, e, f) g, k)
  ]
]

IsSound-if :
    (test : Bool) (x y : SourceFile) → IsSound x → IsSound y → IsSound (if test then x else y)
IsSound-if true x y h k = h
IsSound-if false x y h k = k

pub walk_bookkeeping-IsSound :
    (std : Std) (node : Node) (file : SourceFile)
    → IsSound file
    → IsSound (walk_bookkeeping std node file)
unfolding walk_bookkeeping
walk_bookkeeping-IsSound std node file h =
    let walked : SourceFile = record file {
      tracer = Tracer.Walk.Declarator.walk std node file.tracer;
      deobfuscator = Obfuscation.walk std node file.deobfuscator;
    } in
    let flagged : (b : Bool) → IsSound (record walked { in_try_statement = b }) = λ b. record {
      literals = record { indexed = h.literals.indexed; few = h.literals.few };
      traced = (walk-Grows std node file.tracer h.traced).1;
      deobfuscated = Obfuscation.Run.walk-IsSound std node file.deobfuscator h.deobfuscated;
    } in
    IsSound-if
      (is_type node "TryStatement" && is_some_and (λ x. not (is_null x)) (Json.get "handler" node))
      _ _ (flagged true)
      (IsSound-if (is_type node "CatchClause") _ _ (flagged false) (flagged file.in_try_statement))
