-- ===== src/SourceFile/Analysis/Runs.antt =====
-- Runs of the operations of a source file (crates/js-x-ray/src/source_file.rs), in any order.
use js_x_ray_rs.Prelude.{
  ℕ, String, Bool, Option, some, ◌>>=◌, List, [], ◌∷◌, ◌++◌, ◌≡◌, refl, arith, >>=-some,
}
use js_x_ray_rs.Prelude.IndexMap.{get, insert_set}
use js_x_ray_rs.Json.{Node, Fields}
use js_x_ray_rs.Utils.Location.{SourceArrayLocation}
use js_x_ray_rs.Collectable.{add_to_registry, new_registry}
use js_x_ray_rs.Tracer.Walk.Declarator
use js_x_ray_rs.Tracer.Walk.Declarator.Sound.{walk-Grows}
use js_x_ray_rs.Obfuscation.{count_deep_binary_expression}
use js_x_ray_rs.Std.{Std}
use js_x_ray_rs.Estree.{SourceLocation}
use js_x_ray_rs.Tracer
use js_x_ray_rs.Tracer.{TraceOptions, trace, drain_events, enable_default_tracing}
use js_x_ray_rs.Tracer.Traces.{
  trace-IsWellFormed, new-IsWellFormed, enable_default_tracing-IsWellFormed,
}
use js_x_ray_rs.Obfuscation
use js_x_ray_rs.Obfuscation.Run
use js_x_ray_rs.Warnings.{Warning}
use js_x_ray_rs.SourceFile.{
  SourceFile, Sensitivity, add_dependency, add_dependency_with, add_encoded_literal,
}
use js_x_ray_rs.SourceFile.Literals.{push-IsIndexed}
use js_x_ray_rs.SourceFile.Analysis.{
  SourceFileOptions, fresh, new, analyze_literal, walk_bookkeeping,
}
use js_x_ray_rs.SourceFile.Analysis.Sound.{
  IsSound, Returns, add_encoded_literal-Returns, add_dependency_with-Returns,
  analyze_literal-Returns, walk_bookkeeping-IsSound,
}

-- What the analyser and the probes do to a source file before `get_result`: its own operations, those of
-- its tracer, and the fields that are set from outside (probes/is_require.rs, is_binary_expression.rs,
-- is_fetch.rs and is_literal.rs, and ast_analyser.rs).
pub data Operation : Type 0 where
  adding_dependency : String → Option SourceLocation → Operation
  adding_dependency_with : String → Option SourceLocation → Bool → Operation
  adding_encoded_literal : String → Option SourceLocation → Operation
  analyzing_literal : Node → Bool → Operation
  bookkeeping : Node → Operation
  tracing : String → TraceOptions → Operation
  draining : Operation
  pushing : Warning → Operation
  walking_tracer : Node → Operation
  setting_auto_warning : Bool → Operation
  counting_binary_expression : Operation
  flagging : String → Operation
  setting_sensitivity : Sensitivity → Operation
  collecting : String → String → Option String → SourceArrayLocation → Option Fields → Operation
  taking_registry : Operation

unfoldable pub perform : Std → Operation → SourceFile → Option SourceFile
unfolding add_dependency add_dependency_with add_encoded_literal analyze_literal walk_bookkeeping
    trace drain_events
perform std (adding_dependency name location) file = add_dependency name location file
perform std (adding_dependency_with name location unsafe_) file =
    add_dependency_with name location unsafe_ file
perform std (adding_encoded_literal value location) file = add_encoded_literal value location file
perform std (analyzing_literal node in_array_expr) file =
    analyze_literal std node in_array_expr file
perform std (bookkeeping node) file = some (walk_bookkeeping std node file)
perform std (tracing id options) file = some (record file { tracer = trace id options file.tracer })
perform std draining file = some (record file { tracer = (drain_events file.tracer).1 })
perform std (pushing warning) file = some (record file { warnings = file.warnings ++ warning ∷ [] })
perform std (walking_tracer node) file =
    some (record file { tracer = Tracer.Walk.Declarator.walk std node file.tracer })
perform std (setting_auto_warning b) file = some (record file { dependency_auto_warning = b })
perform std counting_binary_expression file =
    some (record file { deobfuscator = count_deep_binary_expression file.deobfuscator })
perform std (flagging flag) file = some (record file { flags = insert_set flag file.flags })
perform std (setting_sensitivity sensitivity) file =
    some (record file { sensitivity = sensitivity })
perform std (collecting kind value path location metadata) file = some (record file {
  collectables_set_registry =
      add_to_registry kind value path location metadata file.collectables_set_registry;
})
perform std taking_registry file =
    some (record file { collectables_set_registry = new_registry [] })

unfoldable pub perform_all : Std → List Operation → SourceFile → Option SourceFile
unfolding perform
perform_all std [] file = some file
perform_all std (operation ∷ rest) file = perform std operation file >>= perform_all std rest

-- A new source file, and then some operations.
unfoldable pub run : Std → Option String → SourceFileOptions → List Operation → Option SourceFile
unfolding new perform_all
run std source_location options operations =
    new source_location options >>= perform_all std operations

perform-Returns :
    (std : Std) (operation : Operation) (file : SourceFile)
    → IsSound file
    → Returns (perform std operation) file
unfolding perform add_dependency drain_events
perform-Returns std (adding_dependency name location) file h =
    add_dependency_with-Returns name location file.dependency_auto_warning file h
perform-Returns std (adding_dependency_with name location unsafe_) file h =
    add_dependency_with-Returns name location unsafe_ file h
perform-Returns std (adding_encoded_literal value location) file h =
    add_encoded_literal-Returns value location file h
perform-Returns std (analyzing_literal node in_array_expr) file h =
    analyze_literal-Returns std node in_array_expr file h
perform-Returns std (bookkeeping node) file h = (_, refl, walk_bookkeeping-IsSound std node file h)
perform-Returns std (tracing id options) file h = (
  _,
  refl,
  record {
    literals = record { indexed = h.literals.indexed; few = h.literals.few };
    traced = trace-IsWellFormed id options file.tracer h.traced;
    deobfuscated = h.deobfuscated;
  },
)
perform-Returns std draining file h = (
  _,
  refl,
  record {
    literals = record { indexed = h.literals.indexed; few = h.literals.few };
    traced = record { bound = h.traced.bound; sound = tt };
    deobfuscated = h.deobfuscated;
  },
)
perform-Returns std (pushing warning) file h = (
  _,
  refl,
  record {
    literals = push-IsIndexed file (warning ∷ []) h.literals;
    traced = h.traced;
    deobfuscated = h.deobfuscated;
  },
)
perform-Returns std (walking_tracer node) file h = (
  _,
  refl,
  record {
    literals = record { indexed = h.literals.indexed; few = h.literals.few };
    traced = (walk-Grows std node file.tracer h.traced).1;
    deobfuscated = h.deobfuscated;
  },
)
perform-Returns std counting_binary_expression file h = (
  _,
  refl,
  record {
    literals = record { indexed = h.literals.indexed; few = h.literals.few };
    traced = h.traced;
    deobfuscated =
        Obfuscation.Run.count_deep_binary_expression-IsSound file.deobfuscator h.deobfuscated;
  },
)
perform-Returns std (setting_auto_warning b) file h = (
  _,
  refl,
  record {
    literals = record { indexed = h.literals.indexed; few = h.literals.few };
    traced = h.traced;
    deobfuscated = h.deobfuscated;
  },
)
perform-Returns std (flagging flag) file h = (
  _,
  refl,
  record {
    literals = record { indexed = h.literals.indexed; few = h.literals.few };
    traced = h.traced;
    deobfuscated = h.deobfuscated;
  },
)
perform-Returns std (setting_sensitivity sensitivity) file h = (
  _,
  refl,
  record {
    literals = record { indexed = h.literals.indexed; few = h.literals.few };
    traced = h.traced;
    deobfuscated = h.deobfuscated;
  },
)
perform-Returns std (collecting kind value path location metadata) file h = (
  _,
  refl,
  record {
    literals = record { indexed = h.literals.indexed; few = h.literals.few };
    traced = h.traced;
    deobfuscated = h.deobfuscated;
  },
)
perform-Returns std taking_registry file h = (
  _,
  refl,
  record {
    literals = record { indexed = h.literals.indexed; few = h.literals.few };
    traced = h.traced;
    deobfuscated = h.deobfuscated;
  },
)

perform_all-Returns :
    (std : Std) (operations : List Operation) (file : SourceFile)
    → IsSound file
    → Returns (perform_all std operations) file
unfolding perform_all
perform_all-Returns std [] file h = (file, refl, h)
perform_all-Returns std (operation ∷ rest) file h =
    let (next, e, k) = perform-Returns std operation file h in
    let (after, f, l) = perform_all-Returns std rest next k in (after, rw e f, l)

nothing : (value : String) (index : ℕ) → get value [] ≡ some index → ⊥
unfolding get
nothing value index e = cc

made_deobfuscator : (d : Obfuscation.Deobfuscator) × (Obfuscation.new ≡ some d)
unfolding Obfuscation.new
made_deobfuscator = (_, refl)

new-IsSound :
    (source_location : Option String) (options : SourceFileOptions)
    → (file : SourceFile) × (new source_location options ≡ some file) × IsSound file
unfolding new
new-IsSound source_location options =
    let (d, made) = made_deobfuscator in
    (
      fresh source_location options d,
      >>=-some Obfuscation.new (λ e. some (fresh source_location options e)) made refl,
      record {
        literals = record {
          indexed = λ value index e. absurd (nothing value index e);
          few = omega arith;
        };
        traced = enable_default_tracing-IsWellFormed Tracer.new new-IsWellFormed;
        deobfuscated = Obfuscation.Run.new-IsSound d made;
      },
    )

-- Any list of `Operation`s on a new source file returns without a panic; and then each encoded literal
-- has the place of its warning, and no more than eleven do; each name of the tracer points at a record,
-- and each event tells of a traced record or an imported module; and the scores are positive, the morse
-- literals morse and different, and the flag for prefixed identifiers not set.
pub run-IsSound :
    (std : Std) (source_location : Option String) (options : SourceFileOptions)
    (operations : List Operation)
    → (after : SourceFile) × (run std source_location options operations ≡ some after)
      × IsSound after
unfolding run
run-IsSound std source_location options operations =
    let (file, e, h) = new-IsSound source_location options in
    let (after, f, k) = perform_all-Returns std operations file h in
    (after, >>=-some (new source_location options) (perform_all std operations) e f, k)
