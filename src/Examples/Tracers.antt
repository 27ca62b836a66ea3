-- ===== src/Examples/Tracers.antt =====
-- Runs of the tracer: `crypto` is traced, imported and renamed.
use js_x_ray_rs.Tracer.{default_options}
use js_x_ray_rs.Tracer.Traces.Segments.{IsTraced, trace-IsTraced}
use js_x_ray_rs.Prelude.{false, none, [], ◌∷◌, ◌≡◌, refl, arith, contains_text}
use js_x_ray_rs.Json.{Node, string, object, field, end, array, cons, nil}
use js_x_ray_rs.Estree.{identifier_name}
use js_x_ray_rs.Tracer.{
  VariableTracer, following, new, trace, record_of, declare_new_assignment,
  get_data_from_identifier, memory_of, alias_binding, is_traced_identifier_imported_as_module,
}
use js_x_ray_rs.Tracer.Base64.{decode_codes, start}
use js_x_ray_rs.Tracer.Base64.RoundTrip.{encode_codes, decode_codes-encode_codes}
use js_x_ray_rs.Tracer.Sharing.{declare_new_assignment_shares}
use js_x_ray_rs.Tracer.Sound.{Grows, IsWellFormed}
use js_x_ray_rs.Tracer.Traces.{trace-IsWellFormed, new-IsWellFormed}
use js_x_ray_rs.Tracer.Walk.{each}
use js_x_ray_rs.Tracer.Walk.Declarator.{walk}
use js_x_ray_rs.Tracer.Walk.Declarator.Sound.{walk-Grows}
use js_x_ray_rs.Examples.Trees.{ascii, identifier}

abbrev crypto_tracer : VariableTracer
unfolding trace
crypto_tracer = trace "crypto" (following none) new

crypto_tracer-IsWellFormed : IsWellFormed crypto_tracer
unfolding crypto_tracer
crypto_tracer-IsWellFormed = trace-IsWellFormed "crypto" (following none) new new-IsWellFormed

-- `import c from "crypto"`
abbrev import_crypto : Node
import_crypto = object (
    field "type" (string "ImportDeclaration") (
      field "source" (object (field "value" (string "crypto") end)) (
        field "specifiers"
          (array (
            cons
              (object (
                field "type" (string "ImportDefaultSpecifier")
                  (field "local" (identifier "c") end)))
              nil))
          end)))

walk-Grows_example :
    Grows crypto_tracer (walk ascii import_crypto crypto_tracer)
    × IsWellFormed (walk ascii import_crypto crypto_tracer)
walk-Grows_example = walk-Grows ascii import_crypto crypto_tracer crypto_tracer-IsWellFormed

-- `const c = crypto`, and then a walk.
declare_new_assignment_shares_example :
    let u = declare_new_assignment "crypto" (identifier "c") crypto_tracer in
    let w = each (walk ascii) (import_crypto ∷ []) u in
    (get_data_from_identifier "c" false w ≡ get_data_from_identifier "crypto" false w)
    × (memory_of "crypto" u ≡ record { kind = alias_binding; name = "c" } ∷ [])
unfolding crypto_tracer is_traced_identifier_imported_as_module identifier_name
declare_new_assignment_shares_example =
    declare_new_assignment_shares "crypto" (identifier "c") 0 (record_of "crypto" (following none))
      crypto_tracer refl refl refl refl refl ascii (import_crypto ∷ []) 0
      (record_of "crypto" (following none)) crypto_tracer-IsWellFormed refl refl

decode_codes-encode_codes_example :
    (decode_codes (encode_codes (72 ∷ 105 ∷ [])) start).bytes ≡ 72 ∷ 105 ∷ []
decode_codes-encode_codes_example =
    decode_codes-encode_codes (72 ∷ 105 ∷ []) (omega arith, (omega arith, tt))

trace-IsTraced_example :
    IsTraced "fs.promises.open" default_options new (trace "fs.promises.open" default_options new)
unfolding contains_text
trace-IsTraced_example = trace-IsTraced "fs.promises.open" default_options new new-IsWellFormed refl
