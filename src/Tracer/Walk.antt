-- ===== src/Tracer/Walk.antt =====
-- How the tracer walks a node: `walk` and the functions below it of
-- crates/js-x-ray/src/variable_tracer.rs. A walk of an initializer is a recursion on it, whose result is
-- a function of the state; the flag says that the initializer is the whole one of its declarator, which
-- the source tells by the address.
pub mod Declarator
pub mod Sound
use js_x_ray_rs.Prelude.{
  ℕ, String, Bool, true, false, not, ◌&&◌, ◌||◌, Option, none, some, ◌>>=◌, List, [], ◌∷◌, ◌++◌,
  ◌==◌, if◌then◌else◌, unwrap_or, is_some_and, find, modify_elem, get_elem?, join, split, ◌<>◌,
  first_segment, strip_suffix,
}
use js_x_ray_rs.Prelude.IndexMap.{get, insert, contains, insert_set}
use js_x_ray_rs.Json
use js_x_ray_rs.Json.{Value, Node, get_str, get_array, is_null, as_str}
use js_x_ray_rs.Json.Recursion.{recurse, at_field}
use js_x_ray_rs.Std.{Std}
use js_x_ray_rs.Estree.{
  location_of, identifier_name, is_type, node_type, is_identifier, is_string_literal,
  is_call_expression,
}
use js_x_ray_rs.Estree.Literal.{js_string}
use js_x_ray_rs.Estree.Calls.{call_expression_identifier, get_call_expression_arguments, to_literal}
use js_x_ray_rs.Estree.Logical.{extract_logical_expression}
use js_x_ray_rs.Estree.Members.{get_member_expression_identifier}
use js_x_ray_rs.Estree.Bindings.{get_variable_declaration_identifiers}
use js_x_ray_rs.Utils.Segments.{strip_node_prefix, is_evil_identifier_path, is_neutral_callable}
use js_x_ray_rs.Tracer.{
  VariableTracer, Traced, AssignmentMemory, return_value_assignment, return_value, import_,
  is_traced, entry, emit, declare_new_assignment, is_global_variable_identifier,
  search_for_member_expr_alternative, resolve_literal_identifier, get_traced_name, require_patterns,
  unsafe_global_call_expression, LiteralIdentifier,
}
use js_x_ray_rs.Tracer.Base64.{base64_decode_to_string}

abbrev pub Walking : Type 0
Walking = VariableTracer → VariableTracer

-- A loop over a list that changes the state.
abbrev pub each {ℓ} : {A : Type ℓ} → (A → Walking) → List A → Walking
each step [] t = t
each step (x ∷ rest) t = each step rest (step x t)

abbrev pub prefixed : Option String → String → String
prefixed none name = name
prefixed (some prefix) name = prefix <> "." <> name

-- One name of `auto_trace_id`.
abbrev pub auto_trace_name : Option String → String × Node → Walking
unfolding get declare_new_assignment
auto_trace_name prefix (name, assignment_id) t =
    let id_text = prefixed prefix name in
    if is_traced id_text t then declare_new_assignment id_text assignment_id t else t

unfoldable pub auto_trace_id : Node → Option String → Walking
unfolding get_variable_declaration_identifiers get declare_new_assignment
auto_trace_id id prefix =
    each (auto_trace_name prefix) (get_variable_declaration_identifiers id none)

abbrev pub name_or_empty : Node → String
unfolding identifier_name
name_or_empty id = unwrap_or "" (identifier_name id)

abbrev pub set_literal : String → String → String → Walking
unfolding insert
set_literal name value kind t = record t {
  literal_identifiers = insert name (record { value = value; kind = kind }) t.literal_identifiers;
}

abbrev pub refer_to_global : String → Walking
unfolding insert_set
refer_to_global name t = record t {
  variables_ref_to_global = insert_set name t.variables_ref_to_global;
}

abbrev pub import_module : String → Walking
unfolding insert_set
import_module name t = record t { imported_modules = insert_set name t.imported_modules }

module _ (std : Std) where
  -- `reverse_atob`
  unfoldable pub reverse_atob : Node → Node → Walking
  unfolding get_call_expression_arguments resolve_literal_identifier identifier_name insert
      base64_decode_to_string
  reverse_atob node id t =
      elim (get_call_expression_arguments std (resolve_literal_identifier t) node) [
        | none ↦ t
        | some [] ↦ t
        | some (argument ∷ rest) ↦
            set_literal (name_or_empty id) (base64_decode_to_string std argument) "Literal" t
      ]

-- An `import { name } from module`.
abbrev pub import_specifier : String → Node → Walking
unfolding is_type is_identifier identifier_name get declare_new_assignment
import_specifier module_name specifier t =
    if is_type specifier "ImportSpecifier"
    then elim (Json.get "imported" specifier) [
      | none ↦ t
      | some imported ↦
          let full_imported_name = module_name <> "." <> name_or_empty imported in
          if is_identifier imported && is_traced full_imported_name t
          then declare_new_assignment full_imported_name imported t
          else t
    ]
    else t

-- `import * as local from module` and `import local from module`.
abbrev pub is_whole_import : List Value → Bool
unfolding is_type
is_whole_import [] = false
is_whole_import (first_specifier ∷ rest) =
    is_type first_specifier "ImportNamespaceSpecifier"
    || is_type first_specifier "ImportDefaultSpecifier"

abbrev pub import_whole : String → List Value → Walking
unfolding declare_new_assignment
import_whole module_name [] t = t
import_whole module_name (first_specifier ∷ rest) t = elim (Json.get "local" first_specifier) [
  | none ↦ t
  | some local ↦ declare_new_assignment module_name local t
]

abbrev pub module_of : String → String
unfolding strip_node_prefix strip_suffix
module_of source_value =
    let stripped = strip_node_prefix source_value in
    unwrap_or stripped (strip_suffix stripped "/promises")

abbrev pub import_source : Node → String → Walking
unfolding get insert_set is_type get_array declare_new_assignment location_of is_identifier
    identifier_name strip_node_prefix strip_suffix
import_source node source_value t =
    let module_name = module_of source_value in
    let specifiers = unwrap_or [] (get_array "specifiers" node) in
    let imported =
      emit (import_ module_name source_value (location_of node)) (import_module module_name t) in
    if not (is_traced module_name t)
    then t
    else if is_whole_import specifiers
    then import_whole module_name specifiers imported
    else each (import_specifier module_name) specifiers imported

unfoldable pub walk_import_declaration : Node → Walking
unfolding get insert_set is_type get_array declare_new_assignment location_of is_identifier
    identifier_name strip_node_prefix strip_suffix as_str
walk_import_declaration node t = elim (Json.get "source" node >>= get_str "value") [
  | none ↦ t
  | some source_value ↦ import_source node source_value t
]

-- The argument that names a traced module.
abbrev pub names_module : VariableTracer → Value → Bool
unfolding is_string_literal get_str strip_node_prefix get
names_module t argument =
    is_string_literal argument
    && is_some_and (λ value. is_traced (strip_node_prefix value) t) (get_str "value" argument)

abbrev pub bind_module : String → Node → Walking
unfolding is_type declare_new_assignment auto_trace_id
bind_module module_name id t =
    if is_type id "Identifier"
    then declare_new_assignment module_name id t
    else if is_type id "ObjectPattern"
    then auto_trace_id id (some module_name) t
    else t

abbrev pub require_literal : Value → Node → Walking
unfolding get_str strip_node_prefix insert_set location_of is_type declare_new_assignment
    auto_trace_id
require_literal literal id t =
    let literal_value = unwrap_or "" (get_str "value" literal) in
    let module_name = strip_node_prefix literal_value in
    bind_module module_name id
      (emit (import_ module_name literal_value (location_of literal)) (import_module module_name t))

unfoldable pub walk_require_call_expression : Node → Node → Walking
unfolding get_array is_string_literal get_str strip_node_prefix get insert_set location_of is_type
    declare_new_assignment auto_trace_id
walk_require_call_expression node id t =
    elim (find (names_module t) (unwrap_or [] (get_array "arguments" node))) [
      | none ↦ t
      | some literal ↦ require_literal literal id t
    ]
