-- ===== src/Tracer.antt =====
-- The tracer of identifiers: crates/js-x-ray/src/variable_tracer.rs. An `Rc<RefCell<Traced>>` is an
-- address of `store`: names that share a record have the same address, and what is pushed to its
-- memory through one name is seen through the others.
pub mod Base64
pub mod Walk
pub mod Sound
pub mod Sharing
pub mod Traces
use js_x_ray_rs.Prelude.{
  ℕ, zero, suc, ◌+◌, String, Bool, true, false, not, ◌&&◌, ◌||◌, Option, none, some, ◌>>=◌, List,
  [], ◌∷◌, ◌++◌, ◌==◌, if◌then◌else◌, length, get_elem?, modify_elem, unwrap_or, is_some_and,
  option_map, flat_map, find, split, join, ◌<>◌, contains_text, first_segment, ◌≡◌, refl, is_some,
}
use Prim.Native.String.{len, slice}
use text.Mathlib.Text.{starts_with}
use js_x_ray_rs.Prelude.IndexMap.{IndexMap, get, insert, contains_key, contains, insert_set}
use js_x_ray_rs.Json.{Value, Node}
use js_x_ray_rs.Estree.{SourceLocation, location_of, identifier_name, Lookup}
use js_x_ray_rs.Utils.Segments.{get_sub_member_expression_segments, after_joint}

abbrev pub global_identifiers_to_trace : List String
global_identifiers_to_trace = "globalThis" ∷ "global" ∷ "root" ∷ "GLOBAL" ∷ "window" ∷ []

abbrev pub require_patterns : List String
require_patterns =
    "require" ∷ "require.resolve" ∷ "require.main" ∷ "process.mainModule.require"
    ∷ "process.getBuiltinModule" ∷ []

abbrev pub unsafe_global_call_expression : List String
unsafe_global_call_expression = "eval" ∷ "Function" ∷ []

pub data AssignmentKind : Type 0 where
  alias_binding return_value_assignment : AssignmentKind

pub record AssignmentMemory : Type 0 where
  pub kind : AssignmentKind
  pub name : String

pub record TracedIdentifierReport : Type 0 where
  pub name : String
  pub identifier_or_member_expr : String
  pub assignment_memory : List AssignmentMemory

pub record TraceOptions : Type 0 where
  pub follow_consecutive_assignment : Bool
  pub follow_return_value_assignement : Bool
  pub module_name : Option String
  pub name : Option String

abbrev pub default_options : TraceOptions
default_options = record {
  follow_consecutive_assignment = false;
  follow_return_value_assignement = false;
  module_name = none;
  name = none;
}

pub record Traced : Type 0 where
  pub name : String
  pub identifier_or_member_expr : String
  pub follow_consecutive_assignment : Bool
  pub follow_return_value_assignement : Bool
  pub module_name : Option String
  pub assignment_memory : List AssignmentMemory

pub record LiteralIdentifier : Type 0 where
  pub value : String
  pub kind : String

pub data TracerEvent : Type 0 where
  -- Name, traced expression, new identifier, location.
  assignment : String → String → String → Option SourceLocation → TracerEvent
  -- The same, with the arguments and the node of the call.
  return_value : String → String → String → Option SourceLocation → List Value → Value → TracerEvent
  -- Module, the text of the import, location.
  import_ : String → String → Option SourceLocation → TracerEvent

pub record VariableTracer : Type 0 where
  pub literal_identifiers : IndexMap LiteralIdentifier
  pub object_identifiers : IndexMap Node
  pub imported_modules : List String
  pub events : List TracerEvent
  pub traced : IndexMap ℕ
  pub store : List Traced
  pub variables_ref_to_global : List String
  pub neutral_callable : List String
  pub assigned_return_value_to_traced : IndexMap String

abbrev pub new : VariableTracer
new = record {
  literal_identifiers = [];
  object_identifiers = [];
  imported_modules = [];
  events = [];
  traced = [];
  store = [];
  variables_ref_to_global = [];
  neutral_callable = [];
  assigned_return_value_to_traced = [];
}

abbrev pub is_traced : String → VariableTracer → Bool
is_traced id t = contains_key id t.traced

-- `traced.get(id)`, dereferenced.
abbrev pub entry : String → VariableTracer → Option Traced
entry id t = get id t.traced >>= get_elem? t.store

-- The new record of `trace`, at a new address.
abbrev pub allocate : String → Traced → VariableTracer → VariableTracer
allocate id r t = record t {
  traced = insert id (length t.store) t.traced;
  store = t.store ++ r ∷ [];
}

abbrev pub record_of : String → TraceOptions → Traced
record_of id options = record {
  name = unwrap_or id options.name;
  identifier_or_member_expr = id;
  follow_consecutive_assignment = options.follow_consecutive_assignment;
  follow_return_value_assignement = options.follow_return_value_assignement;
  module_name = options.module_name;
  assignment_memory = [];
}

-- The options of the segments of a path.
abbrev pub segment_options : String → TraceOptions → TraceOptions
segment_options id options = record {
  follow_consecutive_assignment = true;
  follow_return_value_assignement = false;
  module_name = options.module_name;
  name = some (unwrap_or id options.name);
}

-- The loop over the segments of a path.
abbrev pub trace_segments :
    (String → VariableTracer → VariableTracer) → List String → VariableTracer → VariableTracer
trace_segments trace [] t = t
trace_segments trace (expr ∷ rest) t =
    trace_segments trace rest (if is_traced expr t then t else trace expr t)

-- `trace`. The fuel bounds how deep the calls nest.
unfoldable pub trace_with : ℕ → String → TraceOptions → VariableTracer → VariableTracer
unfolding contains_text get_sub_member_expression_segments get insert
trace_with zero id options t = t
trace_with (suc fuel) id options t =
    let allocated = allocate id (record_of id options) t in
    let segments =
      trace_segments (λ expr. trace_with fuel expr (segment_options id options))
        (get_sub_member_expression_segments id) allocated in
    if contains_text id "." then segments else allocated

-- A path nests by its parts.
unfoldable pub trace : String → TraceOptions → VariableTracer → VariableTracer
unfolding trace_with split
trace id options t = trace_with (suc (length (split b'.' id))) id options t

abbrev pub following : Option String → TraceOptions
following name = record default_options { follow_consecutive_assignment = true; name = name }

abbrev pub trace_require : List String → VariableTracer → VariableTracer
unfolding trace
trace_require [] t = t
trace_require (pattern_ ∷ rest) t =
    trace_require rest (trace pattern_ (following (some "require")) t)

unfoldable pub enable_default_tracing : VariableTracer → VariableTracer
unfolding trace
enable_default_tracing t = trace "atob" (following none) (
    trace "Function" default_options
      (trace "eval" default_options (trace_require require_patterns t)))

-- `make_prefix_remover` written out for the table of globals.
unfoldable pub strip_global_identifier_prefix : String → String
unfolding contains_text
strip_global_identifier_prefix expr =
    if not (contains_text expr ".")
    then expr
    else elim (find (λ global_id. starts_with expr global_id) global_identifiers_to_trace) [
      | none ↦ expr
      | some matched_prefix ↦ after_joint (slice expr (len matched_prefix) (len expr))
    ]

unfoldable pub is_traced_identifier_imported_as_module : Traced → VariableTracer → Bool
is_traced_identifier_imported_as_module r t = elim r.module_name [
  | none ↦ true
  | some module_name ↦ contains t.imported_modules module_name
]

-- The memory of the record that has the name of this one.
abbrev pub memory_of : String → VariableTracer → List AssignmentMemory
memory_of name t = elim (entry name t) [ none ↦ [] | some r ↦ r.assignment_memory ]

abbrev pub report : Traced → VariableTracer → TracedIdentifierReport
report r t = record {
  name = r.name;
  identifier_or_member_expr = r.identifier_or_member_expr;
  assignment_memory = memory_of r.name t;
}

-- The first segment of a member expression is replaced by what it is traced as.
abbrev pub with_traced_head : String → VariableTracer → String
unfolding first_segment get
with_traced_head id t =
    let segment = first_segment b'.' id in
    elim (entry segment t) [
      | none ↦ id
      | some r ↦ r.identifier_or_member_expr <> slice id (len segment) (len id)
    ]

abbrev pub final_identifier : String → VariableTracer → String
unfolding contains_text first_segment get
final_identifier id t =
    if contains_text id "." && not (is_traced id t) then with_traced_head id t else id

unfoldable pub get_data_from_identifier :
    String → Bool → VariableTracer → Option TracedIdentifierReport
unfolding strip_global_identifier_prefix contains_text first_segment get
    is_traced_identifier_imported_as_module
get_data_from_identifier id remove_global_identifier t =
    let id' = if remove_global_identifier then strip_global_identifier_prefix id else id in
    do
      r ← entry (final_identifier id' t) t
      if is_traced_identifier_imported_as_module r t then some (report r t) else none

unfoldable pub resolve_literal_identifier : VariableTracer → Lookup
unfolding get
resolve_literal_identifier t name = option_map (λ id. id.value) (get name t.literal_identifiers)

unfoldable pub get_traced_name : String → VariableTracer → Option String
unfolding get
get_traced_name id t = option_map (λ r. r.name) (entry id t)

abbrev pub emit : TracerEvent → VariableTracer → VariableTracer
emit event t = record t { events = t.events ++ event ∷ [] }

abbrev pub with_memory : AssignmentMemory → Traced → Traced
with_memory memory r = record r { assignment_memory = r.assignment_memory ++ memory ∷ [] }

-- `assignment_memory.push(..)` on the record at an address, and through a name.
abbrev pub remember_at : ℕ → AssignmentMemory → VariableTracer → VariableTracer
remember_at address memory t = record t { store = modify_elem address (with_memory memory) t.store }

abbrev pub remember : String → AssignmentMemory → VariableTracer → VariableTracer
unfolding get
remember name memory t = elim (get name t.traced) [
  | none ↦ t
  | some address ↦ remember_at address memory t
]

abbrev pub follow_alias : String → ℕ → VariableTracer → VariableTracer
unfolding insert
follow_alias new_name address t = record t { traced = insert new_name address t.traced }

-- The new name is one more of the record at the address.
abbrev pub follow : String → ℕ → Traced → VariableTracer → VariableTracer
unfolding get insert
follow new_name address r t =
    let remembered = remember r.name (record { kind = alias_binding; name = new_name }) t in
    if r.follow_consecutive_assignment && not (is_traced new_name t)
    then follow_alias new_name address remembered
    else t

abbrev pub assign : Node → ℕ → Traced → VariableTracer → VariableTracer
unfolding get insert identifier_name location_of
assign id address r t =
    let new_name = unwrap_or "" (identifier_name id) in
    follow new_name address r
      (emit (assignment r.name r.identifier_or_member_expr new_name (location_of id)) t)

unfoldable pub declare_new_assignment : String → Node → VariableTracer → VariableTracer
unfolding get insert identifier_name location_of is_traced_identifier_imported_as_module
declare_new_assignment id_text id t = elim (get id_text t.traced) [
  | none ↦ t
  | some address ↦ elim (get_elem? t.store address) [
    | none ↦ t
    | some r ↦ if is_traced_identifier_imported_as_module r t then assign id address r t else t
  ]
]

unfoldable pub is_global_variable_identifier : String → VariableTracer → Bool
is_global_variable_identifier name t =
    contains global_identifiers_to_trace name || contains t.variables_ref_to_global name

unfoldable pub search_for_member_expr_alternative : List String → VariableTracer → List String
unfolding get is_global_variable_identifier
search_for_member_expr_alternative parts t =
    flat_map
      (λ name. elim (entry name t) [
        | some r ↦ r.identifier_or_member_expr ∷ []
        | none ↦ if is_global_variable_identifier name t then [] else name ∷ []
      ])
      parts

unfoldable pub drain_events : VariableTracer → List TracerEvent × VariableTracer
drain_events t = (t.events, record t { events = [] })

-- An identifier that only begins like a global loses its beginning too.
strip_runs : strip_global_identifier_prefix "rootkit.exec" ≡ "it.exec"
unfolding strip_global_identifier_prefix
strip_runs = refl
