-- ===== src/Tracer/Walk/Declarator.antt =====
-- The initializers of declarators: `walk_variable_declarator_initialization_inner` and what calls it,
-- crates/js-x-ray/src/variable_tracer.rs.
pub mod Sound
use js_x_ray_rs.Prelude.{
  ℕ, String, Bool, true, false, not, ◌&&◌, ◌||◌, Option, none, some, ◌>>=◌, List, [], ◌∷◌, ◌==◌,
  if◌then◌else◌, unwrap_or, is_some_and, get_elem?, modify_elem, join, split, first_segment,
}
use js_x_ray_rs.Prelude.IndexMap.{get, insert, contains, insert_set}
use js_x_ray_rs.Json
use js_x_ray_rs.Json.{Value, Node, get_array, is_null}
use js_x_ray_rs.Json.Recursion.{recurse}
use js_x_ray_rs.Std.{Std}
use js_x_ray_rs.Estree.{location_of, identifier_name, is_type, is_identifier, is_call_expression}
use js_x_ray_rs.Estree.Literal.{js_string}
use js_x_ray_rs.Estree.Calls.{call_expression_identifier, to_literal}
use js_x_ray_rs.Estree.Logical.{extract_logical_expression}
use js_x_ray_rs.Estree.Members.{get_member_expression_identifier}
use js_x_ray_rs.Utils.Segments.{is_evil_identifier_path, is_neutral_callable}
use js_x_ray_rs.Tracer.{
  Traced, VariableTracer, return_value_assignment, return_value, is_traced, emit, remember_at,
  declare_new_assignment, is_global_variable_identifier, search_for_member_expr_alternative,
  resolve_literal_identifier, get_traced_name, require_patterns, unsafe_global_call_expression,
}
use js_x_ray_rs.Tracer.Walk.{
  Walking, each, auto_trace_id, name_or_empty, set_literal, refer_to_global, reverse_atob,
  walk_import_declaration, walk_require_call_expression,
}

-- A step's recursive calls.
abbrev pub Initializing : Type 0
Initializing = Node → Bool → Walking

abbrev pub record_literal : Std → String → Node → Walking
unfolding insert js_string
record_literal std id_name child =
    set_literal id_name
      (elim (Json.get "value" child) [ none ↦ "undefined" | some value ↦ js_string std value ])
      "Literal"

-- A property of an object literal; a spread in an array literal is a node of its own.
abbrev pub property_node : Value → Option Value
unfolding is_type
property_node property =
    if is_type property "Property"
    then Json.get "value" property
    else if is_type property "SpreadElement"
    then Json.get "argument" property
    else none

abbrev pub walk_property : Initializing → Value → Walking
unfolding is_null
walk_property rec property t = elim (property_node property) [
  | none ↦ t
  | some v ↦ if is_null v then t else rec v false t
]

abbrev pub record_object : Bool → String → Node → Walking
unfolding insert
record_object whole id_name child t =
    if whole then record t { object_identifiers = insert id_name child t.object_identifiers } else t

abbrev pub walk_object : Initializing → Bool → String → Node → Walking
unfolding insert get_array is_type is_null
walk_object rec whole id_name child t =
    each (walk_property rec) (unwrap_or [] (get_array "properties" child))
      (record_object whole id_name child t)

-- The address of what a call is traced as.
abbrev pub traced_variant : String → VariableTracer → Option ℕ
unfolding get split join search_for_member_expr_alternative
traced_variant name t =
    let alternative = join "." (search_for_member_expr_alternative (split b'.' name) t) in
    if is_traced name t then get name t.traced else get alternative t.traced

abbrev pub returned_event : Traced → String → Node → Node → Walking
unfolding location_of get_array
returned_event r id_name id child = emit (
    return_value r.name r.identifier_or_member_expr id_name (location_of id)
      (unwrap_or [] (get_array "arguments" child)) child)

abbrev pub hold_returned : Bool → String → String → Walking
unfolding insert
hold_returned follows id_name name t =
    if follows
    then record t {
      assigned_return_value_to_traced = insert id_name name t.assigned_return_value_to_traced;
    }
    else t

-- The value of a traced call is given a name.
abbrev pub assign_return_value : String → String → Node → Node → Walking
unfolding get split join search_for_member_expr_alternative location_of get_array insert
assign_return_value name id_name id child t = elim (traced_variant name t) [
  | none ↦ t
  | some address ↦ elim (get_elem? t.store address) [
    | none ↦ t
    | some r ↦
        if r.follow_return_value_assignement
        then hold_returned r.follow_consecutive_assignment id_name name (
            returned_event r id_name id child
              (remember_at address (record { kind = return_value_assignment; name = id_name }) t))
        else t
  ]
]

module _ (std : Std) where
  -- What a call that is not a `new` does besides.
  abbrev pub walk_plain_call : String → String → String → Node → Node → Walking
  unfolding first_segment is_evil_identifier_path walk_require_call_expression insert_set
      reverse_atob
  walk_plain_call path name id_name id child t =
      let segment = first_segment b'.' path in
      if contains t.neutral_callable segment || is_evil_identifier_path std path
      then walk_require_call_expression child id t
      else if contains unsafe_global_call_expression segment
      then refer_to_global id_name t
      else if contains require_patterns segment
      then walk_require_call_expression child id t
      else if name == "atob"
      then reverse_atob std child id t
      else t

  abbrev pub walk_call : String → Node → Node → Walking
  unfolding call_expression_identifier get_traced_name first_segment is_evil_identifier_path
      walk_require_call_expression insert_set reverse_atob get split join
      search_for_member_expr_alternative location_of get_array insert is_type
  walk_call id_name id child t = elim (call_expression_identifier std child) [
    | none ↦ t
    | some path ↦
        let name = unwrap_or path (get_traced_name path t) in
        let assigned = assign_return_value name id_name id child t in
        if is_type child "CallExpression"
        then walk_plain_call path name id_name id child assigned
        else assigned
  ]

-- `const r = require`
abbrev pub alias_identifier : String → String → Node → Walking
unfolding get declare_new_assignment is_global_variable_identifier insert_set
alias_identifier name id_name id t =
    if is_traced name t
    then declare_new_assignment name id t
    else if is_global_variable_identifier name t
    then refer_to_global id_name t
    else t

-- The name of a value that a traced call returned gets another name.
abbrev pub hand_on_returned : String → String → Walking
unfolding get insert
hand_on_returned name id_name t = elim (get name t.assigned_return_value_to_traced) [
  | none ↦ t
  | some full_name ↦ elim (get full_name t.traced) [
    | none ↦ t
    | some address ↦
        hold_returned true id_name full_name
          (remember_at address (record { kind = return_value_assignment; name = id_name }) t)
  ]
]

abbrev pub walk_identifier : String → Node → Node → Walking
unfolding get declare_new_assignment is_global_variable_identifier insert_set insert identifier_name
walk_identifier id_name id child t =
    let name = name_or_empty child in
    hand_on_returned name id_name (alias_identifier name id_name id t)

abbrev pub alias_member : List String → String → Node → Walking
unfolding join is_neutral_callable insert_set get declare_new_assignment
    search_for_member_expr_alternative
alias_member parts id_name id t =
    let name = join "." parts in
    let alternative = join "." (search_for_member_expr_alternative parts t) in
    if is_neutral_callable name
    then record t { neutral_callable = insert_set id_name t.neutral_callable }
    else if is_traced name t
    then declare_new_assignment name id t
    else if is_traced alternative t
    then declare_new_assignment alternative id t
    else t

module _ (std : Std) where
  abbrev pub walk_member : Initializing → String → Node → Node → Walking
  unfolding get_member_expression_identifier resolve_literal_identifier join is_neutral_callable
      insert_set get declare_new_assignment search_for_member_expr_alternative is_call_expression
  walk_member rec id_name id child t =
      let parts = get_member_expression_identifier std child (resolve_literal_identifier t) in
      let aliased = alias_member parts id_name id t in
      elim (Json.get "object" child) [
        | none ↦ aliased
        | some inner ↦ if is_call_expression inner then rec inner false aliased else aliased
      ]

  -- The match of `walk_variable_declarator_initialization_inner`, for an identifier `id`.
  abbrev pub walk_typed : Initializing → Node → Node → Bool → Walking
  walk_typed rec id child whole t =
      let id_name = name_or_empty id in
      if is_type child "Literal"
      then record_literal std id_name child t
      else if is_type child "TemplateLiteral"
      then set_literal id_name (to_literal child) "TemplateLiteral" t
      else if is_type child "ObjectExpression"
      then walk_object rec whole id_name child t
      else if is_type child "ArrayExpression"
      then each (λ element. rec element false) (unwrap_or [] (get_array "elements" child)) t
      else if is_type child "SpreadElement"
      then elim (Json.get "argument" child) [ none ↦ t | some argument ↦ rec argument false t ]
      else if is_type child "NewExpression" || is_type child "CallExpression"
      then walk_call std id_name id child t
      else if is_type child "Identifier"
      then walk_identifier id_name id child t
      else if is_type child "MemberExpression"
      then walk_member rec id_name id child t
      else t

  -- The step of `walk_variable_declarator_initialization`.
  abbrev pub initialize : Node → Initializing → Initializing
  initialize declarator rec child whole t = elim (Json.get "id" declarator) [
    | none ↦ t
    | some id ↦
        if is_null child || not (is_identifier id) then t else walk_typed rec id child whole t
  ]

  unfoldable pub walk_variable_declarator_initialization : Node → Initializing
  walk_variable_declarator_initialization declarator = recurse (λ _ t. t) (initialize declarator)

  abbrev pub destructure_call : Node → Node → Walking
  unfolding call_expression_identifier first_segment is_evil_identifier_path auto_trace_id
      walk_require_call_expression
  destructure_call init id t = elim (call_expression_identifier std init) [
    | none ↦ t
    | some path ↦
        let segment = first_segment b'.' path in
        if is_evil_identifier_path std path
        then walk_require_call_expression init id t
        else if contains unsafe_global_call_expression segment
        then auto_trace_id id none t
        else if contains require_patterns segment
        then walk_require_call_expression init id t
        else t
  ]

  unfoldable pub walk_variable_declaration_with_anything_else : Node → Walking
  unfolding call_expression_identifier first_segment is_evil_identifier_path auto_trace_id
      walk_require_call_expression is_type is_null identifier_name is_global_variable_identifier
  walk_variable_declaration_with_anything_else declarator t = elim (Json.get "init" declarator) [
    | none ↦ t
    | some init ↦ elim (Json.get "id" declarator) [
      | none ↦ t
      | some id ↦
          if is_null init
          then t
          else if is_type init "CallExpression"
          then destructure_call init id t
          else if is_type init "Identifier" && is_global_variable_identifier (name_or_empty init) t
          then auto_trace_id id none t
          else t
    ]
  ]

  -- `var root = freeGlobal || freeSelf || Function('return this')();`
  abbrev pub walk_logical : Node → Node → Walking
  unfolding extract_logical_expression
  walk_logical declarator init =
      each (λ (operator, leaf). walk_variable_declarator_initialization declarator leaf false)
        (extract_logical_expression init)

  unfoldable pub walk_variable_declarator : Node → Walking
  unfolding is_null is_identifier is_type extract_logical_expression
      walk_variable_declaration_with_anything_else walk_variable_declarator_initialization
  walk_variable_declarator node t = elim (Json.get "init" node) [
    | none ↦ t
    | some init ↦
        if is_null init
        then t
        else if not (is_some_and is_identifier (Json.get "id" node))
        then walk_variable_declaration_with_anything_else node t
        else if is_type init "LogicalExpression"
        then walk_logical node init t
        else walk_variable_declarator_initialization node init true t
  ]

  unfoldable pub walk : Node → Walking
  unfolding is_type walk_import_declaration walk_variable_declarator get_array
  walk node t =
      if is_type node "ImportDeclaration"
      then walk_import_declaration node t
      else if is_type node "VariableDeclaration"
      then each walk_variable_declarator (unwrap_or [] (get_array "declarations" node)) t
      else t
