-- ===== src/Estree/Bindings.antt =====
-- The names that a declaration or a pattern binds: `get_variable_declaration_identifiers`,
-- `get_param_names` and `auto_prefix` of crates/js-x-ray/src/estree/functions.rs.
pub mod Equations
use js_x_ray_rs.Prelude.{
  ℕ, String, Bool, true, false, Option, none, some, List, [], ◌∷◌, ◌++◌, ◌==◌, ◌||◌, not, unwrap_or,
  flat_map, is_some_and, if◌then◌else◌, ◌<>◌,
}
use js_x_ray_rs.Json.{Value, Node, null, get, get_str, is_null}
use js_x_ray_rs.Json.Recursion.{recurse, at_field, at_array}
use js_x_ray_rs.Estree.{is_type, type_among, is_identifier}

abbrev pub Bindings : Type 0
Bindings = Option String → List (String × Node)

unfoldable pub auto_prefix : String → Option String → String
auto_prefix name none = name
auto_prefix name (some prefix) = prefix <> "." <> name

abbrev pub name_of : Node → String
name_of node = unwrap_or "" (get_str "name" node)

-- The assignment's identifier of a property: its value, the target of its default, or its key.
abbrev pub assignment_id : Node → Value → Node
assignment_id key value =
    let left = unwrap_or null (get "left" value) in
    if is_identifier value
    then value
    else if is_type value "AssignmentPattern"
    then if is_identifier left then left else key
    else key

abbrev pub property_bindings : Bindings → Node → Value → Bindings
property_bindings inner key value prefix =
    if type_among value ("ObjectPattern" ∷ "ArrayPattern" ∷ [])
    then inner (some (auto_prefix (name_of key) prefix))
    else (auto_prefix (name_of key) prefix, assignment_id key value) ∷ []

abbrev pub own_name : Node → Bindings
own_name node prefix = (auto_prefix (name_of node) prefix, node) ∷ []

-- The later arms of the match in `collect_variable_declaration_identifiers_inner`.
abbrev pub later_types : (Node → Bindings) → Node → Bindings
later_types rec node prefix =
    if is_type node "ObjectExpression"
    then at_array "properties" node [] (flat_map λ property. rec property prefix)
    else if is_type node "SequenceExpression"
    then at_array "expressions" node [] (flat_map λ expr. rec expr prefix)
    else if is_type node "AssignmentExpression"
    then at_field "left" node [] (λ left. rec left prefix)
    else if is_type node "AssignmentPattern"
    then at_field "left" node []
        (λ left. if is_identifier left then (name_of left, left) ∷ [] else rec left prefix)
    else if is_type node "ArrayPattern"
    then at_array "elements" node []
        (flat_map λ element. if is_null element then [] else rec element prefix)
    else if is_type node "ObjectPattern"
    then at_array "properties" node []
        (flat_map λ property. if is_null property then [] else rec property prefix)
    else []

-- `collect_variable_declaration_identifiers_inner`
abbrev pub collect : (Node → Bindings) → Node → Bindings
collect rec node prefix =
    if is_type node "VariableDeclaration"
    then at_array "declarations" node [] (flat_map λ declarator. rec declarator prefix)
    else if is_type node "VariableDeclarator"
    then at_field "id" node [] (λ id. rec id prefix)
      ++ at_field "init" node [] (λ init. if is_null init then [] else rec init prefix)
    else if is_type node "Identifier"
    then own_name node prefix
    else if is_type node "Property"
    then (let key = unwrap_or null (get "key" node) in
        if not (is_some_and (λ kind. kind == "init") (get_str "kind" node))
          || not (is_type key "Identifier")
        then []
        else at_field "value" node (property_bindings (λ _. []) key null prefix)
            (λ value. property_bindings (rec value) key value prefix))
    else if is_type node "RestElement"
    then at_field "argument" node []
        (λ argument. if is_identifier argument then own_name argument prefix else [])
    else later_types rec node prefix

unfoldable pub get_variable_declaration_identifiers : Node → Bindings
get_variable_declaration_identifiers = recurse (λ _. []) collect

abbrev option_list : Option String → List String
option_list none = []
option_list (some name) = name ∷ []

-- `get_param_names`
unfoldable pub get_param_names : List Value → List String
unfolding get_variable_declaration_identifiers get_str
get_param_names = flat_map λ param.
    flat_map (λ (_, id). option_list (get_str "name" id))
      (get_variable_declaration_identifiers param none)
