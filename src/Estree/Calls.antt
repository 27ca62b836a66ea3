-- ===== src/Estree/Calls.antt =====
-- The name of a call, its literal arguments, and template literals:
-- `get_call_expression_identifier`, `to_literal`, `get_call_expression_arguments` and
-- `get_member_call_expression` of crates/js-x-ray/src/estree/functions.rs.
pub mod Equations
use js_x_ray_rs.Prelude.{
  ℕ, zero, suc, ◌+◌, String, Bool, true, false, Option, none, some, List, [], ◌∷◌, ◌++◌, ◌==◌,
  ◌>>=◌, ◌&&◌, ◌||◌, not, unwrap_or, flat_map, if◌then◌else◌, concat, join, ◌<>◌, decimal,
  is_some_and,
}
use js_x_ray_rs.Json.{Value, Node, get, get_str, get_array, as_str, as_bool}
use js_x_ray_rs.Json.Recursion.{recurse, at_field}
use js_x_ray_rs.Std.{Std}
use js_x_ray_rs.Estree.{
  Lookup, noop, is_type, type_among, is_call_expression, is_identifier, is_member_expression,
}
use js_x_ray_rs.Estree.Members.{
  get_member_expression_identifier, concat_binary_expression_parts, option_list,
}
use js_x_ray_rs.Utils.Hex.{is_hex_str, decode_hex_lossy}

abbrev pub Naming : Type 0
Naming = Lookup → Bool → Option String

module _ (std : Std) where
  abbrev pub name_call : (Node → Naming) → Node → Naming
  name_call rec node lookup resolve_call_expression =
      if type_among node ("CallExpression" ∷ "NewExpression" ∷ [])
      then at_field "callee" node none (λ callee.
        if is_identifier callee
        then get_str "name" callee
        else if is_member_expression callee
        then at_field "object" callee none (λ member_object.
          let last_id = join "." (get_member_expression_identifier std callee lookup) in
          if resolve_call_expression && is_call_expression member_object
          then some (unwrap_or "null" (rec member_object noop true) <> "." <> last_id)
          else some last_id)
        else if resolve_call_expression
        then rec callee lookup true
        else none)
      else none

  -- `get_call_expression_identifier`, its options as arguments.
  unfoldable pub get_call_expression_identifier : Node → Naming
  get_call_expression_identifier = recurse (λ _ _. none) name_call

  -- With the default options.
  unfoldable pub call_expression_identifier : Node → Option String
  unfolding get_call_expression_identifier
  call_expression_identifier node = get_call_expression_identifier node noop true

abbrev quasi_text : ℕ → Value → String
unfolding get get_str decimal
quasi_text i quasi =
    let raw = unwrap_or "" (get "value" quasi >>= get_str "raw") in
    if unwrap_or false (get "tail" quasi >>= as_bool) then raw else raw <> "${" <> decimal i <> "}"

quasi_texts : ℕ → List Value → String
unfolding get get_str decimal as_bool
quasi_texts i [] = ""
quasi_texts i (quasi ∷ quasis) = quasi_text i quasi <> quasi_texts (i + 1) quasis

-- `to_literal`
unfoldable pub to_literal : Value → String
unfolding get_array quasi_texts
to_literal template_literal = elim (get_array "quasis" template_literal) [
  | none ↦ ""
  | some quasis ↦ quasi_texts 0 quasis
]

-- `hex_to_string`
unfoldable pub hex_to_string : Std → String → String
unfolding is_hex_str decode_hex_lossy
hex_to_string std value = if is_hex_str value then decode_hex_lossy std value else value

abbrev not_empty {ℓ} : {A : Type ℓ} → List A → Option (List A)
not_empty [] = none
not_empty (x ∷ xs) = some (x ∷ xs)

module _ (std : Std) (lookup : Lookup) where
  -- What one argument adds to `literals_node`.
  unfoldable pub argument_part : Value → List String
  unfolding is_type get_str hex_to_string to_literal concat concat_binary_expression_parts
  argument_part arg =
      if is_type arg "Identifier"
      then option_list (lookup (unwrap_or "" (get_str "name" arg)))
      else if is_type arg "Literal"
      then elim (get_str "value" arg) [ none ↦ [] | some value ↦ hex_to_string std value ∷ [] ]
      else if is_type arg "TemplateLiteral"
      then to_literal arg ∷ []
      else if is_type arg "BinaryExpression"
      then (let concatenated =
            concat (unwrap_or [] (concat_binary_expression_parts std arg lookup false)) in
          if concatenated == "" then [] else concatenated ∷ [])
      else []

  -- `get_call_expression_arguments`
  unfoldable pub get_call_expression_arguments : Node → Option (List String)
  unfolding is_call_expression get_array argument_part
  get_call_expression_arguments node =
      if is_call_expression node
      then (do args ← get_array "arguments" node; not_empty (flat_map argument_part args))
      else none

abbrev named_method : Node → String → Value → Option Node
unfolding is_member_expression is_identifier get get_str as_bool
named_method node method_name callee =
    if is_member_expression callee && not (unwrap_or false (get "computed" callee >>= as_bool))
    then (do
      property ← get "property" callee
      if is_identifier property
            && is_some_and (λ name. name == method_name) (get_str "name" property)
          then some node
          else none)
    else none

-- `get_member_call_expression`
unfoldable pub get_member_call_expression : Node → String → Option Node
unfolding is_call_expression get is_member_expression is_identifier get_str as_bool
get_member_call_expression node method_name =
    if is_call_expression node
    then (do callee ← get "callee" node; named_method node method_name callee)
    else none
