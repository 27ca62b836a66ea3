-- ===== src/Estree/Members.antt =====
-- The texts that member expressions, concatenations and array literals stand for:
-- `get_member_expression_identifier`, `concat_binary_expression_parts`,
-- `array_expression_to_string_with` and `join_array_expression` of
-- crates/js-x-ray/src/estree/functions.rs. The four call one another, so they are one recursion whose
-- result is a record of the four; what a function pushes to `out` is the list that it returns.
pub mod Equations
use js_x_ray_rs.Prelude.{
  ℕ, String, Bool, true, false, Option, none, some, List, [], ◌∷◌, ◌++◌, ◌==◌, ◌>>=◌, ◌&&◌, ◌||◌,
  not, any, unwrap_or, flat_map, if◌then◌else◌, concat, join, is_blank, eqb, length,
}
use js_x_ray_rs.Json.{
  Value, Number, null, bool, number, string, unsigned, get, get_str, get_array, as_str, is_null,
}
use js_x_ray_rs.Json.Recursion.{recurse, at_field, at_array}
use js_x_ray_rs.Std.{Std}
use js_x_ray_rs.Estree.{
  Lookup, noop, node_type, is_type, is_node, type_among, is_call_expression, is_string_literal,
}
use js_x_ray_rs.Estree.Literal.{js_string}
use js_x_ray_rs.Utils.Hex.{is_hex_str, decode_hex_lossy}

pub record Readers : Type 0 where
  -- `collect_member_expression_identifier`
  pub member : Lookup → List String
  -- `concat_binary_inner`
  pub binary : Lookup → Bool → Option (List String)
  -- `array_expression_to_string_with`
  pub elements : Lookup → Bool → List String
  -- `join_array_expression`
  pub joined : Lookup → Option String

-- What a reader that is out of fuel gives; the readers below never run out.
abbrev pub no_readers : Readers
no_readers = record {
  member = λ _. [];
  binary = λ _ _. none;
  elements = λ _ _. [];
  joined = λ _. none;
}

abbrev pub option_list {ℓ} : {A : Type ℓ} → Option A → List A
option_list none = []
option_list (some a) = a ∷ []

abbrev name_of : Value → String
unfolding get_str
name_of node = unwrap_or "" (get_str "name" node)

-- The object of a member expression.
unfoldable pub object_part : Readers → Lookup → Value → List String
unfolding is_type get_str
object_part r lookup obj =
    if is_type obj "MemberExpression"
    then r.member lookup
    else if is_type obj "Identifier"
    then option_list (get_str "name" obj)
    else if is_type obj "Literal"
    then option_list (get_str "value" obj)
    else []

abbrev decoded_argument : Std → Option (List Value) → List String
unfolding is_type get_str is_hex_str decode_hex_lossy
decoded_argument std none = []
decoded_argument std (some []) = []
decoded_argument std (some (first ∷ _)) =
    if is_type first "Literal"
    then elim (get_str "value" first) [
      | none ↦ []
      | some value ↦ if is_hex_str value then decode_hex_lossy std value ∷ [] else []
    ]
    else []

-- The property of a member expression.
unfoldable pub property_part : Std → Readers → Lookup → Value → List String
unfolding is_type get_str get_array is_hex_str decode_hex_lossy concat is_blank
property_part std r lookup property =
    if is_type property "Identifier"
    then unwrap_or (name_of property) (lookup (name_of property)) ∷ []
    else if is_type property "Literal"
    then option_list (get_str "value" property)
    else if is_type property "CallExpression"
    then decoded_argument std (get_array "arguments" property)
    else if is_type property "BinaryExpression"
    then (let literal = concat (unwrap_or [] (r.binary lookup false)) in
        if is_blank literal then [] else literal ∷ [])
    else []

abbrev binary_expr_types : List String
binary_expr_types = "Literal" ∷ "BinaryExpression" ∷ "ArrayExpression" ∷ "Identifier" ∷ []

-- What one side of a concatenation adds.
unfoldable pub child_part : Readers → Lookup → Bool → Value → Option (List String)
unfolding is_type get_str
child_part r lookup stop child =
    if is_type child "BinaryExpression"
    then r.binary lookup stop
    else if is_type child "ArrayExpression"
    then some (r.elements lookup true)
    else if is_type child "Literal"
    then some (option_list (get_str "value" child))
    else if is_type child "Identifier"
    then elim (lookup (name_of child)) [
      | none ↦ some []
      | some identifier ↦ some (if identifier == "" then [] else identifier ∷ [])
    ]
    else some []

-- `Number(row.value)` in `array_expression_to_string_with`.
unfoldable pub numeric : Std → Value → Option Number
unfolding is_blank
numeric std (number n) = some n
numeric std (string s) = if is_blank s then some (unsigned 0) else std.parse_f64 s
numeric std (bool true) = some (unsigned 1)
numeric std (bool false) = some (unsigned 0)
numeric std null = some (unsigned 0)
numeric std _ = none

abbrev char_code_text : Std → Option Number → Value → String
unfolding js_string
char_code_text std none value = js_string std value
char_code_text std (some code) value = std.unit_text (std.utf16_unit code)

abbrev literal_row : Std → Bool → Value → List String
unfolding numeric js_string get
literal_row std resolve_char_code row =
    let value = unwrap_or null (get "value" row) in
    if elim value [ string s ↦ s == "" | _ ↦ false ]
    then []
    else if resolve_char_code
    then char_code_text std (numeric std value) value ∷ []
    else js_string std value ∷ []

-- What one element of an array literal adds.
unfoldable pub row_part : Std → Readers → Lookup → Bool → Value → List String
unfolding is_null is_type get_str numeric js_string get
row_part std r lookup resolve_char_code row =
    if is_null row
    then []
    else if is_type row "Literal"
    then literal_row std resolve_char_code row
    else if is_type row "Identifier"
    then option_list (lookup (name_of row))
    else if is_type row "CallExpression"
    then option_list (r.joined lookup)
    else []

abbrev join_parts : String → List String → String
unfolding join
join_parts separator [] = ""
join_parts separator (part ∷ parts) = join separator (part ∷ parts)

-- `[..].join("sep")`, from the readers of the callee and of its object.
unfoldable pub joined_part : Readers → Readers → Lookup → List Value → Value → Value → Option String
unfolding is_type is_string_literal get_str join
joined_part callee_readers object_readers lookup args callee obj =
    if not (eqb (length args) 1)
      || not (is_type callee "MemberExpression")
      || not (is_type obj "ArrayExpression")
    then none
    else if not (join "." (callee_readers.member noop) == "join")
    then none
    else elim args [
      | [] ↦ none
      | first ∷ _ ↦
          if is_string_literal first
          then (do
            separator ← get_str "value" first
            some (join_parts separator (object_readers.elements lookup false)))
          else none
    ]

module _ (std : Std) where
  abbrev pub read_member : (Value → Readers) → Value → Lookup → List String
  read_member rec node lookup = at_field "object" node [] λ obj.
      object_part (rec obj) lookup obj
      ++ at_field "property" node [] λ property. property_part std (rec property) lookup property

  abbrev pub read_binary : (Value → Readers) → Value → Lookup → Bool → Option (List String)
  read_binary rec node lookup stop = at_field "left" node none λ left.
      at_field "right" node none λ right.
        if stop && not (type_among left binary_expr_types && type_among right binary_expr_types)
        then none
        else (do
          before ← child_part (rec left) lookup stop left
          after ← child_part (rec right) lookup stop right
          some (before ++ after))

  abbrev pub read_elements : (Value → Readers) → Value → Lookup → Bool → List String
  read_elements rec node lookup resolve_char_code =
      if is_node node && is_type node "ArrayExpression"
      then at_array "elements" node []
          (flat_map λ row. row_part std (rec row) lookup resolve_char_code row)
      else []

  abbrev pub read_joined : (Value → Readers) → Value → Lookup → Option String
  read_joined rec node lookup =
      if is_call_expression node
      then at_array "arguments" node none (λ args. at_field "callee" node none λ callee.
        at_field "object" callee none
          λ obj. joined_part (rec callee) (rec obj) lookup args callee obj)
      else none

  abbrev pub read : (Value → Readers) → Value → Readers
  read rec node = record {
    member = read_member rec node;
    binary = read_binary rec node;
    elements = read_elements rec node;
    joined = read_joined rec node;
  }

  unfoldable pub readers : Value → Readers
  readers = recurse no_readers read

  -- `get_member_expression_identifier`
  unfoldable pub get_member_expression_identifier : Value → Lookup → List String
  unfolding readers
  get_member_expression_identifier node lookup = (readers node).member lookup

  -- `concat_binary_expression_parts`
  unfoldable pub concat_binary_expression_parts : Value → Lookup → Bool → Option (List String)
  unfolding readers
  concat_binary_expression_parts node lookup stop = (readers node).binary lookup stop

  -- `array_expression_to_string_with`
  unfoldable pub array_expression_to_string_with : Value → Lookup → Bool → List String
  unfolding readers
  array_expression_to_string_with node lookup resolve = (readers node).elements lookup resolve

  -- `join_array_expression`
  unfoldable pub join_array_expression : Value → Lookup → Option String
  unfolding readers
  join_array_expression node lookup = (readers node).joined lookup
