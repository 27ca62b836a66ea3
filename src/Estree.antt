-- ===== src/Estree.antt =====
-- ESTree nodes: crates/js-x-ray/src/estree/types.rs and mod.rs.
pub mod Literal
pub mod Members
pub mod Calls
pub mod Logical
pub mod Bindings
use js_x_ray_rs.Prelude.{
  ℕ, String, Bool, true, false, Option, none, some, List, [], ◌∷◌, ◌==◌, ◌>>=◌, ◌≡◌, refl, ◌&&◌,
  ◌||◌, is_some_and, option_map, any,
}
use js_x_ray_rs.Json.{
  Value, Node, null, object, string, get, get_str, get_index, as_str, is_string, is_number, Number,
  number, unsigned,
}

abbrev is_object : Value → Bool
is_object (object fs) = true
is_object _ = false

-- `isNode`: a JSON object with a string `type` field.
unfoldable pub is_node : Value → Bool
unfolding get is_string
is_node value = is_object value && is_some_and is_string (get "type" value)

unfoldable pub node_type : Value → Option String
unfolding get_str
node_type value = get_str "type" value

abbrev pub same_type : String → Option String → Bool
same_type ty none = false
same_type ty (some t) = t == ty

unfoldable pub is_type : Value → String → Bool
unfolding node_type
is_type value ty = same_type ty (node_type value)

-- `matches!(node_type(node), Some(a | b | ..))`.
unfoldable pub type_among : Value → List String → Bool
unfolding node_type
type_among value types = is_some_and (λ t. any (λ ty. t == ty) types) (node_type value)

unfoldable pub is_literal : Value → Bool
unfolding is_type
is_literal node = is_type node "Literal"

unfoldable pub is_string_literal : Value → Bool
unfolding is_literal get is_string
is_string_literal node = is_literal node && is_some_and is_string (get "value" node)

unfoldable pub is_numeric_literal : Value → Bool
unfolding is_literal get is_number
is_numeric_literal node = is_literal node && is_some_and is_number (get "value" node)

unfoldable pub is_template_literal : Value → Bool
unfolding is_type get get_index is_string
is_template_literal node =
    is_type node "TemplateLiteral"
    && is_some_and
        (λ first_quasi.
          is_type first_quasi "TemplateElement"
          && is_some_and is_string (get "value" first_quasi >>= get "raw"))
        (get "quasis" node >>= get_index 0)

unfoldable pub is_function_node : Value → Bool
unfolding type_among
is_function_node node =
    type_among node ("FunctionDeclaration" ∷ "FunctionExpression" ∷ "ArrowFunctionExpression" ∷ [])

unfoldable pub is_call_expression : Value → Bool
unfolding is_type
is_call_expression node = is_type node "CallExpression"

unfoldable pub is_identifier : Value → Bool
unfolding is_type
is_identifier node = is_type node "Identifier"

unfoldable pub is_member_expression : Value → Bool
unfolding is_type
is_member_expression node = is_type node "MemberExpression"

unfoldable pub is_object_expression : Value → Bool
unfolding is_type
is_object_expression node = is_type node "ObjectExpression"

abbrev when_true {ℓ} : {A : Type ℓ} → Bool → Option A → Option A
when_true true o = o
when_true false o = none

-- The string `value` of a `Literal` node.
unfoldable pub literal_str : Node → Option String
unfolding is_literal get_str
literal_str node = when_true (is_literal node) (get_str "value" node)

-- The `name` of an `Identifier` node.
unfoldable pub identifier_name : Node → Option String
unfolding is_identifier get_str
identifier_name node = when_true (is_identifier node) (get_str "name" node)

-- `ExternalIdentifierLookup` and the `Lookup` of functions.rs.
abbrev pub Lookup : Type 0
Lookup = String → Option String

abbrev pub noop : Lookup
noop _ = none

pub record Position : Type 0 where
  pub line : ℕ
  pub column : ℕ

pub record SourceLocation : Type 0 where
  pub start : Position
  pub stop : Position

-- A `u64` in JSON.
abbrev as_u64 : Value → Option ℕ
as_u64 (number (unsigned n)) = some n
as_u64 _ = none

position : Value → Option Position
unfolding get
position v = do
  line ← get "line" v >>= as_u64
  column ← get "column" v >>= as_u64
  some (record { line = line; column = column })

-- `SourceLocation::from_node`: the derived deserializer wants every field.
unfoldable pub location_of : Node → Option SourceLocation
unfolding get position
location_of node = do
  loc ← get "loc" node
  start ← get "start" loc >>= position
  stop ← get "end" loc >>= position
  some (record { start = start; stop = stop })

unfoldable pub root_location : SourceLocation
root_location = record {
  start = record { line = 0; column = 0 };
  stop = record { line = 0; column = 0 };
}
