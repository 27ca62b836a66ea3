-- ===== src/Examples/Trees.antt =====
-- Trees: `a.b`, a call, a pattern, and the walks over them.
use js_x_ray_rs.Estree.{is_type}
use js_x_ray_rs.Prelude.{
  Bool-cases, inl, inr, if◌then◌else◌, leb, ◌||◌, ◌&&◌, ℕ, ◌<◌, suc, String, true, none, some, [],
  ◌∷◌, ◌≡◌, ◌↔◌, refl, arith, All,
}
use js_x_ray_rs.Json.{
  Value, Node, null, unsigned, string, array, object, field, end, cons, nil, is_null, is_array,
}
use js_x_ray_rs.Json.Depth.{depth}
use js_x_ray_rs.Std.{Std}
use js_x_ray_rs.Estree.{is_node}
use js_x_ray_rs.Estree.Logical.{extract_logical_expression, Flat, extract_logical_expression-Flat}
use js_x_ray_rs.Estree.Bindings.{get_variable_declaration_identifiers}
use js_x_ray_rs.Estree.Bindings.Equations.{get_variable_declaration_identifiers_bind, IsBinding}
use js_x_ray_rs.Utils.OneLine.{export_assignment_has_require_leave}
use js_x_ray_rs.Utils.OneLine.Leaves.{
  RequireLeave, export_assignment_has_require_leave-RequireLeave,
}
use js_x_ray_rs.Utils.Hex.{encode_bytes, decode_bytes}
use js_x_ray_rs.Utils.Hex.RoundTrip.{decode_bytes-encode_bytes}
use js_x_ray_rs.Walker.{walk, walk_enter, SyncHandler, run_handler}
use js_x_ray_rs.Walker.Fuel.{walk_ends, IsCalm}
use js_x_ray_rs.Walker.Observe.{walk_enter-observe, observe, below}

-- A standard library for ASCII texts.
abbrev pub ascii : Std
ascii = record {
  float_text = λ bits. "0.5";
  json_text = λ v. "[object]";
  parse_f64 = λ s. none;
  utf16_unit = λ n. elim n [ unsigned k ↦ k | _ ↦ 0 ];
  unit_text = λ u. "A";
  utf8_lossy = λ bytes. "text";
  lowercase = λ s. s;
  is_alphabetic = λ c. leb b'a' c && leb c b'z' || leb b'A' c && leb c b'Z';
  is_alphanumeric =
      λ c. leb b'a' c && leb c b'z' || leb b'A' c && leb c b'Z' || leb b'0' c && leb c b'9';
  is_match = λ pattern_ text. true;
  replace_all = λ pattern_ text by. text;
  quotient_text = λ n d. "0.5";
}

abbrev pub identifier : String → Node
identifier name = object (field "type" (string "Identifier") (field "name" (string name) end))

-- `a.b`
abbrev a_b : Node
a_b = object (
    field "type" (string "MemberExpression")
      (field "object" (identifier "a") (field "property" (identifier "b") end)))

-- `a.b(c)`
abbrev pub call : Node
call = object (
    field "type" (string "CallExpression")
      (field "callee" a_b (field "arguments" (array (cons (identifier "c") nil)) end)))

-- `a && (b || c)`
abbrev logical : Node
logical = object (
    field "type" (string "LogicalExpression") (
      field "operator" (string "&&") (
        field "left" (identifier "a") (
          field "right"
            (object (
              field "type" (string "LogicalExpression") (
                field "operator" (string "||")
                  (field "left" (identifier "b") (field "right" (identifier "c") end)))))
            end))))

-- `[a, ...b]`
abbrev array_pattern : Node
array_pattern = object (
    field "type" (string "ArrayPattern") (
      field "elements"
        (array (
          cons (identifier "a") (
            cons
              (object (field "type" (string "RestElement") (field "argument" (identifier "b") end)))
              nil)))
        end))

call-depth : depth call < 9
unfolding depth
call-depth = omega arith

-- The walk counts the nodes of the call.
walk_enter-observe_example : walk_enter (observe (λ n node. suc n)) 9 0 call ≡ some (5, call)
unfolding is_null below is_node is_array
walk_enter-observe_example = walk_enter-observe (λ n node. suc n) 9 0 call call-depth refl

-- An enter handler that counts the nodes, puts `null` in place of identifiers, and goes on.
abbrev pub erasing : SyncHandler ℕ
erasing n ctx node = record {
  captured = suc n;
  context = record ctx { replacement = if is_type node "Identifier" then some null else none };
  node = node;
}

erasing-IsCalm : IsCalm (some erasing)
unfolding run_handler depth
erasing-IsCalm w node h = elim (Bool-cases (is_type node "Identifier")) [
  | inl e ↦ rw e (omega arith)
  | inr e ↦ rw e (omega arith)
]

walk_ends_example : (r : ℕ × Value) × (walk (some erasing) none 9 0 call ≡ some r)
walk_ends_example = walk_ends (some erasing) none erasing-IsCalm 9 0 call call-depth

get_variable_declaration_identifiers_bind_example :
    All IsBinding (get_variable_declaration_identifiers array_pattern none)
get_variable_declaration_identifiers_bind_example =
    get_variable_declaration_identifiers_bind array_pattern none

decode_bytes-encode_bytes_example : decode_bytes (encode_bytes (104 ∷ 105 ∷ [])) ≡ 104 ∷ 105 ∷ []
decode_bytes-encode_bytes_example =
    decode_bytes-encode_bytes (104 ∷ 105 ∷ []) (omega arith, (omega arith, tt))

-- `a && require("x")`
abbrev guarded_require : Node
guarded_require = object (
    field "type" (string "LogicalExpression") (
      field "left" (identifier "a") (
        field "right"
          (object
            (field "type" (string "CallExpression") (field "callee" (identifier "require") end)))
          end)))

export_assignment_has_require_leave-RequireLeave_example :
    (export_assignment_has_require_leave ascii guarded_require ≡ true)
    ↔ RequireLeave ascii guarded_require
export_assignment_has_require_leave-RequireLeave_example =
    export_assignment_has_require_leave-RequireLeave ascii guarded_require

extract_logical_expression-Flat_example : Flat logical (extract_logical_expression logical) ↔ (
    (is_type logical "LogicalExpression" ≡ true)
    × (extract_logical_expression logical ≡ extract_logical_expression logical))
extract_logical_expression-Flat_example =
    extract_logical_expression-Flat logical (extract_logical_expression logical)
