-- ===== src/Utils/OneLine.antt =====
-- `is_one_line_expression_export` of
-- crates/js-x-ray/src/utils/is_one_line_expression_export.rs.
pub mod Leaves
use js_x_ray_rs.Prelude.{
  ℕ, String, Bool, true, false, Option, none, some, List, [], ◌∷◌, ◌==◌, ◌≡◌, ◌&&◌, ◌||◌,
  is_some_and, unwrap_or, if◌then◌else◌,
}
use js_x_ray_rs.Json.{Value, Node, null, get, get_str}
use js_x_ray_rs.Json.Recursion.{recurse, at_field}
use js_x_ray_rs.Std.{Std}
use js_x_ray_rs.Estree.{is_type, is_call_expression, is_member_expression}
use js_x_ray_rs.Estree.Calls.{call_expression_identifier}

-- The loop that goes down the objects of member expressions.
abbrev pub root_step : (Node → Node) → Node → Node
root_step rec v = if is_member_expression v then at_field "object" v null rec else v

unfoldable pub root_member : Node → Node
root_member = recurse null root_step

module _ (std : Std) where
  unfoldable pub names_require : Node → Bool
  unfolding call_expression_identifier
  names_require v = is_some_and (λ name. name == "require") (call_expression_identifier std v)

  -- `at_least_one_branch_has_require_leave`, on two fields of a node.
  abbrev pub at_least_one_branch : (Node → Bool) → String → String → Node → Bool
  at_least_one_branch rec left right expr =
      at_field left expr false rec || at_field right expr false rec

  abbrev pub member_requires : Node → Bool
  member_requires root = is_call_expression root && names_require root

  -- The step of `export_assignment_has_require_leave`.
  abbrev pub leave_step : (Node → Bool) → Node → Bool
  leave_step rec expr =
      if is_type expr "LogicalExpression"
      then at_least_one_branch rec "left" "right" expr
      else if is_type expr "ConditionalExpression"
      then at_least_one_branch rec "consequent" "alternate" expr
      else if is_call_expression expr
      then names_require expr
      else if is_member_expression expr
      then member_requires (root_member (unwrap_or null (get "object" expr)))
      else false

  unfoldable pub export_assignment_has_require_leave : Node → Bool
  export_assignment_has_require_leave = recurse false leave_step

  abbrev pub of_expression : Value → Bool
  of_expression expression = elim (get_str "type" expression) [
    | none ↦ false
    | some ty ↦
        if ty == "AssignmentExpression"
        then is_some_and export_assignment_has_require_leave (get "right" expression)
        else if ty == "CallExpression"
        then export_assignment_has_require_leave expression
        else false
  ]

  unfoldable pub is_one_line_expression_export : List Value → Bool
  unfolding is_type get
  is_one_line_expression_export (first_node ∷ []) =
      if is_type first_node "ExpressionStatement"
      then is_some_and of_expression (get "expression" first_node)
      else false
  is_one_line_expression_export _ = false
