-- ===== src/Examples/Inlines.antt =====
-- Runs on inline calls.
use js_x_ray_rs.Prelude.{some, List, [], ◌∷◌, ◌≡◌, refl}
use js_x_ray_rs.Json.{Value, Node, object, field, end, string, get}
use js_x_ray_rs.Json.Depth.{depth}
use js_x_ray_rs.Estree.{is_call_expression, is_member_expression}
use js_x_ray_rs.VirtualVariableIdentifier.{State}
use js_x_ray_rs.Inlined.{SplitResult, split, inlined_new, declaration, virtual_id}
use js_x_ray_rs.Inlined.PutBack.{Regular, member, other}
use js_x_ray_rs.Inlined.Splits.{IsSplit, split-IsSplit}
use js_x_ray_rs.Pipelines.Inline.{inline_walk, inline_walk_returns}
use js_x_ray_rs.Examples.Trees.{ascii, call}

abbrev new_expression : Node
new_expression = object (field "type" (string "NewExpression") end)

-- `new A().b`
abbrev new_member : Node
new_member = object (field "type" (string "MemberExpression") (field "object" new_expression end))

abbrev no_identifiers : State
no_identifiers = record { counter = 0; id_to_locations = [] }

abbrev rebuilt_member : Node
rebuilt_member =
    object (
      field "type" (string "MemberExpression")
        (field "object" (virtual_id "__virtual_new_0__") end))

abbrev split_member : SplitResult
split_member = record {
  virtual_identifier = "__virtual_new_0__";
  virtual_declaration = declaration "__virtual_new_0__" new_expression;
  rebuild_expression = some rebuilt_member;
}

split_runs : (split ascii inlined_new new_member no_identifiers).1 ≡ some split_member
unfolding split depth
split_runs = refl

new_member-Regular : Regular new_member
unfolding is_call_expression is_member_expression get
new_member-Regular = member refl refl refl (other refl refl)

split-IsSplit_example : IsSplit new_member split_member rebuilt_member
split-IsSplit_example =
    split-IsSplit ascii inlined_new new_member no_identifiers split_member rebuilt_member
      new_member-Regular split_runs refl

inline_walk_returns_example :
    (out : State × List Value) × (inline_walk ascii no_identifiers (new_member ∷ call ∷ [])
      ≡ some out)
inline_walk_returns_example = inline_walk_returns ascii no_identifiers (new_member ∷ call ∷ [])
