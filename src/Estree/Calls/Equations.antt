-- ===== src/Estree/Calls/Equations.antt =====
-- `get_call_expression_identifier` satisfies the equation that the source writes
-- (crates/js-x-ray/src/estree/functions.rs).
use js_x_ray_rs.Prelude.{
  String, Bool, true, Option, none, some, [], ◌∷◌, ◌≡◌, ap, ap₂, fun_ext, if◌then◌else◌, ◌&&◌, ◌<>◌,
  unwrap_or, join, arith, ◌<◌,
}
use js_x_ray_rs.Json.{get_str, Node}
use js_x_ray_rs.Json.Depth.{depth}
use js_x_ray_rs.Json.Recursion.{recurse-eq, at_field-cong}
use js_x_ray_rs.Std.{Std}
use js_x_ray_rs.Estree.{
  Lookup, noop, type_among, is_call_expression, is_identifier, is_member_expression,
}
use js_x_ray_rs.Estree.Members.{get_member_expression_identifier}
use js_x_ray_rs.Estree.Calls.{Naming, name_call, get_call_expression_identifier}

module _ (std : Std) (f g : Node → Naming) (v : Node)
    (agree : (w : Node) → depth w < depth v → f w ≡ g w) where
  name_call-cong :
      (lookup : Lookup) (resolve : Bool)
      → name_call std f v lookup resolve ≡ name_call std g v lookup resolve
  name_call-cong lookup resolve =
      ap (λ o. if type_among v ("CallExpression" ∷ "NewExpression" ∷ []) then o else none)
        (at_field-cong "callee" v none _ _ λ c below_c.
          ap₂
            (λ o p.
              if is_identifier c
              then get_str "name" c
              else if is_member_expression c
              then o
              else if resolve
              then p
              else none)
            (at_field-cong "object" c none _ _ λ m below_m.
              ap
                (λ (n : Option String).
                  let last_id = join "." (get_member_expression_identifier std c lookup) in
                  if resolve && is_call_expression m
                  then some (unwrap_or "null" n <> "." <> last_id)
                  else some last_id)
                (ap (λ (n : Naming). n noop true) (agree m (omega arith))))
            (ap (λ (n : Naming). n lookup true) (agree c below_c)))

-- Naming a call satisfies its defining equation on every tree, however deep.
pub get_call_expression_identifier-eq :
    (std : Std) (v : Node)
    → get_call_expression_identifier std v ≡ name_call std (get_call_expression_identifier std) v
unfolding get_call_expression_identifier
get_call_expression_identifier-eq std =
    recurse-eq (λ _ _. none) (name_call std)
      (λ f g v agree.
        fun_ext λ lookup. fun_ext λ resolve. name_call-cong std f g v agree lookup resolve)
