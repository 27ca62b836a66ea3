-- ===== src/Inlined.antt =====
-- Calls that are written inline, and their splitting: crates/js-x-ray/src/inlined.rs. A node inside
-- another, which the source keeps as a reference, is the number of steps to it: the object of a member
-- expression, the callee of any other. The state is that of the virtual identifiers.
pub mod Fields
pub mod PutBack
pub mod Splits
use js_x_ray_rs.Prelude.{
  ℕ, zero, suc, ◌+◌, String, Bool, true, false, not, ◌&&◌, ◌||◌, Option, none, some, ◌>>=◌, List,
  [], ◌∷◌, ◌==◌, map, if◌then◌else◌, ltb, eqb, unwrap_or, is_some_and, option_map, codes,
}
use js_x_ray_rs.Prelude.IndexMap.{contains}
use js_x_ray_rs.Json.{
  Value, Node, null, string, array, object, end, field, cons, nil, get, get_str, as_array, items_of,
  set_field,
}
use js_x_ray_rs.Json.Depth.{depth}
use js_x_ray_rs.Json.Recursion.{recurse, at_field}
use js_x_ray_rs.Std.{Std}
use js_x_ray_rs.Estree.{
  is_type, is_call_expression, is_member_expression, is_identifier, location_of,
}
use js_x_ray_rs.Estree.Calls.{call_expression_identifier}
use js_x_ray_rs.VirtualVariableIdentifier.{State, generate}

pub record SplitResult : Type 0 where
  pub virtual_identifier : String
  pub virtual_declaration : Node
  pub rebuild_expression : Option Node

-- A node and the steps to it.
abbrev pub Place : Type 0
Place = ℕ × Node

-- `as_object_mut().insert(..)`
abbrev pub set : String → Value → Value → Value
set k v (object fs) = object (set_field k v fs)
set k v other = other

-- The node to replace is this one, or it is further in, or it is elsewhere.
abbrev pub is_here : Option ℕ → Bool
is_here none = false
is_here (some zero) = true
is_here (some (suc n)) = false

abbrev pub inward : Option ℕ → Option ℕ
inward none = none
inward (some zero) = none
inward (some (suc n)) = some n

-- The callee and the arguments of a call are replaced, the latter by none where they are no array.
abbrev pub with_call : (Node → Node) → (Node → Node) → Node → Node
unfolding get as_array
with_call inner elsewhere node = elim (get "callee" node) [
  | none ↦ node
  | some callee ↦ elim (get "arguments" node) [
    | none ↦ node
    | some arguments ↦
        set "arguments" (array (items_of (map elsewhere (unwrap_or [] (as_array arguments)))))
          (set "callee" (inner callee) node)
  ]
]

abbrev pub with_object : (Node → Node) → Node → Node
unfolding get
with_object inner node = elim (get "object" node) [
  | none ↦ node
  | some object_ ↦ set "object" (inner object_) node
]

unfoldable pub clone_with : ℕ → Node → Option ℕ → Node → Node
unfolding get as_array is_call_expression is_member_expression
clone_with zero replacement target node = node
clone_with (suc fuel) replacement target node =
    let inner = clone_with fuel replacement (inward target) in
    let elsewhere = clone_with fuel replacement none in
    if is_here target
    then replacement
    else if is_call_expression node
    then with_call inner elsewhere node
    else if is_member_expression node
    then with_object inner node
    else node

unfoldable pub clone_and_replace : Node → ℕ → Node → Node
unfolding clone_with
clone_and_replace node target replacement =
    clone_with (suc (depth node)) replacement (some target) node

abbrev pub virtual_id : String → Node
virtual_id name = object (field "type" (string "Identifier") (field "name" (string name) end))

unfoldable pub rebuild_with_virtual_identifier : Node → ℕ → String → Option Node
unfolding clone_and_replace
rebuild_with_virtual_identifier node target virtual_identifier =
    if eqb target 0
    then none
    else some (clone_and_replace node target (virtual_id virtual_identifier))

abbrev pub declaration : String → Node → Node
declaration virtual_identifier target =
    let declarator = object (
      field "type" (string "VariableDeclarator")
        (field "id" (virtual_id virtual_identifier) (field "init" target end))) in
    object (
      field "type" (string "VariableDeclaration")
        (field "kind" (string "const") (field "declarations" (array (cons declarator nil)) end)))

unfoldable pub build_split_result : Node → Place → String → State → State × SplitResult
unfolding generate location_of rebuild_with_virtual_identifier
build_split_result node (place, target) identifier state =
    let (state', virtual_identifier) = generate identifier (location_of node) state in
    (
      state',
      record {
        virtual_identifier = virtual_identifier;
        virtual_declaration = declaration virtual_identifier target;
        rebuild_expression = rebuild_with_virtual_identifier node place virtual_identifier;
      },
    )

abbrev pub further : Option Place → Option Place
further found = option_map (λ (place, node). (suc place, node)) found

abbrev pub is_call_or_member : Node → Bool
unfolding is_call_expression is_member_expression
is_call_or_member node = is_call_expression node || is_member_expression node

-- The name of what a call calls is among these.
abbrev pub calls : List String → Node → Bool
unfolding is_call_expression is_identifier get get_str
calls names node =
    is_call_expression node
    && is_some_and
        (λ callee.
          is_identifier callee && is_some_and (λ name. contains names name) (get_str "name" callee))
        (get "callee" node)

-- The object of a member expression, and else the callee.
abbrev pub inside : Node → Option Node
unfolding get is_member_expression
inside node = if is_member_expression node then get "object" node else get "callee" node

-- `InlinedCallExpression::find_call_expression`, with the steps so far.
abbrev pub Search : Type 0
Search = ℕ → Option Place → ℕ → Option Place

abbrev pub is_result : ℕ → Place → Option Place
unfolding is_call_expression
is_result extra_call_count (place, node) =
    if is_call_expression node && ltb 1 extra_call_count then some (place, node) else none

abbrev pub call_step : (Node → Search) → Node → Search
unfolding inside calls is_member_expression is_call_expression is_result
call_step rec node place result extra_call_count =
    let object_ = inside node in
    if is_some_and (calls ("require" ∷ "eval" ∷ [])) object_
    then none
    else if is_member_expression node
    then (do o ← object_; rec o (suc place) (some (place, node)) extra_call_count)
    else if is_call_expression node
    then (do o ← object_; rec o (suc place) (some (place, node)) (extra_call_count + 1))
    else (do found ← result; is_result extra_call_count found)

unfoldable pub find_call_expression : Node → Search
unfolding recurse call_step
find_call_expression = recurse (λ _ _ _. none) call_step

-- `InlinedNew::find_new_call`
abbrev pub new_step : (Node → Option Place) → Node → Option Place
unfolding is_type is_call_expression is_member_expression get
new_step rec node =
    if is_call_expression node
    then further (get "callee" node >>= rec)
    else if is_member_expression node
    then further (get "object" node >>= rec)
    else if is_type node "NewExpression"
    then some (0, node)
    else none

unfoldable pub find_new_call : Node → Option Place
unfolding recurse new_step
find_new_call = recurse none new_step

-- `InlinedRequire::find_require_call`
abbrev pub require_step : (Node → Option Place) → Node → Option Place
unfolding inside calls is_call_or_member
require_step rec node = do
  object_ ← inside node
  if calls ("require" ∷ []) object_
      then some (1, object_)
      else if is_call_or_member object_
      then further (rec object_)
      else none

unfoldable pub find_require_call : Node → Option Place
unfolding recurse require_step
find_require_call = recurse none require_step

abbrev pub require_pattern : String
require_pattern = "(?i)^require..*$"

-- `InlinedRequire::assert_node`
unfoldable pub assert_node : Std → Node → Bool
unfolding is_call_expression call_expression_identifier
assert_node std node =
    is_call_expression node
    && is_some_and (λ id. std.is_match require_pattern (codes id))
        (call_expression_identifier std node)

-- The three kinds of splitting: where the inline part is, and what its identifier is called.
pub data Splitter : Type 0 where
  inlined_call_expression inlined_new inlined_require : Splitter

abbrev pub not_itself : Place → Option Place
not_itself (place, node) = if eqb place 0 then none else some (place, node)

unfoldable pub find : Std → Splitter → Node → Option Place
unfolding is_call_or_member find_call_expression find_new_call find_require_call assert_node
find std inlined_call_expression node =
    if is_call_or_member node then find_call_expression node 0 none 0 >>= not_itself else none
find std inlined_new node = if is_call_or_member node then find_new_call node else none
find std inlined_require node = if assert_node std node then find_require_call node else none

abbrev pub name_of : Splitter → String
name_of inlined_call_expression = "call_expression"
name_of inlined_new = "new"
name_of inlined_require = "require"

-- `split`; the state is that of before where nothing is split.
unfoldable pub split : Std → Splitter → Node → State → State × Option SplitResult
unfolding find build_split_result
split std splitter node state = elim (find std splitter node) [
  | none ↦ (state, none)
  | some place ↦
      let (state', result) = build_split_result node place (name_of splitter) state in
      (state', some result)
]
