-- ===== src/Pipelines/Inline.antt =====
-- The pipeline that pulls inline calls apart: crates/js-x-ray/src/pipelines/inline.rs. What the closure
-- captures is the state of the virtual identifiers and the declarations that it hoists.
use js_x_ray_rs.Prelude.{
  suc, false, Option, none, some, ◌>>=◌, List, [], ◌∷◌, ◌++◌, if◌then◌else◌, ◌≡◌, refl, arith,
  Bool-cases, Option-cases, inl, inr,
}
use js_x_ray_rs.Json.{
  Value, Node, array, object, string, field, end, cons, nil, items_of, list_of, is_array,
}
use js_x_ray_rs.Json.Depth.{depth}
use js_x_ray_rs.Std.{Std}
use js_x_ray_rs.VirtualVariableIdentifier.{State}
use js_x_ray_rs.Inlined.{SplitResult, split, inlined_new, inlined_call_expression}
use js_x_ray_rs.Walker.{
  SyncHandler, Handled, WalkerContext, fresh, replace_and_skip, run_handler, walk_enter,
}
use js_x_ray_rs.Walker.Fuel.{walk_ends, IsCalm}

pub record Captured : Type 0 where
  pub state : State
  pub hoisted : List Value

-- A split that rebuilds the node: the declaration and the rebuilt node.
abbrev pub rebuilt : Option SplitResult → Option (Node × Node)
rebuilt result = do
  r ← result
  rebuild ← r.rebuild_expression
  some (r.virtual_declaration, rebuild)

abbrev pub block_statement : Node → Node → Node
block_statement declaration rebuild =
    let statement =
      object (field "type" (string "ExpressionStatement") (field "expression" rebuild end)) in
    object (
      field "type" (string "BlockStatement")
        (field "body" (array (cons declaration (cons statement nil))) end))

-- The second half of the closure.
abbrev pub inline_call : Std → Captured → WalkerContext → Node → Handled Captured
unfolding split replace_and_skip
inline_call std captured ctx node =
    let (state', result) = split std inlined_call_expression node captured.state in
    record {
      captured = record captured { state = state' };
      context = elim (rebuilt result) [
        | none ↦ ctx
        | some (declaration, rebuild) ↦ replace_and_skip (block_statement declaration rebuild) ctx
      ];
      node = node;
    }

abbrev pub inline_node : Std → Captured → WalkerContext → Node → Handled Captured
unfolding split replace_and_skip inline_call
inline_node std captured ctx node =
    let (state', result) = split std inlined_new node captured.state in
    elim (rebuilt result) [
      | none ↦ inline_call std (record captured { state = state' }) ctx node
      | some (declaration, rebuild) ↦ record {
        captured = record { state = state'; hoisted = captured.hoisted ++ declaration ∷ [] };
        context = replace_and_skip rebuild ctx;
        node = node;
      }
    ]

-- The closure of `Inline::walk`.
unfoldable pub inline_handler : Std → SyncHandler Captured
unfolding inline_node is_array
inline_handler std captured ctx node =
    if is_array node
    then record { captured = captured; context = ctx; node = node }
    else inline_node std captured ctx node

-- `let Value::Array(body) = root`, and nothing else.
abbrev pub body_after : Value → List Value
body_after (array items) = list_of items
body_after other = []

-- `Inline::walk`, with the depth of the body as fuel.
unfoldable pub inline_walk : Std → State → List Value → Option (State × List Value)
unfolding inline_handler walk_enter
inline_walk std state body = do
  (captured, root) ←
      walk_enter (inline_handler std) (suc (depth (array (items_of body))))
        (record { state = state; hoisted = [] }) (array (items_of body))
  some (captured.state, captured.hoisted ++ body_after root)

-- A node that is descended into stays as it is.
record Stays (node : Node) (done : Handled Captured) : Type 0 where
  same : done.node ≡ node
  unreplaced : done.context.should_skip ≡ false → done.context.replacement ≡ none

inline_call-Stays :
    (std : Std) (captured : Captured) (node : Node)
    → Stays node (inline_call std captured fresh node)
unfolding inline_call replace_and_skip
inline_call-Stays std captured node =
    elim (Option-cases (rebuilt (split std inlined_call_expression node captured.state).1)) [
      | inl e ↦ rw e (record { same = refl; unreplaced = λ h. refl })
      | inr (made, e) ↦ rw e (record { same = refl; unreplaced = λ h. cc h })
    ]

inline_node-Stays :
    (std : Std) (captured : Captured) (node : Node)
    → Stays node (inline_node std captured fresh node)
unfolding inline_node replace_and_skip
inline_node-Stays std captured node =
    elim (Option-cases (rebuilt (split std inlined_new node captured.state).1)) [
      | inl e ↦
          rw (inline_node, e)
            (inline_call-Stays std
              (record captured { state = (split std inlined_new node captured.state).0 }) node)
      | inr (made, e) ↦ rw (inline_node, e) (record { same = refl; unreplaced = λ h. cc h })
    ]

inline_handler-Stays :
    (std : Std) (captured : Captured) (node : Node)
    → Stays node (inline_handler std captured fresh node)
unfolding inline_handler
inline_handler-Stays std captured node = elim (Bool-cases (is_array node)) [
  | inl e ↦ rw e (record { same = refl; unreplaced = λ h. refl })
  | inr e ↦ rw e (inline_node-Stays std captured node)
]

module _ (std : Std) where
  inline_handler-IsCalm : IsCalm (some (inline_handler std))
  unfolding run_handler
  inline_handler-IsCalm w node h =
      let stays = inline_handler-Stays std w.captured node in
      rw (stays.unreplaced h, stays.same) (omega arith)

  -- The inlining returns on every body, with the depth of the body as fuel.
  pub inline_walk_returns :
      (state : State) (body : List Value)
      → (out : State × List Value) × (inline_walk std state body ≡ some out)
  unfolding inline_walk walk_enter
  inline_walk_returns state body =
      let root = array (items_of body) in
      let ((captured, root'), p) =
        walk_ends (some (inline_handler std)) none inline_handler-IsCalm (suc (depth root))
          (record { state = state; hoisted = [] }) root (omega arith) in
      ((captured.state, captured.hoisted ++ body_after root'), rw p refl)
