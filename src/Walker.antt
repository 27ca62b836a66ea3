-- ===== src/Walker.antt =====
-- The synchronous ESTree walker: crates/js-x-ray/src/walker/mod.rs. A handler is a closure: what it
-- captures is the state `S`, threaded through its calls. A handler may replace the node that it
-- visits by a deeper one, so a walk takes fuel; `none` is a walk that runs out of it.
pub mod Fuel
pub mod Observe
use js_x_ray_rs.Prelude.{
  ℕ, zero, suc, Bool, true, false, Option, none, some, ◌>>=◌, unwrap_or, if◌then◌else◌, String,
}
use js_x_ray_rs.Json.{Value, Items, Fields, null, array, object, nil, cons, end, field, is_null}
use js_x_ray_rs.Estree.{is_node}

-- The mutation requests of a visitor.
pub record WalkerContext : Type 0 where
  pub should_skip : Bool
  pub should_remove : Bool
  pub replacement : Option Value

abbrev pub fresh : WalkerContext
fresh = record { should_skip = false; should_remove = false; replacement = none }

unfoldable pub skip : WalkerContext → WalkerContext
skip ctx = record ctx { should_skip = true }

unfoldable pub remove : WalkerContext → WalkerContext
remove ctx = record ctx { should_remove = true }

unfoldable pub replace : Value → WalkerContext → WalkerContext
replace node ctx = record ctx { replacement = some node }

unfoldable pub replace_and_skip : Value → WalkerContext → WalkerContext
replace_and_skip node ctx = record ctx { should_skip = true; replacement = some node }

-- `SyncHandler`: the captured state, the context and the node after the call.
pub record Handled (S : Type 0) : Type 0 where
  pub captured : S
  pub context : WalkerContext
  pub node : Value

abbrev pub SyncHandler : Type 0 → Type 0
SyncHandler S = S → WalkerContext → Value → Handled S

-- The walker's own context beside what the handlers captured.
pub record SyncWalker (S : Type 0) : Type 0 where
  pub captured : S
  pub context : WalkerContext

pub record Ran (S : Type 0) : Type 0 where
  pub walker : SyncWalker S
  pub node : Value
  pub requests : WalkerContext

pub data Outcome : Type 0 where
  kept removed : Outcome

pub record Visited (S : Type 0) : Type 0 where
  pub walker : SyncWalker S
  pub node : Value
  pub outcome : Outcome

abbrev pub Children : Type 0 → Type 0
Children S = SyncWalker S → Value → Option (SyncWalker S × Value)

abbrev pub Visit : Type 0 → Type 0
Visit S = SyncWalker S → Value → Option (Visited S)

module _ {S : Type 0} where
  -- `run_handler`: the handler gets a fresh context, and the caller's is put back.
  unfoldable pub run_handler : Option (SyncHandler S) → SyncWalker S → Value → Ran S
  run_handler none w node = record { walker = w; node = node; requests = fresh }
  run_handler (some handler) w node =
      let saved = w.context in
      let done = handler w.captured fresh node in
      record {
        walker = record { captured = done.captured; context = saved };
        node = done.node;
        requests = done.context;
      }

  abbrev after_leave : Ran S → Visited S
  after_leave left = record {
    walker = left.walker;
    node = unwrap_or left.node left.requests.replacement;
    outcome = if left.requests.should_remove then removed else kept;
  }

  -- `visit_inner`, over the visit of the children.
  unfoldable pub visit_inner :
      Option (SyncHandler S) → Option (SyncHandler S) → Children S → Visit S
  unfolding run_handler
  visit_inner enter leave children w node =
      let entered = run_handler enter w node in
      let replaced = unwrap_or entered.node entered.requests.replacement in
      if entered.requests.should_remove
      then some (record { walker = entered.walker; node = replaced; outcome = removed })
      else if entered.requests.should_skip
      then some (record { walker = entered.walker; node = replaced; outcome = kept })
      else (do
        (w', node') ← children entered.walker replaced
        some (after_leave (run_handler leave w' node')))

  -- `visit_array`: `items.remove(i)` goes on at the same index, which is then the next element.
  unfoldable pub visit_array : Visit S → SyncWalker S → Items → Option (SyncWalker S × Items)
  unfolding is_node
  visit_array visit w nil = some (w, nil)
  visit_array visit w (cons v rest) =
      if is_node v
      then (do
        seen ← visit w v
        (w', rest') ← visit_array visit seen.walker rest
        some (w', elim seen.outcome [ kept ↦ cons seen.node rest' | removed ↦ rest' ]))
      else (do (w', rest') ← visit_array visit w rest; some (w', cons v rest'))

  abbrev visit_other : Visit S → SyncWalker S → Value → Option (SyncWalker S × Value)
  visit_other visit w value =
      if is_node value
      then (do
        seen ← visit w value
        some (seen.walker, elim seen.outcome [ kept ↦ seen.node | removed ↦ null ]))
      else some (w, value)

  -- One value of an object: an array is gone through, a node is visited, a removed one is null.
  unfoldable pub visit_value : Visit S → SyncWalker S → Value → Option (SyncWalker S × Value)
  unfolding is_node visit_array
  visit_value visit w (array items) = do
    (w', items') ← visit_array visit w items
    some (w', array items')
  visit_value visit w value = visit_other visit w value

  unfoldable pub visit_fields : Visit S → SyncWalker S → Fields → Option (SyncWalker S × Fields)
  unfolding visit_value
  visit_fields visit w end = some (w, end)
  visit_fields visit w (field k v rest) = do
    (w', v') ← visit_value visit w v
    (w'', rest') ← visit_fields visit w' rest
    some (w'', field k v' rest')

  -- `visit_children`
  unfoldable pub visit_children : Visit S → Children S
  unfolding visit_fields
  visit_children visit w (object fields) = do
    (w', fields') ← visit_fields visit w fields
    some (w', object fields')
  visit_children visit w (array items) = do
    (w', items') ← visit_array visit w items
    some (w', array items')
  visit_children visit w node = some (w, node)

module _ {S : Type 0} (enter leave : Option (SyncHandler S)) where
  -- `visit`, with fuel for how deep the visits nest.
  unfoldable pub visit : ℕ → SyncWalker S → Value → Option (Visited S)
  unfolding visit_inner visit_children is_null
  visit zero w node = none
  visit (suc fuel) w node =
      if is_null node
      then some (record { walker = w; node = node; outcome = removed })
      else visit_inner enter leave (visit_children (visit fuel)) w node

  abbrev walk_array : ℕ → S → Value → Option (S × Value)
  walk_array fuel s ast =
      let entered = run_handler enter (record { captured = s; context = fresh }) ast in
      let replaced = unwrap_or entered.node entered.requests.replacement in
      if entered.requests.should_skip then some (entered.walker.captured, replaced) else (do
        (w, ast') ← visit_children (visit fuel) entered.walker replaced
        let left = run_handler leave w ast'
        some (left.walker.captured, left.node))

  abbrev walk_root : ℕ → S → Value → Option (S × Value)
  walk_root fuel s ast = do
    seen ← visit fuel (record { captured = s; context = fresh }) ast
    some (seen.walker.captured, seen.node)

  -- `walk`: the handlers see a root array too; what they ask of it on leaving is not done.
  unfoldable pub walk : ℕ → S → Value → Option (S × Value)
  unfolding run_handler visit_children visit
  walk fuel s (array items) = walk_array fuel s (array items)
  walk fuel s ast = walk_root fuel s ast

-- `walk_enter`
unfoldable pub walk_enter : {S : Type 0} → SyncHandler S → ℕ → S → Value → Option (S × Value)
unfolding walk
walk_enter enter = walk (some enter) none
