-- ===== src/Pipelines.antt =====
-- The pipelines over a program's body: crates/js-x-ray/src/pipelines/ (mod.rs, deobfuscate.rs). A
-- pipeline is its name and its `walk`; `none` is a walk that runs out of fuel.
pub mod Ends
pub mod Inline
use js_x_ray_rs.Prelude.{
  ℕ, zero, suc, ◌+◌, String, Bool, true, false, Option, none, some, ◌>>=◌, List, [], ◌∷◌, ◌++◌,
  ◌==◌, map, if◌then◌else◌, option_map,
}
use js_x_ray_rs.Prelude.IndexMap.{contains}
use js_x_ray_rs.Json.{
  Value, Node, Items, Fields, array, object, string, field, end, list_of, items_of, is_array,
}
use js_x_ray_rs.Json.Depth.{depth}
use js_x_ray_rs.Std.{Std}
use js_x_ray_rs.Estree.{noop, is_call_expression}
use js_x_ray_rs.Estree.Members.{join_array_expression}
use js_x_ray_rs.Walker.{SyncHandler, Handled, WalkerContext, skip, replace_and_skip, walk_enter}

-- `trait Pipeline`
pub record Pipeline : Type 0 where
  pub name : String
  pub walk : List Value → Option (List Value)

-- `remove_duplicated_pipelines`: of two with one name the first stays.
abbrev pub keep_first : List String → List Pipeline → List Pipeline
keep_first seen [] = []
keep_first seen (pipeline ∷ rest) =
    let first = pipeline ∷ keep_first (seen ++ pipeline.name ∷ []) rest in
    let later = keep_first seen rest in if contains seen pipeline.name then later else first

unfoldable pub remove_duplicated_pipelines : List Pipeline → List Pipeline
remove_duplicated_pipelines = keep_first []

-- `PipelineRunner::new`
pub record PipelineRunner : Type 0 where
  pub pipelines : List Pipeline

unfoldable pub new_runner : List Pipeline → PipelineRunner
unfolding remove_duplicated_pipelines
new_runner pipelines = record { pipelines = remove_duplicated_pipelines pipelines }

abbrev pub fold_pipelines : List Pipeline → List Value → Option (List Value)
fold_pipelines [] body = some body
fold_pipelines (pipeline ∷ rest) body = do body' ← pipeline.walk body; fold_pipelines rest body'

unfoldable pub reduce : PipelineRunner → List Value → Option (List Value)
reduce runner initial_body = fold_pipelines runner.pipelines initial_body

-- The Literal that stands for a text.
abbrev literal : String → Node
literal value = object (
    field "type" (string "Literal") (field "value" (string value) (field "raw" (string value) end)))

abbrev pub body_of : Value → List Value
body_of (array items) = list_of items
body_of other = other ∷ []

module _ (std : Std) where
  -- `with_call_expression`
  unfoldable pub with_call_expression : Node → Option Value
  with_call_expression node = option_map literal (join_array_expression std node noop)

  -- The closure of `Deobfuscate::walk`, which captures nothing.
  abbrev pub requests : WalkerContext → Node → WalkerContext
  unfolding with_call_expression is_call_expression is_array skip replace_and_skip
  requests ctx node =
      if is_array node
      then ctx
      else if is_call_expression node
      then elim (with_call_expression node) [
        | none ↦ skip ctx
        | some replacement ↦ replace_and_skip replacement ctx
      ]
      else ctx

  unfoldable pub deobfuscate_handler : SyncHandler Unit
  unfolding requests
  deobfuscate_handler captured ctx node = record {
    captured = captured;
    context = requests ctx node;
    node = node;
  }

  abbrev pub deobfuscate_root : Value → Option (List Value)
  deobfuscate_root root = do
    (_, root') ← walk_enter deobfuscate_handler (suc (depth root)) tt root
    some (body_of root')

  -- `Deobfuscate::walk`, with the depth of the body as fuel.
  unfoldable pub deobfuscate_walk : List Value → Option (List Value)
  unfolding deobfuscate_handler walk_enter
  deobfuscate_walk body = deobfuscate_root (array (items_of body))

  unfoldable pub deobfuscate : Pipeline
  unfolding deobfuscate_walk
  deobfuscate = record { name = "deobfuscate"; walk = deobfuscate_walk }
