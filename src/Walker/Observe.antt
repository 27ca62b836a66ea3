-- ===== src/Walker/Observe.antt =====
-- What a walk visits, for a handler that only observes: the nodes of the tree in preorder, each once,
-- and the tree stays as it is (crates/js-x-ray/src/walker/mod.rs).
use mathlib.Core.List.{foldl, foldl-append}
use js_x_ray_rs.Prelude.{
  ℕ, zero, suc, ◌≤◌, ◌<◌, ◌≡◌, refl, none, some, true, false, List, [], ◌∷◌, ◌++◌, arith,
  Bool-cases, inl, inr, if◌then◌else◌,
}
use js_x_ray_rs.Json.{
  Value, Items, Fields, null, bool, number, string, array, object, nil, cons, end, field, is_null,
  is_array,
}
use js_x_ray_rs.Json.Depth.{depth, depth_items, depth_fields}
use js_x_ray_rs.Estree.{is_node}
use js_x_ray_rs.Walker.{
  SyncHandler, SyncWalker, Visit, fresh, run_handler, visit_inner, visit_array, visit_value,
  visit_other, visit_fields, visit_children, visit, walk, walk_enter, kept,
}

-- The nodes strictly below a value, in the order of the keys and the elements. An array that
-- stands in an array is not gone through.
unfoldable mutual
  pub below : Value → List Value
  below null = []
  below (bool b) = []
  below (number n) = []
  below (string s) = []
  below (array xs) = below_items xs
  below (object fs) = below_fields fs

  pub below_items : Items → List Value
  below_items nil = []
  below_items (cons v xs) = (if is_node v then v ∷ below v else []) ++ below_items xs

  pub below_fields : Fields → List Value
  below_fields end = []
  below_fields (field k v fs) =
      (if is_node v then v ∷ below v else if is_array v then below v else []) ++ below_fields fs

-- A handler that asks for nothing and leaves the node as it is.
unfoldable pub observe : {S : Type 0} → (S → Value → S) → SyncHandler S
observe f s ctx node = record { captured = f s node; context = ctx; node = node }

-- The walker after `nodes` have been observed.
abbrev seen_all : {S : Type 0} → (S → Value → S) → SyncWalker S → List Value → SyncWalker S
seen_all f w nodes = record w { captured = foldl f w.captured nodes }

-- A visit that observes the node and all below it.
abbrev Observes : {S : Type 0} → (S → Value → S) → ℕ → Visit S → Type 0
Observes {S} f n visit_node =
    (w : SyncWalker S) (v : Value)
    → depth v < n
    → is_null v ≡ false
    → visit_node w v
      ≡ some (record { walker = seen_all f w (v ∷ below v); node = v; outcome = kept })

node-not-null : (v : Value) → is_node v ≡ true → is_null v ≡ false
unfolding is_node is_null
node-not-null null h = cc
node-not-null _ h = refl

module _ {S : Type 0} (f : S → Value → S) (visit_node : Visit S) (n : ℕ)
    (obs : Observes f n visit_node) where
  visit_array_observes :
      (w : SyncWalker S) (xs : Items)
      → depth_items xs < n
      → visit_array visit_node w xs ≡ some (seen_all f w (below_items xs), xs)
  unfolding visit_array depth below
  visit_array_observes w nil h = refl
  visit_array_observes w (cons v rest) h = elim (Bool-cases (is_node v)) [
    | inl e ↦
        rw
          (
            e,
            obs w v (omega arith) (node-not-null v e),
            visit_array_observes (seen_all f w (v ∷ below v)) rest (omega arith),
          )
          (rw foldl-append refl)
    | inr e ↦ rw (e, visit_array_observes w rest (omega arith)) refl
  ]

  visit_other_observes :
      (w : SyncWalker S) (v : Value)
      → depth v < n
      → is_array v ≡ false
      → visit_other visit_node w v
        ≡ some (
          seen_all f w (if is_node v then v ∷ below v else if is_array v then below v else []),
          v,
        )
  visit_other_observes w v h a = elim (Bool-cases (is_node v)) [
    | inl e ↦ rw (e, obs w v h (node-not-null v e)) refl
    | inr e ↦ rw (e, a) refl
  ]

  visit_value_observes :
      (w : SyncWalker S) (v : Value)
      → depth v < n
      → visit_value visit_node w v
        ≡ some (
          seen_all f w (if is_node v then v ∷ below v else if is_array v then below v else []),
          v,
        )
  unfolding visit_value depth below is_node is_array
  visit_value_observes w (array items) h = rw (visit_array_observes w items (omega arith)) refl
  visit_value_observes w null h = refl
  visit_value_observes w (bool b) h = refl
  visit_value_observes w (number k) h = refl
  visit_value_observes w (string s) h = refl
  visit_value_observes w (object fs) h = visit_other_observes w (object fs) h refl

  visit_fields_observes :
      (w : SyncWalker S) (fs : Fields)
      → depth_fields fs < n
      → visit_fields visit_node w fs ≡ some (seen_all f w (below_fields fs), fs)
  unfolding visit_fields depth below
  visit_fields_observes w end h = refl
  visit_fields_observes w (field k v rest) h =
      rw
        (
          visit_value_observes w v (omega arith),
          visit_fields_observes
              (seen_all f w (if is_node v then v ∷ below v else if is_array v then below v else []))
              rest (omega arith),
        )
        (rw foldl-append refl)

  visit_children_observes :
      (w : SyncWalker S) (v : Value)
      → depth v ≤ n
      → visit_children visit_node w v ≡ some (seen_all f w (below v), v)
  unfolding visit_children depth below
  visit_children_observes w (array items) h = rw (visit_array_observes w items (omega arith)) refl
  visit_children_observes w (object fs) h = rw (visit_fields_observes w fs (omega arith)) refl
  visit_children_observes w null h = refl
  visit_children_observes w (bool b) h = refl
  visit_children_observes w (number k) h = refl
  visit_children_observes w (string s) h = refl

module _ {S : Type 0} (f : S → Value → S) where
  visit-Observes : (fuel : ℕ) → Observes f fuel (visit (some (observe f)) none fuel)
  unfolding visit visit_inner run_handler observe
  visit-Observes zero w v h e = absurd (omega arith)
  visit-Observes (suc fuel) w v h e =
      rw
        (
          e,
          visit_children_observes f (visit (some (observe f)) none fuel) fuel (visit-Observes fuel)
              (record w { captured = f w.captured v }) v (omega arith),
        )
        refl

  -- Walking a tree with a handler that only observes calls it once on the root and once on each node
  -- below, in preorder by the order of keys and elements, and returns the tree unchanged.
  pub walk_enter-observe :
      (fuel : ℕ) (s : S) (ast : Value)
      → depth ast < fuel
      → is_null ast ≡ false
      → walk_enter (observe f) fuel s ast ≡ some (foldl f s (ast ∷ below ast), ast)
  unfolding walk_enter walk observe run_handler
  walk_enter-observe fuel s (array items) h e =
      rw
        (visit_children_observes f (visit (some (observe f)) none fuel) fuel (visit-Observes fuel)
          (record { captured = f s (array items); context = fresh }) (array items) (omega arith))
        refl
  walk_enter-observe fuel s null h e = absurd (ground (arith, e))
  walk_enter-observe fuel s (bool b) h e =
      rw (visit-Observes fuel (record { captured = s; context = fresh }) (bool b) h e) refl
  walk_enter-observe fuel s (number b) h e =
      rw (visit-Observes fuel (record { captured = s; context = fresh }) (number b) h e) refl
  walk_enter-observe fuel s (string b) h e =
      rw (visit-Observes fuel (record { captured = s; context = fresh }) (string b) h e) refl
  walk_enter-observe fuel s (object b) h e =
      rw (visit-Observes fuel (record { captured = s; context = fresh }) (object b) h e) refl
