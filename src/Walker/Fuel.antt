-- ===== src/Walker/Fuel.antt =====
-- A walk ends: the depth of the tree is enough fuel, if what the enter handler leaves to be descended
-- into is not deeper than what it was given (crates/js-x-ray/src/walker/mod.rs).
use js_x_ray_rs.Prelude.{
  ℕ, zero, suc, ◌≤◌, ◌<◌, ◌≡◌, refl, Option, some, false, arith, Bool-cases, inl, inr, unwrap_or,
}
use js_x_ray_rs.Json.{
  Value, Items, Fields, null, bool, number, string, array, object, nil, cons, end, field, is_null,
}
use js_x_ray_rs.Json.Depth.{depth, depth_items, depth_fields}
use js_x_ray_rs.Estree.{is_node}
use js_x_ray_rs.Walker.{
  SyncHandler, SyncWalker, Ran, Visited, Visit, fresh, run_handler, visit_inner, visit_array,
  visit_value, visit_other, visit_fields, visit_children, visit, walk, walk_root, walk_array,
  after_leave, kept, removed,
}

-- What the handler leaves in place of a node that is descended into.
abbrev pub left_in_place : {S : Type 0} → Ran S → Value
left_in_place entered = unwrap_or entered.node entered.requests.replacement

-- The handler deepens no node that it does not skip.
abbrev pub IsCalm : {S : Type 0} → Option (SyncHandler S) → Type 0
IsCalm {S} enter =
    (w : SyncWalker S) (node : Value)
    → (run_handler enter w node).requests.should_skip ≡ false
    → depth (left_in_place (run_handler enter w node)) ≤ depth node

module _ {S : Type 0} (visit_node : Visit S) (n : ℕ)
    (ends : (w : SyncWalker S) (v : Value)
      → depth v < n
      → (r : Visited S) × (visit_node w v ≡ some r)) where
  visit_array_ends :
      (w : SyncWalker S) (xs : Items)
      → depth_items xs < n
      → (r : SyncWalker S × Items) × (visit_array visit_node w xs ≡ some r)
  unfolding visit_array depth
  visit_array_ends w nil h = ((w, nil), refl)
  visit_array_ends w (cons v rest) h = elim (Bool-cases (is_node v)) [
    | inl e ↦
        let (seen, p) = ends w v (omega arith) in
        let ((w', rest'), q) = visit_array_ends seen.walker rest (omega arith) in
        (
          (w', elim seen.outcome [ kept ↦ cons seen.node rest' | removed ↦ rest' ]),
          rw (e, p, q) refl,
        )
    | inr e ↦
        let ((w', rest'), q) = visit_array_ends w rest (omega arith) in
        ((w', cons v rest'), rw (e, q) refl)
  ]

  visit_other_ends :
      (w : SyncWalker S) (v : Value)
      → depth v < n
      → (r : SyncWalker S × Value) × (visit_other visit_node w v ≡ some r)
  visit_other_ends w v h = elim (Bool-cases (is_node v)) [
    | inl e ↦
        let (seen, p) = ends w v h in
        ((seen.walker, elim seen.outcome [ kept ↦ seen.node | removed ↦ null ]), rw (e, p) refl)
    | inr e ↦ ((w, v), rw e refl)
  ]

  visit_value_ends :
      (w : SyncWalker S) (v : Value)
      → depth v < n
      → (r : SyncWalker S × Value) × (visit_value visit_node w v ≡ some r)
  unfolding visit_value depth
  visit_value_ends w (array items) h =
      let ((w', items'), p) = visit_array_ends w items (omega arith) in
      ((w', array items'), rw p refl)
  visit_value_ends w null h = visit_other_ends w null h
  visit_value_ends w (bool b) h = visit_other_ends w (bool b) h
  visit_value_ends w (number k) h = visit_other_ends w (number k) h
  visit_value_ends w (string s) h = visit_other_ends w (string s) h
  visit_value_ends w (object fs) h = visit_other_ends w (object fs) h

  visit_fields_ends :
      (w : SyncWalker S) (fs : Fields)
      → depth_fields fs < n
      → (r : SyncWalker S × Fields) × (visit_fields visit_node w fs ≡ some r)
  unfolding visit_fields depth
  visit_fields_ends w end h = ((w, end), refl)
  visit_fields_ends w (field k v rest) h =
      let ((w', v'), p) = visit_value_ends w v (omega arith) in
      let ((w'', rest'), q) = visit_fields_ends w' rest (omega arith) in
      ((w'', field k v' rest'), rw (p, q) refl)

  visit_children_ends :
      (w : SyncWalker S) (v : Value)
      → depth v ≤ n
      → (r : SyncWalker S × Value) × (visit_children visit_node w v ≡ some r)
  unfolding visit_children depth
  visit_children_ends w (array items) h =
      let ((w', items'), p) = visit_array_ends w items (omega arith) in
      ((w', array items'), rw p refl)
  visit_children_ends w (object fs) h =
      let ((w', fs'), p) = visit_fields_ends w fs (omega arith) in ((w', object fs'), rw p refl)
  visit_children_ends w null h = ((w, null), refl)
  visit_children_ends w (bool b) h = ((w, bool b), refl)
  visit_children_ends w (number k) h = ((w, number k), refl)
  visit_children_ends w (string s) h = ((w, string s), refl)

module _ {S : Type 0} (enter leave : Option (SyncHandler S)) (calm : IsCalm enter) where
  visit_ends :
      (fuel : ℕ) (w : SyncWalker S) (v : Value)
      → depth v < fuel
      → (r : Visited S) × (visit enter leave fuel w v ≡ some r)
  unfolding visit visit_inner
  visit_ends zero w v h = absurd (omega arith)
  visit_ends (suc fuel) w v h =
      let entered = run_handler enter w v in
      elim (Bool-cases (is_null v)) [
        | inl e ↦ (record { walker = w; node = v; outcome = removed }, rw e refl)
        | inr e ↦ elim (Bool-cases entered.requests.should_remove) [
          | inl out ↦ (
            record { walker = entered.walker; node = left_in_place entered; outcome = removed },
            rw (e, out) refl,
          )
          | inr stays ↦ elim (Bool-cases entered.requests.should_skip) [
            | inl skipped ↦ (
              record { walker = entered.walker; node = left_in_place entered; outcome = kept },
              rw (e, stays, skipped) refl,
            )
            | inr deeper ↦
                let below : depth (left_in_place entered) ≤ depth v = calm w v deeper in
                let ((w', v'), p) =
                  visit_children_ends (visit enter leave fuel) fuel (visit_ends fuel) entered.walker
                    (left_in_place entered) (omega arith) in
                (after_leave (run_handler leave w' v'), rw (e, stays, deeper, p) refl)
          ]
        ]
      ]

  walk_root_ends :
      (fuel : ℕ) (s : S) (ast : Value)
      → depth ast < fuel
      → (r : S × Value) × (walk_root enter leave fuel s ast ≡ some r)
  walk_root_ends fuel s ast h =
      let (seen, p) = visit_ends fuel (record { captured = s; context = fresh }) ast h in
      ((seen.walker.captured, seen.node), rw p refl)

  walk_array_ends :
      (fuel : ℕ) (s : S) (ast : Value)
      → depth ast < fuel
      → (r : S × Value) × (walk_array enter leave fuel s ast ≡ some r)
  walk_array_ends fuel s ast h =
      let entered = run_handler enter (record { captured = s; context = fresh }) ast in
      elim (Bool-cases entered.requests.should_skip) [
        | inl skipped ↦ ((entered.walker.captured, left_in_place entered), rw skipped refl)
        | inr deeper ↦
            let below : depth (left_in_place entered) ≤ depth ast =
              calm (record { captured = s; context = fresh }) ast deeper in
            let ((w', ast'), p) =
              visit_children_ends (visit enter leave fuel) fuel (visit_ends fuel) entered.walker
                (left_in_place entered) (omega arith) in
            let left = run_handler leave w' ast' in
            ((left.walker.captured, left.node), rw (deeper, p) refl)
      ]

  -- With the depth of the tree as fuel the walk returns, for an enter handler that deepens no node
  -- that it descends into.
  pub walk_ends :
      (fuel : ℕ) (s : S) (ast : Value)
      → depth ast < fuel
      → (r : S × Value) × (walk enter leave fuel s ast ≡ some r)
  unfolding walk
  walk_ends fuel s (array items) h = walk_array_ends fuel s (array items) h
  walk_ends fuel s null h = walk_root_ends fuel s null h
  walk_ends fuel s (bool b) h = walk_root_ends fuel s (bool b) h
  walk_ends fuel s (number k) h = walk_root_ends fuel s (number k) h
  walk_ends fuel s (string t) h = walk_root_ends fuel s (string t) h
  walk_ends fuel s (object fs) h = walk_root_ends fuel s (object fs) h
