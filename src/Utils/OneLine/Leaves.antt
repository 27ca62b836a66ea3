-- ===== src/Utils/OneLine/Leaves.antt =====
-- Where a one-line export requires a module
-- (crates/js-x-ray/src/utils/is_one_line_expression_export.rs).
use js_x_ray_rs.Prelude.{
  ℕ, zero, suc, ◌<◌, String, Bool, true, false, Option, some, ◌==◌, ◌≡◌, ◌↔◌, refl, ap, ap₂, ◌&&◌,
  ◌||◌, unwrap_or, if◌then◌else◌, arith, eq_iff, Bool-cases, Option-cases, inl, inr, subst, ◌⊎◌,
  sym, ◌∙◌,
}
use js_x_ray_rs.Json.{Value, Node, null, get}
use js_x_ray_rs.Json.Depth.{depth}
use js_x_ray_rs.Json.Recursion.{recurse, iterate, recurse-eq, at_field, at_field-cong}
use js_x_ray_rs.Std.{Std}
use js_x_ray_rs.Estree.{is_type, node_type, is_call_expression, is_member_expression}
use js_x_ray_rs.Utils.OneLine.{
  root_step, root_member, names_require, member_requires, at_least_one_branch, leave_step,
  export_assignment_has_require_leave,
}

both : (a b : Bool) → (a && b) ≡ true → (a ≡ true) × (b ≡ true)
both true b h = (refl, h)
both false b h = absurd (cc h)

either : (a b : Bool) → (a || b) ≡ true → (a ≡ true) ⊎ (b ≡ true)
either true b h = inl refl
either false b h = inr h

right_true : (a b : Bool) → b ≡ true → (a || b) ≡ true
right_true true b h = refl
right_true false b h = h

-- A node has one type.
is_type-other :
    (v : Node) (a b : String) → is_type v a ≡ true → (a == b) ≡ false → is_type v b ≡ false
unfolding is_type
is_type-other v a b h ne = elim (Option-cases (node_type v)) [
  | inl e ↦ ground (arith, e)
  | inr (t, e) ↦ ground (arith, e, eq_iff t a, eq_iff t b, eq_iff a b)
]

root_step-cong :
    (f g : Node → Node) (v : Node)
    → ((w : Node) → depth w < depth v → f w ≡ g w)
    → root_step f v ≡ root_step g v
root_step-cong f g v agree =
    ap (λ r. if is_member_expression v then r else v) (at_field-cong "object" v null f g agree)

root_member-eq : (v : Node) → root_member v ≡ root_step root_member v
unfolding root_member
root_member-eq v = recurse-eq null root_step root_step-cong v

module _ (std : Std) where
  branch-cong :
      (f g : Node → Bool) (left right : String) (v : Node)
      → ((w : Node) → depth w < depth v → f w ≡ g w)
      → at_least_one_branch std f left right v ≡ at_least_one_branch std g left right v
  branch-cong f g left right v agree =
      ap₂ ◌||◌ (at_field-cong left v false f g agree) (at_field-cong right v false f g agree)

  leave_step-cong :
      (f g : Node → Bool) (v : Node)
      → ((w : Node) → depth w < depth v → f w ≡ g w)
      → leave_step std f v ≡ leave_step std g v
  leave_step-cong f g v agree =
      ap₂
        (λ l c.
          if is_type v "LogicalExpression"
          then l
          else if is_type v "ConditionalExpression"
          then c
          else if is_call_expression v
          then names_require std v
          else if is_member_expression v
          then member_requires std (root_member (unwrap_or null (get "object" v)))
          else false)
        (branch-cong f g "left" "right" v agree) (branch-cong f g "consequent" "alternate" v agree)

  leave-eq :
      (v : Node)
      → export_assignment_has_require_leave std v
        ≡ leave_step std (export_assignment_has_require_leave std) v
  unfolding export_assignment_has_require_leave
  leave-eq v = recurse-eq false (leave_step std) leave_step-cong v

  -- A call of `require`, or the object of a chain of members that begins with one.
  pub data RequiredRoot : Node → Type 0 where
    call : {v : Node} → is_call_expression v ≡ true → names_require std v ≡ true → RequiredRoot v
    member :
        {v w : Node}
        → is_member_expression v ≡ true
        → get "object" v ≡ some w
        → RequiredRoot w
        → RequiredRoot v

  -- A leaf of `&&`, `||`, `??` and of conditionals is a call of `require` or a chain of members that
  -- begins with one.
  pub data RequireLeave : Node → Type 0 where
    leaf : {v : Node} → RequiredRoot v → RequireLeave v
    left :
        {v w : Node}
        → is_type v "LogicalExpression" ≡ true
        → get "left" v ≡ some w
        → RequireLeave w
        → RequireLeave v
    right :
        {v w : Node}
        → is_type v "LogicalExpression" ≡ true
        → get "right" v ≡ some w
        → RequireLeave w
        → RequireLeave v
    consequent :
        {v w : Node}
        → is_type v "ConditionalExpression" ≡ true
        → get "consequent" v ≡ some w
        → RequireLeave w
        → RequireLeave v
    alternate :
        {v w : Node}
        → is_type v "ConditionalExpression" ≡ true
        → get "alternate" v ≡ some w
        → RequireLeave w
        → RequireLeave v

  iterate-RequiredRoot :
      (n : ℕ) (v : Node) → member_requires std (iterate null root_step n v) ≡ true → RequiredRoot v
  unfolding iterate at_field is_call_expression
  iterate-RequiredRoot zero v h = absurd (ground (arith, h))
  iterate-RequiredRoot (suc n) v h = elim (Bool-cases (is_member_expression v)) [
    | inl m ↦ elim (Option-cases (get "object" v)) [
      | inl e ↦
          let ended : iterate null root_step (suc n) v ≡ null = rw (m, e, at_field) refl in
          absurd (ground (arith, subst (λ u. member_requires std u ≡ true) ended h))
      | inr (w, e) ↦
          let down : iterate null root_step (suc n) v ≡ iterate null root_step n w =
            rw (m, e, at_field) refl in
          member m e (iterate-RequiredRoot n w (subst (λ u. member_requires std u ≡ true) down h))
    ]
    | inr other ↦
        let stays : iterate null root_step (suc n) v ≡ v = rw other refl in
        let there : member_requires std v ≡ true =
          subst (λ u. member_requires std u ≡ true) stays h in
        call (both _ _ there).0 (both _ _ there).1
  ]

  RequiredRoot-found : {v : Node} → RequiredRoot v → member_requires std (root_member v) ≡ true
  unfolding at_field is_type is_call_expression is_member_expression
  RequiredRoot-found (call {v} c r) =
      let other : is_member_expression v ≡ false =
        is_type-other v "CallExpression" "MemberExpression" c refl in
      rw (root_member-eq v, other, c, r) refl
  RequiredRoot-found (member {v} {w} m e r) =
      rw (root_member-eq v, m, e, at_field) (RequiredRoot-found r)

  at_field-RequireLeave :
      (f : Node → Bool) (k : String) (v : Node)
      → ((w : Node) → f w ≡ true → RequireLeave w)
      → at_field k v false f ≡ true
      → (w : Node) × (get k v ≡ some w) × RequireLeave w
  unfolding at_field
  at_field-RequireLeave f k v sound h = elim (Option-cases (get k v)) [
    | inl e ↦ absurd (ground (arith, e, h))
    | inr (w, e) ↦ let there : f w ≡ true = ground (arith, e, h) in (w, e, sound w there)
  ]

  branch-RequireLeave :
      (f : Node → Bool) (k l : String) (v : Node)
      → ((w : Node) → f w ≡ true → RequireLeave w)
      → at_least_one_branch std f k l v ≡ true
      → ((w : Node) × (get k v ≡ some w) × RequireLeave w)
        ⊎ ((w : Node) × (get l v ≡ some w) × RequireLeave w)
  branch-RequireLeave f k l v sound h = elim (either _ _ h) [
    | inl a ↦ inl (at_field-RequireLeave f k v sound a)
    | inr b ↦ inr (at_field-RequireLeave f l v sound b)
  ]

  null-requires : member_requires std (root_member null) ≡ false
  unfolding root_member recurse iterate depth is_member_expression is_call_expression
  null-requires = refl

  object-RequiredRoot :
      (v : Node)
      → is_member_expression v ≡ true
      → member_requires std (root_member (unwrap_or null (get "object" v))) ≡ true
      → RequiredRoot v
  unfolding root_member recurse
  object-RequiredRoot v m h =
      let at = λ (o : Option Value). member_requires std (root_member (unwrap_or null o)) ≡ true in
      elim (Option-cases (get "object" v)) [
        | inl e ↦ absurd (cc (null-requires, subst at e h))
        | inr (w, e) ↦ member m e (iterate-RequiredRoot (suc (depth w)) w (subst at e h))
      ]

  logical-RequireLeave :
      (f : Node → Bool) (v : Node)
      → ((w : Node) → f w ≡ true → RequireLeave w)
      → is_type v "LogicalExpression" ≡ true
      → at_least_one_branch std f "left" "right" v ≡ true
      → RequireLeave v
  logical-RequireLeave f v sound t h = elim (branch-RequireLeave f "left" "right" v sound h) [
    | inl (w, e, r) ↦ left t e r
    | inr (w, e, r) ↦ right t e r
  ]

  conditional-RequireLeave :
      (f : Node → Bool) (v : Node)
      → ((w : Node) → f w ≡ true → RequireLeave w)
      → is_type v "ConditionalExpression" ≡ true
      → at_least_one_branch std f "consequent" "alternate" v ≡ true
      → RequireLeave v
  conditional-RequireLeave f v sound t h =
      elim (branch-RequireLeave f "consequent" "alternate" v sound h) [
        | inl (w, e, r) ↦ consequent t e r
        | inr (w, e, r) ↦ alternate t e r
      ]

  -- The cases that do not recurse.
  other-RequireLeave :
      (v : Node)
      → (if is_call_expression v
          then names_require std v
          else if is_member_expression v
          then member_requires std (root_member (unwrap_or null (get "object" v)))
          else false)
        ≡ true
      → RequireLeave v
  other-RequireLeave v h = elim (Bool-cases (is_call_expression v)) [
    | inl c ↦ leaf (call c (rw c at h))
    | inr c ↦ elim (Bool-cases (is_member_expression v)) [
      | inl m ↦ leaf (object-RequiredRoot v m (rw (c, m) at h))
      | inr m ↦ absurd (cc (rw (c, m) at h))
    ]
  ]

  step-RequireLeave :
      (f : Node → Bool) (v : Node)
      → ((w : Node) → f w ≡ true → RequireLeave w)
      → leave_step std f v ≡ true
      → RequireLeave v
  step-RequireLeave f v sound h = elim (Bool-cases (is_type v "LogicalExpression")) [
    | inl t ↦
        let s : leave_step std f v ≡ at_least_one_branch std f "left" "right" v = rw t refl in
        logical-RequireLeave f v sound t (cc (s, h))
    | inr t ↦ elim (Bool-cases (is_type v "ConditionalExpression")) [
      | inl c ↦
          let s : leave_step std f v ≡ at_least_one_branch std f "consequent" "alternate" v =
            rw (t, c) refl in
          conditional-RequireLeave f v sound c (cc (s, h))
      | inr c ↦ other-RequireLeave v (sym (rw (t, c) refl) ∙ h)
    ]
  ]

  iterate-RequireLeave :
      (n : ℕ) (v : Node) → iterate false (leave_step std) n v ≡ true → RequireLeave v
  unfolding iterate
  iterate-RequireLeave zero v h = absurd (cc h)
  iterate-RequireLeave (suc n) v h =
      step-RequireLeave (iterate false (leave_step std) n) v (iterate-RequireLeave n) h

  branch_left :
      (f : Node → Bool) (k l : String) (v : Node) {w : Node}
      → get k v ≡ some w
      → f w ≡ true
      → at_least_one_branch std f k l v ≡ true
  unfolding at_field
  branch_left f k l v e h = rw (at_field, e, h) refl

  branch_right :
      (f : Node → Bool) (k l : String) (v : Node) {w : Node}
      → get l v ≡ some w
      → f w ≡ true
      → at_least_one_branch std f k l v ≡ true
  unfolding at_field
  branch_right f k l v e h =
      right_true (at_field k v false f) (at_field l v false f) (rw (at_field, e) h)

  abbrev recognised : Node → Bool
  recognised = export_assignment_has_require_leave std

  RequireLeave-found :
      {v : Node} → RequireLeave v → export_assignment_has_require_leave std v ≡ true
  unfolding at_field is_type is_call_expression is_member_expression
  RequireLeave-found (leaf {v} (call c q)) =
      let no_logical : is_type v "LogicalExpression" ≡ false =
        is_type-other v "CallExpression" "LogicalExpression" c refl in
      let no_cond : is_type v "ConditionalExpression" ≡ false =
        is_type-other v "CallExpression" "ConditionalExpression" c refl in
      rw (leave-eq v, no_logical, no_cond, c) q
  RequireLeave-found (leaf {v} (member {w} m e r)) =
      let no_logical : is_type v "LogicalExpression" ≡ false =
        is_type-other v "MemberExpression" "LogicalExpression" m refl in
      let no_cond : is_type v "ConditionalExpression" ≡ false =
        is_type-other v "MemberExpression" "ConditionalExpression" m refl in
      let no_call : is_call_expression v ≡ false =
        is_type-other v "MemberExpression" "CallExpression" m refl in
      rw (leave-eq v, no_logical, no_cond, no_call, m, e) (RequiredRoot-found r)
  RequireLeave-found (left {v} t e r) =
      rw (leave-eq v, t) (branch_left recognised "left" "right" v e (RequireLeave-found r))
  RequireLeave-found (right {v} t e r) =
      rw (leave-eq v, t) (branch_right recognised "left" "right" v e (RequireLeave-found r))
  RequireLeave-found (consequent {v} t e r) =
      let no_logical : is_type v "LogicalExpression" ≡ false =
        is_type-other v "ConditionalExpression" "LogicalExpression" t refl in
      rw (leave-eq v, no_logical, t)
        (branch_left recognised "consequent" "alternate" v e (RequireLeave-found r))
  RequireLeave-found (alternate {v} t e r) =
      let no_logical : is_type v "LogicalExpression" ≡ false =
        is_type-other v "ConditionalExpression" "LogicalExpression" t refl in
      rw (leave-eq v, no_logical, t)
        (branch_right recognised "consequent" "alternate" v e (RequireLeave-found r))

  -- An exported expression is found to require a module just where a leaf of its `&&`, `||`, `??` and
  -- conditionals is a call of `require`, or a chain of members that begins with one.
  pub export_assignment_has_require_leave-RequireLeave :
      (v : Node) → (export_assignment_has_require_leave std v ≡ true) ↔ RequireLeave v
  unfolding export_assignment_has_require_leave recurse
  export_assignment_has_require_leave-RequireLeave v =
      (iterate-RequireLeave (suc (depth v)) v, RequireLeave-found)
