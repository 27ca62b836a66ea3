-- ===== src/Inlined/Splits.antt =====
-- What a split is: the parts are those of the node (crates/js-x-ray/src/inlined.rs).
use js_x_ray_rs.Prelude.{
  ℕ, zero, suc, ◌+◌, String, true, ◌&&◌, Option, none, some, ◌>>=◌, [], ◌∷◌, ◌≡◌, refl, sym, ap,
  subst, ◌∙◌, eqb, ltb, arith, Bool-cases, Option-cases, inl, inr, ◌⊎◌, >>=-eq-some, is_some_and,
}
use js_x_ray_rs.Json.{Node, get}
use js_x_ray_rs.Json.Depth.{depth}
use js_x_ray_rs.Json.Recursion.{iterate, recurse}
use js_x_ray_rs.Std.{Std}
use js_x_ray_rs.Estree.{is_type, is_call_expression, is_member_expression}
use js_x_ray_rs.VirtualVariableIdentifier.{State}
use js_x_ray_rs.Inlined.{
  Place, SplitResult, Splitter, split, find, further, inside, calls, not_itself, is_call_or_member,
  new_step, require_step, call_step, find_new_call, find_require_call, find_call_expression,
  clone_and_replace, virtual_id, declaration, name_of, build_split_result, inlined_new,
  inlined_require, inlined_call_expression, rebuild_with_virtual_identifier, is_result, Search,
  assert_node,
}
use js_x_ray_rs.Inlined.PutBack.{
  part, part-call, part-member, Regular, clone_with_back, part-clone_with, step_into,
}

-- The place is one inside the node.
abbrev Holds : Node → Place → Type 0
Holds node (k, target) = part k node ≡ some target

further-eq :
    (o : Option Place) (k : ℕ) (t : Node)
    → further o ≡ some (k, t)
    → (j : ℕ) × (o ≡ some (j, t)) × (suc j ≡ k)
further-eq none k t h = absurd (cc h)
further-eq (some (j, s)) k t h = (j, cc h, cc h)

-- Going on to the callee or to the object.
module _ (node : Node) (rec : Node → Option Place) (k : ℕ) (t : Node)
    (goes : (w : Node) (j : ℕ) → rec w ≡ some (j, t) → part j w ≡ some t) where
  callee_holds :
      is_call_expression node ≡ true
      → further (get "callee" node >>= rec) ≡ some (k, t)
      → part k node ≡ some t
  callee_holds c h =
      let (j, e, up) = further-eq (get "callee" node >>= rec) k t h in
      let (w, at, found) = >>=-eq-some (get "callee" node) rec e in
      subst (λ i. part i node ≡ some t) up (part-call j node w t c at (goes w j found))

  object_holds :
      is_member_expression node ≡ true
      → further (get "object" node >>= rec) ≡ some (k, t)
      → part k node ≡ some t
  object_holds m h =
      let (j, e, up) = further-eq (get "object" node >>= rec) k t h in
      let (w, at, found) = >>=-eq-some (get "object" node) rec e in
      subst (λ i. part i node ≡ some t) up (part-member j node w t m at (goes w j found))

new_holds :
    (n : ℕ) (node : Node) (k : ℕ) (t : Node)
    → iterate none new_step n node ≡ some (k, t)
    → part k node ≡ some t
unfolding iterate new_step part
new_holds zero node k t h = absurd (cc h)
new_holds (suc n) node k t h = elim (Bool-cases (is_call_expression node)) [
  | inl c ↦ callee_holds node (iterate none new_step n) k t (λ w j. new_holds n w j t) c (rw c at h)
  | inr c ↦ elim (Bool-cases (is_member_expression node)) [
    | inl m ↦
        object_holds node (iterate none new_step n) k t (λ w j. new_holds n w j t) m
          (rw (c, m) at h)
    | inr m ↦ elim (Bool-cases (is_type node "NewExpression")) [
      | inl e ↦
          let found = rw (c, m, e) at h in
          let start : 0 ≡ k = cc found in
          subst (λ i. part i node ≡ some t) start (ap some (cc found))
      | inr e ↦ absurd (cc (rw (c, m, e) at h))
    ]
  ]
]

either_call_or_member :
    (node : Node)
    → (is_call_expression node ≡ true) ⊎ (is_member_expression node ≡ true)
    → is_call_or_member node ≡ true
unfolding is_call_or_member
either_call_or_member node (inl c) = ground arith
either_call_or_member node (inr m) = ground arith

-- Where the search goes inside of calls and member expressions only.
inside-step :
    (node w : Node) → is_call_or_member node ≡ true → inside node ≡ some w → step_into node ≡ some w
unfolding step_into inside is_call_or_member
inside-step node w c e = elim (Bool-cases (is_member_expression node)) [
  | inl m ↦ rw m (rw (inside, m) at e)
  | inr m ↦
      let call : is_call_expression node ≡ true = ground arith in rw (m, call) (rw (inside, m) at e)
]

part-step :
    (k : ℕ) (node w t : Node)
    → step_into node ≡ some w
    → part k w ≡ some t
    → part (suc k) node ≡ some t
unfolding part
part-step k node w t e p = rw (part, e) p

require_holds :
    (n : ℕ) (node : Node) (k : ℕ) (t : Node)
    → is_call_or_member node ≡ true
    → iterate none require_step n node ≡ some (k, t)
    → part k node ≡ some t
unfolding iterate require_step part
require_holds zero node k t c h = absurd (cc h)
require_holds (suc n) node k t c h =
    let (w, at, found) = >>=-eq-some (inside node) _ h in
    let step = inside-step node w c at in
    elim (Bool-cases (calls ("require" ∷ []) w)) [
      | inl r ↦
          let here = rw r at found in
          let one : 1 ≡ k = cc here in
          subst (λ i. part i node ≡ some t) one (part-step 0 node w t step (ap some (cc here)))
      | inr r ↦ elim (Bool-cases (is_call_or_member w)) [
        | inl d ↦
            let (j, e, up) = further-eq (iterate none require_step n w) k t (rw (r, d) at found) in
            subst (λ i. part i node ≡ some t) up
              (part-step j node w t step (require_holds n w j t d e))
        | inr d ↦ absurd (cc (rw (r, d) at found))
      ]
    ]

-- A step further in.
part-last :
    (p : ℕ) (root node w : Node)
    → part p root ≡ some node
    → step_into node ≡ some w
    → part (suc p) root ≡ some w
unfolding part
part-last zero root node w h e =
    let same : root ≡ node = cc h in
    subst (λ v. part 1 v ≡ some w) (sym same) (part-step 0 node w w e refl)
part-last (suc p) root node w h e =
    let (v, at, rest) = >>=-eq-some (step_into root) (part p) h in
    part-step (suc p) root v w at (part-last p v node w rest e)

-- The result so far is a place inside the root.
abbrev Within : Node → Option Place → Type 0
Within root none = Unit
Within root (some place) = Holds root place

abbrev none_found : Search
none_found place result extra_call_count = none

is_result-holds :
    (root : Node) (result : Option Place) (count k : ℕ) (t : Node)
    → Within root result
    → (result >>= is_result count) ≡ some (k, t)
    → part k root ≡ some t
unfolding is_result
is_result-holds root none count k t within h = absurd (cc h)
is_result-holds root (some (p, v)) count k t within h =
    elim (Bool-cases (is_call_expression v && ltb 1 count)) [
      | inl e ↦
          let here = rw (is_result, e) at h in
          let same : p ≡ k = cc here in
          subst (λ i. part i root ≡ some t) same (within ∙ ap some (cc here))
      | inr e ↦ absurd (cc (rw (is_result, e) at h))
    ]

call_holds :
    (n : ℕ) (root node : Node) (p : ℕ) (result : Option Place) (count k : ℕ) (t : Node)
    → part p root ≡ some node
    → Within root result
    → iterate none_found call_step n node p result count ≡ some (k, t)
    → part k root ≡ some t
unfolding iterate call_step inside
call_holds zero root node p result count k t at within h = absurd (cc h)
call_holds (suc n) root node p result count k t at within h =
    let go : (extra : ℕ)
        → is_call_or_member node ≡ true
        → (inside node >>= (λ o. iterate none_found call_step n o (suc p) (some (p, node)) extra))
          ≡ some (k, t)
        → part k root ≡ some t =
      λ extra c found.
        (let (w, e, rest) = >>=-eq-some (inside node) _ found in
          call_holds n root w (suc p) (some (p, node)) extra k t
            (part-last p root node w at (inside-step node w c e)) at rest) in
    elim (Bool-cases (is_some_and (calls ("require" ∷ "eval" ∷ [])) (inside node))) [
      | inl r ↦ absurd (cc (rw r at h))
      | inr r ↦ elim (Bool-cases (is_member_expression node)) [
        | inl m ↦ go count (either_call_or_member node (inr m)) (rw (inside, m) (rw (r, m) at h))
        | inr m ↦ elim (Bool-cases (is_call_expression node)) [
          | inl c ↦
              go (count + 1) (either_call_or_member node (inl c))
                (rw (inside, m) (rw (r, m, c) at h))
          | inr c ↦ is_result-holds root result count k t within (rw (r, m, c) at h)
        ]
      ]
    ]

find-holds :
    (std : Std) (splitter : Splitter) (node : Node) (k : ℕ) (t : Node)
    → find std splitter node ≡ some (k, t)
    → part k node ≡ some t
unfolding find find_new_call find_require_call find_call_expression recurse assert_node part
    is_call_or_member
find-holds std inlined_call_expression node k t h = elim (Bool-cases (is_call_or_member node)) [
  | inl c ↦
      let ((j, v), found, place) =
        >>=-eq-some (find_call_expression node 0 none 0) not_itself (rw c at h) in
      let inside_ = call_holds (suc (depth node)) node node 0 none 0 j v refl tt found in
      elim (Bool-cases (eqb j 0)) [
        | inl z ↦ absurd (cc (rw z at place))
        | inr z ↦
            let here = rw z at place in
            let same : j ≡ k = cc here in
            subst (λ i. part i node ≡ some t) same (inside_ ∙ ap some (cc here))
      ]
  | inr c ↦ absurd (cc (rw c at h))
]
find-holds std inlined_new node k t h = elim (Bool-cases (is_call_or_member node)) [
  | inl c ↦ new_holds (suc (depth node)) node k t (rw c at h)
  | inr c ↦ absurd (cc (rw c at h))
]
find-holds std inlined_require node k t h = elim (Bool-cases (assert_node std node)) [
  | inl c ↦ require_holds (suc (depth node)) node k t (ground arith) (rw c at h)
  | inr c ↦ absurd (cc (rw c at h))
]

-- The declaration has a part of the node, which the rebuilt expression has replaced by the identifier;
-- and putting the part back gives the node.
pub record IsSplit (node : Node) (result : SplitResult) (rebuilt : Node) : Type 0 where
  pub place : ℕ
  pub target : Node
  pub taken : part place node ≡ some target
  pub declared : result.virtual_declaration ≡ declaration result.virtual_identifier target
  pub named : part place rebuilt ≡ some (virtual_id result.virtual_identifier)
  pub back : clone_and_replace rebuilt place target ≡ node

build-IsSplit :
    (node target : Node) (k : ℕ) (name : String) (state : State) (rebuilt : Node)
    → Regular node
    → part k node ≡ some target
    → (build_split_result node (k, target) name state).1.rebuild_expression ≡ some rebuilt
    → IsSplit node (build_split_result node (k, target) name state).1 rebuilt
unfolding build_split_result rebuild_with_virtual_identifier clone_and_replace
build-IsSplit node t k name state rebuilt regular at h =
    let id = (build_split_result node (k, t) name state).1.virtual_identifier in
    elim (Bool-cases (eqb k 0)) [
      | inl e ↦ absurd (cc (rw e at h))
      | inr e ↦
          let same : clone_and_replace node k (virtual_id id) ≡ rebuilt = cc (rw e at h) in
          record {
            place = k;
            target = t;
            taken = at;
            declared = refl;
            named =
                ap (part k) (sym same)
                ∙ part-clone_with k (suc (depth node)) (virtual_id id) node t regular at
                    (omega arith);
            back =
                ap (λ v. clone_and_replace v k t) (sym same)
                ∙ clone_with_back k (suc (depth node))
                    (suc (depth (clone_and_replace node k (virtual_id id)))) (virtual_id id) node t
                    regular at (omega arith) (omega arith);
          }
    ]

-- Where a node whose calls have callees and arguments is split, by any of the three, the declaration has
-- a part of the node; the rebuilt expression has the declared identifier in its place; and putting the
-- part back into the rebuilt expression gives the node.
pub split-IsSplit :
    (std : Std) (splitter : Splitter) (node : Node) (state : State) (result : SplitResult)
    (rebuilt : Node)
    → Regular node
    → (split std splitter node state).1 ≡ some result
    → result.rebuild_expression ≡ some rebuilt
    → IsSplit node result rebuilt
unfolding split
split-IsSplit std splitter node state result rebuilt regular h r =
    elim (Option-cases (find std splitter node)) [
      | inl e ↦ absurd (cc (rw (split, e) at h))
      | inr ((k, t), e) ↦
          let made : (build_split_result node (k, t) (name_of splitter) state).1 ≡ result =
            cc (rw (split, e) at h) in
          subst (λ s. s.rebuild_expression ≡ some rebuilt → IsSplit node s rebuilt) made
            (build-IsSplit node t k (name_of splitter) state rebuilt regular
              (find-holds std splitter node k t e))
            r
    ]
