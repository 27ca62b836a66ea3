-- ===== src/Estree/Bindings/Equations.antt =====
-- `get_variable_declaration_identifiers` satisfies the equation that the source writes, and every node
-- that it pairs with a name is an Identifier (crates/js-x-ray/src/estree/functions.rs).
use js_x_ray_rs.Prelude.{
  ℕ, zero, suc, String, Bool, true, false, Option, List, [], ◌∷◌, ◌++◌, ◌≡◌, refl, ap, fun_ext, ◌<◌,
  flat_map, if◌then◌else◌, All, All-append, arith, Bool-cases, Option-cases, inl, inr, ◌||◌, not,
  is_some_and, ◌==◌, unwrap_or,
}
use js_x_ray_rs.Json.{Value, Node, null, get, get_str, get_array, is_null}
use js_x_ray_rs.Json.Depth.{depth}
use js_x_ray_rs.Json.Recursion.{
  recurse, iterate, recurse-eq, at_field, at_array, at_field-cong, at_array-cong, flat_map-cong,
}
use js_x_ray_rs.Estree.{is_type, is_identifier, type_among}
use js_x_ray_rs.Estree.Bindings.{
  Bindings, collect, later_types, property_bindings, own_name, name_of, assignment_id,
  get_variable_declaration_identifiers,
}

module _ (f g : Node → Bindings) (v : Node) (agree : (w : Node) → depth w < depth v → f w ≡ g w)
    (prefix : Option String) where
  same : (w : Node) → depth w < depth v → f w prefix ≡ g w prefix
  same w below = ap (λ (b : Bindings). b prefix) (agree w below)

  same_unless_null :
      (w : Node)
      → depth w < depth v
      → (if is_null w then [] else f w prefix) ≡ (if is_null w then [] else g w prefix)
  same_unless_null w below = ap (λ l. if is_null w then [] else l) (same w below)

  each :
      (k : String)
      → at_array k v [] (flat_map λ w. f w prefix) ≡ at_array k v [] (flat_map λ w. g w prefix)
  each k = at_array-cong k v [] _ _ λ l below. flat_map-cong _ _ (depth v) l below same

  each_unless_null :
      (k : String)
      → at_array k v [] (flat_map λ w. if is_null w then [] else f w prefix)
        ≡ at_array k v [] (flat_map λ w. if is_null w then [] else g w prefix)
  each_unless_null k =
      at_array-cong k v [] _ _ λ l below. flat_map-cong _ _ (depth v) l below same_unless_null

  collect-cong : collect f v prefix ≡ collect g v prefix
  collect-cong =
      let key = unwrap_or null (get "key" v) in
      rw
        (
          each "declarations",
          at_field-cong "id" v [] (λ w. f w prefix) (λ w. g w prefix) same,
          at_field-cong "init" v [] (λ w. if is_null w then [] else f w prefix)
              (λ w. if is_null w then [] else g w prefix) same_unless_null,
          at_field-cong "value" v (property_bindings (λ _. []) key null prefix)
              (λ w. property_bindings (f w) key w prefix)
              (λ w. property_bindings (g w) key w prefix)
              (λ w below. ap (λ b. property_bindings b key w prefix) (agree w below)),
          each "properties",
          each "expressions",
          at_field-cong "left" v [] (λ w. f w prefix) (λ w. g w prefix) same,
          at_field-cong "left" v []
              (λ w. if is_identifier w then (name_of w, w) ∷ [] else f w prefix)
              (λ w. if is_identifier w then (name_of w, w) ∷ [] else g w prefix)
              (λ w below.
                ap (λ l. if is_identifier w then (name_of w, w) ∷ [] else l) (same w below)),
          each_unless_null "elements",
          each_unless_null "properties",
        )
        refl

-- Collecting the names that a pattern binds satisfies its defining equation on every tree.
pub get_variable_declaration_identifiers-eq :
    (v : Node)
    → get_variable_declaration_identifiers v ≡ collect get_variable_declaration_identifiers v
unfolding get_variable_declaration_identifiers
get_variable_declaration_identifiers-eq =
    recurse-eq (λ _. []) collect (λ f g v agree. fun_ext λ prefix. collect-cong f g v agree prefix)

abbrev pub IsBinding : String × Node → Type 0
IsBinding binding = is_identifier binding.1 ≡ true

record Binds (l : List (String × Node)) : Type 0 where
  each_of : All IsBinding l

Binds-nil : Binds []
Binds-nil = record { each_of = tt }

Binds-one : (name : String) (node : Node) → is_identifier node ≡ true → Binds ((name, node) ∷ [])
Binds-one name node h = record { each_of = (h, tt) }

Binds-append : (xs ys : List (String × Node)) → Binds xs → Binds ys → Binds (xs ++ ys)
Binds-append xs ys h k = record { each_of = All-append IsBinding xs ys h.each_of k.each_of }

at_field-Binds :
    (k : String) (v : Node) (d : List (String × Node)) (φ : Node → List (String × Node))
    → Binds d
    → ((w : Node) → Binds (φ w))
    → Binds (at_field k v d φ)
unfolding at_field
at_field-Binds k v d φ hd h = elim (Option-cases (get k v)) [
  | inl e ↦ rw (e, at_field) hd
  | inr (w, e) ↦ rw (e, at_field) (h w)
]

flat_map-Binds :
    (φ : Node → List (String × Node)) (l : List Node)
    → ((w : Node) → Binds (φ w))
    → Binds (flat_map φ l)
flat_map-Binds φ [] h = Binds-nil
flat_map-Binds φ (w ∷ l) h = Binds-append (φ w) (flat_map φ l) (h w) (flat_map-Binds φ l h)

each-Binds :
    (k : String) (v : Node) (φ : Node → List (String × Node))
    → ((w : Node) → Binds (φ w))
    → Binds (at_array k v [] (flat_map φ))
unfolding at_array
each-Binds k v φ h = elim (Option-cases (get_array k v)) [
  | inl e ↦ rw (e, at_array) Binds-nil
  | inr (l, e) ↦ rw (e, at_array) (flat_map-Binds φ l h)
]

assignment_id-IsIdentifier :
    (key : Node) (value : Value)
    → is_identifier key ≡ true
    → is_identifier (assignment_id key value) ≡ true
assignment_id-IsIdentifier key value h = ground arith

property_bindings-Binds :
    (inner : Bindings) (key : Node) (value : Value) (prefix : Option String)
    → ((q : Option String) → Binds (inner q))
    → is_identifier key ≡ true
    → Binds (property_bindings inner key value prefix)
property_bindings-Binds inner key value prefix h k =
    elim (Bool-cases (type_among value ("ObjectPattern" ∷ "ArrayPattern" ∷ []))) [
      | inl e ↦ rw e (h _)
      | inr e ↦ rw e (Binds-one _ _ (assignment_id-IsIdentifier key value k))
    ]

key_guard : (a b : Bool) → (not a || not b) ≡ false → b ≡ true
key_guard a b h = ground arith

own_name-Binds :
    (v : Node) (prefix : Option String) → is_type v "Identifier" ≡ true → Binds (own_name v prefix)
unfolding is_identifier
own_name-Binds v prefix h = Binds-one _ _ h

module _ (f : Node → Bindings) (h : (w : Node) (q : Option String) → Binds (f w q)) where
  unless_null : (w : Node) (q : Option String) → Binds (if is_null w then [] else f w q)
  unless_null w q = elim (Bool-cases (is_null w)) [ inl e ↦ rw e Binds-nil | inr e ↦ rw e (h w q) ]

  default_target :
      (w : Node) (q : Option String)
      → Binds (if is_identifier w then (name_of w, w) ∷ [] else f w q)
  default_target w q = elim (Bool-cases (is_identifier w)) [
    | inl e ↦ rw e (Binds-one _ _ e)
    | inr e ↦ rw e (h w q)
  ]

  rest_target :
      (w : Node) (q : Option String) → Binds (if is_identifier w then own_name w q else [])
  rest_target w q = elim (Bool-cases (is_identifier w)) [
    | inl e ↦ rw e (Binds-one _ _ e)
    | inr e ↦ rw e Binds-nil
  ]

  -- The property case, behind its guard.
  property_case :
      (v : Node) (prefix : Option String)
      → Binds (
          let key = unwrap_or null (get "key" v) in
          if not (is_some_and (λ kind. kind == "init") (get_str "kind" v))
            || not (is_type key "Identifier")
          then []
          else at_field "value" v
              (property_bindings (λ _. []) key null prefix)
              (λ value. property_bindings (f value) key value prefix))
  unfolding is_identifier
  property_case v prefix =
      let key = unwrap_or null (get "key" v) in
      let guard =
        not (is_some_and (λ kind. kind == "init") (get_str "kind" v))
        || not (is_type key "Identifier") in
      elim (Bool-cases guard) [
        | inl e ↦ rw e Binds-nil
        | inr e ↦
            let ok = key_guard _ (is_type key "Identifier") e in
            rw e (
              at_field-Binds "value" v _ _
                (property_bindings-Binds (λ _. []) key null prefix (λ _. Binds-nil) ok)
                (λ w. property_bindings-Binds (f w) key w prefix (h w) ok))
      ]

  later_cases : (v : Node) (prefix : Option String) → Binds (later_types f v prefix)
  later_cases v prefix = elim (Bool-cases (is_type v "ObjectExpression")) [
    | inl e ↦ rw e (each-Binds "properties" v _ (λ w. h w prefix))
    | inr e ↦ rw e (elim (Bool-cases (is_type v "SequenceExpression")) [
      | inl e ↦ rw e (each-Binds "expressions" v _ (λ w. h w prefix))
      | inr e ↦ rw e (elim (Bool-cases (is_type v "AssignmentExpression")) [
        | inl e ↦ rw e (at_field-Binds "left" v [] _ Binds-nil (λ w. h w prefix))
        | inr e ↦ rw e (elim (Bool-cases (is_type v "AssignmentPattern")) [
          | inl e ↦ rw e (at_field-Binds "left" v [] _ Binds-nil (λ w. default_target w prefix))
          | inr e ↦ rw e (elim (Bool-cases (is_type v "ArrayPattern")) [
            | inl e ↦ rw e (each-Binds "elements" v _ (λ w. unless_null w prefix))
            | inr e ↦ rw e (elim (Bool-cases (is_type v "ObjectPattern")) [
              | inl e ↦ rw e (each-Binds "properties" v _ (λ w. unless_null w prefix))
              | inr e ↦ rw e (Binds-nil)
            ])
          ])
        ])
      ])
    ])
  ]

  collect-Binds : (v : Node) (prefix : Option String) → Binds (collect f v prefix)
  unfolding is_identifier
  collect-Binds v prefix = elim (Bool-cases (is_type v "VariableDeclaration")) [
    | inl e ↦ rw e (each-Binds "declarations" v _ (λ w. h w prefix))
    | inr e ↦ rw e (elim (Bool-cases (is_type v "VariableDeclarator")) [
      | inl e ↦ rw e (
          Binds-append _ _ (at_field-Binds "id" v [] (λ w. f w prefix) Binds-nil (λ w. h w prefix))
            (at_field-Binds "init" v [] (λ w. if is_null w then [] else f w prefix) Binds-nil
              (λ w. unless_null w prefix)))
      | inr e ↦ rw e (elim (Bool-cases (is_type v "Identifier")) [
        | inl e ↦ rw e (Binds-one _ _ e)
        | inr e ↦ rw e (elim (Bool-cases (is_type v "Property")) [
          | inl e ↦ rw e (property_case v prefix)
          | inr e ↦ rw e (elim (Bool-cases (is_type v "RestElement")) [
            | inl e ↦ rw e (at_field-Binds "argument" v [] _ Binds-nil (λ w. rest_target w prefix))
            | inr e ↦ rw e (later_cases v prefix)
          ])
        ])
      ])
    ])
  ]

iterate-Binds :
    (n : ℕ) (v : Node) (prefix : Option String)
    → Binds (iterate (λ (_ : Option String). []) collect n v prefix)
unfolding iterate
iterate-Binds zero v prefix = Binds-nil
iterate-Binds (suc n) v prefix =
    collect-Binds (iterate (λ _. []) collect n) (iterate-Binds n) v prefix

-- Every node that the collection pairs with a name is an Identifier, whatever the tree.
pub get_variable_declaration_identifiers_bind :
    (v : Node) (prefix : Option String)
    → All IsBinding (get_variable_declaration_identifiers v prefix)
unfolding get_variable_declaration_identifiers recurse
get_variable_declaration_identifiers_bind v prefix =
    (iterate-Binds (suc (depth v)) v prefix).each_of
