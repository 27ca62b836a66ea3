-- ===== src/Tracer/Walk/Declarator/Sound.antt =====
-- The walk of declarators keeps the tracer well-formed, whatever the tree
-- (crates/js-x-ray/src/variable_tracer.rs: `walk`).
use js_x_ray_rs.Prelude.{
  ℕ, zero, suc, String, Bool, true, false, not, ◌&&◌, ◌||◌, none, some, List, [], ◌==◌, ◌≡◌, refl,
  get_elem?, unwrap_or, Bool-cases, Option-cases, inl, inr, first_segment, is_some_and, join, ◌∙◌,
}
use js_x_ray_rs.Prelude.IndexMap.{get, contains}
use js_x_ray_rs.Json
use js_x_ray_rs.Json.{Value, Node, get_array, is_null}
use js_x_ray_rs.Json.Depth.{depth}
use js_x_ray_rs.Json.Recursion.{iterate, recurse}
use js_x_ray_rs.Std.{Std}
use js_x_ray_rs.Estree.{location_of, is_type, is_identifier, is_call_expression}
use js_x_ray_rs.Estree.Calls.{call_expression_identifier}
use js_x_ray_rs.Estree.Logical.{extract_logical_expression}
use js_x_ray_rs.Estree.Members.{get_member_expression_identifier}
use js_x_ray_rs.Utils.Segments.{is_evil_identifier_path, is_neutral_callable}
use js_x_ray_rs.Tracer.{
  VariableTracer, Traced, AssignmentMemory, return_value_assignment, return_value, is_traced, emit,
  remember_at, is_global_variable_identifier, search_for_member_expr_alternative,
  resolve_literal_identifier, get_traced_name, require_patterns, unsafe_global_call_expression,
}
use js_x_ray_rs.Tracer.Sound.{Grows, Grows-trans, IsWellFormed, Moves, Moves-refl, Moves-trans}
use js_x_ray_rs.Tracer.Sound.Steps.{Moves-quiet, Moves-emit, Moves-remember_at, Moves-declare}
use js_x_ray_rs.Tracer.Walk.{name_or_empty}
use js_x_ray_rs.Tracer.Walk.Sound.{
  Moves-each, Moves-if, Moves-option, Moves-literal, Moves-global, Moves-auto_trace_id,
  Moves-import_declaration, Moves-require, Moves-reverse_atob,
}
use js_x_ray_rs.Tracer.Walk.Declarator.{
  Initializing, record_literal, property_node, walk_property, record_object, walk_object,
  traced_variant, returned_event, hold_returned, assign_return_value, walk_plain_call, walk_call,
  alias_identifier, hand_on_returned, walk_identifier, alias_member, walk_member, walk_typed,
  initialize, walk_variable_declarator_initialization, destructure_call,
  walk_variable_declaration_with_anything_else, walk_logical, walk_variable_declarator, walk,
}

-- The recursive calls move.
abbrev RecMoves : Initializing → Type 0
RecMoves rec = (child : Node) (whole : Bool) (t : VariableTracer) → Moves t (rec child whole t)

module _ (rec : Initializing) (moves : RecMoves rec) where
  Moves-property : (property : Value) (t : VariableTracer) → Moves t (walk_property rec property t)
  unfolding walk_property
  Moves-property property t =
      Moves-option (property_node property) t _ _ (Moves-refl t)
        λ v _. Moves-if (is_null v) t _ _ (λ _. Moves-refl t) (λ _. moves v false t)

  Moves-object :
      (whole : Bool) (id_name : String) (child : Node) (t : VariableTracer)
      → Moves t (walk_object rec whole id_name child t)
  unfolding walk_object record_object
  Moves-object whole id_name child t =
      let u = record_object whole id_name child t in
      Moves-trans t u (walk_object rec whole id_name child t)
        (Moves-if whole t _ _ (λ _. Moves-quiet t _ refl refl refl refl) (λ _. Moves-refl t))
        (Moves-each (walk_property rec) (unwrap_or [] (get_array "properties" child)) u
          Moves-property)

module _ (t : VariableTracer) where
  Moves-record_literal :
      (std : Std) (id_name : String) (child : Node) → Moves t (record_literal std id_name child t)
  unfolding record_literal
  Moves-record_literal std id_name child = Moves-literal t id_name _ "Literal"

  Moves-hold :
      (follows : Bool) (id_name name : String) → Moves t (hold_returned follows id_name name t)
  unfolding hold_returned
  Moves-hold follows id_name name =
      Moves-if follows t _ _ (λ _. Moves-quiet t _ refl refl refl refl) (λ _. Moves-refl t)

-- The event of a returned value tells of the record that was just remembered.
Moves-returned :
    (address : ℕ) (r : Traced) (id_name : String) (id child : Node) (t : VariableTracer)
    → get_elem? t.store address ≡ some r
    → r.follow_return_value_assignement ≡ true
    → Moves t (
        returned_event r id_name id child
          (remember_at address (record { kind = return_value_assignment; name = id_name }) t))
unfolding returned_event
Moves-returned address r id_name id child t found followed h =
    let memory : AssignmentMemory = record { kind = return_value_assignment; name = id_name } in
    let u = remember_at address memory t in
    let event =
      return_value r.name r.identifier_or_member_expr id_name (location_of id)
        (unwrap_or [] (get_array "arguments" child)) child in
    let (g, hu) = Moves-remember_at address memory t h in
    let (s, found', l) = g.records address r found in
    let (g', hw) =
      Moves-emit event u
        (record {
          address = address;
          target = s;
          found = found';
          same_name = l.name;
          same_expr = l.expr;
          followed = l.returns ∙ followed;
        })
        hu in
    (Grows-trans t u (emit event u) g g', hw)

Moves-assign_return :
    (name id_name : String) (id child : Node) (t : VariableTracer)
    → Moves t (assign_return_value name id_name id child t)
unfolding assign_return_value
Moves-assign_return name id_name id child t = elim (Option-cases (traced_variant name t)) [
  | inl e ↦ rw (e, assign_return_value) (Moves-refl t)
  | inr (address, e) ↦ elim (Option-cases (get_elem? t.store address)) [
    | inl e' ↦ rw (e, assign_return_value, e') (Moves-refl t)
    | inr (r, e') ↦ elim (Bool-cases r.follow_return_value_assignement) [
      | inl on ↦
          let u =
            returned_event r id_name id child
              (remember_at address (record { kind = return_value_assignment; name = id_name }) t) in
          rw (e, assign_return_value, e', on)
            (Moves-trans t u (hold_returned r.follow_consecutive_assignment id_name name u)
              (Moves-returned address r id_name id child t e' on)
              (Moves-hold u r.follow_consecutive_assignment id_name name))
      | inr off ↦ rw (e, assign_return_value, e', off) (Moves-refl t)
    ]
  ]
]

module _ (std : Std) where
  Moves-plain_call :
      (path name id_name : String) (id child : Node) (t : VariableTracer)
      → Moves t (walk_plain_call std path name id_name id child t)
  unfolding walk_plain_call
  Moves-plain_call path name id_name id child t =
      Moves-if
        (contains t.neutral_callable (first_segment b'.' path) || is_evil_identifier_path std path)
        t _ _ (λ _. Moves-require child id t)
        λ _.
          Moves-if (contains unsafe_global_call_expression (first_segment b'.' path)) t _ _
            (λ _. Moves-global t id_name)
            λ _.
              Moves-if (contains require_patterns (first_segment b'.' path)) t _ _
                (λ _. Moves-require child id t)
                λ _.
                  Moves-if (name == "atob") t _ _ (λ _. Moves-reverse_atob std child id t)
                    (λ _. Moves-refl t)

  Moves-call :
      (id_name : String) (id child : Node) (t : VariableTracer)
      → Moves t (walk_call std id_name id child t)
  unfolding walk_call
  Moves-call id_name id child t =
      Moves-option (call_expression_identifier std child) t _ _ (Moves-refl t) λ path _.
        let name = unwrap_or path (get_traced_name path t) in
        let u = assign_return_value name id_name id child t in
        let assigned = Moves-assign_return name id_name id child t in
        Moves-if (is_type child "CallExpression") t _ _
          (λ _. Moves-trans t u _ assigned (Moves-plain_call path name id_name id child u))
          (λ _. assigned)

Moves-alias_identifier :
    (name id_name : String) (id : Node) (t : VariableTracer)
    → Moves t (alias_identifier name id_name id t)
unfolding alias_identifier
Moves-alias_identifier name id_name id t =
    Moves-if (is_traced name t) t _ _ (λ _. Moves-declare name id t)
      λ _.
        Moves-if (is_global_variable_identifier name t) t _ _ (λ _. Moves-global t id_name)
          (λ _. Moves-refl t)

Moves-hand_on :
    (name id_name : String) (t : VariableTracer) → Moves t (hand_on_returned name id_name t)
unfolding hand_on_returned
Moves-hand_on name id_name t =
    Moves-option (get name t.assigned_return_value_to_traced) t _ _ (Moves-refl t) λ full _.
      Moves-option (get full t.traced) t _ _ (Moves-refl t) λ address _.
        let memory : AssignmentMemory = record { kind = return_value_assignment; name = id_name } in
        let u = remember_at address memory t in
        Moves-trans t u (hold_returned true id_name full u) (Moves-remember_at address memory t)
          (Moves-hold u true id_name full)

Moves-identifier :
    (id_name : String) (id child : Node) (t : VariableTracer)
    → Moves t (walk_identifier id_name id child t)
unfolding walk_identifier
Moves-identifier id_name id child t =
    let name = name_or_empty child in
    let u = alias_identifier name id_name id t in
    Moves-trans t u (hand_on_returned name id_name u) (Moves-alias_identifier name id_name id t)
      (Moves-hand_on name id_name u)

Moves-alias_member :
    (parts : List String) (id_name : String) (id : Node) (t : VariableTracer)
    → Moves t (alias_member parts id_name id t)
unfolding alias_member
Moves-alias_member parts id_name id t =
    Moves-if (is_neutral_callable (join "." parts)) t _ _ (λ _. Moves-quiet t _ refl refl refl refl)
      λ _.
        Moves-if (is_traced (join "." parts) t) t _ _ (λ _. Moves-declare (join "." parts) id t)
          λ _.
            Moves-if (is_traced (join "." (search_for_member_expr_alternative parts t)) t) t _ _
              (λ _. Moves-declare (join "." (search_for_member_expr_alternative parts t)) id t)
              (λ _. Moves-refl t)

module _ (std : Std) where
  module _ (rec : Initializing) (moves : RecMoves rec) where
    Moves-member :
        (id_name : String) (id child : Node) (t : VariableTracer)
        → Moves t (walk_member std rec id_name id child t)
    unfolding walk_member
    Moves-member id_name id child t =
        let parts = get_member_expression_identifier std child (resolve_literal_identifier t) in
        let u = alias_member parts id_name id t in
        let aliased = Moves-alias_member parts id_name id t in
        Moves-option (Json.get "object" child) t _ _ aliased λ inner _.
          Moves-if (is_call_expression inner) t _ _
            (λ _. Moves-trans t u _ aliased (moves inner false u)) (λ _. aliased)

    Moves-typed :
        (id child : Node) (whole : Bool) (t : VariableTracer)
        → Moves t (walk_typed std rec id child whole t)
    Moves-typed id child whole t =
        let id_name = name_or_empty id in
        Moves-if (is_type child "Literal") t _ _ (λ _. Moves-record_literal t std id_name child)
          λ _.
            Moves-if (is_type child "TemplateLiteral") t _ _
              (λ _. Moves-literal t id_name _ "TemplateLiteral")
              λ _.
                Moves-if (is_type child "ObjectExpression") t _ _
                  (λ _. Moves-object rec moves whole id_name child t)
                  λ _.
                    Moves-if (is_type child "ArrayExpression") t _ _
                      (λ _.
                        Moves-each (λ element. rec element false)
                          (unwrap_or [] (get_array "elements" child)) t (λ x u. moves x false u))
                      λ _.
                        Moves-if (is_type child "SpreadElement") t _ _
                          (λ _.
                            Moves-option (Json.get "argument" child) t _ _ (Moves-refl t)
                              (λ argument _. moves argument false t))
                          λ _.
                            Moves-if
                              (is_type child "NewExpression" || is_type child "CallExpression") t _
                              _ (λ _. Moves-call std id_name id child t)
                              λ _.
                                Moves-if (is_type child "Identifier") t _ _
                                  (λ _. Moves-identifier id_name id child t)
                                  λ _.
                                    Moves-if (is_type child "MemberExpression") t _ _
                                      (λ _. Moves-member id_name id child t) (λ _. Moves-refl t)

    Moves-initialize : (declarator : Node) → RecMoves (initialize std declarator rec)
    Moves-initialize declarator child whole t =
        Moves-option (Json.get "id" declarator) t _ _ (Moves-refl t) λ id _.
          Moves-if (is_null child || not (is_identifier id)) t _ _ (λ _. Moves-refl t)
            (λ _. Moves-typed id child whole t)

  iterate-Moves :
      (declarator : Node) (n : ℕ) → RecMoves (iterate (λ _ t. t) (initialize std declarator) n)
  unfolding iterate
  iterate-Moves declarator zero = λ child whole t. Moves-refl t
  iterate-Moves declarator (suc n) =
      Moves-initialize (iterate (λ _ t. t) (initialize std declarator) n)
        (iterate-Moves declarator n) declarator

  Moves-initialization :
      (declarator : Node) → RecMoves (walk_variable_declarator_initialization std declarator)
  unfolding walk_variable_declarator_initialization recurse
  Moves-initialization declarator child = iterate-Moves declarator (suc (depth child)) child

  Moves-destructure :
      (init id : Node) (t : VariableTracer) → Moves t (destructure_call std init id t)
  unfolding destructure_call
  Moves-destructure init id t =
      Moves-option (call_expression_identifier std init) t _ _ (Moves-refl t) λ path _.
        Moves-if (is_evil_identifier_path std path) t _ _ (λ _. Moves-require init id t)
          λ _.
            Moves-if (contains unsafe_global_call_expression (first_segment b'.' path)) t _ _
              (λ _. Moves-auto_trace_id id none t)
              λ _.
                Moves-if (contains require_patterns (first_segment b'.' path)) t _ _
                  (λ _. Moves-require init id t) (λ _. Moves-refl t)

  Moves-anything_else :
      (declarator : Node) (t : VariableTracer)
      → Moves t (walk_variable_declaration_with_anything_else std declarator t)
  unfolding walk_variable_declaration_with_anything_else
  Moves-anything_else declarator t =
      Moves-option (Json.get "init" declarator) t _ _ (Moves-refl t) λ init _.
        Moves-option (Json.get "id" declarator) t _ _ (Moves-refl t) λ id _.
          Moves-if (is_null init) t _ _ (λ _. Moves-refl t)
            λ _.
              Moves-if (is_type init "CallExpression") t _ _ (λ _. Moves-destructure init id t)
                λ _.
                  Moves-if
                    (is_type init "Identifier"
                      && is_global_variable_identifier (name_or_empty init) t)
                    t _ _ (λ _. Moves-auto_trace_id id none t) (λ _. Moves-refl t)

  Moves-declarator :
      (node : Node) (t : VariableTracer) → Moves t (walk_variable_declarator std node t)
  unfolding walk_variable_declarator walk_logical
  Moves-declarator node t = Moves-option (Json.get "init" node) t _ _ (Moves-refl t) λ init _.
      Moves-if (is_null init) t _ _ (λ _. Moves-refl t)
        λ _.
          Moves-if (not (is_some_and is_identifier (Json.get "id" node))) t _ _
            (λ _. Moves-anything_else node t)
            λ _.
              Moves-if (is_type init "LogicalExpression") t _ _
                (λ _.
                  Moves-each _ (extract_logical_expression init) t
                    (λ leaf u. Moves-initialization node leaf.1 false u))
                (λ _. Moves-initialization node init true t)

  -- From a well-formed tracer a walk of any node leads to a well-formed one: every name points at a
  -- record, every event tells of a traced record or an imported module. No name, record, import or
  -- event is lost, and no name comes to point at another record.
  pub walk-Grows :
      (node : Node) (t : VariableTracer)
      → IsWellFormed t
      → Grows t (walk std node t) × IsWellFormed (walk std node t)
  unfolding walk
  walk-Grows node t h =
      Moves-if (is_type node "ImportDeclaration") t _ _ (λ _. Moves-import_declaration node t)
        (λ _.
          Moves-if (is_type node "VariableDeclaration") t _ _
            (λ _.
              Moves-each (walk_variable_declarator std)
                (unwrap_or [] (get_array "declarations" node)) t Moves-declarator)
            (λ _. Moves-refl t))
        h
