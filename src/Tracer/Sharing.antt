-- ===== src/Tracer/Sharing.antt =====
-- Names that share a record: `declare_new_assignment` and `get_data_from_identifier` of
-- crates/js-x-ray/src/variable_tracer.rs.
use js_x_ray_rs.Prelude.{
  ℕ, String, true, false, Option, none, some, ◌>>=◌, List, [], ◌∷◌, ◌++◌, ◌≡◌, refl, sym, ◌∙◌, ap,
  if◌then◌else◌, get_elem?, unwrap_or, arith, eq_iff, Bool-cases, inl, inr, contains_text,
}
use js_x_ray_rs.Prelude.IndexMap.{get, get-insert}
use js_x_ray_rs.Json.{Node}
use js_x_ray_rs.Std.{Std}
use js_x_ray_rs.Estree.{identifier_name, location_of}
use js_x_ray_rs.Tracer.{
  VariableTracer, Traced, AssignmentMemory, TracedIdentifierReport, alias_binding, assignment,
  is_traced, final_identifier, emit, remember, remember_at, follow, follow_alias, assign,
  with_memory, report, memory_of, declare_new_assignment, get_data_from_identifier,
  is_traced_identifier_imported_as_module,
}
use js_x_ray_rs.Tracer.Walk.{each}
use js_x_ray_rs.Tracer.Walk.Sound.{Moves-each}
use js_x_ray_rs.Tracer.Walk.Declarator.{walk}
use js_x_ray_rs.Tracer.Walk.Declarator.Sound.{walk-Grows}
use js_x_ray_rs.Tracer.Sound.{IsWellFormed}
use js_x_ray_rs.Tracer.Sound.Steps.{Moves-declare, get_elem?-modify_elem_if}

-- The report of the record at an address.
abbrev report_at : ℕ → VariableTracer → Option TracedIdentifierReport
report_at a t = do
  r ← get_elem? t.store a
  if is_traced_identifier_imported_as_module r t then some (report r t) else none

final_identifier-traced :
    (n : String) (t : VariableTracer) → is_traced n t ≡ true → final_identifier n t ≡ n
unfolding final_identifier
final_identifier-traced n t h = elim (Bool-cases (contains_text n ".")) [
  | inl e ↦ rw (e, h) refl
  | inr e ↦ rw e refl
]

-- What is asked of a traced name is asked of its address.
get_data-at :
    (n : String) (a : ℕ) (t : VariableTracer)
    → get n t.traced ≡ some a
    → get_data_from_identifier n false t ≡ report_at a t
unfolding get_data_from_identifier
get_data-at n a t h =
    let traced : is_traced n t ≡ true = rw h refl in rw (final_identifier-traced n t traced, h) refl

remember-at :
    (name : String) (memory : AssignmentMemory) (b : ℕ) (t : VariableTracer)
    → get name t.traced ≡ some b
    → remember name memory t ≡ remember_at b memory t
unfolding remember
remember-at name memory b t e = rw (e, remember) refl

-- The record of a name, read through its address.
memory_of-at :
    (name : String) (b : ℕ) (q : Traced) (t : VariableTracer)
    → get name t.traced ≡ some b
    → get_elem? t.store b ≡ some q
    → memory_of name t ≡ q.assignment_memory
memory_of-at name b q t e e' = rw (memory_of, e, e') refl

module _ (id_text : String) (id : Node) (a : ℕ) (r : Traced) (t : VariableTracer)
    (at : get id_text t.traced ≡ some a) (found : get_elem? t.store a ≡ some r)
    (open_ : is_traced_identifier_imported_as_module r t ≡ true) where
  abbrev pub new_name : String
  unfolding identifier_name
  new_name = unwrap_or "" (identifier_name id)

  abbrev told : VariableTracer
  unfolding identifier_name location_of
  told = emit (assignment r.name r.identifier_or_member_expr new_name (location_of id)) t

  declare-follow : declare_new_assignment id_text id t ≡ follow new_name a r told
  unfolding declare_new_assignment assign new_name told
  declare-follow = rw (at, declare_new_assignment, found, open_) refl

  module _ (follows : r.follow_consecutive_assignment ≡ true)
      (new : is_traced new_name t ≡ false) where
    abbrev alias : AssignmentMemory
    alias = record { kind = alias_binding; name = new_name }

    declare-follow_alias :
        declare_new_assignment id_text id t ≡ follow_alias new_name a (remember r.name alias told)
    unfolding follow told
    declare-follow_alias = declare-follow ∙ (rw (follows, new) refl)

    declare_shares : get new_name (declare_new_assignment id_text id t).traced ≡ some a
    unfolding follow_alias
    declare_shares =
        ap (λ u. get new_name u.traced) declare-follow_alias
        ∙ get-insert new_name new_name a (remember r.name alias told).traced
        ∙ ground (arith, eq_iff new_name new_name)

    -- The record that has the name of this one remembers the alias.
    declare_remembers :
        (b : ℕ) (q : Traced)
        → get r.name t.traced ≡ some b
        → get_elem? t.store b ≡ some q
        → memory_of r.name (declare_new_assignment id_text id t) ≡ q.assignment_memory ++ alias ∷ []
    unfolding follow_alias told
    declare_remembers b q e e' =
        let u = follow_alias new_name a (remember_at b alias told) in
        let kept : get r.name u.traced ≡ some b =
          get-insert new_name r.name a t.traced ∙ ground (arith, eq_iff new_name r.name, e, new) in
        let pushed : get_elem? u.store b ≡ some (with_memory alias q) =
          ground (arith, get_elem?-modify_elem_if (with_memory alias) b b t.store, e') in
        ap (memory_of r.name)
          (declare-follow_alias ∙ ap (follow_alias new_name a) (remember-at r.name alias b told e))
        ∙ memory_of-at r.name b (with_memory alias q) u kept pushed

    -- The name of a value that was assigned a traced identifier shares its record: the report of one is
    -- the report of the other, also after any walks; and the record's name remembers the alias.
    pub declare_new_assignment_shares :
        (std : Std) (nodes : List Node) (b : ℕ) (q : Traced)
        → IsWellFormed t
        → get r.name t.traced ≡ some b
        → get_elem? t.store b ≡ some q
        → let u = declare_new_assignment id_text id t in
          let w = each (walk std) nodes u in
          (get_data_from_identifier new_name false w ≡ get_data_from_identifier id_text false w)
          × (memory_of r.name u
              ≡ q.assignment_memory ++ record { kind = alias_binding; name = new_name } ∷ [])
    declare_new_assignment_shares std nodes b q h e e' =
        let u = declare_new_assignment id_text id t in
        let (g, hu) = Moves-declare id_text id t h in
        let (g', hw) = Moves-each (walk std) nodes u (walk-Grows std) hu in
        let w = each (walk std) nodes u in
        let new_at = g'.keeps new_name a declare_shares in
        let old_at = g'.keeps id_text a (g.keeps id_text a at) in
        (
          get_data-at new_name a w new_at ∙ sym (get_data-at id_text a w old_at),
          declare_remembers b q e e',
        )
