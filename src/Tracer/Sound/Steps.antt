-- ===== src/Tracer/Sound/Steps.antt =====
-- The single steps of the tracer keep it well-formed: `declare_new_assignment` and the pushes to its
-- memories, events and imports (crates/js-x-ray/src/variable_tracer.rs).
use mathlib.Core.List.{append-nil}
use js_x_ray_rs.Prelude.{
  ℕ, zero, suc, String, true, false, not, ◌&&◌, some, List, [], ◌∷◌, ◌==◌, ◌≡◌, refl, sym, ◌∙◌, ap,
  subst, if◌then◌else◌, get_elem?, modify_elem, eqb, option_map, unwrap_or, arith, eq_iff,
  Bool-cases, Option-cases, inl, inr,
}
use js_x_ray_rs.Prelude.IndexMap.{
  get, contains, contains_key, insert_set, get-insert, contains-last,
}
use js_x_ray_rs.Json.{Node}
use js_x_ray_rs.Estree.{location_of, identifier_name}
use js_x_ray_rs.Tracer.{
  VariableTracer, Traced, AssignmentMemory, TracerEvent, assignment, is_traced, emit, remember_at,
  remember, with_memory, follow, follow_alias, assign, declare_new_assignment,
  is_traced_identifier_imported_as_module, alias_binding,
}
use js_x_ray_rs.Tracer.Sound.{
  Later, Later-refl, Grows, Grows-trans, Grows-IsWellFormed, Moves, Moves-refl, Moves-trans,
  Reported, Reported-Grows,
}

-- A step on the fields that no event and no name depends on.
pub Moves-quiet :
    (t t' : VariableTracer)
    → t'.traced ≡ t.traced
    → t'.store ≡ t.store
    → t'.imported_modules ≡ t.imported_modules
    → t'.events ≡ t.events
    → Moves t t'
Moves-quiet t t' same_traced same_store same_imports same_events h =
    let g : Grows t t' = record {
      keeps = λ v a e. rw same_traced e;
      records = λ a r e. (r, rw same_store e, Later-refl r);
      imports = λ m e. rw same_imports e;
      new_events = [];
      reports = same_events ∙ sym (append-nil t.events);
    } in
    (
      g,
      Grows-IsWellFormed t t' g (λ v a e. rw same_store (h.bound v a (rw (← same_traced) e))) tt h,
    )

-- What is told is so.
pub Moves-emit :
    (event : TracerEvent) (t : VariableTracer) → Reported t event → Moves t (emit event t)
Moves-emit event t so h =
    let g : Grows t (emit event t) = record {
      keeps = λ v a e. e;
      records = λ a r e. (r, e, Later-refl r);
      imports = λ m e. e;
      new_events = event ∷ [];
      reports = refl;
    } in
    (
      g,
      Grows-IsWellFormed t (emit event t) g h.bound (Reported-Grows t (emit event t) event g so, tt)
          h,
    )

contains-insert_set :
    (xs : List String) (k m : String) → contains xs m ≡ true → contains (insert_set k xs) m ≡ true
unfolding insert_set
contains-insert_set xs k m h = ground (arith, contains-last xs k m)

pub contains-insert_set_self : (xs : List String) (k : String) → contains (insert_set k xs) k ≡ true
unfolding insert_set
contains-insert_set_self xs k = ground (arith, contains-last xs k k, eq_iff k k)

pub Moves-import :
    (m : String) (t : VariableTracer)
    → Moves t (record t { imported_modules = insert_set m t.imported_modules })
Moves-import m t h =
    let t' : VariableTracer = record t { imported_modules = insert_set m t.imported_modules } in
    let g : Grows t t' = record {
      keeps = λ v a e. e;
      records = λ a r e. (r, e, Later-refl r);
      imports = λ k e. contains-insert_set t.imported_modules m k e;
      new_events = [];
      reports = sym (append-nil t.events);
    } in
    (g, Grows-IsWellFormed t t' g h.bound tt h)

module _ {ℓ} {A : Type ℓ} (f : A → A) where
  pub get_elem?-modify_elem_if :
      (i j : ℕ) (l : List A)
      → get_elem? (modify_elem i f l) j
        ≡ (if eqb i j then option_map f (get_elem? l j) else get_elem? l j)
  get_elem?-modify_elem_if i j [] = ground arith
  get_elem?-modify_elem_if zero zero (x ∷ l) = refl
  get_elem?-modify_elem_if zero (suc j) (x ∷ l) = ground arith
  get_elem?-modify_elem_if (suc i) zero (x ∷ l) = ground arith
  get_elem?-modify_elem_if (suc i) (suc j) (x ∷ l) = ground (arith, get_elem?-modify_elem_if i j l)

module _ (address : ℕ) (memory : AssignmentMemory) (t : VariableTracer) where
  abbrev after : List Traced
  after = modify_elem address (with_memory memory) t.store

  remembered_records :
      (a : ℕ) (r : Traced)
      → get_elem? t.store a ≡ some r
      → (s : Traced) × (get_elem? after a ≡ some s) × Later r s
  remembered_records a r e = elim (Bool-cases (eqb address a)) [
    | inl same ↦ (
      with_memory memory r,
      ground (arith, get_elem?-modify_elem_if (with_memory memory) address a t.store, same, e),
      record {
        name = refl;
        expr = refl;
        follows = refl;
        returns = refl;
        module_ = refl;
        more = memory ∷ [];
        memory = refl;
      },
    )
    | inr other ↦ (
      r,
      ground (arith, get_elem?-modify_elem_if (with_memory memory) address a t.store, other, e),
      Later-refl r,
    )
  ]

  pub Moves-remember_at : Moves t (remember_at address memory t)
  Moves-remember_at h =
      let g : Grows t (remember_at address memory t) = record {
        keeps = λ v a e. e;
        records = remembered_records;
        imports = λ m e. e;
        new_events = [];
        reports = sym (append-nil t.events);
      } in
      (
        g,
        Grows-IsWellFormed t (remember_at address memory t) g
            (λ v a e.
              let (r, found) = h.bound v a e in
              let (s, found', l) = remembered_records a r found in (s, found'))
            tt h,
      )

Moves-remember :
    (name : String) (memory : AssignmentMemory) (t : VariableTracer)
    → Moves t (remember name memory t)
unfolding remember
Moves-remember name memory t = elim (Option-cases (get name t.traced)) [
  | inl e ↦ rw (e, remember) (Moves-refl t)
  | inr (address, e) ↦ rw (e, remember) (Moves-remember_at address memory t)
]

pub remember-traced :
    (name : String) (memory : AssignmentMemory) (t : VariableTracer)
    → (remember name memory t).traced ≡ t.traced
unfolding remember
remember-traced name memory t = elim (Option-cases (get name t.traced)) [
  | inl e ↦ rw (e, remember) refl
  | inr (address, e) ↦ rw (e, remember) refl
]

-- A name that is not traced becomes one more of a record.
Moves-alias :
    (name : String) (address : ℕ) (r : Traced) (t : VariableTracer)
    → is_traced name t ≡ false
    → get_elem? t.store address ≡ some r
    → Moves t (follow_alias name address t)
unfolding follow_alias
Moves-alias name address r t new found h =
    let t' = follow_alias name address t in
    let g : Grows t t' = record {
      keeps = λ v a e. ground (arith, get-insert name v address t.traced, eq_iff name v, e, new);
      records = λ a s e. (s, e, Later-refl s);
      imports = λ m e. e;
      new_events = [];
      reports = sym (append-nil t.events);
    } in
    (
      g,
      Grows-IsWellFormed t t' g
          (λ v a e. elim (Bool-cases (name == v)) [
            | inl same ↦
                let at : address ≡ a =
                  ground (arith, get-insert name v address t.traced, same, e) in
                (r, subst (λ i. get_elem? t.store i ≡ some r) at found)
            | inr other ↦ h.bound v a (ground (arith, get-insert name v address t.traced, other, e))
          ])
          tt h,
    )

Moves-follow :
    (name : String) (address : ℕ) (r : Traced) (t : VariableTracer)
    → get_elem? t.store address ≡ some r
    → Moves t (follow name address r t)
unfolding follow
Moves-follow name address r t found =
    let memory : AssignmentMemory = record { kind = alias_binding; name = name } in
    let u = remember r.name memory t in
    elim (Bool-cases (r.follow_consecutive_assignment && not (is_traced name t))) [
      | inl on ↦ rw on (λ h.
          let (g, hu) = Moves-remember r.name memory t h in
          let (s, found', l) = g.records address r found in
          let new : is_traced name u ≡ false =
            ap (λ m. contains_key name m) (remember-traced r.name memory t) ∙ ground (arith, on) in
          let (g', hw) = Moves-alias name address s u new found' hu in
          (Grows-trans t u (follow_alias name address u) g g', hw))
      | inr off ↦ rw off (Moves-refl t)
    ]

Moves-assign :
    (id : Node) (address : ℕ) (r : Traced) (t : VariableTracer)
    → get_elem? t.store address ≡ some r
    → is_traced_identifier_imported_as_module r t ≡ true
    → Moves t (assign id address r t)
unfolding assign
Moves-assign id address r t found open_ =
    let name = unwrap_or "" (identifier_name id) in
    let event = assignment r.name r.identifier_or_member_expr name (location_of id) in
    Moves-trans t (emit event t) (follow name address r (emit event t))
      (Moves-emit event t (record {
        address = address;
        target = r;
        found = found;
        same_name = refl;
        same_expr = refl;
        open_ = open_;
      }))
      (Moves-follow name address r (emit event t) found)

-- An assignment of a traced identifier.
pub Moves-declare :
    (id_text : String) (id : Node) (t : VariableTracer)
    → Moves t (declare_new_assignment id_text id t)
unfolding declare_new_assignment
Moves-declare id_text id t = elim (Option-cases (get id_text t.traced)) [
  | inl e ↦ rw (e, declare_new_assignment) (Moves-refl t)
  | inr (address, e) ↦ elim (Option-cases (get_elem? t.store address)) [
    | inl e' ↦ rw (e, declare_new_assignment, e') (Moves-refl t)
    | inr (r, e') ↦ elim (Bool-cases (is_traced_identifier_imported_as_module r t)) [
      | inl open_ ↦ rw (e, declare_new_assignment, e', open_) (Moves-assign id address r t e' open_)
      | inr shut ↦ rw (e, declare_new_assignment, e', shut) (Moves-refl t)
    ]
  ]
]
