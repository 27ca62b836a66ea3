-- ===== src/Tracer/Sound.antt =====
-- What every operation of the tracer keeps: names point at records, names and records stay, and each
-- event tells of a traced record (crates/js-x-ray/src/variable_tracer.rs).
pub mod Steps
use mathlib.Core.List.{append-nil, append_assoc}
use js_x_ray_rs.Prelude.{
  ℕ, zero, suc, ◌+◌, String, Bool, true, false, not, ◌&&◌, ◌||◌, Option, none, some, ◌>>=◌, List,
  [], ◌∷◌, ◌++◌, ◌==◌, ◌≡◌, refl, sym, ◌∙◌, ap, subst, if◌then◌else◌, length, get_elem?,
  modify_elem, eqb, option_map, All, All-append, All-map, arith, eq_iff, Bool-cases, Option-cases,
  inl, inr,
}
use js_x_ray_rs.Prelude.IndexMap.{
  get, insert, contains_key, contains, insert_set, get-insert, contains-last,
}
use js_x_ray_rs.Json.{Node, Value}
use js_x_ray_rs.Estree.{SourceLocation, location_of, identifier_name}
use js_x_ray_rs.Tracer.{
  VariableTracer, Traced, AssignmentMemory, TracerEvent, assignment, return_value, import_,
  is_traced, emit, remember_at, remember, with_memory, follow, assign, declare_new_assignment,
  drain_events, is_traced_identifier_imported_as_module, alias_binding,
}

-- The same record, with more in its memory.
pub record Later (r s : Traced) : Type 0 where
  pub name : s.name ≡ r.name
  pub expr : s.identifier_or_member_expr ≡ r.identifier_or_member_expr
  pub follows : s.follow_consecutive_assignment ≡ r.follow_consecutive_assignment
  pub returns : s.follow_return_value_assignement ≡ r.follow_return_value_assignement
  pub module_ : s.module_name ≡ r.module_name
  pub more : List AssignmentMemory
  pub memory : s.assignment_memory ≡ r.assignment_memory ++ more

pub record Grows (t t' : VariableTracer) : Type 0 where
  pub keeps : (v : String) (a : ℕ) → get v t.traced ≡ some a → get v t'.traced ≡ some a
  pub records :
      (a : ℕ) (r : Traced)
      → get_elem? t.store a ≡ some r
      → (s : Traced) × (get_elem? t'.store a ≡ some s) × Later r s
  pub imports :
      (m : String) → contains t.imported_modules m ≡ true → contains t'.imported_modules m ≡ true
  pub new_events : List TracerEvent
  pub reports : t'.events ≡ t.events ++ new_events

Later-refl : (r : Traced) → Later r r
Later-refl r = record {
  name = refl;
  expr = refl;
  follows = refl;
  returns = refl;
  module_ = refl;
  more = [];
  memory = simp append-nil;
}

Later-trans : (q r s : Traced) → Later q r → Later r s → Later q s
Later-trans q r s h k = record {
  name = k.name ∙ h.name;
  expr = k.expr ∙ h.expr;
  follows = k.follows ∙ h.follows;
  returns = k.returns ∙ h.returns;
  module_ = k.module_ ∙ h.module_;
  more = h.more ++ k.more;
  memory =
      k.memory ∙ ap (λ l. l ++ k.more) h.memory ∙ append_assoc q.assignment_memory h.more k.more;
}

pub Grows-refl : (t : VariableTracer) → Grows t t
Grows-refl t = record {
  keeps = λ v a h. h;
  records = λ a r h. (r, h, Later-refl r);
  imports = λ m h. h;
  new_events = [];
  reports = simp append-nil;
}

pub Grows-trans : (t u w : VariableTracer) → Grows t u → Grows u w → Grows t w
Grows-trans t u w h k = record {
  keeps = λ v a e. k.keeps v a (h.keeps v a e);
  records = λ a r e.
      let (s, e', l) = h.records a r e in
      let (s', e'', l') = k.records a s e' in (s', e'', Later-trans r s s' l l');
  imports = λ m e. k.imports m (h.imports m e);
  new_events = h.new_events ++ k.new_events;
  reports =
      k.reports
      ∙ ap (λ l. l ++ k.new_events) h.reports
      ∙ append_assoc t.events h.new_events k.new_events;
}

-- A record of the store with the name and the expression, of a module that was imported or of none.
pub record IsOpen (t : VariableTracer) (name expr : String) : Type 0 where
  pub address : ℕ
  pub target : Traced
  pub found : get_elem? t.store address ≡ some target
  pub same_name : target.name ≡ name
  pub same_expr : target.identifier_or_member_expr ≡ expr
  pub open_ : is_traced_identifier_imported_as_module target t ≡ true

-- A record of the store whose returned values are followed.
pub record IsFollowed (t : VariableTracer) (name expr : String) : Type 0 where
  pub address : ℕ
  pub target : Traced
  pub found : get_elem? t.store address ≡ some target
  pub same_name : target.name ≡ name
  pub same_expr : target.identifier_or_member_expr ≡ expr
  pub followed : target.follow_return_value_assignement ≡ true

-- What an event tells is so.
abbrev pub Reported : VariableTracer → TracerEvent → Type 0
Reported t (assignment name expr id location) = IsOpen t name expr
Reported t (return_value name expr id location args node) = IsFollowed t name expr
Reported t (import_ m value location) =
    (contains t.imported_modules m ≡ true) × (is_traced m t ≡ true)

pub record IsWellFormed (t : VariableTracer) : Type 0 where
  pub bound :
      (v : String) (a : ℕ) → get v t.traced ≡ some a → (r : Traced) × (get_elem? t.store a ≡ some r)
  pub sound : All (Reported t) t.events

Later-open :
    (t t' : VariableTracer) (r s : Traced)
    → Grows t t'
    → Later r s
    → is_traced_identifier_imported_as_module r t ≡ true
    → is_traced_identifier_imported_as_module s t' ≡ true
unfolding is_traced_identifier_imported_as_module
Later-open t t' r s g l h = elim (Option-cases r.module_name) [
  | inl e ↦ rw (l.module_, e) refl
  | inr (m, e) ↦
      let imported : contains t.imported_modules m ≡ true = ground (arith, e, h) in
      rw (l.module_, e) (g.imports m imported)
]

is_traced-Grows :
    (t t' : VariableTracer) (m : String) → Grows t t' → is_traced m t ≡ true → is_traced m t' ≡ true
is_traced-Grows t t' m g h = elim (Option-cases (get m t.traced)) [
  | inl e ↦ absurd (ground (arith, e, h))
  | inr (a, e) ↦ rw (g.keeps m a e) refl
]

pub Reported-Grows :
    (t t' : VariableTracer) (event : TracerEvent)
    → Grows t t'
    → Reported t event
    → Reported t' event
Reported-Grows t t' (assignment name expr id location) g h =
    let (s, e, l) = g.records h.address h.target h.found in
    record {
      address = h.address;
      target = s;
      found = e;
      same_name = l.name ∙ h.same_name;
      same_expr = l.expr ∙ h.same_expr;
      open_ = Later-open t t' h.target s g l h.open_;
    }
Reported-Grows t t' (return_value name expr id location args node) g h =
    let (s, e, l) = g.records h.address h.target h.found in
    record {
      address = h.address;
      target = s;
      found = e;
      same_name = l.name ∙ h.same_name;
      same_expr = l.expr ∙ h.same_expr;
      followed = l.returns ∙ h.followed;
    }
Reported-Grows t t' (import_ m value location) g h = (g.imports m h.0, is_traced-Grows t t' m g h.1)

-- From a well-formed tracer the operation leads to a grown and well-formed one.
abbrev pub Moves : VariableTracer → VariableTracer → Type 0
Moves t t' = IsWellFormed t → Grows t t' × IsWellFormed t'

pub Moves-refl : (t : VariableTracer) → Moves t t
Moves-refl t h = (Grows-refl t, h)

pub Moves-trans : (t u w : VariableTracer) → Moves t u → Moves u w → Moves t w
Moves-trans t u w f g h = let (p, hu) = f h in let (q, hw) = g hu in (Grows-trans t u w p q, hw)

-- A step that grows keeps the tracer well-formed where every name is bound and what it tells is so.
pub Grows-IsWellFormed :
    (t t' : VariableTracer) (g : Grows t t')
    → ((v : String) (a : ℕ)
        → get v t'.traced ≡ some a
        → (r : Traced) × (get_elem? t'.store a ≡ some r))
    → All (Reported t') g.new_events
    → IsWellFormed t
    → IsWellFormed t'
Grows-IsWellFormed t t' g b told h = record {
  bound = b;
  sound = subst (All (Reported t')) (sym g.reports) (
      All-append (Reported t') t.events g.new_events
        (All-map (Reported t) (Reported t') t.events (λ event r. Reported-Grows t t' event g r)
          h.sound)
        told);
}
