-- ===== src/Tracer/Traces.antt =====
-- `trace` ends and keeps the tracer well-formed (crates/js-x-ray/src/variable_tracer.rs).
pub mod Enough
pub mod Segments
use js_x_ray_rs.Prelude.{
  ℕ, zero, suc, ◌+◌, ◌<◌, String, Bool, true, false, ◌&&◌, ◌||◌, Option, none, some, List, [], ◌∷◌,
  ◌++◌, ◌==◌, ◌≡◌, refl, sym, ◌∙◌, ap, subst, if◌then◌else◌, length, get_elem?, All, All-map, arith,
  eq_iff, eqb, Bool-cases, Option-cases, inl, inr, map, split, join, contains_text,
}
use js_x_ray_rs.Prelude.IndexMap.{get, insert, get-insert}
use js_x_ray_rs.Utils.Segments.{beginnings, get_sub_member_expression_segments}
use js_x_ray_rs.Utils.Segments.Split.{HasNoDot, split-join}
use js_x_ray_rs.Tracer.{
  VariableTracer, Traced, TracerEvent, TraceOptions, assignment, return_value, import_, is_traced,
  allocate, record_of, segment_options, trace_segments, trace_with, trace, enable_default_tracing,
  trace_require, require_patterns, following, default_options,
  is_traced_identifier_imported_as_module, new,
}
use js_x_ray_rs.Tracer.Sound.{IsWellFormed, Reported}

module _ {ℓ} {A : Type ℓ} where
  pub get_elem?-append :
      (l m : List A) (i : ℕ) (x : A) → get_elem? l i ≡ some x → get_elem? (l ++ m) i ≡ some x
  get_elem?-append [] m i x h = cc
  get_elem?-append (y ∷ l) m zero x h = h
  get_elem?-append (y ∷ l) m (suc i) x h = get_elem?-append l m i x h

  pub get_elem?-last : (l : List A) (x : A) → get_elem? (l ++ x ∷ []) (length l) ≡ some x
  get_elem?-last [] x = refl
  get_elem?-last (y ∷ l) x = get_elem?-last l x

module _ (id : String) (r : Traced) (t : VariableTracer) where
  allocate-is_traced : (m : String) → is_traced m t ≡ true → is_traced m (allocate id r t) ≡ true
  allocate-is_traced m h = ground (arith, get-insert id m (length t.store) t.traced, h)

  allocate-Reported : (event : TracerEvent) → Reported t event → Reported (allocate id r t) event
  unfolding is_traced_identifier_imported_as_module
  allocate-Reported (assignment name expr new_id location) h = record {
    address = h.address;
    target = h.target;
    found = get_elem?-append t.store (r ∷ []) h.address h.target h.found;
    same_name = h.same_name;
    same_expr = h.same_expr;
    open_ = h.open_;
  }
  allocate-Reported (return_value name expr new_id location args node) h = record {
    address = h.address;
    target = h.target;
    found = get_elem?-append t.store (r ∷ []) h.address h.target h.found;
    same_name = h.same_name;
    same_expr = h.same_expr;
    followed = h.followed;
  }
  allocate-Reported (import_ m value location) h = (h.0, allocate-is_traced m h.1)

  pub allocate-IsWellFormed : IsWellFormed t → IsWellFormed (allocate id r t)
  allocate-IsWellFormed h = record {
    bound = λ v a e. elim (Bool-cases (id == v)) [
      | inl same ↦
          let at : length t.store ≡ a =
            ground (arith, get-insert id v (length t.store) t.traced, same, e) in
          (r, subst (λ i. get_elem? (t.store ++ r ∷ []) i ≡ some r) at (get_elem?-last t.store r))
      | inr other ↦
          let old : get v t.traced ≡ some a =
            ground (arith, get-insert id v (length t.store) t.traced, other, e) in
          let (s, found) = h.bound v a old in (s, get_elem?-append t.store (r ∷ []) a s found)
    ];
    sound = All-map (Reported t) (Reported (allocate id r t)) t.events allocate-Reported h.sound;
  }

pub trace_segments-IsWellFormed :
    (f : String → VariableTracer → VariableTracer) (l : List String) (t : VariableTracer)
    → ((expr : String) (u : VariableTracer) → IsWellFormed u → IsWellFormed (f expr u))
    → IsWellFormed t
    → IsWellFormed (trace_segments f l t)
trace_segments-IsWellFormed f [] t h k = k
trace_segments-IsWellFormed f (expr ∷ l) t h k = elim (Bool-cases (is_traced expr t)) [
  | inl e ↦ rw e (trace_segments-IsWellFormed f l t h k)
  | inr e ↦ rw e (trace_segments-IsWellFormed f l (f expr t) h (h expr t k))
]

pub trace_with-IsWellFormed :
    (n : ℕ) (id : String) (options : TraceOptions) (t : VariableTracer)
    → IsWellFormed t
    → IsWellFormed (trace_with n id options t)
unfolding trace_with
trace_with-IsWellFormed zero id options t h = h
trace_with-IsWellFormed (suc n) id options t h =
    let allocated = allocate-IsWellFormed id (record_of id options) t h in
    elim (Bool-cases (contains_text id ".")) [
      | inl e ↦ rw e (
          trace_segments-IsWellFormed (λ expr. trace_with n expr (segment_options id options))
            (get_sub_member_expression_segments id) (allocate id (record_of id options) t)
            (λ expr. trace_with-IsWellFormed n expr (segment_options id options)) allocated)
      | inr e ↦ rw e allocated
    ]

-- Tracing an identifier keeps the tracer well-formed: every name points at a record, and every event
-- tells of a traced record or an imported module.
pub trace-IsWellFormed :
    (id : String) (options : TraceOptions) (t : VariableTracer)
    → IsWellFormed t
    → IsWellFormed (trace id options t)
unfolding trace
trace-IsWellFormed id options t h =
    trace_with-IsWellFormed (suc (length (split b'.' id))) id options t h

pub new-IsWellFormed : IsWellFormed new
unfolding get
new-IsWellFormed = record { bound = λ v a e. absurd (ground (arith, e)); sound = tt }

trace_require-IsWellFormed :
    (l : List String) (t : VariableTracer) → IsWellFormed t → IsWellFormed (trace_require l t)
unfolding trace_require
trace_require-IsWellFormed [] t h = h
trace_require-IsWellFormed (p ∷ l) t h =
    trace_require-IsWellFormed l (trace p (following (some "require")) t)
      (trace-IsWellFormed p (following (some "require")) t h)

pub enable_default_tracing-IsWellFormed :
    (t : VariableTracer) → IsWellFormed t → IsWellFormed (enable_default_tracing t)
unfolding enable_default_tracing
enable_default_tracing-IsWellFormed t h =
    let required = trace_require require_patterns t in
    let evals = trace "eval" default_options required in
    let functions = trace "Function" default_options evals in
    trace-IsWellFormed "atob" (following none) functions (
      trace-IsWellFormed "Function" default_options evals (
        trace-IsWellFormed "eval" default_options required
          (trace_require-IsWellFormed require_patterns t h)))
