-- ===== src/Tracer/Traces/Segments.antt =====
-- What tracing a path does with its segments (crates/js-x-ray/src/variable_tracer.rs: `trace`).
use js_x_ray_rs.Prelude.{
  ℕ, zero, suc, ◌<◌, String, true, false, Option, none, some, List, [], ◌∷◌, ◌++◌, ◌==◌, ◌≡◌, refl,
  sym, ◌∙◌, ap, subst, length, get_elem?, unwrap_or, All, arith, eq_iff, Bool-cases, Option-cases,
  ◌⊎◌, inl, inr, contains_text, split, >>=-some, >>=-eq-some,
}
use js_x_ray_rs.Prelude.IndexMap.{get, insert, get-insert}
use js_x_ray_rs.Utils.Segments.{get_sub_member_expression_segments}
use js_x_ray_rs.Tracer.{
  VariableTracer, Traced, TraceOptions, is_traced, entry, allocate, record_of, trace_segments,
  trace_with, trace,
}
use js_x_ray_rs.Tracer.Sound.{IsWellFormed}
use js_x_ray_rs.Tracer.Traces.{
  get_elem?-append, get_elem?-last, allocate-IsWellFormed, trace_with-IsWellFormed,
  trace-IsWellFormed,
}
use js_x_ray_rs.Tracer.Traces.Enough.{parts, segments_fewer, trace-eq}

-- The record of a segment: it follows assignments and has the name and the module of the path.
record IsSegment (name : String) (module_name : Option String) (r : Traced) : Type 0 where
  pub follows : r.follow_consecutive_assignment ≡ true
  pub named : r.name ≡ name
  pub module_ : r.module_name ≡ module_name

entry-is_traced :
    (v : String) (t : VariableTracer) (r : Traced) → entry v t ≡ some r → is_traced v t ≡ true
entry-is_traced v t r e =
    let (a, at, found) = >>=-eq-some (get v t.traced) (get_elem? t.store) e in rw at refl

is_traced-entry :
    (v : String) (t : VariableTracer)
    → IsWellFormed t
    → is_traced v t ≡ true
    → (r : Traced) × (entry v t ≡ some r)
is_traced-entry v t h e = elim (Option-cases (get v t.traced)) [
  | inl f ↦ absurd (cc (rw f at e))
  | inr (a, f) ↦
      let (r, found) = h.bound v a f in (r, >>=-some (get v t.traced) (get_elem? t.store) f found)
]

entry-allocate_same :
    (id : String) (r : Traced) (t : VariableTracer) → entry id (allocate id r t) ≡ some r
entry-allocate_same id r t =
    let at : get id (insert id (length t.store) t.traced) ≡ some (length t.store) =
      ground (arith, get-insert id id (length t.store) t.traced, eq_iff id id) in
    >>=-some (get id (insert id (length t.store) t.traced)) (get_elem? (t.store ++ r ∷ [])) at
      (get_elem?-last t.store r)

-- Another name keeps its record, and has no other.
entry-allocate :
    (id v : String) (r : Traced) (t : VariableTracer)
    → IsWellFormed t
    → (id == v) ≡ false
    → entry v (allocate id r t) ≡ entry v t
entry-allocate id v r t h n = elim (Option-cases (get v t.traced)) [
  | inl e ↦
      let at : get v (insert id (length t.store) t.traced) ≡ none =
        ground (arith, get-insert id v (length t.store) t.traced, n, e) in
      rw (at, e) refl
  | inr (a, e) ↦
      let at : get v (insert id (length t.store) t.traced) ≡ some a =
        ground (arith, get-insert id v (length t.store) t.traced, n, e) in
      let (s, found) = h.bound v a e in
      >>=-some (get v (insert id (length t.store) t.traced)) (get_elem? (t.store ++ r ∷ [])) at
        (get_elem?-append t.store (r ∷ []) a s found)
      ∙ sym (>>=-some (get v t.traced) (get_elem? t.store) e found)
]

module _ (name : String) (module_name : Option String) where
  -- The options of segments, which those of their segments are again.
  abbrev options_of : TraceOptions
  options_of = record {
    follow_consecutive_assignment = true;
    follow_return_value_assignement = false;
    module_name = module_name;
    name = some name;
  }

  -- The records stay, and the new ones are of segments.
  record Made (t u : VariableTracer) : Type 0 where
    keeps : (v : String) (r : Traced) → entry v t ≡ some r → entry v u ≡ some r
    adds :
        (v : String) (r : Traced)
        → entry v u ≡ some r
        → (entry v t ≡ some r) ⊎ IsSegment name module_name r

  Made-refl : (t : VariableTracer) → Made t t
  Made-refl t = record { keeps = λ v r e. e; adds = λ v r e. inl e }

  Made-trans : (t u w : VariableTracer) → Made t u → Made u w → Made t w
  Made-trans t u w h k = record {
    keeps = λ v r e. k.keeps v r (h.keeps v r e);
    adds = λ v r e. elim (k.adds v r e) [ inl f ↦ h.adds v r f | inr s ↦ inr s ];
  }

  Made-allocate :
      (expr : String) (t : VariableTracer)
      → IsWellFormed t
      → is_traced expr t ≡ false
      → Made t (allocate expr (record_of expr options_of) t)
  Made-allocate expr t h n =
      let r = record_of expr options_of in
      record {
        keeps = λ v s e. elim (Bool-cases (expr == v)) [
          | inl f ↦
              let same : expr ≡ v = (eq_iff expr v).0 f in
              absurd (cc (entry-is_traced v t s e, subst (λ x. is_traced x t ≡ false) same n))
          | inr f ↦ entry-allocate expr v r t h f ∙ e
        ];
        adds = λ v s e. elim (Bool-cases (expr == v)) [
          | inl f ↦
              let same : expr ≡ v = (eq_iff expr v).0 f in
              let here : some r ≡ some s =
                sym (
                  subst (λ x. entry x (allocate expr r t) ≡ some r) same
                    (entry-allocate_same expr r t))
                ∙ e in
              let is : r ≡ s = cc here in
              inr (
                subst (IsSegment name module_name) is
                  (record { follows = refl; named = refl; module_ = refl }))
          | inr f ↦ inl (sym (entry-allocate expr v r t h f) ∙ e)
        ];
      }

  -- A loop over segments makes what its calls make.
  trace_segments-Made :
      (f : String → VariableTracer → VariableTracer) (l : List String) (t : VariableTracer)
      → ((expr : String) (u : VariableTracer)
          → IsWellFormed u
          → is_traced expr u ≡ false
          → Made u (f expr u) × IsWellFormed (f expr u))
      → IsWellFormed t
      → Made t (trace_segments f l t)
  trace_segments-Made f [] t h k = Made-refl t
  trace_segments-Made f (expr ∷ l) t h k = elim (Bool-cases (is_traced expr t)) [
    | inl e ↦ rw e (trace_segments-Made f l t h k)
    | inr e ↦
        let (made, well) = h expr t k e in
        rw e (Made-trans t (f expr t) _ made (trace_segments-Made f l (f expr t) h well))
  ]

  trace_with-Made :
      (n : ℕ) (expr : String) (t : VariableTracer)
      → IsWellFormed t
      → is_traced expr t ≡ false
      → Made t (trace_with n expr options_of t)
  unfolding trace_with
  trace_with-Made zero expr t h e = Made-refl t
  trace_with-Made (suc n) expr t h e =
      let r = record_of expr options_of in
      let allocated = allocate expr r t in
      let first = Made-allocate expr t h e in
      elim (Bool-cases (contains_text expr ".")) [
        | inl c ↦ rw c (
            Made-trans t allocated _ first (
              trace_segments-Made (λ x. trace_with n x options_of)
                (get_sub_member_expression_segments expr) allocated
                (λ x u k d. (trace_with-Made n x u k d, trace_with-IsWellFormed n x options_of u k))
                (allocate-IsWellFormed expr r t h)))
        | inr c ↦ rw c first
      ]

  trace-Made :
      (expr : String) (t : VariableTracer)
      → IsWellFormed t
      → is_traced expr t ≡ false
      → Made t (trace expr options_of t) × IsWellFormed (trace expr options_of t)
  unfolding trace
  trace-Made expr t h e = (
    trace_with-Made (suc (length (split b'.' expr))) expr t h e,
    trace-IsWellFormed expr options_of t h,
  )

  -- The name that is traced is traced after.
  trace-is_traced :
      (expr : String) (t : VariableTracer)
      → IsWellFormed t
      → is_traced expr (trace expr options_of t) ≡ true
  trace-is_traced expr t h =
      let r = record_of expr options_of in
      let allocated = allocate expr r t in
      let here = entry-allocate_same expr r t in
      elim (Bool-cases (contains_text expr ".")) [
        | inl c ↦
            let same : trace_segments (λ x. trace x options_of)
                  (get_sub_member_expression_segments expr) allocated
                ≡ trace expr options_of t =
              sym (trace-eq expr options_of t ∙ rw c refl) in
            subst (λ u. is_traced expr u ≡ true) same
              (entry-is_traced expr
                (trace_segments (λ x. trace x options_of) (get_sub_member_expression_segments expr)
                  allocated)
                r
                ((trace_segments-Made (λ x. trace x options_of)
                    (get_sub_member_expression_segments expr) allocated trace-Made
                    (allocate-IsWellFormed expr r t h)).keeps
                  expr r here))
        | inr c ↦
            let same : allocated ≡ trace expr options_of t =
              sym (trace-eq expr options_of t ∙ rw c refl) in
            subst (λ u. is_traced expr u ≡ true) same (entry-is_traced expr allocated r here)
      ]

  -- After the loop each of the segments is traced.
  trace_segments-All :
      (l : List String) (t : VariableTracer)
      → IsWellFormed t
      → All (λ expr. is_traced expr (trace_segments (λ x. trace x options_of) l t) ≡ true) l
  trace_segments-All [] t h = tt
  trace_segments-All (expr ∷ l) t h =
      let f = λ (x : String). trace x options_of in
      let rest : (u : VariableTracer)
          → IsWellFormed u
          → is_traced expr u ≡ true
          → All (λ x. is_traced x (trace_segments f l u) ≡ true) (expr ∷ l) =
        λ u well e.
          (let (r, at) = is_traced-entry expr u well e in
            let made = trace_segments-Made f l u trace-Made well in
            (
              entry-is_traced expr (trace_segments f l u) r (made.keeps expr r at),
              trace_segments-All l u well,
            )) in
      elim (Bool-cases (is_traced expr t)) [
        | inl e ↦
            let same : trace_segments f l t ≡ trace_segments f (expr ∷ l) t = rw e refl in
            subst (λ u. All (λ x. is_traced x u ≡ true) (expr ∷ l)) same (rest t h e)
        | inr e ↦
            let same : trace_segments f l (f expr t) ≡ trace_segments f (expr ∷ l) t = rw e refl in
            subst (λ u. All (λ x. is_traced x u ≡ true) (expr ∷ l)) same
              (rest (f expr t) (trace-IsWellFormed expr options_of t h) (trace-is_traced expr t h))
      ]

All-both {ℓ} :
    {A : Type ℓ} (P Q R : A → Type 0) (l : List A)
    → ((x : A) → P x → Q x → R x)
    → All P l
    → All Q l
    → All R l
All-both P Q R [] f h k = tt
All-both P Q R (x ∷ l) f h k = (f x h.0 k.0, All-both P Q R l f h.1 k.1)

module _ (id : String) (options : TraceOptions) (t : VariableTracer) where
  -- A text of fewer parts is another one.
  not_itself : (expr : String) → parts expr < parts id → (id == expr) ≡ false
  not_itself expr fewer = elim (Bool-cases (id == expr)) [
    | inl e ↦
        let same : parts id ≡ parts expr = ap parts ((eq_iff id expr).0 e) in
        absurd (omega (arith, same, fewer))
    | inr e ↦ e
  ]

  -- The identifier has the record that was asked for. A segment that was traced keeps its record, and
  -- another has one that follows assignments, with the name and the module of the path.
  pub record IsTraced (after : VariableTracer) : Type 0 where
    pub own :
        entry id after
        ≡ some (record {
          name = unwrap_or id options.name;
          identifier_or_member_expr = id;
          follow_consecutive_assignment = options.follow_consecutive_assignment;
          follow_return_value_assignement = options.follow_return_value_assignement;
          module_name = options.module_name;
          assignment_memory = [];
        })
    pub segments :
        All
          (λ expr.
            (r : Traced) × (entry expr after ≡ some r)
            × ((entry expr t ≡ some r)
                ⊎ (is_traced expr t ≡ false)
                  × (r.follow_consecutive_assignment ≡ true)
                  × (r.name ≡ unwrap_or id options.name)
                  × (r.module_name ≡ options.module_name)))
          (get_sub_member_expression_segments id)

  -- Tracing a path with a dot, in a well-formed tracer, gives the path the record that was asked for; each
  -- segment of the path that was not traced then has a record that follows assignments, with the name and
  -- the module of the path; and the segments that were traced keep their records.
  pub trace-IsTraced : IsWellFormed t → contains_text id "." ≡ true → IsTraced (trace id options t)
  trace-IsTraced h dotted =
      let name = unwrap_or id options.name in
      let r = record_of id options in
      let allocated = allocate id r t in
      let well = allocate-IsWellFormed id r t h in
      let l = get_sub_member_expression_segments id in
      let after = trace_segments (λ x. trace x (options_of name options.module_name)) l allocated in
      let same : after ≡ trace id options t = sym (trace-eq id options t ∙ rw dotted refl) in
      let made =
        trace_segments-Made name options.module_name
          (λ x. trace x (options_of name options.module_name)) l allocated
          (trace-Made name options.module_name) well in
      let traced = trace_segments-All name options.module_name l allocated well in
      let well_after = subst IsWellFormed (sym same) (trace-IsWellFormed id options t h) in
      subst IsTraced same (record {
        own = made.keeps id r (entry-allocate_same id r t);
        segments =
            All-both (λ expr. is_traced expr after ≡ true) (λ expr. parts expr < parts id) _ l
              (λ expr e fewer.
                let other : (id == expr) ≡ false = not_itself expr fewer in
                let (s, at) = is_traced-entry expr after well_after e in
                let alike = entry-allocate id expr r t h other in
                elim (made.adds expr s at) [
                  | inl old ↦ (s, at, inl (sym alike ∙ old))
                  | inr new ↦ elim (Bool-cases (is_traced expr t)) [
                    | inl f ↦
                        let (q, before) = is_traced-entry expr t h f in
                        (q, made.keeps expr q (alike ∙ before), inl before)
                    | inr f ↦ (s, at, inr (f, new.follows, new.named, new.module_))
                  ]
                ])
              traced (segments_fewer id);
      })
