-- ===== src/Tracer/Traces/Enough.antt =====
-- The fuel of `trace` is enough: the segments of a path have fewer parts than the path
-- (crates/js-x-ray/src/variable_tracer.rs: `trace`).
use Prim.Native.Char.{Char, code}
use js_x_ray_rs.Prelude.{
  ℕ, zero, suc, ◌<◌, String, false, List, [], ◌∷◌, ◌≡◌, refl, ap, if◌then◌else◌, length, All,
  All-map, arith, eqb, Bool-cases, inl, inr, map, split, join, onto_first, contains_text,
}
use js_x_ray_rs.Utils.Segments.{beginnings, get_sub_member_expression_segments}
use js_x_ray_rs.Utils.Segments.Split.{HasNoDot, split-join}
use js_x_ray_rs.Tracer.{
  VariableTracer, TraceOptions, is_traced, allocate, record_of, segment_options, trace_segments,
  trace_with, trace,
}

onto_first-HasNoDot :
    (c : Char) (l : List String)
    → eqb (code c) b'.' ≡ false
    → All HasNoDot l
    → All HasNoDot (onto_first c l)
onto_first-HasNoDot c [] e h = ((e, tt), tt)
onto_first-HasNoDot c (s ∷ l) e h = ((e, h.0), h.1)

-- The parts of a split text have no separator.
split-HasNoDot : (s : String) → All HasNoDot (split b'.' s)
unfolding split
split-HasNoDot String.[] = (tt, tt)
split-HasNoDot (String.◌∷◌ c s) = elim (Bool-cases (eqb (code c) b'.')) [
  | inl e ↦ rw e (tt, split-HasNoDot s)
  | inr e ↦ rw e (onto_first-HasNoDot c (split b'.' s) e (split-HasNoDot s))
]

-- A list of fewer than `n` parts, and of one at least.
record IsBeginning (n : ℕ) (l : List String) : Type 0 where
  shorter : length l < n
  some_part : 0 < length l
  plain : All HasNoDot l

All-of-map {ℓ} :
    {A : Type ℓ} (P : A → Type 0) (f : A → A) (l : List A) → All (λ x. P (f x)) l → All P (map f l)
All-of-map P f [] h = tt
All-of-map P f (x ∷ l) h = (h.0, All-of-map P f l h.1)

beginnings-IsBeginning :
    (l : List String) → All HasNoDot l → All (IsBeginning (length l)) (beginnings l)
beginnings-IsBeginning [] h = tt
beginnings-IsBeginning (s ∷ []) h = tt
beginnings-IsBeginning (s ∷ t ∷ l) h = (
  record { shorter = omega arith; some_part = omega arith; plain = (h.0, tt) },
  All-of-map (IsBeginning (length (s ∷ t ∷ l))) (λ b. s ∷ b) (beginnings (t ∷ l))
      (All-map (IsBeginning (length (t ∷ l))) (λ b. IsBeginning (length (s ∷ t ∷ l)) (s ∷ b))
        (beginnings (t ∷ l))
        (λ b k. record {
          shorter = omega (arith, k.shorter);
          some_part = omega arith;
          plain = (h.0, k.plain);
        })
        (beginnings-IsBeginning (t ∷ l) h.1)),
)

-- The parts of a path.
abbrev pub parts : String → ℕ
unfolding split
parts id = length (split b'.' id)

parts-join : (n : ℕ) (b : List String) → IsBeginning n b → parts (join "." b) < n
unfolding parts
parts-join n [] h = absurd (omega (arith, h.some_part))
parts-join n (s ∷ b) h = rw (split-join s b h.plain.0 h.plain.1) h.shorter

All-join :
    (n : ℕ) (l : List (List String))
    → All (IsBeginning n) l
    → All (λ expr. parts expr < n) (map (join ".") l)
All-join n [] h = tt
All-join n (b ∷ l) h = (parts-join n b h.0, All-join n l h.1)

pub segments_fewer :
    (id : String) → All (λ expr. parts expr < parts id) (get_sub_member_expression_segments id)
unfolding get_sub_member_expression_segments parts
segments_fewer id =
    All-join (length (split b'.' id)) (beginnings (split b'.' id))
      (beginnings-IsBeginning (split b'.' id) (split-HasNoDot id))

trace_segments-cong :
    (f g : String → VariableTracer → VariableTracer) (l : List String) (t : VariableTracer)
    → All (λ expr. (u : VariableTracer) → f expr u ≡ g expr u) l
    → trace_segments f l t ≡ trace_segments g l t
trace_segments-cong f g [] t h = refl
trace_segments-cong f g (expr ∷ l) t h = elim (Bool-cases (is_traced expr t)) [
  | inl e ↦ rw e (trace_segments-cong f g l t h.1)
  | inr e ↦ rw (e, h.0 t) (trace_segments-cong f g l (g expr t) h.1)
]

trace_with-stable :
    (m n : ℕ) (id : String) (options : TraceOptions) (t : VariableTracer)
    → parts id < m
    → parts id < n
    → trace_with m id options t ≡ trace_with n id options t
unfolding trace_with
trace_with-stable zero n id options t h k = absurd (omega arith)
trace_with-stable (suc m) zero id options t h k = absurd (omega arith)
trace_with-stable (suc m) (suc n) id options t h k =
    ap (λ u. if contains_text id "." then u else allocate id (record_of id options) t)
      (trace_segments-cong (λ expr. trace_with m expr (segment_options id options))
        (λ expr. trace_with n expr (segment_options id options))
        (get_sub_member_expression_segments id) (allocate id (record_of id options) t)
        (All-map (λ expr. parts expr < parts id)
          (λ expr.
            (u : VariableTracer)
            → trace_with m expr (segment_options id options) u
              ≡ trace_with n expr (segment_options id options) u)
          (get_sub_member_expression_segments id)
          (λ expr fewer u.
            trace_with-stable m n expr (segment_options id options) u (omega arith) (omega arith))
          (segments_fewer id)))

-- `trace` satisfies the equation that the source writes, on every identifier: the record gets a new
-- address, and then each segment of a path with a dot that is not traced yet is traced, to follow
-- assignments, for the same module and name.
pub trace-eq :
    (id : String) (options : TraceOptions) (t : VariableTracer)
    → trace id options t ≡ (
        let allocated = allocate id (record_of id options) t in
        if contains_text id "."
        then trace_segments
            (λ expr. trace expr (segment_options id options))
            (get_sub_member_expression_segments id)
            allocated
        else allocated)
unfolding trace trace_with
trace-eq id options t =
    ap (λ u. if contains_text id "." then u else allocate id (record_of id options) t)
      (trace_segments-cong (λ expr. trace_with (parts id) expr (segment_options id options))
        (λ expr. trace expr (segment_options id options)) (get_sub_member_expression_segments id)
        (allocate id (record_of id options) t)
        (All-map (λ expr. parts expr < parts id)
          (λ expr.
            (u : VariableTracer)
            → trace_with (parts id) expr (segment_options id options) u
              ≡ trace expr (segment_options id options) u)
          (get_sub_member_expression_segments id)
          (λ expr fewer u.
            trace_with-stable (parts id) (suc (parts expr)) expr (segment_options id options) u
              fewer (omega arith))
          (segments_fewer id)))
