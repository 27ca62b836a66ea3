-- ===== src/Tracer/Walk/Sound.antt =====
-- A walk of the tracer keeps it well-formed (crates/js-x-ray/src/variable_tracer.rs: `walk`).
use js_x_ray_rs.Prelude.{
  String, Bool, true, false, not, ◌&&◌, Option, none, some, ◌>>=◌, List, [], ◌∷◌, ◌≡◌, refl,
  if◌then◌else◌, unwrap_or, find, arith, Bool-cases, Option-cases, inl, inr, subst, ◌<>◌,
}
use js_x_ray_rs.Json
use js_x_ray_rs.Json.{Value, Node, get_array, get_str, is_null}
use js_x_ray_rs.Std.{Std}
use js_x_ray_rs.Estree.{SourceLocation, location_of, is_type, is_identifier}
use js_x_ray_rs.Estree.Calls.{get_call_expression_arguments}
use js_x_ray_rs.Estree.Bindings.{get_variable_declaration_identifiers}
use js_x_ray_rs.Utils.Segments.{strip_node_prefix}
use js_x_ray_rs.Tracer.{VariableTracer, is_traced, emit, import_, resolve_literal_identifier}
use js_x_ray_rs.Tracer.Walk.{
  Walking, each, auto_trace_name, auto_trace_id, prefixed, import_module, import_specifier,
  is_whole_import, import_whole, module_of, import_source, walk_import_declaration, names_module,
  bind_module, require_literal, walk_require_call_expression, reverse_atob, name_or_empty,
  set_literal, refer_to_global,
}
use js_x_ray_rs.Tracer.Base64.{base64_decode_to_string}
use js_x_ray_rs.Tracer.Sound.{Moves, Moves-refl, Moves-trans}
use js_x_ray_rs.Tracer.Sound.Steps.{
  Moves-quiet, Moves-emit, Moves-import, Moves-declare, contains-insert_set_self,
}

pub Moves-each {ℓ} :
    {A : Type ℓ} (step : A → Walking) (l : List A) (t : VariableTracer)
    → ((x : A) (u : VariableTracer) → Moves u (step x u))
    → Moves t (each step l t)
Moves-each step [] t h = Moves-refl t
Moves-each step (x ∷ l) t h =
    Moves-trans t (step x t) (each step l (step x t)) (h x t) (Moves-each step l (step x t) h)

-- Both branches of a test move.
pub Moves-if :
    (b : Bool) (t u w : VariableTracer)
    → (b ≡ true → Moves t u)
    → (b ≡ false → Moves t w)
    → Moves t (if b then u else w)
Moves-if true t u w h k = h refl
Moves-if false t u w h k = k refl

-- So do both cases of an option.
pub Moves-option {ℓ} :
    {A : Type ℓ} (o : Option A) (t u : VariableTracer) (f : A → VariableTracer)
    → Moves t u
    → ((a : A) → o ≡ some a → Moves t (f a))
    → Moves t (elim o [ none ↦ u | some a ↦ f a ])
Moves-option none t u f h k = h
Moves-option (some a) t u f h k = k a refl

module _ (t : VariableTracer) where
  pub Moves-literal : (name value kind : String) → Moves t (set_literal name value kind t)
  unfolding set_literal
  Moves-literal name value kind = Moves-quiet t (set_literal name value kind t) refl refl refl refl

  pub Moves-global : (name : String) → Moves t (refer_to_global name t)
  unfolding refer_to_global
  Moves-global name = Moves-quiet t (refer_to_global name t) refl refl refl refl

  Moves-auto_trace_name :
      (prefix : Option String) (binding : String × Node)
      → Moves t (auto_trace_name prefix binding t)
  unfolding auto_trace_name
  Moves-auto_trace_name prefix (name, id) =
      Moves-if (is_traced (prefixed prefix name) t) t _ _
        (λ _. Moves-declare (prefixed prefix name) id t) (λ _. Moves-refl t)

pub Moves-auto_trace_id :
    (id : Node) (prefix : Option String) (t : VariableTracer) → Moves t (auto_trace_id id prefix t)
unfolding auto_trace_id
Moves-auto_trace_id id prefix t =
    Moves-each (auto_trace_name prefix) (get_variable_declaration_identifiers id none) t
      (λ binding u. Moves-auto_trace_name u prefix binding)

-- A traced module is imported and told of.
Moves-tell_import :
    (m value : String) (location : Option SourceLocation) (t : VariableTracer)
    → is_traced m t ≡ true
    → Moves t (emit (import_ m value location) (import_module m t))
unfolding import_module
Moves-tell_import m value location t traced =
    Moves-trans t (import_module m t) (emit (import_ m value location) (import_module m t))
      (Moves-import m t)
      (Moves-emit (import_ m value location) (import_module m t)
        (contains-insert_set_self t.imported_modules m, traced))

Moves-import_specifier :
    (m : String) (specifier : Node) (t : VariableTracer) → Moves t (import_specifier m specifier t)
unfolding import_specifier
Moves-import_specifier m specifier t =
    Moves-if (is_type specifier "ImportSpecifier") t _ _
      (λ _. Moves-option (Json.get "imported" specifier) t _ _ (Moves-refl t) λ imported _.
        let name = m <> "." <> name_or_empty imported in
        Moves-if (is_identifier imported && is_traced name t) t _ _
          (λ _. Moves-declare name imported t) (λ _. Moves-refl t))
      (λ _. Moves-refl t)

Moves-import_whole :
    (m : String) (specifiers : List Value) (t : VariableTracer)
    → Moves t (import_whole m specifiers t)
unfolding import_whole
Moves-import_whole m [] t = Moves-refl t
Moves-import_whole m (first ∷ rest) t =
    Moves-option (Json.get "local" first) t _ _ (Moves-refl t) (λ local _. Moves-declare m local t)

Moves-import_source :
    (node : Node) (value : String) (t : VariableTracer) → Moves t (import_source node value t)
unfolding import_source
Moves-import_source node value t =
    let m = module_of value in
    let specifiers = unwrap_or [] (get_array "specifiers" node) in
    let u = emit (import_ m value (location_of node)) (import_module m t) in
    Moves-if (not (is_traced m t)) t _ _ (λ _. Moves-refl t)
      λ traced.
        let first = Moves-tell_import m value (location_of node) t (ground (arith, traced)) in
        Moves-if (is_whole_import specifiers) t _ _
          (λ _. Moves-trans t u _ first (Moves-import_whole m specifiers u))
          (λ _.
            Moves-trans t u _ first
              (Moves-each (import_specifier m) specifiers u (Moves-import_specifier m)))

pub Moves-import_declaration :
    (node : Node) (t : VariableTracer) → Moves t (walk_import_declaration node t)
unfolding walk_import_declaration
Moves-import_declaration node t =
    Moves-option (Json.get "source" node >>= get_str "value") t _ _ (Moves-refl t)
      (λ value _. Moves-import_source node value t)

Moves-bind_module : (m : String) (id : Node) (t : VariableTracer) → Moves t (bind_module m id t)
unfolding bind_module
Moves-bind_module m id t =
    Moves-if (is_type id "Identifier") t _ _ (λ _. Moves-declare m id t)
      λ _.
        Moves-if (is_type id "ObjectPattern") t _ _ (λ _. Moves-auto_trace_id id (some m) t)
          (λ _. Moves-refl t)

-- What a search finds satisfies its test.
find-holds {ℓ} : {A : Type ℓ} (p : A → Bool) (l : List A) (x : A) → find p l ≡ some x → p x ≡ true
find-holds p [] x h = cc
find-holds p (y ∷ l) x h = elim (Bool-cases (p y)) [
  | inl e ↦
      let same : some y ≡ some x = rw e at h in
      let same' : y ≡ x = cc same in subst (λ z. p z ≡ true) same' e
  | inr e ↦ find-holds p l x (rw e at h)
]

named-is_traced :
    (literal : Value) (t : VariableTracer)
    → names_module t literal ≡ true
    → is_traced (strip_node_prefix (unwrap_or "" (get_str "value" literal))) t ≡ true
unfolding names_module
named-is_traced literal t h = elim (Option-cases (get_str "value" literal)) [
  | inl e ↦ absurd (ground (arith, e, h))
  | inr (value, e) ↦ rw e (ground (arith, e, h))
]

Moves-require_literal :
    (literal : Value) (id : Node) (t : VariableTracer)
    → names_module t literal ≡ true
    → Moves t (require_literal literal id t)
unfolding require_literal
Moves-require_literal literal id t named =
    let value = unwrap_or "" (get_str "value" literal) in
    let m = strip_node_prefix value in
    let u = emit (import_ m value (location_of literal)) (import_module m t) in
    Moves-trans t u (bind_module m id u)
      (Moves-tell_import m value (location_of literal) t (named-is_traced literal t named))
      (Moves-bind_module m id u)

pub Moves-require :
    (node id : Node) (t : VariableTracer) → Moves t (walk_require_call_expression node id t)
unfolding walk_require_call_expression
Moves-require node id t =
    let args = unwrap_or [] (get_array "arguments" node) in
    Moves-option (find (names_module t) args) t _ _ (Moves-refl t)
      (λ literal e. Moves-require_literal literal id t (find-holds (names_module t) args literal e))

pub Moves-reverse_atob :
    (std : Std) (node id : Node) (t : VariableTracer) → Moves t (reverse_atob std node id t)
unfolding reverse_atob
Moves-reverse_atob std node id t =
    elim (get_call_expression_arguments std (resolve_literal_identifier t) node)
      as (λ o. Moves t (elim o [
        | none ↦ t
        | some [] ↦ t
        | some (a ∷ rest) ↦
            set_literal (name_or_empty id) (base64_decode_to_string std a) "Literal" t
      ])) [
        | none ↦ Moves-refl t
        | some [] ↦ Moves-refl t
        | some (a ∷ rest) ↦
            Moves-literal t (name_or_empty id) (base64_decode_to_string std a) "Literal"
      ]
