-- ===== src/EntryFiles/RoundTrip.antt =====
-- What the path functions promise (crates/js-x-ray/src/entry_files_analyser.rs).
use mathlib.Core.List.{append-nil}
use js_x_ray_rs.Prelude.{
  ℕ, zero, suc, ◌-◌, String, true, List, [], ◌∷◌, ◌++◌, ◌==◌, length, ◌≡◌, refl, arith, eq_iff,
  Bool-cases, inl, inr, ◌∙◌, ap,
}
use js_x_ray_rs.EntryFiles.{
  Component, root_dir, cur_dir, parent_dir, normal, push_component, push_components, reversed,
  or_current, normalize_path, same_component, common_count, parents, relative_parts,
}

-- Of the components, the last of them first: no `.`, and no `..` after a name.
abbrev pub IsNormal : List Component → Type 0
IsNormal [] = Unit
IsNormal (cur_dir ∷ out) = ⊥
IsNormal (parent_dir ∷ normal name ∷ out) = ⊥
IsNormal (parent_dir ∷ out) = IsNormal out
IsNormal (root_dir ∷ out) = IsNormal out
IsNormal (normal name ∷ out) = IsNormal out

push_component-IsNormal :
    (c : Component) (out : List Component) → IsNormal out → IsNormal (push_component c out)
push_component-IsNormal cur_dir out h = h
push_component-IsNormal parent_dir [] h = tt
push_component-IsNormal parent_dir (normal name ∷ out) h = h
push_component-IsNormal parent_dir (root_dir ∷ out) h = h
push_component-IsNormal parent_dir (cur_dir ∷ out) h = h
push_component-IsNormal parent_dir (parent_dir ∷ out) h = h
push_component-IsNormal root_dir out h = h
push_component-IsNormal (normal name) out h = h

push_components-IsNormal :
    (cs out : List Component) → IsNormal out → IsNormal (push_components cs out)
push_components-IsNormal [] out h = h
push_components-IsNormal (c ∷ cs) out h =
    push_components-IsNormal cs (push_component c out) (push_component-IsNormal c out h)

IsNormal-tail : (c : Component) (out : List Component) → IsNormal (c ∷ out) → IsNormal out
IsNormal-tail cur_dir out h = absurd h
IsNormal-tail parent_dir [] h = tt
IsNormal-tail parent_dir (normal name ∷ out) h = absurd h
IsNormal-tail parent_dir (root_dir ∷ out) h = h
IsNormal-tail parent_dir (cur_dir ∷ out) h = h
IsNormal-tail parent_dir (parent_dir ∷ out) h = h
IsNormal-tail root_dir out h = h
IsNormal-tail (normal name) out h = h

push_component_normal :
    (c : Component) (out : List Component) → IsNormal (c ∷ out) → push_component c out ≡ c ∷ out
push_component_normal cur_dir out h = absurd h
push_component_normal parent_dir [] h = refl
push_component_normal parent_dir (normal name ∷ out) h = absurd h
push_component_normal parent_dir (root_dir ∷ out) h = refl
push_component_normal parent_dir (cur_dir ∷ out) h = refl
push_component_normal parent_dir (parent_dir ∷ out) h = refl
push_component_normal root_dir out h = refl
push_component_normal (normal name) out h = refl

-- Pushing normal components in their order gives them back.
push_reversed :
    (out cs : List Component)
    → IsNormal out
    → push_components (reversed out cs) [] ≡ push_components cs out
push_reversed [] cs h = refl
push_reversed (c ∷ out) cs h =
    push_reversed out (c ∷ cs) (IsNormal-tail c out h)
    ∙ ap (push_components cs) (push_component_normal c out h)

or_current-reversed :
    (out : List Component) (c : Component) (onto : List Component)
    → or_current (reversed out (c ∷ onto)) ≡ reversed out (c ∷ onto)
or_current-reversed [] c onto = refl
or_current-reversed (d ∷ out) c onto = or_current-reversed out d (c ∷ onto)

push_or_current :
    (out : List Component) → IsNormal out → push_components (or_current (reversed out [])) [] ≡ out
push_or_current [] h = refl
push_or_current (c ∷ out) h =
    ap (λ l. push_components l []) (or_current-reversed out c []) ∙ push_reversed (c ∷ out) [] h

-- Normalizing a normalized path changes nothing.
pub normalize_path_twice :
    (path : List Component) → normalize_path (normalize_path path) ≡ normalize_path path
unfolding normalize_path
normalize_path_twice path =
    ap (λ out. or_current (reversed out []))
      (push_or_current (push_components path []) (push_components-IsNormal path [] tt))

abbrev pub names : List String → List Component
names [] = []
names (name ∷ rest) = normal name ∷ names rest

push_names :
    (fs : List String) (cs out : List Component)
    → push_components (names fs ++ cs) out ≡ push_components cs (reversed (names fs) out)
push_names [] cs out = refl
push_names (f ∷ fs) cs out = push_names fs cs (normal f ∷ out)

push_all_names :
    (fs : List String) (out : List Component)
    → push_components (names fs) out ≡ reversed (names fs) out
push_all_names [] out = refl
push_all_names (f ∷ fs) out = push_all_names fs (normal f ∷ out)

parents-last :
    (n : ℕ) (cs : List Component) → parent_dir ∷ (parents n ++ cs) ≡ parents n ++ parent_dir ∷ cs
parents-last zero cs = refl
parents-last (suc n) cs = ap (λ l. parent_dir ∷ l) (parents-last n cs)

-- As many `..` as names take the names away.
push_parents :
    (gs : List String) (cs out : List Component)
    → push_components (parents (length (names gs)) ++ cs) (reversed (names gs) out)
      ≡ push_components cs out
push_parents [] cs out = refl
push_parents (g ∷ gs) cs out =
    ap (λ l. push_components l (reversed (names gs) (normal g ∷ out)))
      (parents-last (length (names gs)) cs)
    ∙ push_parents gs (parent_dir ∷ cs) (normal g ∷ out)

reversed_twice : (xs ys zs : List Component) → reversed (reversed xs ys) zs ≡ reversed ys (xs ++ zs)
reversed_twice [] ys zs = refl
reversed_twice (x ∷ xs) ys zs = reversed_twice xs (x ∷ ys) zs

-- Where nothing is common: all of the one is left, and all of the other is entered.
apart_parts :
    (fs ts : List String) (out : List Component)
    → common_count (names fs) (names ts) ≡ 0
    → push_components (names fs ++ relative_parts (names fs) (names ts)) out
      ≡ reversed (names ts) out
unfolding relative_parts
apart_parts fs ts out e =
    let all : length (names fs) - 0 ≡ length (names fs) = omega arith in
    rw (e, all)
      (push_names fs (parents (length (names fs)) ++ names ts) out
        ∙ push_parents fs (names ts) out
        ∙ push_all_names ts out)

-- A common first component plays no part.
same_parts :
    (c d : Component) (from to : List Component)
    → same_component c d ≡ true
    → relative_parts (c ∷ from) (d ∷ to) ≡ relative_parts from to
unfolding relative_parts
same_parts c d from to e =
    let less : suc (length from) - suc (common_count from to) ≡ length from - common_count from to =
      omega arith in
    rw (e, less) refl

follow_parts :
    (fs ts : List String) (out : List Component)
    → push_components (names fs ++ relative_parts (names fs) (names ts)) out
      ≡ reversed (names ts) out
unfolding common_count
follow_parts [] ts out = apart_parts [] ts out refl
follow_parts (f ∷ fs) [] out = apart_parts (f ∷ fs) [] out refl
follow_parts (f ∷ fs) (t ∷ ts) out = elim (Bool-cases (f == t)) [
  | inl e ↦
      ap (λ l. push_components (names fs ++ l) (normal f ∷ out))
        (same_parts (normal f) (normal t) (names fs) (names ts) e)
      ∙ follow_parts fs ts (normal f ∷ out)
      ∙ ap (λ s. reversed (names ts) (normal s ∷ out)) ((eq_iff f t).0 e)
  | inr e ↦ apart_parts (f ∷ fs) (t ∷ ts) out (rw e refl)
]

-- The relative path from one absolute path to another, joined to the first, normalizes to the second.
pub normalize_path-relative_parts :
    (fs ts : List String)
    → normalize_path
        ((root_dir ∷ names fs) ++ relative_parts (root_dir ∷ names fs) (root_dir ∷ names ts))
      ≡ root_dir ∷ names ts
unfolding normalize_path
normalize_path-relative_parts fs ts =
    ap (λ l. or_current (reversed (push_components (names fs ++ l) (root_dir ∷ [])) []))
      (same_parts root_dir root_dir (names fs) (names ts) refl)
    ∙ ap (λ out. or_current (reversed out [])) (follow_parts fs ts (root_dir ∷ []))
    ∙ ap or_current (reversed_twice (names ts) (root_dir ∷ []) [])
    ∙ ap (λ l. root_dir ∷ l) (append-nil (names ts))
