-- ===== src/Probe/Groups.antt =====
-- What breaking a group means (crates/js-x-ray/src/probe.rs: `ProbeRunner::walk`).
use js_x_ray_rs.Prelude.{
  String, Bool, true, false, not, ◌||◌, Option, none, some, List, [], ◌∷◌, ◌==◌, if◌then◌else◌,
  is_some_and, ◌≡◌, refl, arith, eq_iff, Bool-cases, inl, inr, retain, ◌∙◌, sym,
}
use js_x_ray_rs.Prelude.IndexMap.{contains, insert_set, contains-last}
use js_x_ray_rs.Json.{Node}
use js_x_ray_rs.Probe.{
  Probe, ProbeCtx, handles, in_groups, breaks, is_skip, ran, walk_probes, skipping, nothing,
}

pub contains-insert_set :
    (k j : String) (l : List String) → contains (insert_set k l) j ≡ (contains l j || k == j)
unfolding insert_set
contains-insert_set k j l = ground (arith, contains-last l k j, eq_iff k j)

-- The two lists have the same members.
abbrev Alike : List String → List String → Type 0
Alike groups others = (g : String) → contains groups g ≡ contains others g

is_some_and-cong :
    (p q : String → Bool) (o : Option String)
    → ((g : String) → p g ≡ q g)
    → is_some_and p o ≡ is_some_and q o
is_some_and-cong p q none same = refl
is_some_and-cong p q (some g) same = same g

-- The ladder of the loop's body.
abbrev choose : {A : Type 0} → Bool → Bool → Bool → Option String → A → A → A → (String → A) → A → A
choose passed skipped broken group pass skip stop break go =
    if passed
    then pass
    else if skipped
    then skip
    else if broken
    then elim group [ none ↦ stop | some g ↦ break g ]
    else go

choose-cong :
    {A : Type 0} (passed skipped broken : Bool) (group : Option String)
    (pass pass' skip stop go go' : A) (break break' : String → A)
    → pass ≡ pass'
    → ((g : String) → break g ≡ break' g)
    → go ≡ go'
    → choose passed skipped broken group pass skip stop break go
      ≡ choose passed skipped broken group pass' skip stop break' go'
choose-cong true skipped broken group pass pass' skip stop go go' break break' p b q = p
choose-cong false true broken group pass pass' skip stop go go' break break' p b q = refl
choose-cong false false true none pass pass' skip stop go go' break break' p b q = refl
choose-cong false false true (some g) pass pass' skip stop go go' break break' p b q = b g
choose-cong false false false group pass pass' skip stop go go' break break' p b q = q

in_broken :
    (group : String) (groups : List String) (o : Option String)
    → is_some_and (λ g. group == g) o ≡ true
    → is_some_and (contains (insert_set group groups)) o ≡ true
in_broken group groups none h = cc
in_broken group groups (some g) h = ground (arith, contains-insert_set group g groups)

in_others :
    (group : String) (groups : List String) (o : Option String)
    → is_some_and (λ g. group == g) o ≡ false
    → is_some_and (contains (insert_set group groups)) o ≡ is_some_and (contains groups) o
in_others group groups none h = refl
in_others group groups (some g) h = ground (arith, contains-insert_set group g groups)

or_true : (b : Bool) → (b || true) ≡ true
or_true b = ground arith

swap-Alike :
    (g h : String) (groups : List String)
    → Alike (insert_set g (insert_set h groups)) (insert_set h (insert_set g groups))
swap-Alike g h groups j = ground (
  arith,
  contains-insert_set g j (insert_set h groups),
  contains-insert_set h j groups,
  contains-insert_set h j (insert_set g groups),
  contains-insert_set g j groups,
)

module _ {S R E : Type 0} (node : Node) (ctx : ProbeCtx R) (node_ty : String) where
  -- The order in which groups were broken does not matter.
  walk_probes-Alike :
      (probes : List (Probe S R E)) (groups others : List String) (s : S)
      → Alike groups others
      → walk_probes node ctx node_ty groups probes s ≡ walk_probes node ctx node_ty others probes s
  unfolding walk_probes
  walk_probes-Alike [] groups others s same = refl
  walk_probes-Alike (probe ∷ rest) groups others s same =
      let out = ran node ctx node_ty probe s in
      let in_same = is_some_and-cong (contains groups) (contains others) probe.break_group same in
      rw in_same (
        choose-cong (not (handles probe node_ty) || in_groups others probe) (is_skip out.1)
          (breaks probe out.1) probe.break_group _ _ (out.0, skipping) (out.0, nothing) _ _ _ _
          (walk_probes-Alike rest groups others s same)
          (λ g. walk_probes-Alike rest (insert_set g groups) (insert_set g others) out.0 (λ j.
            contains-insert_set g j groups
            ∙ (ground (arith, same j))
            ∙ sym (contains-insert_set g j others)))
          (walk_probes-Alike rest groups others out.0 same))

  -- Once a group is broken, its probes might as well not be there: the rest of the loop does what it
  -- would do without them.
  pub walk_probes-break :
      (probes : List (Probe S R E)) (group : String) (groups : List String) (s : S)
      → walk_probes node ctx node_ty (insert_set group groups) probes s
        ≡ walk_probes node ctx node_ty groups
            (retain (λ probe. not (is_some_and (λ g. group == g) probe.break_group)) probes)
            s
  unfolding walk_probes
  walk_probes-break [] group groups s = refl
  walk_probes-break (probe ∷ rest) group groups s =
      elim (Bool-cases (is_some_and (λ g. group == g) probe.break_group)) [
        | inl own ↦
            rw
              (
                in_broken group groups probe.break_group own,
                own,
                or_true (not (handles probe node_ty)),
              )
              (walk_probes-break rest group groups s)
        | inr other ↦
            let out = ran node ctx node_ty probe s in
            rw (in_others group groups probe.break_group other, other)
              (choose-cong (not (handles probe node_ty) || in_groups groups probe) (is_skip out.1)
                (breaks probe out.1) probe.break_group _ _ (out.0, skipping) (out.0, nothing) _ _ _
                _ (walk_probes-break rest group groups s)
                (λ g.
                  walk_probes-Alike rest (insert_set g (insert_set group groups))
                    (insert_set group (insert_set g groups)) out.0 (swap-Alike g group groups)
                  ∙ walk_probes-break rest group (insert_set g groups) out.0)
                (walk_probes-break rest group groups out.0))
      ]
