-- ===== src/Pipelines/Ends.antt =====
-- The pipelines return, and a runner has each pipeline once (crates/js-x-ray/src/pipelines/).
use js_x_ray_rs.Prelude.{
  find, ◌==◌, ap, ◌∙◌, suc, String, Bool, true, false, Option, none, some, List, [], ◌∷◌, ◌++◌, map,
  if◌then◌else◌, ◌≡◌, refl, arith, Bool-cases, inl, inr, All, eq_iff,
}
use js_x_ray_rs.Prelude.IndexMap.{contains, contains-last}
use js_x_ray_rs.Json.{Value, Node, array, items_of, is_array}
use js_x_ray_rs.Json.Depth.{depth}
use js_x_ray_rs.Std.{Std}
use js_x_ray_rs.Estree.{is_call_expression}
use js_x_ray_rs.Walker.{run_handler, fresh, skip, replace_and_skip, walk_enter, WalkerContext}
use js_x_ray_rs.Walker.Fuel.{walk_ends, IsCalm}
use js_x_ray_rs.Pipelines.{
  Pipeline, new_runner, remove_duplicated_pipelines, keep_first, fold_pipelines, reduce,
  with_call_expression, requests, deobfuscate_handler, body_of, deobfuscate_walk,
}

abbrev pub Returns : Pipeline → Type 0
Returns pipeline = (body : List Value) → (out : List Value) × (pipeline.walk body ≡ some out)

-- The requests by what is seen of the node.
abbrev asked : Bool → Bool → Option Value → WalkerContext
asked an_array a_call replacement =
    if an_array
    then fresh
    else if a_call
    then elim replacement [ none ↦ skip fresh | some node ↦ replace_and_skip node fresh ]
    else fresh

-- A node that is descended into is not replaced.
asked_descends :
    (an_array a_call : Bool) (replacement : Option Value)
    → (asked an_array a_call replacement).should_skip ≡ false
    → (asked an_array a_call replacement).replacement ≡ none
unfolding skip replace_and_skip
asked_descends true a_call replacement h = refl
asked_descends false true none h = cc
asked_descends false true (some node) h = cc
asked_descends false false replacement h = refl

module _ (std : Std) where
  requests_descends :
      (node : Node)
      → (requests std fresh node).should_skip ≡ false
      → (requests std fresh node).replacement ≡ none
  unfolding requests
  requests_descends node h =
      asked_descends (is_array node) (is_call_expression node) (with_call_expression std node) h

  deobfuscate_handler-IsCalm : IsCalm (some (deobfuscate_handler std))
  unfolding run_handler deobfuscate_handler
  deobfuscate_handler-IsCalm w node h = rw (requests_descends node h) (omega arith)

  -- The deobfuscation returns on every body.
  pub deobfuscate_walk_returns :
      (body : List Value) → (out : List Value) × (deobfuscate_walk std body ≡ some out)
  unfolding deobfuscate_walk walk_enter
  deobfuscate_walk_returns body =
      let root = array (items_of body) in
      let ((s, root'), p) =
        walk_ends (some (deobfuscate_handler std)) none deobfuscate_handler-IsCalm
          (suc (depth root)) tt root (omega arith) in
      (body_of root', rw p refl)

abbrev pub names : List Pipeline → List String
names = map (λ (pipeline : Pipeline). pipeline.name)

fold_pipelines-Returns :
    (pipelines : List Pipeline) (body : List Value)
    → All Returns pipelines
    → (out : List Value) × (fold_pipelines pipelines body ≡ some out)
fold_pipelines-Returns [] body h = (body, refl)
fold_pipelines-Returns (pipeline ∷ rest) body h =
    let (body', p) = h.0 body in
    let (out, q) = fold_pipelines-Returns rest body' h.1 in (out, rw p q)

keep_first-All :
    (P : Pipeline → Type 0) (seen : List String) (pipelines : List Pipeline)
    → All P pipelines
    → All P (keep_first seen pipelines)
keep_first-All P seen [] h = tt
keep_first-All P seen (pipeline ∷ rest) h = elim (Bool-cases (contains seen pipeline.name)) [
  | inl e ↦ rw e (keep_first-All P seen rest h.1)
  | inr e ↦ rw e (h.0, keep_first-All P (seen ++ pipeline.name ∷ []) rest h.1)
]

-- A runner returns on every body, where each pipeline that it was made from does.
pub reduce-Returns :
    (pipelines : List Pipeline) (body : List Value)
    → All Returns pipelines
    → (out : List Value) × (reduce (new_runner pipelines) body ≡ some out)
unfolding reduce new_runner remove_duplicated_pipelines
reduce-Returns pipelines body h =
    fold_pipelines-Returns (keep_first [] pipelines) body (keep_first-All Returns [] pipelines h)

-- No name stands twice in the list, or is among those seen.
abbrev pub AllFirst : List String → List Pipeline → Type 0
AllFirst seen [] = Unit
AllFirst seen (pipeline ∷ rest) =
    (contains seen pipeline.name ≡ false) × AllFirst (seen ++ pipeline.name ∷ []) rest

keep_first-AllFirst :
    (seen : List String) (pipelines : List Pipeline) → AllFirst seen (keep_first seen pipelines)
keep_first-AllFirst seen [] = tt
keep_first-AllFirst seen (pipeline ∷ rest) = elim (Bool-cases (contains seen pipeline.name)) [
  | inl e ↦ rw e (keep_first-AllFirst seen rest)
  | inr e ↦ rw e (e, keep_first-AllFirst (seen ++ pipeline.name ∷ []) rest)
]

keep_first-find :
    (seen : List String) (pipelines : List Pipeline) (name : String)
    → contains seen name ≡ false
    → find (λ pipeline. pipeline.name == name) (keep_first seen pipelines)
      ≡ find (λ pipeline. pipeline.name == name) pipelines
keep_first-find seen [] name h = refl
keep_first-find seen (pipeline ∷ rest) name h =
    let later = keep_first-find (seen ++ pipeline.name ∷ []) rest name in
    elim (Bool-cases (pipeline.name == name)) [
      | inl same ↦
          let unseen : contains seen pipeline.name ≡ false =
            ap (contains seen) ((eq_iff pipeline.name name).0 same) ∙ h in
          rw (unseen, same) refl
      | inr differs ↦ elim (Bool-cases (contains seen pipeline.name)) [
        | inl e ↦ rw (e, differs) (keep_first-find seen rest name h)
        | inr e ↦
            rw (e, differs)
              (later (ground (arith, contains-last seen pipeline.name name, h, differs)))
      ]
    ]

-- A runner has one pipeline at most of each name, and of those with a name it has the first.
pub new_runner-find :
    (pipelines : List Pipeline) (name : String)
    → AllFirst [] (new_runner pipelines).pipelines
      × (find (λ pipeline. pipeline.name == name) (new_runner pipelines).pipelines
          ≡ find (λ pipeline. pipeline.name == name) pipelines)
unfolding new_runner remove_duplicated_pipelines
new_runner-find pipelines name =
    (keep_first-AllFirst [] pipelines, keep_first-find [] pipelines name refl)
