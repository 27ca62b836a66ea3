-- ===== src/DiGraph/Search.antt =====
-- The depth-first search returns, and what it finds is reachable within the depth
-- (crates/js-x-ray/src/entry_files_analyser.rs: `find_deep_dependencies`, `get_deep_children`).
use js_x_ray_rs.Prelude.{
  ℕ, zero, suc, ◌+◌, ◌-◌, ◌≤◌, ◌<◌, max, String, true, false, ◌||◌, Option, none, some, List, [],
  ◌∷◌, ◌++◌, ◌==◌, ◌≡◌, refl, if◌then◌else◌, arith, eq_iff, Bool-cases, Option-cases, inl, inr,
  eq_refl, subst, length, All, All-append, option_map,
}
use js_x_ray_rs.Prelude.IndexMap.{contains-last, IndexMap, contains, contains_key, get}
use js_x_ray_rs.DiGraph.{
  DiGraph, Vertex, Found, nothing_found, mark, has_vertex, visit_each, find_deep_dependencies,
  adjacent, is_zero, enough, get_deep_children, children_of,
}

-- How many vertices have not been visited.
abbrev unseen : List String → IndexMap Vertex → ℕ
unseen visited [] = 0
unseen visited ((id, vertex) ∷ m) =
    if contains visited id then unseen visited m else suc (unseen visited m)

unseen-le-length : (visited : List String) (m : IndexMap Vertex) → unseen visited m ≤ length m
unseen-le-length visited [] = omega arith
unseen-le-length visited ((id, vertex) ∷ m) = ground (arith, unseen-le-length visited m)

unseen-last-le :
    (visited : List String) (t : String) (m : IndexMap Vertex)
    → unseen (visited ++ t ∷ []) m ≤ unseen visited m
unseen-last-le visited t [] = omega arith
unseen-last-le visited t ((id, vertex) ∷ m) =
    ground (arith, unseen-last-le visited t m, contains-last visited t id)

unseen-last :
    (visited : List String) (t : String) (m : IndexMap Vertex)
    → contains_key t m ≡ true
    → contains visited t ≡ false
    → unseen (visited ++ t ∷ []) m < unseen visited m
unfolding get
unseen-last visited t [] h c = cc
unseen-last visited t ((id, vertex) ∷ m) h c = ground (
  arith,
  unseen-last visited t m,
  unseen-last-le visited t m,
  contains-last visited t id,
  eq_iff id t,
  eq_iff t id,
)

module _ (g : DiGraph) where
  abbrev left : Found → ℕ
  left found = unseen found.visited g.vertices

  abbrev Ends : Found → Option Found → Type 0
  Ends before result = (after : Found) × (result ≡ some after) × (left after ≤ left before)

  visit_each-Ends :
      (visit : String → Found → Option Found) (n : ℕ) (l : List String) (found : Found)
      → ((id : String) (f : Found) → has_vertex g id ≡ true → left f < n → Ends f (visit id f))
      → left found < n
      → Ends found (visit_each g visit l found)
  unfolding visit_each
  visit_each-Ends visit n [] found ends h = (found, refl, omega arith)
  visit_each-Ends visit n (id ∷ rest) found ends h = elim (Bool-cases (has_vertex g id)) [
    | inl e ↦
        let (found', p, le) = ends id found e h in
        let (after, q, le') = visit_each-Ends visit n rest found' ends (omega arith) in
        (after, rw (e, p) q, omega arith)
    | inr e ↦ rw e (visit_each-Ends visit n rest found ends h)
  ]

  find_deep_dependencies-Ends :
      (fuel : ℕ) (root_id : String) (depth : Option ℕ) (id : String) (found : Found)
      → has_vertex g id ≡ true
      → left found < fuel
      → Ends found (find_deep_dependencies g fuel root_id depth id found)
  unfolding find_deep_dependencies
  find_deep_dependencies-Ends zero root_id depth id found has h = absurd (omega arith)
  find_deep_dependencies-Ends (suc fuel) root_id depth id found has h =
      elim (Bool-cases (contains found.visited id)) [
        | inl old ↦ (found, rw old refl, omega arith)
        | inr new ↦
            let fewer = unseen-last found.visited id g.vertices has new in
            elim (Bool-cases (root_id == id || is_zero g depth)) [
              | inl stop ↦ (mark id found, rw (new, stop) refl, omega arith)
              | inr go ↦
                  let (after, p, le) =
                    visit_each-Ends
                      (find_deep_dependencies g fuel root_id (option_map (λ d. d - 1) depth)) fuel
                      (adjacent g id) (mark id found)
                      (find_deep_dependencies-Ends fuel root_id (option_map (λ d. d - 1) depth))
                      (omega arith) in
                  (after, rw (new, go) p, omega arith)
            ]
      ]

  -- A walk along the edges, with its length.
  pub data Walk (from : String) : ℕ → String → Type 0 where
    here : Walk from zero from
    step :
        {n : ℕ} {b c : String}
        → Walk from n b
        → contains (adjacent g b) c ≡ true
        → Walk from (suc n) c

  abbrev Fits : Option ℕ → ℕ → Type 0
  Fits none n = Unit
  Fits (some limit) n = n ≤ limit

  -- The vertex is at the end of a walk no longer than the limit, if there is one.
  pub record IsWithin (from : String) (limit : Option ℕ) (id : String) : Type 0 where
    pub distance : ℕ
    pub walk : Walk from distance id
    pub fits : Fits limit distance

  -- After a walk of `n` edges the rest of the depth still fits.
  abbrev Room : Option ℕ → Option ℕ → ℕ → Type 0
  Room none none n = Unit
  Room (some limit) (some depth) n = n + depth ≤ limit
  Room _ _ n = ⊥

  Room-Fits : (limit depth : Option ℕ) (n : ℕ) → Room limit depth n → Fits limit n
  Room-Fits none depth n h = tt
  Room-Fits (some limit) (some depth) n h = omega arith
  Room-Fits (some limit) none n h = absurd h

  Room-step :
      (limit depth : Option ℕ) (n : ℕ)
      → Room limit depth n
      → is_zero g depth ≡ false
      → Room limit (option_map (λ d. d - 1) depth) (suc n)
  Room-step none none n h z = tt
  Room-step (some limit) (some depth) n h z = ground arith
  Room-step none (some depth) n h z = h
  Room-step (some limit) none n h z = h

  module _ (from : String) (limit : Option ℕ) where
    abbrev AllWithin : Found → Type 0
    AllWithin found = All (IsWithin from limit) found.out

    visit_each_within :
        (visit : String → Found → Option Found) (l : List String) (found after : Found)
        → ((id : String) (f a : Found)
            → contains l id ≡ true
            → AllWithin f
            → visit id f ≡ some a
            → AllWithin a)
        → AllWithin found
        → visit_each g visit l found ≡ some after
        → AllWithin after
    unfolding visit_each
    visit_each_within visit [] found after sound h e =
        let same : found ≡ after = ground arith in subst AllWithin same h
    visit_each_within visit (id ∷ rest) found after sound h e =
        let later = λ (j : String) (f a : Found) (c : contains rest j ≡ true).
          sound j f a (let o : contains (id ∷ rest) j ≡ true = ground arith in o) in
        elim (Bool-cases (has_vertex g id)) [
          | inl has ↦ elim (Option-cases (visit id found)) [
            | inl stuck ↦ absurd (ground arith)
            | inr (found', p) ↦
                let rest_e : visit_each g visit rest found' ≡ some after = ground arith in
                visit_each_within visit rest found' after later
                  (sound id found found' (ground (arith, eq_refl id)) h p) rest_e
          ]
          | inr no_vertex ↦
              let rest_e : visit_each g visit rest found ≡ some after = ground arith in
              visit_each_within visit rest found after later h rest_e
        ]

    find_deep_dependencies_within :
        (fuel : ℕ) (root_id : String) (depth : Option ℕ) (id : String) (n : ℕ) (found after : Found)
        → Walk from n id
        → Room limit depth n
        → AllWithin found
        → find_deep_dependencies g fuel root_id depth id found ≡ some after
        → AllWithin after
    unfolding find_deep_dependencies
    find_deep_dependencies_within zero root_id depth id n found after w r h e = cc
    find_deep_dependencies_within (suc fuel) root_id depth id n found after w r h e =
        let marked : AllWithin (mark id found) =
          All-append (IsWithin from limit) found.out (id ∷ []) h
            (record { distance = n; walk = w; fits = Room-Fits limit depth n r }, tt) in
        elim (Bool-cases (contains found.visited id)) [
          | inl old ↦ let same : found ≡ after = ground arith in subst AllWithin same h
          | inr new ↦ elim (Bool-cases (root_id == id || is_zero g depth)) [
            | inl stop ↦
                let same : mark id found ≡ after = ground arith in subst AllWithin same marked
            | inr go ↦
                let visit = find_deep_dependencies g fuel root_id (option_map (λ d. d - 1) depth) in
                let deeper : visit_each g visit (adjacent g id) (mark id found) ≡ some after =
                  ground arith in
                let zero_depth : is_zero g depth ≡ false = ground arith in
                visit_each_within visit (adjacent g id) (mark id found) after
                  (λ j f a c hf p.
                    find_deep_dependencies_within fuel root_id (option_map (λ d. d - 1) depth) j
                      (suc n) f a (step w c) (Room-step limit depth n r zero_depth) hf p)
                  marked deeper
          ]
        ]

  left-nothing : left nothing_found < enough g
  left-nothing = omega (arith, unseen-le-length [] g.vertices)

  Room-start : (depth : Option ℕ) → Room depth depth zero
  Room-start none = tt
  Room-start (some d) = omega arith

  -- From a vertex of the graph the search returns, and each identifier that it finds is at the end of
  -- a walk from there, no longer than the depth.
  pub find_deep_dependencies_returns :
      (root_id : String) (depth : Option ℕ) (id : String)
      → has_vertex g id ≡ true
      → (found : Found) × (find_deep_dependencies g (enough g) root_id depth id nothing_found
          ≡ some found)
        × All (IsWithin id depth) found.out
  find_deep_dependencies_returns root_id depth id has =
      let (found, p, _) =
        find_deep_dependencies-Ends (enough g) root_id depth id nothing_found has left-nothing in
      (
        found,
        p,
        find_deep_dependencies_within id depth (enough g) root_id depth id zero nothing_found found
            here (Room-start depth) tt p,
      )

  deep_children :
      (root_id : String) (depth_limit : ℕ) (root : Vertex)
      → get root_id g.vertices ≡ some root
      → (out : List String) × (children_of g root_id depth_limit root ≡ some out)
        × All (IsWithin root_id (some (max 1 depth_limit))) out
  deep_children root_id depth_limit root e =
      let visit = find_deep_dependencies g (enough g) root_id (some (depth_limit - 1)) in
      let (found, p, _) =
        visit_each-Ends visit (enough g) root.adjacent_to nothing_found
          (find_deep_dependencies-Ends (enough g) root_id (some (depth_limit - 1))) left-nothing in
      let edges : adjacent g root_id ≡ root.adjacent_to = rw (e, adjacent) refl in
      (
        found.out,
        rw (p, children_of) refl,
        visit_each_within root_id (some (max 1 depth_limit)) visit root.adjacent_to nothing_found
            found
            (λ j f a c hf q.
              find_deep_dependencies_within root_id (some (max 1 depth_limit)) (enough g) root_id
                (some (depth_limit - 1)) j 1 f a (step here (rw edges c)) (omega arith) hf q)
            tt p,
      )

  -- `get_deep_children` returns, and each identifier that it gives is at the end of a walk from the
  -- root of at most `depth_limit` edges, or of one edge where the limit is 0.
  pub get_deep_children-IsWithin :
      (root_id : String) (depth_limit : ℕ)
      → (out : List String) × (get_deep_children g root_id depth_limit ≡ some out)
        × All (IsWithin root_id (some (max 1 depth_limit))) out
  unfolding get_deep_children
  get_deep_children-IsWithin root_id depth_limit = elim (Option-cases (get root_id g.vertices)) [
    | inl e ↦ ([], rw (e, get_deep_children) refl, tt)
    | inr (root, e) ↦
        let (out, p, h) = deep_children root_id depth_limit root e in
        (out, rw (e, get_deep_children) p, h)
  ]
