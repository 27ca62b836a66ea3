-- ===== src/Inlined/PutBack.antt =====
-- Replacing a part of a node, and putting it back (crates/js-x-ray/src/inlined.rs:
-- `clone_and_replace`).
use js_x_ray_rs.Prelude.{
  ℕ, zero, suc, ◌<◌, true, false, Option, none, some, ◌>>=◌, map, ◌≡◌, refl, ap, ap₂, subst, ◌∙◌,
  if◌then◌else◌, arith, All, All-map,
}
use js_x_ray_rs.Json.{Node, Items, array, cons, nil, get, as_array, list_of, items_of}
use js_x_ray_rs.Json.Depth.{depth, get-depth, as_array-depth}
use js_x_ray_rs.Estree.{is_call_expression, is_member_expression}
use js_x_ray_rs.Inlined.{set, is_here, with_call, with_object, clone_with, inward}
use js_x_ray_rs.Inlined.Fields.{
  get-set, get-set_other, set-get, set-set, is_call_expression-not_member, is_call_expression-set,
  is_member_expression-set,
}

-- One step into a member expression or a call.
unfoldable pub step_into : Node → Option Node
unfolding is_member_expression is_call_expression get
step_into node =
    if is_member_expression node
    then get "object" node
    else if is_call_expression node
    then get "callee" node
    else none

-- What is some steps inside a node.
unfoldable pub part : ℕ → Node → Option Node
unfolding step_into
part zero node = some node
part (suc n) node = step_into node >>= part n

part_here : (node : Node) → part 0 node ≡ some node
unfolding part
part_here node = refl

-- Each call has a callee and a list of arguments, and each member expression an object, also inside of
-- these.
mutual
  pub data Regular : Node → Type 0 where
    call :
        {node callee : Node} {arguments : Items}
        → is_call_expression node ≡ true
        → get "callee" node ≡ some callee
        → get "arguments" node ≡ some (array arguments)
        → Regular callee
        → AllRegular arguments
        → Regular node
    member :
        {node object_ : Node}
        → is_call_expression node ≡ false
        → is_member_expression node ≡ true
        → get "object" node ≡ some object_
        → Regular object_
        → Regular node
    other :
        {node : Node}
        → is_call_expression node ≡ false
        → is_member_expression node ≡ false
        → Regular node

  pub data AllRegular : Items → Type 0 where
    no_more : AllRegular nil
    one_more :
        {node : Node} {rest : Items} → Regular node → AllRegular rest → AllRegular (cons node rest)

module _ (k : ℕ) (node inner target : Node) where
  into_call :
      is_call_expression node ≡ true
      → get "callee" node ≡ some inner
      → part (suc k) node ≡ some target
      → part k inner ≡ some target
  unfolding part step_into
  into_call c e p = rw (part, step_into, is_call_expression-not_member node c, c, e) at p

  into_member :
      is_member_expression node ≡ true
      → get "object" node ≡ some inner
      → part (suc k) node ≡ some target
      → part k inner ≡ some target
  unfolding part step_into
  into_member m e p = rw (part, step_into, m, e) at p

module _ (k : ℕ) (node inner target : Node) where
  pub part-call :
      is_call_expression node ≡ true
      → get "callee" node ≡ some inner
      → part k inner ≡ some target
      → part (suc k) node ≡ some target
  unfolding part step_into
  part-call c e p = rw (part, step_into, is_call_expression-not_member node c, c, e) p

  pub part-member :
      is_member_expression node ≡ true
      → get "object" node ≡ some inner
      → part k inner ≡ some target
      → part (suc k) node ≡ some target
  unfolding part step_into
  part-member m e p = rw (part, step_into, m, e) p

nothing_inside :
    (k : ℕ) (node target : Node)
    → is_call_expression node ≡ false
    → is_member_expression node ≡ false
    → part (suc k) node ≡ some target
    → ⊥
unfolding part step_into
nothing_inside k node target c m p = cc (rw (part, step_into, m, c) at p)

module _ (n : ℕ) (replacement : Node) (target : Option ℕ) (node : Node) where
  clone_with-call :
      {callee : Node} {arguments : Items}
      → is_here target ≡ false
      → is_call_expression node ≡ true
      → get "callee" node ≡ some callee
      → get "arguments" node ≡ some (array arguments)
      → clone_with (suc n) replacement target node
        ≡ set "arguments"
            (array (items_of (map (clone_with n replacement none) (list_of arguments))))
            (set "callee" (clone_with n replacement (inward target) callee) node)
  unfolding clone_with with_call as_array
  clone_with-call i c e f = rw (i, c, with_call, e, f) refl

  clone_with-member :
      {object_ : Node}
      → is_here target ≡ false
      → is_call_expression node ≡ false
      → is_member_expression node ≡ true
      → get "object" node ≡ some object_
      → clone_with (suc n) replacement target node
        ≡ set "object" (clone_with n replacement (inward target) object_) node
  unfolding clone_with with_object
  clone_with-member i c m e = rw (i, c, m, with_object, e) refl

  clone_with-other :
      is_here target ≡ false
      → is_call_expression node ≡ false
      → is_member_expression node ≡ false
      → clone_with (suc n) replacement target node ≡ node
  unfolding clone_with
  clone_with-other i c m = rw (i, c, m) refl

  clone_with-here : clone_with (suc n) replacement (some 0) node ≡ replacement
  unfolding clone_with
  clone_with-here = refl

  -- Of a call only the callee changes, where the arguments stay.
  clone_with-callee :
      {callee : Node} {arguments : Items}
      → is_here target ≡ false
      → is_call_expression node ≡ true
      → get "callee" node ≡ some callee
      → get "arguments" node ≡ some (array arguments)
      → items_of (map (clone_with n replacement none) (list_of arguments)) ≡ arguments
      → clone_with (suc n) replacement target node
        ≡ set "callee" (clone_with n replacement (inward target) callee) node
  clone_with-callee {callee} {arguments} i c e f same =
      let replaced = clone_with n replacement (inward target) callee in
      clone_with-call i c e f
      ∙ ap (λ xs. set "arguments" (array xs) (set "callee" replaced node)) same
      ∙ set-get "arguments" (array arguments) (set "callee" replaced node)
          (get-set_other "callee" "arguments" replaced node refl ∙ f)

-- The arguments of a call are less deep than it.
arguments-depth :
    (n : ℕ) (node : Node) (arguments : Items)
    → get "arguments" node ≡ some (array arguments)
    → depth node < suc n
    → All (λ w. depth w < n) (list_of arguments)
unfolding as_array
arguments-depth n node arguments f k =
    All-map (λ w. depth w < depth (array arguments)) (λ w. depth w < n) (list_of arguments)
      (λ w p. omega (arith, get-depth "arguments" node f)) (as_array-depth (array arguments) refl)

-- Where the node is elsewhere, nothing changes.
mutual
  clone_with-none :
      (n : ℕ) (replacement node : Node)
      → Regular node
      → depth node < n
      → clone_with n replacement none node ≡ node
  clone_with-none zero r node h k = absurd (omega arith)
  clone_with-none (suc n) r node (call {callee} {arguments} c e f h hs) k =
      clone_with-callee n r none node refl c e f
        (clone_with_each n r arguments hs (arguments-depth n node arguments f k))
      ∙ ap (λ x. set "callee" x node)
          (clone_with-none n r callee h (omega (arith, get-depth "callee" node e)))
      ∙ set-get "callee" callee node e
  clone_with-none (suc n) r node (member {object_} c m e h) k =
      clone_with-member n r none node refl c m e
      ∙ ap (λ x. set "object" x node)
          (clone_with-none n r object_ h (omega (arith, get-depth "object" node e)))
      ∙ set-get "object" object_ node e
  clone_with-none (suc n) r node (other c m) k = clone_with-other n r none node refl c m

  clone_with_each :
      (n : ℕ) (replacement : Node) (nodes : Items)
      → AllRegular nodes
      → All (λ w. depth w < n) (list_of nodes)
      → items_of (map (clone_with n replacement none) (list_of nodes)) ≡ nodes
  clone_with_each n r nil no_more k = refl
  clone_with_each n r (cons node rest) (one_more h hs) k =
      ap₂ cons (clone_with-none n r node h k.0) (clone_with_each n r rest hs k.1)

-- Putting back, with the same number of steps.
pub clone_with_back :
    (k m n : ℕ) (replacement node target : Node)
    → Regular node
    → part k node ≡ some target
    → depth node < m
    → depth (clone_with m replacement (some k) node) < n
    → clone_with n target (some k) (clone_with m replacement (some k) node) ≡ node
unfolding part
clone_with_back k zero n r node t h e a b = absurd (omega arith)
clone_with_back k (suc m) zero r node t h e a b = absurd (omega arith)
clone_with_back zero (suc m) (suc n) r node t h e a b =
    clone_with-here n t none (clone_with (suc m) r (some 0) node) ∙ cc e
clone_with_back (suc k) (suc m) (suc n) r node t (call {callee} {arguments} c e f h hs) p a b =
    let inner = clone_with m r (some k) callee in
    let cloned = set "callee" inner node in
    let first =
      clone_with-callee m r (some (suc k)) node refl c e f
        (clone_with_each m r arguments hs (arguments-depth m node arguments f a)) in
    let at : get "callee" cloned ≡ some inner = get-set "callee" inner callee node e in
    let shallow : depth cloned < suc n = subst (λ v. depth v < suc n) first b in
    let g = get-set_other "callee" "arguments" inner node refl ∙ f in
    let deeper : part k callee ≡ some t = into_call k node callee t c e p in
    ap (clone_with (suc n) t (some (suc k))) first
    ∙ clone_with-callee n t (some (suc k)) cloned refl
        (is_call_expression-set "callee" inner node refl ∙ c) at g
        (clone_with_each n t arguments hs (arguments-depth n cloned arguments g shallow))
    ∙ ap (λ x. set "callee" x cloned)
        (clone_with_back k m n r callee t h deeper (omega (arith, get-depth "callee" node e))
          (omega (arith, get-depth "callee" cloned at)))
    ∙ set-set "callee" callee inner node
    ∙ set-get "callee" callee node e
clone_with_back (suc k) (suc m) (suc n) r node t (member {object_} c o e h) p a b =
    let inner = clone_with m r (some k) object_ in
    let cloned = set "object" inner node in
    let first = clone_with-member m r (some (suc k)) node refl c o e in
    let at : get "object" cloned ≡ some inner = get-set "object" inner object_ node e in
    let shallow : depth cloned < suc n = subst (λ v. depth v < suc n) first b in
    let deeper : part k object_ ≡ some t = into_member k node object_ t o e p in
    ap (clone_with (suc n) t (some (suc k))) first
    ∙ clone_with-member n t (some (suc k)) cloned refl
        (is_call_expression-set "object" inner node refl ∙ c)
        (is_member_expression-set "object" inner node refl ∙ o) at
    ∙ ap (λ x. set "object" x cloned)
        (clone_with_back k m n r object_ t h deeper (omega (arith, get-depth "object" node e))
          (omega (arith, get-depth "object" cloned at)))
    ∙ set-set "object" object_ inner node
    ∙ set-get "object" object_ node e
clone_with_back (suc k) (suc m) (suc n) r node t (other c o) p a b =
    absurd (nothing_inside k node t c o p)

-- What was put there is there.
pub part-clone_with :
    (k m : ℕ) (replacement node target : Node)
    → Regular node
    → part k node ≡ some target
    → depth node < m
    → part k (clone_with m replacement (some k) node) ≡ some replacement
part-clone_with k zero r node t h e a = absurd (omega arith)
part-clone_with zero (suc m) r node t h e a =
    ap (part 0) (clone_with-here m r none node) ∙ part_here r
part-clone_with (suc k) (suc m) r node t (call {callee} {arguments} c e f h hs) p a =
    let inner = clone_with m r (some k) callee in
    let deeper : part k callee ≡ some t = into_call k node callee t c e p in
    ap (part (suc k)) (
      clone_with-callee m r (some (suc k)) node refl c e f
        (clone_with_each m r arguments hs (arguments-depth m node arguments f a)))
    ∙ part-call k (set "callee" inner node) inner r
        (is_call_expression-set "callee" inner node refl ∙ c) (get-set "callee" inner callee node e)
        (part-clone_with k m r callee t h deeper (omega (arith, get-depth "callee" node e)))
part-clone_with (suc k) (suc m) r node t (member {object_} c o e h) p a =
    let inner = clone_with m r (some k) object_ in
    let deeper : part k object_ ≡ some t = into_member k node object_ t o e p in
    ap (part (suc k)) (clone_with-member m r (some (suc k)) node refl c o e)
    ∙ part-member k (set "object" inner node) inner r
        (is_member_expression-set "object" inner node refl ∙ o)
        (get-set "object" inner object_ node e)
        (part-clone_with k m r object_ t h deeper (omega (arith, get-depth "object" node e)))
part-clone_with (suc k) (suc m) r node t (other c o) p a = absurd (nothing_inside k node t c o p)
