-- ===== src/Estree/Logical.antt =====
-- `extract_logical_expression` of crates/js-x-ray/src/estree/functions.rs.
use js_x_ray_rs.Prelude.{
  ℕ, zero, suc, String, false, List, [], ◌∷◌, ◌++◌, ◌≡◌, ap, ap₂, ◌<◌, unwrap_or, if◌then◌else◌,
  subst, sym, ◌∙◌, ◌↔◌, true, refl, Option, none, some, arith, Bool-cases, Option-cases, inl, inr,
}
use js_x_ray_rs.Json.{Value, Node, get, get_str}
use js_x_ray_rs.Json.Depth.{depth, get-depth}
use js_x_ray_rs.Json.Recursion.{recurse, iterate, recurse-eq, at_field, at_field-cong}
use js_x_ray_rs.Estree.{is_type}

abbrev pub Leaves : Type 0
Leaves = List (String × Value)

-- One side of a LogicalExpression.
abbrev pub side : (Node → Leaves) → String → Node → Leaves
side rec operator child =
    if is_type child "LogicalExpression" then rec child else (operator, child) ∷ []

-- The step of `extract_logical_inner`.
abbrev pub extract_logical_inner : (Node → Leaves) → Node → Leaves
extract_logical_inner rec node =
    if is_type node "LogicalExpression"
    then (let operator = unwrap_or "" (get_str "operator" node) in
        at_field "left" node [] (side rec operator) ++ at_field "right" node [] (side rec operator))
    else []

unfoldable pub extract_logical_expression : Node → Leaves
unfolding iterate
extract_logical_expression = recurse [] extract_logical_inner

extract_logical_inner-cong :
    (f g : Node → Leaves) (v : Node)
    → ((w : Node) → depth w < depth v → f w ≡ g w)
    → extract_logical_inner f v ≡ extract_logical_inner g v
extract_logical_inner-cong f g v agree =
    let operator = unwrap_or "" (get_str "operator" v) in
    let same = λ (w : Node) (below : depth w < depth v).
      ap (λ l. if is_type w "LogicalExpression" then l else (operator, w) ∷ []) (agree w below) in
    ap (λ l. if is_type v "LogicalExpression" then l else [])
      (ap₂ ◌++◌ (at_field-cong "left" v [] _ _ same) (at_field-cong "right" v [] _ _ same))

pub extract_logical_expression-eq :
    (v : Node) → extract_logical_expression v ≡ extract_logical_inner extract_logical_expression v
unfolding extract_logical_expression recurse
extract_logical_expression-eq v = recurse-eq [] extract_logical_inner extract_logical_inner-cong v

-- The leaves of a tree of LogicalExpressions, from left to right, each with the operator above it. A
-- side that is missing has none.
mutual
  pub data Flat : Node → Leaves → Type 0 where
    logical :
        {node : Node} {l r : Leaves}
        → is_type node "LogicalExpression" ≡ true
        → OfSide (unwrap_or "" (get_str "operator" node)) (get "left" node) l
        → OfSide (unwrap_or "" (get_str "operator" node)) (get "right" node) r
        → Flat node (l ++ r)

  pub data OfSide : String → Option Node → Leaves → Type 0 where
    missing : {operator : String} → OfSide operator none []
    inner :
        {operator : String} {child : Node} {l : Leaves}
        → Flat child l
        → OfSide operator (some child) l
    leaf :
        {operator : String} {child : Node}
        → is_type child "LogicalExpression" ≡ false
        → OfSide operator (some child) ((operator, child) ∷ [])

abbrev side_of : String → Option Node → Leaves
side_of operator none = []
side_of operator (some child) = side extract_logical_expression operator child

at_field-side :
    (k : String) (v : Node) (operator : String)
    → at_field k v [] (side extract_logical_expression operator) ≡ side_of operator (get k v)
unfolding at_field
at_field-side k v operator = elim (Option-cases (get k v)) [
  | inl e ↦ rw (e, at_field) refl
  | inr (w, e) ↦ rw (e, at_field) refl
]

extract_logical_expression-sides :
    (v : Node)
    → is_type v "LogicalExpression" ≡ true
    → extract_logical_expression v
      ≡ side_of (unwrap_or "" (get_str "operator" v)) (get "left" v)
        ++ side_of (unwrap_or "" (get_str "operator" v)) (get "right" v)
extract_logical_expression-sides v e =
    let operator = unwrap_or "" (get_str "operator" v) in
    extract_logical_expression-eq v
    ∙ rw e (ap₂ ◌++◌ (at_field-side "left" v operator) (at_field-side "right" v operator))

Flat-logical : (v : Node) (l : Leaves) → Flat v l → is_type v "LogicalExpression" ≡ true
Flat-logical v l (logical e p q) = e

mutual
  Flat-extract : (v : Node) (l : Leaves) → Flat v l → extract_logical_expression v ≡ l
  Flat-extract v _ (logical {l} {r} e p q) =
      extract_logical_expression-sides v e
      ∙ ap₂ ◌++◌ (OfSide-extract _ _ l p) (OfSide-extract _ _ r q)

  OfSide-extract :
      (operator : String) (o : Option Node) (l : Leaves)
      → OfSide operator o l
      → side_of operator o ≡ l
  OfSide-extract operator none _ missing = refl
  OfSide-extract operator (some child) l (inner h) =
      rw (Flat-logical child l h) (Flat-extract child l h)
  OfSide-extract operator (some child) _ (leaf e) = rw e refl

extract-Flat :
    (n : ℕ) (v : Node)
    → depth v < n
    → is_type v "LogicalExpression" ≡ true
    → Flat v (extract_logical_expression v)
extract-Flat zero v k e = absurd (omega arith)
extract-Flat (suc n) v k e =
    let operator = unwrap_or "" (get_str "operator" v) in
    let sided : (key : String) → OfSide operator (get key v) (side_of operator (get key v)) = λ key.
      elim (Option-cases (get key v)) [
        | inl f ↦ rw f missing
        | inr (w, f) ↦ rw f (elim (Bool-cases (is_type w "LogicalExpression")) [
          | inl g ↦ rw g (inner (extract-Flat n w (omega (arith, get-depth key v f)) g))
          | inr g ↦ rw g (leaf g)
        ])
      ] in
    subst (Flat v) (sym (extract_logical_expression-sides v e))
      (logical e (sided "left") (sided "right"))

-- A list is what `extract_logical_expression` gives for a LogicalExpression just where it is the leaves
-- of the tree of `&&`, `||` and `??` below it, from left to right, each with the operator above it.
pub extract_logical_expression-Flat :
    (v : Node) (l : Leaves)
    → Flat v l ↔ ((is_type v "LogicalExpression" ≡ true) × (extract_logical_expression v ≡ l))
extract_logical_expression-Flat v l = (
  λ h. (Flat-logical v l h, Flat-extract v l h),
  λ (e, f). subst (Flat v) f (extract-Flat (suc (depth v)) v (omega arith) e),
)
