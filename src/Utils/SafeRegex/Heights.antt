-- ===== src/Utils/SafeRegex/Heights.antt =====
-- What a safe pattern is: its star height and the number of its repetitions
-- (crates/js-x-ray/src/utils/safe_regex.rs).
use js_x_ray_rs.Prelude.{
  ℕ, zero, suc, ◌+◌, ◌≤◌, max, String, true, some, ◌≡◌, refl, arith, Option-cases, inl, inr, ◌↔◌,
  ◌⊎◌,
}
use js_x_ray_rs.Utils.SafeRegex.{
  Ast, Asts, repetition, group, concat, alternation, leaf, nil, cons, Error, Parsed, ok, err,
  Measured, walk, walk_each, is_safe_ast, patch_unsupported_construct, attempt, is_safe_regex,
  default_safe_rep_limit,
}

-- The most repetitions inside one another, and all repetitions.
mutual
  pub star_height : Ast → ℕ
  star_height (repetition ast) = suc (star_height ast)
  star_height (group ast) = star_height ast
  star_height (concat asts) = star_heights asts
  star_height (alternation asts) = star_heights asts
  star_height leaf = 0

  pub star_heights : Asts → ℕ
  star_heights nil = 0
  star_heights (cons ast asts) = max (star_height ast) (star_heights asts)

mutual
  pub repetitions : Ast → ℕ
  repetitions (repetition ast) = suc (repetitions ast)
  repetitions (group ast) = repetitions ast
  repetitions (concat asts) = all_repetitions asts
  repetitions (alternation asts) = all_repetitions asts
  repetitions leaf = 0

  pub all_repetitions : Asts → ℕ
  all_repetitions nil = 0
  all_repetitions (cons ast asts) = repetitions ast + all_repetitions asts

-- A walk at a depth counts the repetitions, and raises the maximum to the depth and the height, where
-- the maximum is the depth at least.
record Measures (before after : Measured) (depth height count : ℕ) : Type 0 where
  highest : after.max_depth ≡ max before.max_depth (depth + height)
  counted : after.repetition_count ≡ before.repetition_count + count

mutual
  unfolding walk star_height repetitions

  walk-Measures :
      (ast : Ast) (depth : ℕ) (m : Measured)
      → depth ≤ m.max_depth
      → Measures m (walk ast depth m) depth (star_height ast) (repetitions ast)
  walk-Measures (repetition ast) depth m h =
      let inner : Measured = record {
        max_depth = max m.max_depth (depth + 1);
        repetition_count = m.repetition_count + 1;
      } in
      let k = walk-Measures ast (depth + 1) inner (omega arith) in
      record { highest = omega (arith, k.highest); counted = omega (arith, k.counted) }
  walk-Measures (group ast) depth m h = walk-Measures ast depth m h
  walk-Measures (concat asts) depth m h = walk_each-Measures asts depth m h
  walk-Measures (alternation asts) depth m h = walk_each-Measures asts depth m h
  walk-Measures leaf depth m h = record { highest = omega arith; counted = omega arith }

  walk_each-Measures :
      (asts : Asts) (depth : ℕ) (m : Measured)
      → depth ≤ m.max_depth
      → Measures m (walk_each asts depth m) depth (star_heights asts) (all_repetitions asts)
  walk_each-Measures nil depth m h = record { highest = omega arith; counted = omega arith }
  walk_each-Measures (cons ast asts) depth m h =
      let k = walk-Measures ast depth m h in
      let l = walk_each-Measures asts depth (walk ast depth m) (omega (arith, k.highest)) in
      record {
        highest = omega (arith, k.highest, l.highest);
        counted = omega (arith, k.counted, l.counted);
      }

-- No repetition is inside another, and there are few of them.
pub record IsSafe (ast : Ast) : Type 0 where
  pub flat : star_height ast ≤ 1
  pub few : repetitions ast ≤ default_safe_rep_limit

abbrev unmeasured : Measured
unmeasured = record { max_depth = 0; repetition_count = 0 }

is_safe_ast-IsSafe : (ast : Ast) → (is_safe_ast ast ≡ true) ↔ IsSafe ast
unfolding is_safe_ast
is_safe_ast-IsSafe ast =
    let k = walk-Measures ast 0 unmeasured (omega arith) in
    (
      λ h. record { flat = ground (arith, k.highest, h); few = ground (arith, k.counted, h) },
      λ s. ground (arith, k.highest, k.counted, s.flat, s.few),
    )

-- The pattern, or what it becomes by at most `n` patches, parses to a safe tree.
pub data Passes (parse : String → Parsed) : ℕ → String → Type 0 where
  parses :
      {n : ℕ} {pattern_ : String} {ast : Ast}
      → parse pattern_ ≡ ok ast
      → IsSafe ast
      → Passes parse n pattern_
  patched :
      {n : ℕ} {pattern_ next : String} {e : Error}
      → parse pattern_ ≡ err e
      → patch_unsupported_construct pattern_ e ≡ some next
      → Passes parse n next
      → Passes parse (suc n) pattern_

Parsed-cases : (p : Parsed) → ((ast : Ast) × (p ≡ ok ast)) ⊎ ((e : Error) × (p ≡ err e))
Parsed-cases (ok ast) = inl (ast, refl)
Parsed-cases (err e) = inr (e, refl)

module _ (parse : String → Parsed) where
  attempt-Passes :
      (n : ℕ) (pattern_ : String) → attempt parse (suc n) pattern_ ≡ true → Passes parse n pattern_
  unfolding attempt
  attempt-Passes zero pattern_ h = elim (Parsed-cases (parse pattern_)) [
    | inl (ast, e) ↦ parses e ((is_safe_ast-IsSafe ast).0 (rw (e, attempt) at h))
    | inr (e, p) ↦ elim (Option-cases (patch_unsupported_construct pattern_ e)) [
      | inl q ↦ absurd (cc (rw (attempt, p, q) at h))
      | inr (next, q) ↦ absurd (cc (rw (attempt, p, q) at h))
    ]
  ]
  attempt-Passes (suc n) pattern_ h = elim (Parsed-cases (parse pattern_)) [
    | inl (ast, e) ↦ parses e ((is_safe_ast-IsSafe ast).0 (rw (e, attempt) at h))
    | inr (e, p) ↦ elim (Option-cases (patch_unsupported_construct pattern_ e)) [
      | inl q ↦ absurd (cc (rw (attempt, p, q) at h))
      | inr (next, q) ↦ patched p q (attempt-Passes n next (rw (attempt, p, q) at h))
    ]
  ]

  Passes-attempt :
      (n : ℕ) (pattern_ : String) → Passes parse n pattern_ → attempt parse (suc n) pattern_ ≡ true
  unfolding attempt
  Passes-attempt n pattern_ (parses {ast} e s) = rw (attempt, e) ((is_safe_ast-IsSafe ast).1 s)
  Passes-attempt n pattern_ (patched {n = m} {next} e p k) =
      rw (attempt, e, p) (Passes-attempt m next k)

  -- A pattern is safe just where, after at most 63 patches of unsupported constructs, it parses to a
  -- tree without a repetition inside a repetition and with at most 25 repetitions.
  pub is_safe_regex-Passes :
      (pattern_ : String) → (is_safe_regex parse pattern_ ≡ true) ↔ Passes parse 63 pattern_
  unfolding is_safe_regex
  is_safe_regex-Passes pattern_ = (attempt-Passes 63 pattern_, Passes-attempt 63 pattern_)
