-- ===== src/Json/Recursion.antt =====
-- Recursion over trees: a step that consults its recursive calls only on less deep trees has a
-- solution of its equation. The functions of the program recurse on `node.get(..)` and on elements of
-- arrays; each is such a step.
use js_x_ray_rs.Prelude.{
  ℕ, zero, suc, ◌<◌, ◌≡◌, refl, ap₂, arith, String, none, some, List, [], ◌∷◌, ◌++◌, flat_map, All,
  Option-cases, inl, inr,
}
use js_x_ray_rs.Json.{Value, get, get_array}
use js_x_ray_rs.Json.Depth.{depth, get-depth, get_array-depth}

module _ {ℓ} {R : Type ℓ} (bottom : R) (step : (Value → R) → Value → R) where
  -- `fuel` bounds how deep the calls nest; `bottom` is what a call that is out of fuel gives.
  unfoldable pub iterate : ℕ → Value → R
  iterate zero v = bottom
  iterate (suc fuel) v = step (iterate fuel) v

  unfoldable pub recurse : Value → R
  unfolding iterate
  recurse v = iterate (suc (depth v)) v

-- The step gives the same for calls that agree on less deep trees.
abbrev pub IsLocal {ℓ} : {R : Type ℓ} → ((Value → R) → Value → R) → Type ℓ
IsLocal {R} step =
    (f g : Value → R) (v : Value)
    → ((w : Value) → depth w < depth v → f w ≡ g w)
    → step f v ≡ step g v

module _ {ℓ} {R : Type ℓ} (bottom : R) (step : (Value → R) → Value → R) (local : IsLocal step) where
  -- Any two amounts of fuel above the depth give the same.
  pub iterate_stable :
      (m n : ℕ) (v : Value)
      → depth v < m
      → depth v < n
      → iterate bottom step m v ≡ iterate bottom step n v
  unfolding iterate
  iterate_stable zero n v h k = absurd (omega arith)
  iterate_stable (suc m) zero v h k = absurd (omega arith)
  iterate_stable (suc m) (suc n) v h k =
      local (iterate bottom step m) (iterate bottom step n) v
        (λ w l. iterate_stable m n w (omega arith) (omega arith))

  -- The fuel that `recurse` gives is enough: it satisfies the step's equation.
  pub recurse-eq : (v : Value) → recurse bottom step v ≡ step (recurse bottom step) v
  unfolding recurse
  recurse-eq v =
      local (iterate bottom step (depth v)) (recurse bottom step) v
        (λ w l. iterate_stable (depth v) (suc (depth w)) w (omega arith) (omega arith))

-- `let Some(w) = node.get(key) else {return d }; φ(w)`.
unfoldable pub at_field {ℓ} : {R : Type ℓ} → String → Value → R → (Value → R) → R
at_field k v d φ = elim (get k v) [ none ↦ d | some w ↦ φ w ]

-- The same for `node.get(key).and_then(Value::as_array)`.
unfoldable pub at_array {ℓ} : {R : Type ℓ} → String → Value → R → (List Value → R) → R
at_array k v d φ = elim (get_array k v) [ none ↦ d | some l ↦ φ l ]

pub at_field-cong {ℓ} :
    {R : Type ℓ} (k : String) (v : Value) (d : R) (φ ψ : Value → R)
    → ((w : Value) → depth w < depth v → φ w ≡ ψ w)
    → at_field k v d φ ≡ at_field k v d ψ
unfolding at_field
at_field-cong k v d φ ψ h = elim (Option-cases (get k v)) [
  | inl e ↦ rw (e, at_field)
  | inr (w, e) ↦ rw (e, at_field) (h w (get-depth k v e))
]

pub at_array-cong {ℓ} :
    {R : Type ℓ} (k : String) (v : Value) (d : R) (φ ψ : List Value → R)
    → ((l : List Value) → All (λ w. depth w < depth v) l → φ l ≡ ψ l)
    → at_array k v d φ ≡ at_array k v d ψ
unfolding at_array
at_array-cong k v d φ ψ h = elim (Option-cases (get_array k v)) [
  | inl e ↦ rw (e, at_array)
  | inr (l, e) ↦ rw (e, at_array) (h l (get_array-depth k v e))
]

pub flat_map-cong {ℓ} :
    {B : Type ℓ} (f g : Value → List B) (n : ℕ) (l : List Value)
    → All (λ w. depth w < n) l
    → ((w : Value) → depth w < n → f w ≡ g w)
    → flat_map f l ≡ flat_map g l
flat_map-cong f g n [] h e = refl
flat_map-cong f g n (w ∷ l) h e = ap₂ ◌++◌ (e w h.0) (flat_map-cong f g n l h.1 e)
