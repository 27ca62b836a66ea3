-- ===== src/Prelude/Lists.antt =====
-- Lists measured by native numbers, Boolean searches, and predicates on every element.
use Prim.Native.Nat.{ℕ, zero, suc, ◌+◌}
use mathlib.Core.Path.{◌≡◌}
use mathlib.Core.Bool.{Bool, true, false, ◌||◌, ◌&&◌}
use mathlib.Core.Option.{Option, none, some}
use mathlib.Core.List.{List, [], ◌∷◌, ◌++◌}
use native.Mathlib.Omega.{arith}
use js_x_ray_rs.Prelude.Tests.{if◌then◌else◌}

module _ {ℓ} {A : Type ℓ} where
  abbrev pub length : List A → ℕ
  length [] = 0
  length (x ∷ xs) = suc (length xs)

  abbrev pub get_elem? : List A → ℕ → Option A
  get_elem? [] i = none
  get_elem? (x ∷ xs) zero = some x
  get_elem? (x ∷ xs) (suc i) = get_elem? xs i

  abbrev pub take : ℕ → List A → List A
  take zero xs = []
  take (suc n) [] = []
  take (suc n) (x ∷ xs) = x ∷ take n xs

  abbrev pub drop : ℕ → List A → List A
  drop zero xs = xs
  drop (suc n) [] = []
  drop (suc n) (x ∷ xs) = drop n xs

  -- `get_mut(i)`, and `f` on what it finds.
  abbrev pub modify_elem : ℕ → (A → A) → List A → List A
  modify_elem i f [] = []
  modify_elem zero f (x ∷ xs) = f x ∷ xs
  modify_elem (suc i) f (x ∷ xs) = x ∷ modify_elem i f xs

  pub length-append : (xs ys : List A) → length (xs ++ ys) ≡ length xs + length ys
  length-append [] ys = omega arith
  length-append (x ∷ xs) ys = omega (arith, length-append xs ys)

module _ {ℓ} {A : Type ℓ} (p : A → Bool) where
  abbrev pub any : List A → Bool
  any [] = false
  any (x ∷ xs) = p x || any xs

  abbrev pub all : List A → Bool
  all [] = true
  all (x ∷ xs) = p x && all xs

  -- Rust's `filter` and `retain`.
  abbrev pub retain : List A → List A
  retain [] = []
  retain (x ∷ xs) = let rest = retain xs in if p x then x ∷ rest else rest

  abbrev pub find : List A → Option A
  find [] = none
  find (x ∷ xs) = if p x then some x else find xs

module _ {ℓ κ} {A : Type ℓ} {B : Type κ} (f : A → List B) where
  abbrev pub flat_map : List A → List B
  flat_map [] = []
  flat_map (x ∷ xs) = f x ++ flat_map xs

-- Every element satisfies `P`: a tuple, which the tactics read and build.
abbrev pub All {ℓ κ} : {A : Type ℓ} → (A → Type κ) → List A → Type κ
All P [] = Unit
All P (x ∷ xs) = P x × All P xs

pub All-append {ℓ κ} :
    {A : Type ℓ} (P : A → Type κ) (xs ys : List A) → All P xs → All P ys → All P (xs ++ ys)
All-append P [] ys hx hy = hy
All-append P (x ∷ xs) ys hx hy = (hx.0, All-append P xs ys hx.1 hy)

pub All-map {ℓ κ} :
    {A : Type ℓ} (P Q : A → Type κ) (xs : List A) → ((x : A) → P x → Q x) → All P xs → All Q xs
All-map P Q [] f h = tt
All-map P Q (x ∷ xs) f h = (f x h.0, All-map P Q xs f h.1)
