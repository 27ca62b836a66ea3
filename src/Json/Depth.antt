-- ===== src/Json/Depth.antt =====
-- The depth of a tree, by which the recursions over trees end: a field, an element and what is
-- reached through them is less deep.
use js_x_ray_rs.Prelude.{
  ℕ, suc, ◌≤◌, ◌<◌, max, String, some, List, ◌≡◌, arith, All, All-map, Option-cases, inl, inr,
}
use js_x_ray_rs.Json.{
  Value, Items, Fields, null, bool, number, string, array, object, nil, cons, end, field, list_of,
  field_of, get, as_array, get_array,
}

unfoldable mutual
  pub depth : Value → ℕ
  depth null = 0
  depth (bool b) = 0
  depth (number n) = 0
  depth (string s) = 0
  depth (array xs) = suc (depth_items xs)
  depth (object fs) = suc (depth_fields fs)

  pub depth_items : Items → ℕ
  depth_items nil = 0
  depth_items (cons v xs) = max (depth v) (depth_items xs)

  pub depth_fields : Fields → ℕ
  depth_fields end = 0
  depth_fields (field k v fs) = max (depth v) (depth_fields fs)

field_of-depth :
    (k : String) (fs : Fields) (v : Value) → field_of k fs ≡ some v → depth v ≤ depth_fields fs
unfolding depth
field_of-depth k end v h = ground arith
field_of-depth k (field j w fs) v h = ground (arith, field_of-depth k fs v)

pub get-depth : (k : String) (v : Value) {w : Value} → get k v ≡ some w → depth w < depth v
unfolding get depth
get-depth k (object fs) {w} h = omega (arith, field_of-depth k fs w h)
get-depth k null h = ground arith
get-depth k (bool _) h = ground arith
get-depth k (number _) h = ground arith
get-depth k (string _) h = ground arith
get-depth k (array _) h = ground arith

pub items-depth : (xs : Items) → All (λ w. depth w ≤ depth_items xs) (list_of xs)
unfolding depth
items-depth nil = tt
items-depth (cons v xs) = (
  omega arith,
  All-map (λ w. depth w ≤ depth_items xs) (λ w. depth w ≤ max (depth v) (depth_items xs))
      (list_of xs) (λ w h. omega arith) (items-depth xs),
)

pub as_array-depth :
    (v : Value) {l : List Value} → as_array v ≡ some l → All (λ w. depth w < depth v) l
unfolding as_array depth
as_array-depth (array xs) {l} h =
    let e : list_of xs ≡ l = ground arith in
    rw (← e) (
      All-map (λ w. depth w ≤ depth_items xs) (λ w. depth w < suc (depth_items xs)) (list_of xs)
        (λ w p. omega arith) (items-depth xs))
as_array-depth null h = cc
as_array-depth (bool _) h = cc
as_array-depth (number _) h = cc
as_array-depth (string _) h = cc
as_array-depth (object _) h = cc

pub get_array-depth :
    (k : String) (v : Value) {l : List Value}
    → get_array k v ≡ some l
    → All (λ w. depth w < depth v) l
unfolding get_array
get_array-depth k v {l} h = elim (Option-cases (get k v)) [
  | inl e ↦ absurd (ground arith)
  | inr (w, e) ↦
      All-map (λ x. depth x < depth w) (λ x. depth x < depth v) l
        (λ x p. omega (arith, get-depth k v e)) (as_array-depth w (ground arith))
]
