-- ===== src/Json.antt =====
-- `serde_json::Value` with `preserve_order`: the trees that the analysis walks
-- (crates/js-x-ray/src/estree/mod.rs: `Node` is `Value`). The fields of an object stand in the order
-- of their insertion.
pub mod Depth
pub mod Recursion
use js_x_ray_rs.Prelude.{
  ℕ, zero, suc, String, Bool, true, false, Option, none, some, List, [], ◌∷◌, ◌==◌, ◌>>=◌, ◌≡◌,
  refl, ap, if◌then◌else◌, max, get_elem?, map,
}

-- A number is an `i64`, a `u64` or an `f64`, the last by its bits.
pub data Number : Type 0 where
  unsigned : ℕ → Number
  -- `negative n` is -(n + 1).
  negative : ℕ → Number
  float : ℕ → Number

mutual
  pub data Value : Type 0 where
    null : Value
    bool : Bool → Value
    number : Number → Value
    string : String → Value
    array : Items → Value
    object : Fields → Value

  pub data Items : Type 0 where
    nil : Items
    cons : Value → Items → Items

  pub data Fields : Type 0 where
    end : Fields
    field : String → Value → Fields → Fields

-- `Node` of estree/mod.rs.
abbrev pub Node : Type 0
Node = Value

abbrev pub list_of : Items → List Value
list_of nil = []
list_of (cons v xs) = v ∷ list_of xs

abbrev pub items_of : List Value → Items
items_of [] = nil
items_of (v ∷ vs) = cons v (items_of vs)

pub list_of-items_of : (vs : List Value) → list_of (items_of vs) ≡ vs
list_of-items_of [] = refl
list_of-items_of (v ∷ vs) = ap (λ l. v ∷ l) (list_of-items_of vs)

pub items_of-list_of : (xs : Items) → items_of (list_of xs) ≡ xs
items_of-list_of nil = refl
items_of-list_of (cons v xs) = ap (cons v) (items_of-list_of xs)

abbrev pub field_of : String → Fields → Option Value
field_of k end = none
field_of k (field j v fs) = if j == k then some v else field_of k fs

-- `value.get(key)`, for a key that is a text.
unfoldable pub get : String → Value → Option Value
get k (object fs) = field_of k fs
get k _ = none

-- `Map::insert`: an old key keeps its place.
abbrev pub set_field : String → Value → Fields → Fields
set_field k v end = field k v end
set_field k v (field j w fs) = if j == k then field j v fs else field j w (set_field k v fs)

-- `value.get(index)`, for an index into an array.
unfoldable pub get_index : ℕ → Value → Option Value
get_index i (array xs) = get_elem? (list_of xs) i
get_index i _ = none

unfoldable pub as_str : Value → Option String
as_str (string s) = some s
as_str _ = none

unfoldable pub as_bool : Value → Option Bool
as_bool (bool b) = some b
as_bool _ = none

unfoldable pub as_array : Value → Option (List Value)
as_array (array xs) = some (list_of xs)
as_array _ = none

unfoldable pub is_null : Value → Bool
is_null null = true
is_null _ = false

unfoldable pub is_array : Value → Bool
is_array (array xs) = true
is_array _ = false

unfoldable pub is_string : Value → Bool
is_string (string s) = true
is_string _ = false

unfoldable pub is_number : Value → Bool
is_number (number n) = true
is_number _ = false

-- `node.get(key).and_then(Value::as_str)`.
unfoldable pub get_str : String → Value → Option String
unfolding get as_str
get_str k v = get k v >>= as_str

unfoldable pub get_array : String → Value → Option (List Value)
unfolding get as_array
get_array k v = get k v >>= as_array
