-- ===== src/Utils/Patterns.antt =====
-- The common prefixes of texts: crates/js-x-ray/src/utils/patterns.rs.
pub mod Totals
pub mod Spread
pub mod Counted
use Prim.Native.Char.{code}
use Prim.Native.String.{compare}
use text.Mathlib.Text.{is_le}
use js_x_ray_rs.Prelude.{
  ℕ, zero, suc, ◌+◌, String, Bool, true, false, ◌||◌, ◌&&◌, Option, none, some, ◌>>=◌, List, [],
  ◌∷◌, ◌++◌, ◌==◌, if◌then◌else◌, eqb, ◌≡◌, refl, option_map,
}
use js_x_ray_rs.Json.{Value}
use js_x_ray_rs.Std.{Std}
use js_x_ray_rs.Estree.Literal.{to_value}
use js_x_ray_rs.Prelude.Order.{sort}
use js_x_ray_rs.Prelude.IndexMap.{IndexMap, get, insert, keys, shift_remove}

-- `zip`, `take_while` and `map`: the characters that both texts begin with.
unfoldable pub common_head : String → String → String
common_head String.[] right = String.[]
common_head (String.◌∷◌ c left) String.[] = String.[]
common_head (String.◌∷◌ c left) (String.◌∷◌ d right) =
    if eqb (code c) (code d) then String.◌∷◌ c (common_head left right) else String.[]

abbrev pub is_empty : String → Bool
is_empty String.[] = true
is_empty (String.◌∷◌ c s) = false

-- `common_string_prefix_str_str`
unfoldable pub common_string_prefix_str : String → String → Option String
unfolding common_head
common_string_prefix_str left right =
    if is_empty (common_head left right) then none else some (common_head left right)

-- `common_string_prefix`
unfoldable pub common_string_prefix : Std → Value → Value → Option String
unfolding common_string_prefix_str to_value
common_string_prefix std left_any right_any =
    common_string_prefix_str (to_value std left_any) (to_value std right_any)

abbrev reverse_onto : String → String → String
reverse_onto String.[] onto = onto
reverse_onto (String.◌∷◌ c s) onto = reverse_onto s (String.◌∷◌ c onto)

unfoldable pub reverse_string : String → String
reverse_string s = reverse_onto s String.[]

unfoldable pub common_string_suffix : String → String → Option String
unfolding common_string_prefix_str reverse_string
common_string_suffix left right =
    option_map reverse_string
      (common_string_prefix_str (reverse_string left) (reverse_string right))

-- `starts_with`
unfoldable pub starts_with : String → String → Bool
starts_with s String.[] = true
starts_with String.[] (String.◌∷◌ d t) = false
starts_with (String.◌∷◌ c s) (String.◌∷◌ d t) = eqb (code c) (code d) && starts_with s t

-- The body of the loop over the keys, where the key has the common prefix.
abbrev pub merge_prefix : String → String → ℕ → IndexMap ℕ → IndexMap ℕ
merge_prefix cp common_str count prefix =
    if common_str == cp || starts_with common_str cp
    then insert cp (count + 1) prefix
    else if starts_with cp common_str
    then insert common_str (count + 1) (shift_remove cp prefix)
    else prefix

-- The loop over the keys for one identifier; `none` is the panic of `prefix[&cp]`.
unfoldable pub place : String → IndexMap ℕ → List String → Option (IndexMap ℕ)
unfolding common_string_prefix_str get insert shift_remove starts_with
place value prefix [] = some (insert value 1 prefix)
place value prefix (cp ∷ rest) = do
  count ← get cp prefix
  elim (common_string_prefix_str value cp) [
    | none ↦ place value prefix rest
    | some common_str ↦ some (merge_prefix cp common_str count prefix)
  ]

-- The loop over the sorted identifiers.
unfoldable pub place_all : List String → IndexMap ℕ → Option (IndexMap ℕ)
unfolding place keys
place_all [] prefix = some prefix
place_all (value ∷ rest) prefix = do
  prefix' ← place value prefix (keys prefix)
  place_all rest prefix'

-- `retain`: a prefix that occurs once is counted and removed.
unfoldable pub occurring_once : IndexMap ℕ → ℕ
occurring_once [] = 0
occurring_once ((k, n) ∷ m) = (if eqb n 1 then 1 else 0) + occurring_once m

unfoldable pub occurring_often : IndexMap ℕ → IndexMap ℕ
occurring_often [] = []
occurring_often ((k, n) ∷ m) =
    let rest = occurring_often m in if eqb n 1 then rest else (k, n) ∷ rest

-- `collect()` into a `BTreeMap`, which is in the order of its keys.
abbrev pub insert_entry : String → ℕ → IndexMap ℕ → IndexMap ℕ
insert_entry k n [] = (k, n) ∷ []
insert_entry k n ((j, v) ∷ m) =
    if k == j
    then (k, n) ∷ m
    else if is_le (compare k j)
    then (k, n) ∷ (j, v) ∷ m
    else (j, v) ∷ insert_entry k n m

unfoldable pub to_btree : IndexMap ℕ → IndexMap ℕ
to_btree [] = []
to_btree ((k, n) ∷ m) = insert_entry k n (to_btree m)

pub record CommonHexadecimalPrefixResult : Type 0 where
  pub one_time_occurence : ℕ
  pub prefix : IndexMap ℕ

unfoldable pub common_hexadecimal_prefix : List String → Option CommonHexadecimalPrefixResult
unfolding place_all occurring_once occurring_often to_btree
common_hexadecimal_prefix identifiers = do
  prefix ← place_all (sort identifiers) []
  some (record {
    one_time_occurence = occurring_once prefix;
    prefix = to_btree (occurring_often prefix);
  })

prefix_runs :
    common_hexadecimal_prefix ("_0xb" ∷ "_0xa" ∷ "foo" ∷ [])
    ≡ some (record { one_time_occurence = 1; prefix = ("_0x", 2) ∷ [] })
unfolding common_hexadecimal_prefix
prefix_runs = refl

suffix_runs : common_string_suffix "boo" "foo" ≡ some "oo"
unfolding common_string_suffix
suffix_runs = refl
