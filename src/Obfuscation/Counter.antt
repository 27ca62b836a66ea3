-- ===== src/Obfuscation/Counter.antt =====
-- The node counters: crates/js-x-ray/src/node_counter.rs.
use Prim.Native.Char.{code}
use js_x_ray_rs.Prelude.{
  ℕ, ◌+◌, ◌%◌, ◌^◌, String, Bool, true, false, not, ◌&&◌, ◌||◌, Option, none, some, ◌>>=◌, [], ◌==◌,
  if◌then◌else◌, leb, all, codes, strip_prefix, strip_suffix, unwrap_or, ◌≡◌, refl,
}
use js_x_ray_rs.Prelude.IndexMap.{IndexMap, modify_or}
use js_x_ray_rs.Json.{Node, get}
use js_x_ray_rs.Std.{Std}
use js_x_ray_rs.Estree.{is_node, is_type}
use js_x_ray_rs.Estree.Literal.{js_string}

-- `NodeCounterOptions`
pub record NodeCounterOptions : Type 0 where
  pub name : Option String
  pub filter : Option (Node → Bool)

-- `NodeCounter`: `kind` is its `type`; the counts are `u32`.
pub record NodeCounter : Type 0 where
  pub kind : String
  pub name : String
  pub lookup : Option String
  pub count : ℕ
  pub properties : IndexMap ℕ
  pub filter_fn : Node → Bool

abbrev is_ascii_alphabetic : ℕ → Bool
is_ascii_alphabetic c = leb 65 c && leb c 90 || leb 97 c && leb c 122

-- `split_at(alpha_end)`: the letters that the text begins with, and the rest.
unfoldable pub alphabetic_head : String → String
alphabetic_head String.[] = String.[]
alphabetic_head (String.◌∷◌ c s) =
    if is_ascii_alphabetic (code c) then String.◌∷◌ c (alphabetic_head s) else String.[]

unfoldable pub alphabetic_rest : String → String
alphabetic_rest String.[] = String.[]
alphabetic_rest (String.◌∷◌ c s) =
    if is_ascii_alphabetic (code c) then alphabetic_rest s else String.◌∷◌ c s

-- The text between the brackets of `VariableDeclaration[kind]`.
unfoldable pub bracketed : String → Option String
unfolding strip_prefix strip_suffix
bracketed rest = do
  opened ← strip_prefix rest "["
  lookup ← strip_suffix opened "]"
  if not (lookup == "") && all is_ascii_alphabetic (codes lookup) then some lookup else none

-- `NodeCounter::with_options`; `none` is the panic on a type without letters.
unfoldable pub with_options : String → NodeCounterOptions → Option NodeCounter
unfolding alphabetic_head alphabetic_rest bracketed
with_options type_expr options =
    let kind = alphabetic_head type_expr in
    if kind == ""
    then none
    else some (record {
      kind = kind;
      name = unwrap_or kind options.name;
      lookup = bracketed (alphabetic_rest type_expr);
      count = 0;
      properties = [];
      filter_fn = unwrap_or (λ _. true) options.filter;
    })

-- `NodeCounter::new`
unfoldable pub new_counter : String → Option NodeCounter
unfolding with_options
new_counter type_expr = with_options type_expr (record { name = none; filter = none })

-- `+= 1` on a `u32`, which wraps around.
abbrev pub increment : ℕ → ℕ
increment n = (n + 1) % 2 ^ 32

-- The node is of the counter's type and passes its filter.
unfoldable pub counts : NodeCounter → Node → Bool
unfolding is_node is_type
counts counter node = is_node node && is_type node counter.kind && counter.filter_fn node

abbrev pub counted : NodeCounter → NodeCounter
counted counter = record counter { count = increment counter.count }

abbrev pub count_property : Std → NodeCounter → Node → String → NodeCounter × Bool
count_property std counter node lookup = elim (get lookup node) [
  | none ↦ (counted counter, false)
  | some key_value ↦ (
    record (counted counter) {
      properties = modify_or (js_string std key_value) 0 increment counter.properties;
    },
    true,
  )
]

abbrev pub count_node : Std → NodeCounter → Node → Option String → NodeCounter × Bool
count_node std counter node none = (counted counter, true)
count_node std counter node (some lookup) = count_property std counter node lookup

-- `NodeCounter::walk`: the counter after the node, and whether the node matches.
unfoldable pub walk_counter : Std → NodeCounter → Node → NodeCounter × Bool
unfolding counts
walk_counter std counter node =
    if counts counter node then count_node std counter node counter.lookup else (counter, false)

bracketed_runs :
    (alphabetic_head "MemberExpression[computed]" ≡ "MemberExpression")
    × (bracketed "[computed]" ≡ some "computed")
unfolding alphabetic_head bracketed
bracketed_runs = (refl, refl)
