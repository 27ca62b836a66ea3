-- ===== src/EntryFiles.antt =====
-- The paths of the entry files: `normalize_path` and `relative_path` of
-- crates/js-x-ray/src/entry_files_analyser.rs, on the components that `Path::components` gives.
pub mod RoundTrip
pub mod Traversal
use js_x_ray_rs.Prelude.{
  ℕ, zero, suc, ◌-◌, String, Bool, true, false, ◌&&◌, List, [], ◌∷◌, ◌++◌, ◌==◌, map, length, drop,
  if◌then◌else◌, join, ◌≡◌, refl,
}

-- `Component`: `/`, `.`, `..` and a name.
pub data Component : Type 0 where
  root_dir cur_dir parent_dir : Component
  normal : String → Component

-- A path is the list of its components.
abbrev pub FilePath : Type 0
FilePath = List Component

-- `normalize_path`: a component on those so far, the last of them first.
abbrev pub push_component : Component → List Component → List Component
push_component cur_dir out = out
push_component parent_dir (normal name ∷ out) = out
push_component parent_dir out = parent_dir ∷ out
push_component root_dir out = root_dir ∷ out
push_component (normal name) out = normal name ∷ out

abbrev pub push_components : List Component → List Component → List Component
push_components [] out = out
push_components (c ∷ rest) out = push_components rest (push_component c out)

abbrev pub reversed : List Component → List Component → List Component
reversed [] onto = onto
reversed (c ∷ rest) onto = reversed rest (c ∷ onto)

abbrev pub or_current : List Component → List Component
or_current [] = cur_dir ∷ []
or_current (c ∷ rest) = c ∷ rest

unfoldable pub normalize_path : List Component → List Component
normalize_path path = or_current (reversed (push_components path []) [])

abbrev pub same_component : Component → Component → Bool
same_component root_dir root_dir = true
same_component cur_dir cur_dir = true
same_component parent_dir parent_dir = true
same_component (normal a) (normal b) = a == b
same_component _ _ = false

-- `zip`, `take_while` and `count`.
unfoldable pub common_count : List Component → List Component → ℕ
common_count (a ∷ from) (b ∷ to) = if same_component a b then suc (common_count from to) else 0
common_count [] to = 0
common_count (a ∷ from) [] = 0

abbrev pub parents : ℕ → List Component
parents zero = []
parents (suc n) = parent_dir ∷ parents n

-- `parts` of `relative_path`, as components.
unfoldable pub relative_parts : List Component → List Component → List Component
unfolding common_count
relative_parts from to =
    let common = common_count from to in parents (length from - common) ++ drop common to

abbrev text_of : Component → String
text_of root_dir = "/"
text_of cur_dir = "."
text_of parent_dir = ".."
text_of (normal name) = name

abbrev joined_parts : List Component → String
unfolding join
joined_parts [] = "."
joined_parts (c ∷ rest) = join "/" (map text_of (c ∷ rest))

unfoldable pub relative_path : List Component → List Component → String
unfolding relative_parts joined_parts
relative_path from to = joined_parts (relative_parts from to)

relative_runs :
    relative_path
      (root_dir ∷ normal "a" ∷ normal "b" ∷ [])
      (root_dir ∷ normal "a" ∷ normal "c" ∷ [])
    ≡ "../c"
unfolding relative_path
relative_runs = refl

normalize_runs :
    normalize_path (normal "a" ∷ parent_dir ∷ parent_dir ∷ cur_dir ∷ normal "b" ∷ [])
    ≡ parent_dir ∷ normal "b" ∷ []
unfolding normalize_path
normalize_runs = refl
