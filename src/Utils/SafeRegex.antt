-- ===== src/Utils/SafeRegex.antt =====
-- `is_safe_regex` of crates/js-x-ray/src/utils/safe_regex.rs. The parser of the crate `regex-syntax` is a
-- parameter; of its trees only what the code matches on is told apart.
pub mod Heights
use Prim.Native.String.{len, slice}
use text.Mathlib.Text.{find?}
use js_x_ray_rs.Prelude.{
  ℕ, zero, suc, ◌+◌, max, String, Bool, true, false, ◌&&◌, Option, none, some, ◌>>=◌, ◌==◌, leb,
  if◌then◌else◌, ◌<>◌, strip_prefix, ◌≡◌, refl,
}

-- `Concat` and `Alternation` are walked alike; `leaf` is any other tree.
mutual
  pub data Ast : Type 0 where
    repetition : Ast → Ast
    group : Ast → Ast
    concat : Asts → Ast
    alternation : Asts → Ast
    leaf : Ast

  pub data Asts : Type 0 where
    nil : Asts
    cons : Ast → Asts → Asts

pub data ErrorKind : Type 0 where
  unsupported_look_around unsupported_backreference escape_unrecognized other : ErrorKind

-- An error with the ends of its span, counted in code points.
pub record Error : Type 0 where
  pub kind : ErrorKind
  pub start : ℕ
  pub stop : ℕ

pub data Parsed : Type 0 where
  ok : Ast → Parsed
  err : Error → Parsed

abbrev pub default_safe_rep_limit : ℕ
default_safe_rep_limit = 25

abbrev pub max_patch_attempts : ℕ
max_patch_attempts = 64

-- `max_depth` and `repetition_count`.
pub record Measured : Type 0 where
  pub max_depth : ℕ
  pub repetition_count : ℕ

unfoldable mutual
  pub walk : Ast → ℕ → Measured → Measured
  walk (repetition ast) depth m = walk ast (depth + 1) (record {
    max_depth = max m.max_depth (depth + 1);
    repetition_count = m.repetition_count + 1;
  })
  walk (group ast) depth m = walk ast depth m
  walk (concat asts) depth m = walk_each asts depth m
  walk (alternation asts) depth m = walk_each asts depth m
  walk leaf depth m = m

  pub walk_each : Asts → ℕ → Measured → Measured
  walk_each nil depth m = m
  walk_each (cons ast asts) depth m = walk_each asts depth (walk ast depth m)

abbrev before : String → Error → String
before pattern_ e = slice pattern_ 0 e.start

abbrev behind : String → Error → String
behind pattern_ e = slice pattern_ e.stop (len pattern_)

-- A `\k<name>` whose name is closed, replaced by one atom.
abbrev patch_named : String → String → Option String
patch_named pre rest = do
  named ← strip_prefix rest "<"
  name_end ← find? named ">"
  some (pre <> "a" <> slice rest (name_end + 2) (len rest))

unfoldable pub patch_unsupported_construct : String → Error → Option String
unfolding strip_prefix
patch_unsupported_construct pattern_ e = elim e.kind [
  | unsupported_look_around ↦ some (before pattern_ e <> "(?:" <> behind pattern_ e)
  | unsupported_backreference ↦ some (before pattern_ e <> "a" <> behind pattern_ e)
  | escape_unrecognized ↦
      if slice pattern_ e.start e.stop == "\\k"
      then patch_named (before pattern_ e) (behind pattern_ e)
      else none
  | other ↦ none
]

unfoldable pub is_safe_ast : Ast → Bool
unfolding walk
is_safe_ast ast =
    let m = walk ast 0 (record { max_depth = 0; repetition_count = 0 }) in
    leb m.max_depth 1 && leb m.repetition_count default_safe_rep_limit

module _ (parse : String → Parsed) where
  -- The loop over the attempts that are left.
  unfoldable pub attempt : ℕ → String → Bool
  unfolding patch_unsupported_construct is_safe_ast
  attempt zero working = false
  attempt (suc left) working = elim (parse working) [
    | ok ast ↦ is_safe_ast ast
    | err e ↦ elim (patch_unsupported_construct working e) [
      | none ↦ false
      | some patched ↦ attempt left patched
    ]
  ]

  unfoldable pub is_safe_regex : String → Bool
  unfolding attempt
  is_safe_regex pattern_ = attempt max_patch_attempts pattern_
