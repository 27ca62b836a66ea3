-- ===== src/Utils/Minified.antt =====
-- `is_minified_code` of crates/js-x-ray/src/utils/is_minified_code.rs. Twice the median is compared, a
-- whole number.
pub mod Majority
use js_x_ray_rs.Prelude.{
  ℕ, ◌+◌, ◌-◌, ◌*◌, ◌/◌, ◌%◌, String, Bool, true, Option, none, some, List, [], ◌∷◌, if◌then◌else◌,
  leb, ltb, eqb, length, codes, split, map, retain, get_elem?, unwrap_or, ◌>>=◌, ◌≡◌, refl,
  strip_suffix,
}
use js_x_ray_rs.Std.{Std}
use js_x_ray_rs.Obfuscation.Score.{utf16_count}

abbrev pub comment_pattern : String
comment_pattern = "(?s)/\\*.*?\\*/\\r?\\n?|//.{0,200}?(?:\\r?\\n|$)"

-- A single newline at the end, and the carriage return before it.
unfoldable pub without_last_newline : String → String
unfolding strip_suffix
without_last_newline s = elim (strip_suffix s "\n") [
  | none ↦ s
  | some t ↦ unwrap_or t (strip_suffix t "\r")
]

unfoldable pub insert_sorted : ℕ → List ℕ → List ℕ
insert_sorted n [] = n ∷ []
insert_sorted n (m ∷ ms) = if leb n m then n ∷ m ∷ ms else m ∷ insert_sorted n ms

unfoldable pub sort_unstable : List ℕ → List ℕ
unfolding insert_sorted
sort_unstable [] = []
sort_unstable (n ∷ ns) = insert_sorted n (sort_unstable ns)

-- Twice the median; `none` is the panic of an index.
unfoldable pub twice_median : List ℕ → Option ℕ
unfolding sort_unstable
twice_median values =
    let sorted = sort_unstable values in
    let half = length sorted / 2 in
    if eqb (length sorted % 2) 1
    then (do middle ← get_elem? sorted half; some (2 * middle))
    else (do low ← get_elem? sorted (half - 1); high ← get_elem? sorted half; some (low + high))

-- The lengths of the lines that are not empty.
unfoldable pub line_lengths : String → List ℕ
unfolding split
line_lengths cleaned =
    retain (λ len. ltb 0 len) (map (λ line. utf16_count (codes line)) (split 10 cleaned))

unfoldable pub is_minified_code : Std → String → Option Bool
unfolding without_last_newline line_lengths twice_median
is_minified_code std code =
    let lines = line_lengths (without_last_newline (std.replace_all comment_pattern code "")) in
    if leb (length lines) 1
    then some true
    else (do median ← twice_median lines; some (ltb 400 median))

median_runs : twice_median (5 ∷ 1 ∷ 4 ∷ 2 ∷ []) ≡ some 6
unfolding twice_median
median_runs = refl
