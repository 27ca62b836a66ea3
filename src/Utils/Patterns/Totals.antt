-- ===== src/Utils/Patterns/Totals.antt =====
-- Every identifier is counted under one prefix (crates/js-x-ray/src/utils/patterns.rs).
use Prim.Native.Char.{code}
use js_x_ray_rs.Prelude.{
  ℕ, suc, ◌+◌, String, Bool, true, false, none, some, [], ◌∷◌, if◌then◌else◌, eqb, ◌≡◌, refl, ◌≢◌,
  arith, unwrap_or, Bool-cases, inl, inr, ap, subst,
}
use js_x_ray_rs.Prelude.IndexMap.{IndexMap, get, insert, shift_remove}
use js_x_ray_rs.Utils.Patterns.{common_head, common_string_prefix_str, starts_with, is_empty}

-- The sum of the counts.
unfoldable pub total : IndexMap ℕ → ℕ
total [] = 0
total ((k, n) ∷ m) = n + total m

-- One more than the first code point, or 0.
abbrev pub head : String → ℕ
head String.[] = 0
head (String.◌∷◌ c s) = suc (code c)

nonempty :
    (b : Bool) (s c : String)
    → (if is_empty (if b then s else "") then none else some (if b then s else "")) ≡ some c
    → (b ≡ true) × (s ≡ c)
nonempty true s c h = (refl, ground arith)
nonempty false s c h = cc

pub common_string_prefix_str-some :
    (a b c : String)
    → common_string_prefix_str a b ≡ some c
    → (head c ≡ head a) × (head c ≡ head b) × (head c ≢ 0)
unfolding common_string_prefix_str
common_string_prefix_str-some String.[] b c h = cc
common_string_prefix_str-some (String.◌∷◌ x a) String.[] c h = cc
common_string_prefix_str-some (String.◌∷◌ x a) (String.◌∷◌ y b) c h =
    let (e, same) = nonempty (eqb (code x) (code y)) (String.◌∷◌ x (common_head a b)) c h in
    let codes_same : code x ≡ code y = ground arith in
    subst (λ s. (head s ≡ suc (code x)) × (head s ≡ suc (code y)) × (head s ≢ 0)) same
      (refl, ap suc codes_same, λ z. omega arith)

pub common_string_prefix_str-none :
    (a b : String) → common_string_prefix_str a b ≡ none → head a ≢ 0 → head b ≢ 0 → head a ≢ head b
unfolding common_string_prefix_str
common_string_prefix_str-none String.[] b h p q = absurd (p refl)
common_string_prefix_str-none (String.◌∷◌ x a) String.[] h p q = absurd (q refl)
common_string_prefix_str-none (String.◌∷◌ x a) (String.◌∷◌ y b) h p q =
    λ same. absurd (ground (arith, h, same))

starts_with-common_head : (a b : String) → starts_with b (common_head a b) ≡ true
unfolding starts_with common_head
starts_with-common_head String.[] b = refl
starts_with-common_head (String.◌∷◌ x a) String.[] = refl
starts_with-common_head (String.◌∷◌ x a) (String.◌∷◌ y b) =
    elim (Bool-cases (eqb (code x) (code y))) [
      | inl e ↦ rw e (ground (arith, starts_with-common_head a b))
      | inr e ↦ rw e refl
    ]

pub common_string_prefix_str-starts :
    (a b c : String) → common_string_prefix_str a b ≡ some c → starts_with b c ≡ true
unfolding common_string_prefix_str
common_string_prefix_str-starts a b c h = elim (Bool-cases (is_empty (common_head a b))) [
  | inl e ↦ absurd (ground arith)
  | inr e ↦
      let same : common_head a b ≡ c = ground arith in
      subst (λ s. starts_with b s ≡ true) same (starts_with-common_head a b)
]

pub total-insert :
    (k : String) (v : ℕ) (m : IndexMap ℕ)
    → total (insert k v m) + unwrap_or 0 (get k m) ≡ total m + v
unfolding total insert get
total-insert k v [] = omega arith
total-insert k v ((j, w) ∷ m) = ground (arith, total-insert k v m)

pub total-shift_remove :
    (k : String) (m : IndexMap ℕ) → total (shift_remove k m) + unwrap_or 0 (get k m) ≡ total m
unfolding total shift_remove get
total-shift_remove k [] = omega arith
total-shift_remove k ((j, w) ∷ m) = ground (arith, total-shift_remove k m)
