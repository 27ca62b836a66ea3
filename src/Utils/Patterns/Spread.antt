-- ===== src/Utils/Patterns/Spread.antt =====
-- The prefixes begin with different characters, so that merging one never meets another
-- (crates/js-x-ray/src/utils/patterns.rs).
use js_x_ray_rs.Prelude.{
  ℕ, suc, ◌+◌, String, false, ◌||◌, none, some, ◌==◌, ◌≡◌, ◌≢◌, ◌⊎◌, arith, eq_iff, Bool-cases,
  Option-cases, inl, inr, ◌∙◌, sym, ap,
}
use js_x_ray_rs.Prelude.IndexMap.{
  IndexMap, get, insert, shift_remove, Distinct, get-insert, get-shift_remove, Distinct-insert,
  Distinct-shift_remove,
}
use js_x_ray_rs.Utils.Patterns.{common_string_prefix_str, starts_with, merge_prefix}
use js_x_ray_rs.Utils.Patterns.Totals.{
  total, head, common_string_prefix_str-some, common_string_prefix_str-starts, total-insert,
  total-shift_remove,
}

pub record Spread (m : IndexMap ℕ) : Type 0 where
  pub distinct : Distinct m
  pub apart :
      (j k : String) (v w : ℕ) → get j m ≡ some v → get k m ≡ some w → head j ≡ head k → j ≡ k
  pub filled : (j : String) (v : ℕ) → get j m ≡ some v → head j ≢ 0

get-removed :
    (k j : String) (v : ℕ) (m : IndexMap ℕ)
    → Distinct m
    → get j (shift_remove k m) ≡ some v
    → (get j m ≡ some v) × ((k == j) ≡ false)
get-removed k j v m d e = ground (arith, get-shift_remove k j m d, e)

get-inserted :
    (k j : String) (v w : ℕ) (m : IndexMap ℕ)
    → get j (insert k v m) ≡ some w
    → (k ≡ j) ⊎ (get j m ≡ some w)
get-inserted k j v w m e = elim (Bool-cases (k == j)) [
  | inl s ↦ inl ((eq_iff k j).0 s)
  | inr n ↦ inr (ground (arith, get-insert k j v m, e, n))
]

Spread-shift_remove : (k : String) (m : IndexMap ℕ) → Spread m → Spread (shift_remove k m)
Spread-shift_remove k m h = record {
  distinct = Distinct-shift_remove k m h.distinct;
  apart = λ i j v w e f same.
      h.apart i j v w (get-removed k i v m h.distinct e).0 (get-removed k j w m h.distinct f).0
        same;
  filled = λ i v e. h.filled i v (get-removed k i v m h.distinct e).0;
}

-- No other key begins with the character that `k` begins with.
abbrev pub IsAlone : String → IndexMap ℕ → Type 0
IsAlone k m = (j : String) (w : ℕ) → get j m ≡ some w → head j ≡ head k → j ≡ k

pub Spread-insert :
    (k : String) (v : ℕ) (m : IndexMap ℕ)
    → Spread m
    → head k ≢ 0
    → IsAlone k m
    → Spread (insert k v m)
Spread-insert k v m h filled alone = record {
  distinct = Distinct-insert k v m h.distinct;
  apart = λ i j a b e f same. elim (get-inserted k i v a m e) [
    | inl p ↦ elim (get-inserted k j v b m f) [
      | inl q ↦ sym p ∙ q
      | inr q ↦ sym p ∙ sym (alone j b q (sym same ∙ ap head (sym p)))
    ]
    | inr p ↦ elim (get-inserted k j v b m f) [
      | inl q ↦ alone i a p (same ∙ ap head (sym q)) ∙ q
      | inr q ↦ h.apart i j a b p q same
    ]
  ];
  filled = λ i a e z. elim (get-inserted k i v a m e) [
    | inl p ↦ filled (ap head p ∙ z)
    | inr p ↦ h.filled i a p z
  ];
}

IsAlone-key : (k : String) (v : ℕ) (m : IndexMap ℕ) → Spread m → get k m ≡ some v → IsAlone k m
IsAlone-key k v m h e j w f same = h.apart j k w v f e same

-- Counting one more identifier under the key `cp`, whose common prefix with it is `common_str`.
pub merge_prefix-Spread :
    (value cp common_str : String) (count : ℕ) (m : IndexMap ℕ)
    → Spread m
    → get cp m ≡ some count
    → common_string_prefix_str value cp ≡ some common_str
    → Spread (merge_prefix cp common_str count m)
      × (total (merge_prefix cp common_str count m) ≡ suc (total m))
merge_prefix-Spread value cp common_str count m h e c =
    elim (Bool-cases (common_str == cp || starts_with common_str cp)) [
      | inl same ↦
          let totals = total-insert cp (count + 1) m in
          rw same (
            Spread-insert cp (count + 1) m h (h.filled cp count e) (IsAlone-key cp count m h e),
            ground (arith, totals, e),
          )
      | inr other ↦
          let (same_left, same_right, filled) =
            common_string_prefix_str-some value cp common_str c in
          let begins = common_string_prefix_str-starts value cp common_str c in
          let rest = Spread-shift_remove cp m h in
          let alone : IsAlone common_str (shift_remove cp m) = λ j w f same.
            let (before, ne) = get-removed cp j w m h.distinct f in
            let met : j ≡ cp = h.apart j cp w count before e (same ∙ same_right) in
            absurd (ground (arith, ne, met, eq_iff cp j)) in
          let fresh : get common_str (shift_remove cp m) ≡ none =
            elim (Option-cases (get common_str (shift_remove cp m))) [
              | inl gone ↦ gone
              | inr (w, f) ↦
                  let (before, ne) = get-removed cp common_str w m h.distinct f in
                  let met : common_str ≡ cp = h.apart common_str cp w count before e same_right in
                  absurd (ground (arith, ne, met, eq_iff cp common_str))
            ] in
          rw (other, begins)
            (
              Spread-insert common_str (count + 1) (shift_remove cp m) rest filled alone,
              ground (
                arith,
                total-insert common_str (count + 1) (shift_remove cp m),
                total-shift_remove cp m,
                fresh,
                e,
              ),
            )
    ]
