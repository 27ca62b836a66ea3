-- ===== src/Utils/Patterns/Counted.antt =====
-- Every identifier is counted once (crates/js-x-ray/src/utils/patterns.rs: `common_hexadecimal_prefix`).
use Prim.Native.String.{compare}
use text.Mathlib.Text.{is_le}
use js_x_ray_rs.Prelude.{
  ℕ, suc, ◌+◌, String, true, false, Option, none, some, List, [], ◌∷◌, ◌==◌, ◌≡◌, refl, ◌≢◌, arith,
  eq_iff, eq_refl, Bool-cases, Option-cases, inl, inr, length, All, sym, subst,
}
use js_x_ray_rs.Prelude.Order.{sort, insert_sorted}
use js_x_ray_rs.Prelude.IndexMap.{
  IndexMap, get, insert, keys, contains, contains_key, Absent, Distinct, contains-keys,
}
use js_x_ray_rs.Utils.Patterns.{
  common_string_prefix_str, merge_prefix, place, place_all, occurring_once, occurring_often,
  to_btree, insert_entry, CommonHexadecimalPrefixResult, common_hexadecimal_prefix,
}
use js_x_ray_rs.Utils.Patterns.Totals.{total, head, common_string_prefix_str-none, total-insert}
use js_x_ray_rs.Utils.Patterns.Spread.{Spread, IsAlone, Spread-insert, merge_prefix-Spread}

-- The map counts one identifier more.
abbrev CountsOneMore : IndexMap ℕ → Option (IndexMap ℕ) → Type 0
CountsOneMore m result =
    (m' : IndexMap ℕ) × (result ≡ some m') × Spread m' × (total m' ≡ suc (total m))

-- A key that is not among `ks` begins with another character than the identifier.
abbrev OthersApart : String → IndexMap ℕ → List String → Type 0
OthersApart value m ks =
    (j : String) (v : ℕ) → get j m ≡ some v → contains ks j ≡ false → head value ≢ head j

place-CountsOneMore :
    (value : String) (m : IndexMap ℕ) (ks : List String)
    → head value ≢ 0
    → Spread m
    → ((j : String) → contains ks j ≡ true → contains_key j m ≡ true)
    → OthersApart value m ks
    → CountsOneMore m (place value m ks)
unfolding place
place-CountsOneMore value m [] filled h known others =
    let alone : IsAlone value m = λ j w e same. absurd (others j w e refl (sym same)) in
    let fresh : get value m ≡ none = elim (Option-cases (get value m)) [
      | inl e ↦ e
      | inr (w, e) ↦ absurd (others value w e refl refl)
    ] in
    (
      insert value 1 m,
      refl,
      Spread-insert value 1 m h filled alone,
      ground (arith, total-insert value 1 m, fresh),
    )
place-CountsOneMore value m (cp ∷ rest) filled h known others = elim (Option-cases (get cp m)) [
  | inl e ↦ absurd (ground (arith, known cp, eq_refl cp, e))
  | inr (count, e) ↦ elim (Option-cases (common_string_prefix_str value cp)) [
    | inl c ↦
        let differ = common_string_prefix_str-none value cp c filled (h.filled cp count e) in
        let others' : OthersApart value m rest = λ j v f out. elim (Bool-cases (cp == j)) [
          | inl s ↦ subst (λ k. head value ≢ head k) ((eq_iff cp j).0 s) differ
          | inr n ↦ others j v f (ground arith)
        ] in
        let (m', p, spread, totals) =
          place-CountsOneMore value m rest filled h (λ j in_rest. known j (ground arith)) others' in
        (m', rw (e, c) p, spread, totals)
    | inr (common_str, c) ↦
        let (spread, totals) = merge_prefix-Spread value cp common_str count m h e c in
        (merge_prefix cp common_str count m, rw (e, c) refl, spread, totals)
  ]
]

place_all_counts :
    (values : List String) (m : IndexMap ℕ)
    → All (λ v. head v ≢ 0) values
    → Spread m
    → (m' : IndexMap ℕ) × (place_all values m ≡ some m')
      × Spread m'
      × (total m' ≡ length values + total m)
unfolding place_all
place_all_counts [] m filled h = (m, refl, h, omega arith)
place_all_counts (value ∷ rest) m filled h =
    let (m', p, spread, totals) =
      place-CountsOneMore value m (keys m) filled.0 h
        (λ j c. (ground (arith, contains-keys m j, c)))
        (λ j v e out. absurd (ground (arith, contains-keys m j, e, out))) in
    let (m'', q, spread', totals') = place_all_counts rest m' filled.1 spread in
    (m'', rw (p, q) refl, spread', omega arith)

occurring_total : (m : IndexMap ℕ) → total (occurring_often m) + occurring_once m ≡ total m
unfolding total occurring_often occurring_once
occurring_total [] = omega arith
occurring_total ((k, n) ∷ m) = ground (arith, occurring_total m)

occurring_often-Absent : (k : String) (m : IndexMap ℕ) → Absent k m → Absent k (occurring_often m)
unfolding occurring_often
occurring_often-Absent k [] h = tt
occurring_often-Absent k ((j, n) ∷ m) h = ground (arith, occurring_often-Absent k m)

occurring_often-Distinct : (m : IndexMap ℕ) → Distinct m → Distinct (occurring_often m)
unfolding occurring_often
occurring_often-Distinct [] h = tt
occurring_often-Distinct ((j, n) ∷ m) h =
    ground (arith, occurring_often-Absent j m, occurring_often-Distinct m)

insert_entry-Absent :
    (i k : String) (n : ℕ) (m : IndexMap ℕ)
    → Absent i m
    → (k == i) ≡ false
    → Absent i (insert_entry k n m)
insert_entry-Absent i k n [] h e = (e, tt)
insert_entry-Absent i k n ((j, v) ∷ m) h e = ground (arith, insert_entry-Absent i k n m)

to_btree-Absent : (i : String) (m : IndexMap ℕ) → Absent i m → Absent i (to_btree m)
unfolding to_btree
to_btree-Absent i [] h = tt
to_btree-Absent i ((k, n) ∷ m) h =
    insert_entry-Absent i k n (to_btree m) (to_btree-Absent i m h.1) h.0

total-insert_entry :
    (k : String) (n : ℕ) (m : IndexMap ℕ) → Absent k m → total (insert_entry k n m) ≡ n + total m
unfolding total
total-insert_entry k n [] h = omega arith
total-insert_entry k n ((j, v) ∷ m) h =
    ground (arith, total-insert_entry k n m, eq_iff k j, eq_iff j k)

total-to_btree : (m : IndexMap ℕ) → Distinct m → total (to_btree m) ≡ total m
unfolding total to_btree
total-to_btree [] h = refl
total-to_btree ((k, n) ∷ m) h =
    omega
      (arith, total-insert_entry k n (to_btree m) (to_btree-Absent k m h.0), total-to_btree m h.1)

length-insert_sorted : (s : String) (l : List String) → length (insert_sorted s l) ≡ suc (length l)
length-insert_sorted s [] = refl
length-insert_sorted s (t ∷ l) = ground (arith, length-insert_sorted s l)

length-sort : (l : List String) → length (sort l) ≡ length l
length-sort [] = refl
length-sort (s ∷ l) = omega (arith, length-insert_sorted s (sort l), length-sort l)

All-insert_sorted :
    (P : String → Type 0) (s : String) (l : List String) → P s → All P l → All P (insert_sorted s l)
All-insert_sorted P s [] p h = (p, tt)
All-insert_sorted P s (t ∷ l) p h = elim (Bool-cases (is_le (compare s t))) [
  | inl e ↦ rw e (p, h)
  | inr e ↦ rw e (h.0, All-insert_sorted P s l p h.1)
]

All-sort : (P : String → Type 0) (l : List String) → All P l → All P (sort l)
All-sort P [] h = tt
All-sort P (s ∷ l) h = All-insert_sorted P s (sort l) h.0 (All-sort P l h.1)

total_nothing : total [] ≡ 0
unfolding total
total_nothing = refl

nothing-Spread : Spread []
unfolding get
nothing-Spread = record { distinct = tt; apart = λ j k v w e f s. cc; filled = λ j v e. cc }

-- For identifiers that are not empty the search for common prefixes returns, and the counts of the
-- prefixes and the number of identifiers that share none add up to the number of identifiers.
pub common_hexadecimal_prefix-total :
    (identifiers : List String)
    → All (λ v. head v ≢ 0) identifiers
    → (result : CommonHexadecimalPrefixResult) × (common_hexadecimal_prefix identifiers
        ≡ some result)
      × (total result.prefix + result.one_time_occurence ≡ length identifiers)
unfolding common_hexadecimal_prefix
common_hexadecimal_prefix-total identifiers filled =
    let (m, p, spread, totals) =
      place_all_counts (sort identifiers) [] (All-sort (λ v. head v ≢ 0) identifiers filled)
        nothing-Spread in
    let often = occurring_often-Distinct m spread.distinct in
    (
      record { one_time_occurence = occurring_once m; prefix = to_btree (occurring_often m) },
      rw p refl,
      omega (
        arith,
        total-to_btree (occurring_often m) often,
        occurring_total m,
        length-sort identifiers,
        totals,
        total_nothing,
      ),
    )
