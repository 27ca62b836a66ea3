-- ===== src/Utils/Minified/Majority.antt =====
-- What the median of the line lengths says (crates/js-x-ray/src/utils/is_minified_code.rs).
use js_x_ray_rs.Prelude.{
  ℕ, zero, suc, ◌+◌, ◌-◌, ◌*◌, ◌/◌, ◌%◌, ◌≤◌, ◌<◌, String, Bool, true, false, some, List, [], ◌∷◌,
  if◌then◌else◌, leb, ltb, eqb, length, get_elem?, ◌≡◌, refl, ap, subst, ◌∙◌, arith, All, All-map,
  Bool-cases, inl, inr, ◌⊎◌,
}
use js_x_ray_rs.Std.{Std}
use js_x_ray_rs.Utils.Minified.{
  insert_sorted, sort_unstable, twice_median, line_lengths, without_last_newline, comment_pattern,
  is_minified_code,
}

-- How many are longer than `b`.
pub longer : ℕ → List ℕ → ℕ
longer b [] = 0
longer b (n ∷ ns) = if ltb b n then suc (longer b ns) else longer b ns

Sorted : List ℕ → Type 0
Sorted [] = Unit
Sorted (n ∷ ns) = All (λ m. n ≤ m) ns × Sorted ns

insert_sorted-All :
    (P : ℕ → Type 0) (n : ℕ) (ns : List ℕ) → P n → All P ns → All P (insert_sorted n ns)
unfolding insert_sorted
insert_sorted-All P n [] p h = (p, tt)
insert_sorted-All P n (m ∷ ms) p h = elim (Bool-cases (leb n m)) [
  | inl e ↦ rw e (p, h)
  | inr e ↦ rw e (h.0, insert_sorted-All P n ms p h.1)
]

insert_sorted-Sorted : (n : ℕ) (ns : List ℕ) → Sorted ns → Sorted (insert_sorted n ns)
unfolding insert_sorted Sorted
insert_sorted-Sorted n [] h = (tt, tt)
insert_sorted-Sorted n (m ∷ ms) h = elim (Bool-cases (leb n m)) [
  | inl e ↦
      let first : n ≤ m = ground arith in
      rw e ((first, All-map (λ k. m ≤ k) (λ k. n ≤ k) ms (λ k p. omega arith) h.0), h)
  | inr e ↦
      let second : m ≤ n = ground arith in
      rw e (insert_sorted-All (λ k. m ≤ k) n ms second h.0, insert_sorted-Sorted n ms h.1)
]

longer-insert_sorted : (b n : ℕ) (ns : List ℕ) → longer b (insert_sorted n ns) ≡ longer b (n ∷ ns)
unfolding insert_sorted longer
longer-insert_sorted b n [] = refl
longer-insert_sorted b n (m ∷ ms) = ground (arith, longer-insert_sorted b n ms)

length-insert_sorted : (n : ℕ) (ns : List ℕ) → length (insert_sorted n ns) ≡ suc (length ns)
unfolding insert_sorted
length-insert_sorted n [] = refl
length-insert_sorted n (m ∷ ms) = ground (arith, length-insert_sorted n ms)

sort_unstable-Sorted : (ns : List ℕ) → Sorted (sort_unstable ns)
unfolding sort_unstable Sorted
sort_unstable-Sorted [] = tt
sort_unstable-Sorted (n ∷ ns) = insert_sorted-Sorted n (sort_unstable ns) (sort_unstable-Sorted ns)

longer-sort_unstable : (b : ℕ) (ns : List ℕ) → longer b (sort_unstable ns) ≡ longer b ns
unfolding sort_unstable longer
longer-sort_unstable b [] = refl
longer-sort_unstable b (n ∷ ns) =
    ground (arith, longer-insert_sorted b n (sort_unstable ns), longer-sort_unstable b ns)

length-sort_unstable : (ns : List ℕ) → length (sort_unstable ns) ≡ length ns
unfolding sort_unstable
length-sort_unstable [] = refl
length-sort_unstable (n ∷ ns) =
    length-insert_sorted n (sort_unstable ns) ∙ ap suc (length-sort_unstable ns)

All-longer : (b : ℕ) (ns : List ℕ) → All (λ m. b < m) ns → longer b ns ≡ length ns
unfolding longer
All-longer b [] h = refl
All-longer b (n ∷ ns) h = ground (arith, All-longer b ns h.1, h.0)

longer-few : (b : ℕ) (ns : List ℕ) → longer b ns ≤ length ns
unfolding longer
longer-few b [] = omega arith
longer-few b (n ∷ ns) = ground (arith, longer-few b ns)

-- From a place of a sorted list on, all are as long as what stands there; up to it, none is longer.
longer_from :
    (b i v : ℕ) (ns : List ℕ)
    → Sorted ns
    → get_elem? ns i ≡ some v
    → b < v
    → length ns ≤ longer b ns + i
unfolding Sorted longer
longer_from b i v [] h e l = absurd (cc e)
longer_from b zero v (n ∷ ns) h e l =
    let here : n ≡ v = cc e in
    let rest = All-longer b ns (All-map (λ m. n ≤ m) (λ m. b < m) ns (λ m p. omega arith) h.0) in
    ground (arith, rest, here, l)
longer_from b (suc i) v (n ∷ ns) h e l =
    ground (arith, longer_from b i v ns h.1 e l, longer-few b ns)

All-get : (P : ℕ → Type 0) (i v : ℕ) (ns : List ℕ) → All P ns → get_elem? ns i ≡ some v → P v
All-get P i v [] h e = absurd (cc e)
All-get P zero v (n ∷ ns) h e = subst P (cc e) h.0
All-get P (suc i) v (n ∷ ns) h e = All-get P i v ns h.1 e

longer_up_to :
    (b i v : ℕ) (ns : List ℕ)
    → Sorted ns
    → get_elem? ns i ≡ some v
    → v ≤ b
    → longer b ns + suc i ≤ length ns
unfolding Sorted longer
longer_up_to b i v [] h e l = absurd (cc e)
longer_up_to b zero v (n ∷ ns) h e l =
    let here : n ≡ v = cc e in ground (arith, here, l, longer-few b ns)
longer_up_to b (suc i) v (n ∷ ns) h e l =
    let rest = longer_up_to b i v ns h.1 e l in
    let small : n ≤ v = All-get (λ m. n ≤ m) i v ns h.0 e in ground (arith, rest, small, l)

get_elem?-some : (i : ℕ) (ns : List ℕ) → i < length ns → (v : ℕ) × (get_elem? ns i ≡ some v)
get_elem?-some i [] h = absurd (omega arith)
get_elem?-some zero (n ∷ ns) h = (n, refl)
get_elem?-some (suc i) (n ∷ ns) h = get_elem?-some i ns (omega arith)

-- A value at a place of the sorted list divides the list.
divides :
    (i v : ℕ) (ns : List ℕ)
    → get_elem? (sort_unstable ns) i ≡ some v
    → (200 < v) × (length ns ≤ longer 200 ns + i) ⊎ (v ≤ 200) × (longer 200 ns + suc i ≤ length ns)
divides i v ns e =
    let sorted = sort_unstable-Sorted ns in
    let same = longer-sort_unstable 200 ns in
    let long = length-sort_unstable ns in
    elim (Bool-cases (ltb 200 v)) [
      | inl l ↦
          let more : 200 < v = ground arith in
          inl
            (more, omega (arith, longer_from 200 i v (sort_unstable ns) sorted e more, same, long))
      | inr l ↦
          let less : v ≤ 200 = ground arith in
          inr
            (less, omega (arith, longer_up_to 200 i v (sort_unstable ns) sorted e less, same, long))
    ]

-- The answer says on which side most of the lines are.
record Majority (ns : List ℕ) (twice : ℕ) : Type 0 where
  above : 400 < twice → length ns ≤ 2 * longer 200 ns
  below : twice ≤ 400 → 2 * longer 200 ns ≤ length ns

twice_median-Majority :
    (ns : List ℕ) → 1 < length ns → (twice : ℕ) × (twice_median ns ≡ some twice) × Majority ns twice
unfolding twice_median
twice_median-Majority ns h =
    let sorted = sort_unstable ns in
    let long = length-sort_unstable ns in
    let half = length sorted / 2 in
    let (high, at) = get_elem?-some half sorted (omega (arith, long)) in
    let (low, before) = get_elem?-some (half - 1) sorted (omega (arith, long)) in
    elim (Bool-cases (eqb (length sorted % 2) 1)) [
      | inl odd ↦ (
        2 * high,
        rw (odd, at) refl,
        elim (divides half high ns at) [
          | inl (v, d) ↦ record {
            above = λ l. omega (arith, long);
            below = λ l. omega (arith, long, v);
          }
          | inr (v, d) ↦ record {
            above = λ l. omega (arith, long, v);
            below = λ l. ground (arith, long, d, odd);
          }
        ],
      )
      | inr even ↦
          let split_even : 2 * half ≡ length ns = ground (arith, long, even) in
          (
            low + high,
            rw (even, before, at) refl,
            elim (divides half high ns at) [
              | inl (v, d) ↦ elim (divides (half - 1) low ns before) [
                | inl (w, c) ↦ record {
                  above = λ l. omega (arith, d, split_even);
                  below = λ l. omega (arith, v, w);
                }
                | inr (w, c) ↦ record {
                  above = λ l. omega (arith, d, split_even);
                  below = λ l. omega (arith, c, split_even, h);
                }
              ]
              | inr (v, d) ↦ elim (divides (half - 1) low ns before) [
                | inl (w, c) ↦ record {
                  above = λ l. omega (arith, c, d, split_even, h);
                  below = λ l. omega (arith, d, split_even);
                }
                | inr (w, c) ↦ record {
                  above = λ l. omega (arith, v, w);
                  below = λ l. omega (arith, d, split_even);
                }
              ]
            ],
          )
    ]

-- The lengths of the lines of a source, without its comments.
abbrev pub lengths : Std → String → List ℕ
unfolding line_lengths without_last_newline
lengths std code = line_lengths (without_last_newline (std.replace_all comment_pattern code ""))

-- Whether a source is minified is told, without a panic: if so, it has one line at most, or half of its
-- lines at least are longer than 200; and if not, it has more lines, of which half at most are so.
pub is_minified_code_answers :
    (std : Std) (code : String)
    → (answer : Bool) × (is_minified_code std code ≡ some answer)
      × (answer ≡ true
          → (length (lengths std code) ≤ 1)
            ⊎ (length (lengths std code) ≤ 2 * longer 200 (lengths std code)))
      × (answer ≡ false
          → (1 < length (lengths std code))
            × (2 * longer 200 (lengths std code) ≤ length (lengths std code)))
unfolding is_minified_code lengths
is_minified_code_answers std code = elim (Bool-cases (leb (length (lengths std code)) 1)) [
  | inl e ↦ (true, rw e refl, λ t. inl (ground arith), λ f. absurd (cc f))
  | inr e ↦
      let many : 1 < length (lengths std code) = ground arith in
      let (twice, made, m) = twice_median-Majority (lengths std code) many in
      (
        ltb 400 twice,
        rw (e, made) refl,
        λ t. inr (m.above (ground arith)),
        λ f. (many, m.below (ground arith)),
      )
]
