-- ===== src/Obfuscation/Run.antt =====
-- The deobfuscator over a run of the analysis (crates/js-x-ray/src/deobfuscator.rs).
use js_x_ray_rs.Prelude.{
  ◌+◌, ◌%◌, ◌^◌, ℕ, String, Bool, true, false, Option, none, some, List, [], ◌∷◌, ◌++◌,
  if◌then◌else◌, eqb, ◌≡◌, refl, ◌≢◌, arith, eq_iff, Bool-cases, inl, inr, All, All-append, subst,
}
use js_x_ray_rs.Prelude.IndexMap.{contains, insert_set, contains-last}
use js_x_ray_rs.Json.{Node}
use js_x_ray_rs.Std.{Std}
use js_x_ray_rs.Obfuscation.Score.{string_suspicion_score}
use js_x_ray_rs.Obfuscation.Morse.{is_morse}
use js_x_ray_rs.Obfuscation.{
  Deobfuscator, new, push_score, look_for_dictionary, look_for_morse, analyze_string, walk,
  count_deep_binary_expression,
}

-- A deobfuscator that has seen some texts and nodes, and of which `analyze_literal` and the probe of
-- binary expressions have counted up the two `u32` counters.
pub data Run (std : Std) : Deobfuscator → Type 0 where
  started : {d : Deobfuscator} → new ≡ some d → Run std d
  analyzed : {d : Deobfuscator} (s : String) → Run std d → Run std (analyze_string s d)
  walked : {d : Deobfuscator} (node : Node) → Run std d → Run std (walk std node d)
  counted_array_value :
      {d : Deobfuscator}
      → Run std d
      → Run std (record d { encoded_array_value = (d.encoded_array_value + 1) % 2 ^ 32 })
  counted_binary_expression :
      {d : Deobfuscator} → Run std d → Run std (count_deep_binary_expression d)

-- Each member stands in the list once.
abbrev Once : List String → Type 0
Once [] = Unit
Once (s ∷ rest) = (contains rest s ≡ false) × Once rest

-- The scores are positive, the morse literals are morse and different, and the flag that
-- `assert_obfuscation` sets is not set.
pub record IsSound (d : Deobfuscator) : Type 0 where
  pub scored : All (λ n. n ≢ 0) d.literal_scores
  pub morse : All (λ s. is_morse s ≡ true) d.morse_literals
  pub once : Once d.morse_literals
  pub unprefixed : d.has_prefixed_identifiers ≡ false

pub new-IsSound : (d : Deobfuscator) → new ≡ some d → IsSound d
unfolding new
new-IsSound d h =
    subst (λ (o : Option Deobfuscator). elim o [ none ↦ Unit | some e ↦ IsSound e ]) h
      (record { scored = tt; morse = tt; once = tt; unprefixed = refl })

push_score-IsSound : (score : ℕ) (d : Deobfuscator) → IsSound d → IsSound (push_score score d)
push_score-IsSound score d h = elim (Bool-cases (eqb score 0)) [
  | inl e ↦ rw e h
  | inr e ↦ rw e (record {
    scored =
        All-append (λ n. n ≢ 0) d.literal_scores (score ∷ []) h.scored
          ((λ z. ground (arith, e, z)), tt);
    morse = h.morse;
    once = h.once;
    unprefixed = h.unprefixed;
  })
]

flag-IsSound :
    (found : Bool) (d : Deobfuscator)
    → IsSound d
    → IsSound (if found then record d { has_dictionary_string = true } else d)
flag-IsSound true d h = record {
  scored = h.scored;
  morse = h.morse;
  once = h.once;
  unprefixed = h.unprefixed;
}
flag-IsSound false d h = h

Once-last : (s : String) (l : List String) → contains l s ≡ false → Once l → Once (l ++ s ∷ [])
Once-last s [] c h = (refl, tt)
Once-last s (t ∷ l) c h = (
  ground (arith, contains-last l s t, h.0, eq_iff s t, eq_iff t s),
  Once-last s l (ground arith) h.1,
)

insert_set-Once : (s : String) (l : List String) → Once l → Once (insert_set s l)
unfolding insert_set
insert_set-Once s l h = elim (Bool-cases (contains l s)) [
  | inl e ↦ rw e h
  | inr e ↦ rw e (Once-last s l e h)
]

insert_set-All :
    (P : String → Type 0) (s : String) (l : List String) → P s → All P l → All P (insert_set s l)
unfolding insert_set
insert_set-All P s l p h = elim (Bool-cases (contains l s)) [
  | inl e ↦ rw e h
  | inr e ↦ rw e (All-append P l (s ∷ []) h (p, tt))
]

look_for_morse-IsSound : (s : String) (d : Deobfuscator) → IsSound d → IsSound (look_for_morse s d)
look_for_morse-IsSound s d h = elim (Bool-cases (is_morse s)) [
  | inl e ↦ rw e (record {
    scored = h.scored;
    morse = insert_set-All (λ t. is_morse t ≡ true) s d.morse_literals e h.morse;
    once = insert_set-Once s d.morse_literals h.once;
    unprefixed = h.unprefixed;
  })
  | inr e ↦ rw e h
]

pub analyze_string-IsSound :
    (s : String) (d : Deobfuscator) → IsSound d → IsSound (analyze_string s d)
unfolding analyze_string
analyze_string-IsSound s d h =
    let scored = push_score (string_suspicion_score s) d in
    look_for_morse-IsSound s (look_for_dictionary s scored)
      (flag-IsSound _ scored (push_score-IsSound (string_suspicion_score s) d h))

pub walk-IsSound :
    (std : Std) (node : Node) (d : Deobfuscator) → IsSound d → IsSound (walk std node d)
unfolding walk
walk-IsSound std node d h = record {
  scored = h.scored;
  morse = h.morse;
  once = h.once;
  unprefixed = h.unprefixed;
}

pub count_deep_binary_expression-IsSound :
    (d : Deobfuscator) → IsSound d → IsSound (count_deep_binary_expression d)
count_deep_binary_expression-IsSound d h = record {
  scored = h.scored;
  morse = h.morse;
  once = h.once;
  unprefixed = h.unprefixed;
}

-- While texts are analyzed and nodes are walked, the scores stay positive, the morse literals are morse
-- and different, and the flag for prefixed identifiers is not set.
pub Run-IsSound : (std : Std) (d : Deobfuscator) → Run std d → IsSound d
Run-IsSound std d (started h) = new-IsSound d h
Run-IsSound std _ (analyzed {d} s r) = analyze_string-IsSound s d (Run-IsSound std d r)
Run-IsSound std _ (counted_array_value {d} r) =
    let h = Run-IsSound std d r in
    record { scored = h.scored; morse = h.morse; once = h.once; unprefixed = h.unprefixed }
Run-IsSound std _ (counted_binary_expression {d} r) =
    count_deep_binary_expression-IsSound d (Run-IsSound std d r)
Run-IsSound std _ (walked {d} node r) = walk-IsSound std node d (Run-IsSound std d r)
