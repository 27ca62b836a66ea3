-- ===== src/Obfuscation/Score.antt =====
-- The suspicion score of a text: crates/js-x-ray/src/utils/string_suspicion_score.rs.
use js_x_ray_rs.Prelude.{
  ℕ, suc, ◌+◌, ◌/◌, ◌≤◌, String, Bool, true, false, ◌&&◌, ◌||◌, List, [], ◌∷◌, if◌then◌else◌, leb,
  ltb, eqb, all, any, take, codes, length, ◌≡◌, arith,
}
use js_x_ray_rs.Utils.Hex.{string_char_diversity}

-- `encode_utf16().count()`: a code point past the basic plane takes two units.
abbrev pub utf16_count : List ℕ → ℕ
utf16_count [] = 0
utf16_count (c ∷ cs) = (if ltb c 65536 then 1 else 2) + utf16_count cs

abbrev is_combining : ℕ → Bool
is_combining c =
    leb 768 c && leb c 879
    || leb 6832 c && leb c 6911
    || leb 8400 c && leb c 8447
    || leb 65056 c && leb c 65071

-- The loop of `string_length`: a combining mark after a base counts with it.
abbrev merged_count : Bool → List ℕ → ℕ
merged_count previous_was_base [] = 0
merged_count previous_was_base (c ∷ cs) =
    let merged = merged_count previous_was_base cs in
    let counted = suc (merged_count true cs) in
    if is_combining c && previous_was_base then merged else counted

abbrev length_of_codes : List ℕ → ℕ
length_of_codes cs =
    if leb (utf16_count cs) 128 || all (λ c. ltb c 128) cs
    then utf16_count cs
    else merged_count false cs

unfoldable pub string_length : String → ℕ
string_length s = if eqb (length (codes s)) 0 then 0 else length_of_codes (codes s)

-- A space among the first 45 characters, where the text has one.
unfoldable pub space_at_start : String → Bool
space_at_start s =
    if any (λ c. eqb c 32) (codes s) then any (λ c. eqb c 32) (take 45 (codes s)) else false

-- `ceil` of the length by 750.
abbrev length_score : ℕ → ℕ
length_score n = if ltb 200 n then (n + 749) / 750 else 0

abbrev score_of : ℕ → Bool → ℕ → ℕ
score_of str_len space diversity =
    let suspect_score = (if space then 0 else 1) + length_score str_len in
    if ltb str_len 45 then 0 else if leb 70 diversity then suspect_score + 2 else suspect_score

unfoldable pub string_suspicion_score : String → ℕ
unfolding string_length space_at_start
string_suspicion_score s = score_of (string_length s) (space_at_start s) (string_char_diversity s)

-- The texts that are not suspicious: those shorter than 45, and those of at most 200 with a space among
-- the first 45 characters and fewer than 70 different characters.
abbrev pub is_harmless : String → Bool
is_harmless s =
    ltb (string_length s) 45
    || leb (string_length s) 200 && space_at_start s && ltb (string_char_diversity s) 70

length_score_zero : (n : ℕ) → eqb (length_score n) 0 ≡ leb n 200
length_score_zero n = ground arith

score_of_zero :
    (n : ℕ) (space : Bool) (diversity : ℕ)
    → eqb (score_of n space diversity) 0 ≡ (ltb n 45 || leb n 200 && space && ltb diversity 70)
score_of_zero n space diversity = ground (arith, length_score_zero n)

-- A text scores 0 exactly if it is shorter than 45, or if it is of at most 200 with a space among the
-- first 45 characters and fewer than 70 different characters.
pub string_suspicion_score_zero : (s : String) → eqb (string_suspicion_score s) 0 ≡ is_harmless s
unfolding string_suspicion_score
string_suspicion_score_zero s =
    score_of_zero (string_length s) (space_at_start s) (string_char_diversity s)

merged-le-utf16 : (b : Bool) (cs : List ℕ) → merged_count b cs ≤ utf16_count cs
merged-le-utf16 b [] = omega arith
merged-le-utf16 b (c ∷ cs) = ground (arith, merged-le-utf16 b cs, merged-le-utf16 true cs)

string_length-le : (s : String) → string_length s ≤ utf16_count (codes s)
unfolding string_length
string_length-le s = ground (arith, merged-le-utf16 false (codes s))
