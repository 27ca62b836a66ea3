-- ===== src/Obfuscation/Verify.antt =====
-- The recognisers of obfuscators: crates/js-x-ray/src/obfuscators/.
use js_x_ray_rs.Prelude.{
  ℕ, zero, suc, ◌*◌, String, Bool, true, false, ◌&&◌, ◌||◌, Option, none, some, List, [], ◌∷◌,
  if◌then◌else◌, leb, ltb, eqb, all, any, codes, length, retain, ◌≡◌, refl, strip_prefix,
}
use js_x_ray_rs.Prelude.IndexMap.{IndexMap}

-- `ObfuscatedIdentifier`: `kind` is its `type`.
pub record ObfuscatedIdentifier : Type 0 where
  pub name : String
  pub kind : String

pub record ObfuscatedCounters : Type 0 where
  pub identifiers : ℕ
  pub variable_declaration : IndexMap ℕ
  pub variable_declarator : ℕ
  pub assignment_expression : ℕ
  pub function_declaration : ℕ
  pub member_expression : IndexMap ℕ
  pub property : ℕ
  pub double_unary_expression : ℕ

-- `pourcent > 80.0` for `part / whole * 100`: 0 / 0 is no number, and no more than 80.
abbrev pub is_above_80 : ℕ → ℕ → Bool
is_above_80 part whole = ltb (80 * whole) (100 * part)

-- obfuscators/jsfuck.rs
unfoldable pub verify_jsfuck : ObfuscatedCounters → Bool
verify_jsfuck counters =
    let has_zero_assign =
      eqb counters.assignment_expression 0
      && eqb counters.function_declaration 0
      && eqb counters.property 0
      && eqb counters.variable_declarator 0 in
    has_zero_assign && leb 5 counters.double_unary_expression

-- obfuscators/jjencode.rs
abbrev pub is_jj_regular_symbol : ℕ → Bool
is_jj_regular_symbol c = eqb c 36 || eqb c 95

abbrev pub match_count : List ObfuscatedIdentifier → ℕ
match_count identifiers = length (
    retain (λ (identifier : ObfuscatedIdentifier). all is_jj_regular_symbol (codes identifier.name))
      identifiers)

unfoldable pub verify_jjencode : List ObfuscatedIdentifier → ObfuscatedCounters → Bool
verify_jjencode identifiers counters =
    if ltb 0 counters.variable_declarator || ltb 0 counters.function_declaration
    then false
    else if ltb counters.property counters.assignment_expression
    then false
    else is_above_80 (match_count identifiers) (length identifiers)

-- obfuscators/freejsobfuscator.rs: after the prefix, `[a-zA-Z]{1,2}[0-9]{0,2}` to the end.
abbrev is_letter : ℕ → Bool
is_letter c = leb 97 c && leb c 122 || leb 65 c && leb c 90

abbrev is_digit : ℕ → Bool
is_digit c = leb 48 c && leb c 57

-- At most `n` digits, to the end.
abbrev digits_to_end : ℕ → List ℕ → Bool
digits_to_end n [] = true
digits_to_end zero (c ∷ cs) = false
digits_to_end (suc n) (c ∷ cs) = is_digit c && digits_to_end n cs

abbrev letters_and_digits : List ℕ → Bool
letters_and_digits [] = false
letters_and_digits (c ∷ []) = is_letter c
letters_and_digits (c ∷ d ∷ cs) =
    is_letter c && (if is_letter d then digits_to_end 2 cs else digits_to_end 2 (d ∷ cs))

abbrev matches_prefix : String → String → Bool
matches_prefix p_value name = elim (strip_prefix name p_value) [
  | none ↦ false
  | some rest ↦ letters_and_digits (codes rest)
]

-- `prefix.keys().next_back()`
abbrev last_key : IndexMap ℕ → Option String
last_key [] = none
last_key ((k, n) ∷ []) = some k
last_key (e ∷ f ∷ m) = last_key (f ∷ m)

unfoldable pub verify_freejsobfuscator : List ObfuscatedIdentifier → IndexMap ℕ → Bool
unfolding strip_prefix
verify_freejsobfuscator identifiers prefix = elim (last_key prefix) [
  | none ↦ false
  | some p_value ↦
      all (λ (identifier : ObfuscatedIdentifier). matches_prefix p_value identifier.name)
        identifiers
]

-- obfuscators/trojan_source.rs
unfoldable pub is_confusable_char : ℕ → Bool
is_confusable_char c =
    eqb c 160
    || eqb c 173
    || eqb c 1564
    || eqb c 6158
    || leb 8203 c && leb c 8207
    || leb 8234 c && leb c 8238
    || eqb c 8288
    || eqb c 8291
    || leb 8294 c && leb c 8297
    || leb 65024 c && leb c 65039
    || eqb c 65279
    || leb 917760 c && leb c 917999

unfoldable pub verify_trojan_source : String → Bool
unfolding is_confusable_char
verify_trojan_source source = any is_confusable_char (codes source)

free_runs :
    verify_freejsobfuscator (record { name = "_0xaB12"; kind = "Property" } ∷ []) (("_0x", 2) ∷ [])
    ≡ true
unfolding verify_freejsobfuscator
free_runs = refl
