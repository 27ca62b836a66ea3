-- ===== src/SourceFile/Analysis/Result.antt =====
-- What the result of a source file warns of (crates/js-x-ray/src/source_file.rs: `get_result`).
use mathlib.Core.List.{append_assoc, append-nil}
use js_x_ray_rs.Prelude.{
  String, Bool, true, false, not, Option, none, some, List, [], ◌∷◌, ◌++◌, ◌==◌, map, retain, ltb,
  length, ◌≡◌, ◌≢◌, refl, sym, ap, ap₂, subst, ◌∙◌, if◌then◌else◌, Bool-cases, inl, inr, All,
  All-append, >>=-some,
}
use js_x_ray_rs.Std.{Std}
use js_x_ray_rs.Utils.Patterns.Totals.{head}
use js_x_ray_rs.Obfuscation.{Deobfuscator, assert_obfuscation}
use js_x_ray_rs.Obfuscation.Verdict.{names_of, assert_obfuscation_returns}
use js_x_ray_rs.Warnings.{Warning, GenerateWarningOptions, generate_warning, warnings, no_options}
use js_x_ray_rs.SourceFile.{SourceFile, warn}
use js_x_ray_rs.SourceFile.Analysis.{
  Mean, mean, ids_lengths, js_float_string, value_only, warn_if, warn_obfuscator,
  has_short_identifiers, is_suspicious, is_full, without_encoded, summarize_literals, get_result,
}

abbrev kinds_of : List Warning → List String
kinds_of ws = map (λ (w : Warning). w.kind) ws

abbrev pub is_other : Warning → Bool
is_other w = not (w.kind == "encoded-literal")

-- The kind, where the test holds.
abbrev pub when : Bool → String → List String
when true kind = kind ∷ []
when false kind = []

abbrev pub named_kinds : Option String → List String
named_kinds none = []
named_kinds (some name) = "obfuscated-code" ∷ []

-- The file after has more warnings, of these kinds.
record Extends (kinds : List String) (before after : SourceFile) : Type 0 where
  more : List Warning
  warned : after.warnings ≡ before.warnings ++ more
  told : kinds_of more ≡ kinds
  literals : after.encoded_literals ≡ before.encoded_literals

-- The kind has a row in the table.
abbrev Listed : String → Type 0
Listed kind =
    (options : GenerateWarningOptions)
    → (w : Warning) × (generate_warning kind options ≡ some w) × (w.kind ≡ kind)

kinds_of-append : (xs ys : List Warning) → kinds_of (xs ++ ys) ≡ kinds_of xs ++ kinds_of ys
kinds_of-append [] ys = refl
kinds_of-append (x ∷ xs) ys = ap (λ l. x.kind ∷ l) (kinds_of-append xs ys)

module _ (before file : SourceFile) {kinds : List String} (h : Extends kinds before file) where
  warn-Extends :
      (kind : String) (options : GenerateWarningOptions)
      → Listed kind
      → (after : SourceFile) × (warn kind options file ≡ some after)
        × Extends (kinds ++ kind ∷ []) before after
  warn-Extends kind options listed =
      let (w, e, k) = listed options in
      (
        record file { warnings = file.warnings ++ w ∷ [] },
        rw e refl,
        record {
          more = h.more ++ w ∷ [];
          warned = ap (λ l. l ++ w ∷ []) h.warned ∙ append_assoc before.warnings h.more (w ∷ []);
          told = kinds_of-append h.more (w ∷ []) ∙ ap₂ (λ xs x. xs ++ x ∷ []) h.told k;
          literals = h.literals;
        },
      )

  still : Extends (kinds ++ []) before file
  still = record {
    more = h.more;
    warned = h.warned;
    told = h.told ∙ sym (append-nil kinds);
    literals = h.literals;
  }

  warn_if-Extends :
      (test : Bool) (kind : String) (options : GenerateWarningOptions)
      → Listed kind
      → (after : SourceFile) × (warn_if test kind options file ≡ some after)
        × Extends (kinds ++ when test kind) before after
  unfolding warn_if
  warn_if-Extends true kind options listed = warn-Extends kind options listed
  warn_if-Extends false kind options listed = (file, refl, still)

  warn_obfuscator-Extends :
      (name : Option String)
      → Listed "obfuscated-code"
      → (after : SourceFile) × (warn_obfuscator name file ≡ some after)
        × Extends (kinds ++ named_kinds name) before after
  unfolding warn_obfuscator
  warn_obfuscator-Extends none listed = (file, refl, still)
  warn_obfuscator-Extends (some name) listed =
      warn-Extends "obfuscated-code" (value_only name) listed

retain-append :
    (xs ys : List Warning) → retain is_other (xs ++ ys) ≡ retain is_other xs ++ retain is_other ys
retain-append [] ys = refl
retain-append (x ∷ xs) ys = elim (Bool-cases (is_other x)) [
  | inl e ↦ rw e (ap (λ l. x ∷ l) (retain-append xs ys))
  | inr e ↦ rw e (retain-append xs ys)
]

abbrev IsOther : String → Type 0
IsOther kind = (kind == "encoded-literal") ≡ false

retain-others : (ws : List Warning) → All IsOther (kinds_of ws) → retain is_other ws ≡ ws
retain-others [] h = refl
retain-others (w ∷ ws) h = rw h.0 (ap (λ l. w ∷ l) (retain-others ws h.1))

when-others : (test : Bool) (kind : String) → IsOther kind → All IsOther (when test kind)
when-others true kind h = (h, tt)
when-others false kind h = tt

named_kinds-others : (name : Option String) → All IsOther (named_kinds name)
named_kinds-others none = tt
named_kinds-others (some name) = (refl, tt)

-- The warnings after: those of before, without the ones of encoded literals where there are more than
-- ten of these, and then the summaries, in this order.
pub record IsReport (is_minified : Bool) (before after : SourceFile) (ids score : Mean)
    : Type 0 where
  pub deobfuscator : Deobfuscator
  pub name : Option String
  pub judged : assert_obfuscation before.deobfuscator ≡ some (deobfuscator, name)
  pub more : List Warning
  pub warned :
      after.warnings
      ≡ (if is_full before then retain is_other before.warnings else before.warnings) ++ more
  pub told :
      kinds_of more
      ≡ named_kinds name
        ++ when (has_short_identifiers is_minified ids) "short-identifiers"
        ++ when (is_suspicious score) "suspicious-literal"
        ++ when (is_full before) "suspicious-file"

summarize-Extends :
    (before file : SourceFile) {kinds : List String}
    → Extends kinds before file
    → All IsOther kinds
    → Listed "suspicious-file"
    → (after : SourceFile) × (summarize_literals file ≡ some after)
      × (more : List Warning) × (after.warnings
          ≡ (if is_full before then retain is_other before.warnings else before.warnings) ++ more)
      × (kinds_of more ≡ kinds ++ when (is_full before) "suspicious-file")
unfolding summarize_literals
summarize-Extends before file {kinds} h others listed =
    let same : is_full file ≡ is_full before = ap (λ l. ltb 10 (length l)) h.literals in
    elim (Bool-cases (is_full before)) [
      | inl e ↦
          let (after, made, k) = warn-Extends before file h "suspicious-file" no_options listed in
          let told : All IsOther (kinds_of k.more) =
            subst (All IsOther) (sym k.told)
              (All-append IsOther kinds ("suspicious-file" ∷ []) others (refl, tt)) in
          (
            without_encoded after,
            rw (same, e)
                (>>=-some (warn "suspicious-file" no_options file)
                  (λ warned. some (without_encoded warned)) made refl),
            k.more,
            rw e (
                ap (retain is_other) k.warned
                ∙ retain-append before.warnings k.more
                ∙ ap (λ l. retain is_other before.warnings ++ l) (retain-others k.more told)),
            rw e k.told,
          )
      | inr e ↦
          let k = still before file h in
          (file, rw (same, e) refl, k.more, rw e k.warned, rw e k.told)
    ]

obfuscated_in_table : Listed "obfuscated-code"
unfolding generate_warning warnings
obfuscated_in_table options = (_, refl, refl)

short_in_table : Listed "short-identifiers"
unfolding generate_warning warnings
short_in_table options = (_, refl, refl)

suspicious_in_table : Listed "suspicious-literal"
unfolding generate_warning warnings
suspicious_in_table options = (_, refl, refl)

file_in_table : Listed "suspicious-file"
unfolding generate_warning warnings
file_in_table options = (_, refl, refl)

-- The result returns where the identifiers are not empty. Past ten encoded literals their warnings go,
-- and all else that was warned of stays; then come the summaries, each where its test holds: of the
-- obfuscator, of short identifiers, of suspicious literals, and of the encoded literals.
pub get_result-IsReport :
    (std : Std) (is_minified : Bool) (file : SourceFile)
    → All (λ name. head name ≢ 0) (names_of file.deobfuscator)
    → (after : SourceFile) × (ids : Mean) × (score : Mean) × (get_result std is_minified file
        ≡ some (after, ids, score))
      × IsReport is_minified file after ids score
unfolding get_result
get_result-IsReport std is_minified file filled =
    let ((d, name), judged) = assert_obfuscation_returns file.deobfuscator filled in
    let ids = mean (ids_lengths d.identifiers) in
    let score = mean d.literal_scores in
    let start : SourceFile = record file { deobfuscator = d } in
    let begun : Extends [] file start = record {
      more = [];
      warned = sym (append-nil file.warnings);
      told = refl;
      literals = refl;
    } in
    let (named, e1, h1) = warn_obfuscator-Extends file start begun name obfuscated_in_table in
    let (short, e2, h2) =
      warn_if-Extends file named h1 (has_short_identifiers is_minified ids) "short-identifiers"
        (value_only (js_float_string std ids)) short_in_table in
    let (suspicious, e3, h3) =
      warn_if-Extends file short h2 (is_suspicious score) "suspicious-literal"
        (value_only (js_float_string std score)) suspicious_in_table in
    let others =
      All-append IsOther _ _
        (All-append IsOther _ _ (named_kinds-others name)
          (when-others (has_short_identifiers is_minified ids) "short-identifiers" refl))
        (when-others (is_suspicious score) "suspicious-literal" refl) in
    let (after, e4, more, warned, told) =
      summarize-Extends file suspicious h3 others file_in_table in
    (
      after,
      ids,
      score,
      >>=-some (assert_obfuscation file.deobfuscator) _ judged (
          >>=-some (warn_obfuscator name start) _ e1 (
            >>=-some
              (warn_if (has_short_identifiers is_minified ids) "short-identifiers"
                (value_only (js_float_string std ids)) named)
              _ e2
              (>>=-some
                (warn_if (is_suspicious score) "suspicious-literal"
                  (value_only (js_float_string std score)) short)
                _ e3 (>>=-some (summarize_literals suspicious) _ e4 refl)))),
      record {
        deobfuscator = d;
        name = name;
        judged = judged;
        more = more;
        warned = warned;
        told = told;
      },
    )
