-- ===== src/Examples/Texts.antt =====
-- Runs on the texts that crates/js-x-ray/src/utils/ judges.
use js_x_ray_rs.Utils.Svg.Documents.Complete.{Document-parse}
use js_x_ray_rs.Prelude.{
  [], ◌∷◌, arith, false, ◌≤◌, ◌<◌, ◌*◌, ◌⊎◌, ℕ, String, Bool, true, ◌&&◌, ◌||◌, some, List, leb,
  if◌then◌else◌, length, ◌≡◌, refl, codes, ◌↔◌, ◌==◌,
}
use js_x_ray_rs.Examples.Trees.{ascii}
use js_x_ray_rs.Utils.Minified.{is_minified_code}
use js_x_ray_rs.Utils.Minified.Majority.{longer, lengths, is_minified_code_answers}
use js_x_ray_rs.Utils.SafeRegex.{
  Parsed, ok, err, leaf, repetition, unsupported_look_around, is_safe_regex,
}
use js_x_ray_rs.Utils.SafeRegex.Heights.{Passes, is_safe_regex-Passes}
use js_x_ray_rs.Utils.Svg.{new, front, parse}
use js_x_ray_rs.Utils.Svg.Documents.{
  token_at, single, empty, Token, alone, more, end_, Lexes, Document, first_name,
}
use js_x_ray_rs.Utils.Svg.Documents.Sound.{parse-Document}

-- A parser that knows three patterns.
abbrev three_patterns : String → Parsed
three_patterns pattern_ =
    if pattern_ == "(?=a)"
    then err (record { kind = unsupported_look_around; start = 0; stop = 3 })
    else if pattern_ == "(?:a)"
    then ok leaf
    else ok (repetition (repetition leaf))

is_safe_regex-Passes_example :
    (is_safe_regex three_patterns "(?=a)" ≡ true) ↔ Passes three_patterns 63 "(?=a)"
is_safe_regex-Passes_example = is_safe_regex-Passes three_patterns "(?=a)"

patched_runs : is_safe_regex three_patterns "(?=a)" ≡ true
unfolding is_safe_regex
patched_runs = refl

abbrev ascii_letter : ℕ → Bool
ascii_letter c = leb b'a' c && leb c b'z' || leb b'A' c && leb c b'Z'

abbrev two_tags : List ℕ
two_tags = codes "<svg a='1'><g/>t</svg> <!-- c -->"

two_tags_runs : parse ascii_letter ascii_letter (new two_tags) ≡ some (codes "svg")
unfolding parse
two_tags_runs = refl

parse-Document_example :
    (tokens : List Token) × Lexes ascii_letter ascii_letter two_tags tokens
    × Document tokens
    × (first_name tokens ≡ some (codes "svg"))
parse-Document_example =
    parse-Document ascii_letter ascii_letter two_tags (codes "svg") two_tags_runs

is_minified_code_answers_example :
    (answer : Bool) × (is_minified_code ascii "let a;\nlet b;\n" ≡ some answer)
    × (answer ≡ true
        → (length (lengths ascii "let a;\nlet b;\n") ≤ 1)
          ⊎ (length (lengths ascii "let a;\nlet b;\n")
              ≤ 2 * longer 200 (lengths ascii "let a;\nlet b;\n")))
    × (answer ≡ false
        → (1 < length (lengths ascii "let a;\nlet b;\n"))
          × (2 * longer 200 (lengths ascii "let a;\nlet b;\n")
              ≤ length (lengths ascii "let a;\nlet b;\n")))
is_minified_code_answers_example = is_minified_code_answers ascii "let a;\nlet b;\n"

-- An element that closes itself.
abbrev alone_text : List ℕ
alone_text = codes "<g/>"

alone_text-Lexes : Lexes ascii_letter ascii_letter alone_text (alone (codes "g") ∷ [])
unfolding front token_at
alone_text-Lexes = more (omega arith) refl end_

Document-parse_example :
    parse ascii_letter ascii_letter (new alone_text) ≡ first_name (alone (codes "g") ∷ [])
Document-parse_example =
    Document-parse ascii_letter ascii_letter alone_text (alone (codes "g") ∷ []) alone_text-Lexes
      (single empty)
