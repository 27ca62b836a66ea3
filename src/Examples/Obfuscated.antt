-- ===== src/Examples/Obfuscated.antt =====
-- Runs of the recognition of obfuscators and of the pipelines.
use js_x_ray_rs.Prelude.{
  find, ◌==◌, ◌+◌, ◌%◌, ◌^◌, String, true, none, some, List, [], ◌∷◌, ◌≡◌, refl, arith, All, eqb,
  ◌↔◌, codes, length, ltb, unwrap_or, ◌&&◌, ◌≢◌,
}
use js_x_ray_rs.Prelude.IndexMap
use js_x_ray_rs.Prelude.IndexMap.{contains}
use js_x_ray_rs.Json.{Node, Value, object, field, end, string, array, nil}
use js_x_ray_rs.Json.Recursion.{recurse}
use js_x_ray_rs.Estree.Bindings.{auto_prefix}
use js_x_ray_rs.Utils.Patterns.{common_hexadecimal_prefix, CommonHexadecimalPrefixResult}
use js_x_ray_rs.Utils.Patterns.Totals.{total, head}
use js_x_ray_rs.Utils.Patterns.Counted.{common_hexadecimal_prefix-total}
use js_x_ray_rs.Obfuscation.{
  Deobfuscator, analyze_string, walk, assert_obfuscation, new, verify_obfuscator_io,
  aggregate_counters,
}
use js_x_ray_rs.Obfuscation.Counter.{NodeCounter, counts}
use js_x_ray_rs.Obfuscation.Counts.{walk_nodes, how_many, walk_nodes-count}
use js_x_ray_rs.Obfuscation.Score.{string_suspicion_score, string_suspicion_score_zero, is_harmless}
use js_x_ray_rs.Obfuscation.Morse.{is_morse, Morse, is_morse-Morse}
use js_x_ray_rs.Obfuscation.Run.{Run, started, analyzed, walked}
use js_x_ray_rs.Obfuscation.Verdict.{
  IsObfuscatorIo, names_of, verify_obfuscator_io-eq, assert_obfuscation-IsObfuscatorIo,
}
use js_x_ray_rs.Pipelines.{Pipeline, deobfuscate_walk, new_runner}
use js_x_ray_rs.Pipelines.Ends.{deobfuscate_walk_returns, AllFirst, new_runner-find}
use js_x_ray_rs.Examples.Trees.{ascii, call, identifier}

abbrev hexadecimal_names : List String
hexadecimal_names = "_0xb" ∷ "_0xa" ∷ "foo" ∷ []

common_hexadecimal_prefix-total_example :
    (result : CommonHexadecimalPrefixResult) × (common_hexadecimal_prefix hexadecimal_names
      ≡ some result)
    × (total result.prefix + result.one_time_occurence ≡ length hexadecimal_names)
common_hexadecimal_prefix-total_example =
    common_hexadecimal_prefix-total hexadecimal_names
      ((λ e. ground arith), ((λ e. ground arith), ((λ e. ground arith), tt)))

abbrev calls : NodeCounter
calls = record {
  kind = "CallExpression";
  name = "CallExpression";
  lookup = none;
  count = 4294967295;
  properties = [];
  filter_fn = λ _. true;
}

walk_nodes-count_example :
    (walk_nodes ascii (call ∷ call ∷ []) calls).count
    ≡ (4294967295 + how_many (counts calls) (call ∷ call ∷ [])) % 2 ^ 32
walk_nodes-count_example = walk_nodes-count ascii (call ∷ call ∷ []) calls (omega arith)

string_suspicion_score_zero_example : eqb (string_suspicion_score "eval") 0 ≡ is_harmless "eval"
string_suspicion_score_zero_example = string_suspicion_score_zero "eval"

is_morse-Morse_example : (is_morse "--.- --.--" ≡ true) ↔ Morse (codes "--.- --.--")
is_morse-Morse_example = is_morse-Morse "--.- --.--"

new_deobfuscator : (d : Deobfuscator) × (new ≡ some d)
unfolding new
new_deobfuscator = (_, refl)

abbrev seen : Deobfuscator
seen = walk ascii call (analyze_string "--.- --.--" new_deobfuscator.0)

seen-Run : Run ascii seen
seen-Run = walked call (analyzed "--.- --.--" (started new_deobfuscator.1))

-- `name` declared by itself.
abbrev declarator : String → Node
declarator name =
    object (field "type" (string "VariableDeclarator") (field "id" (identifier name) end))

-- `!![]`
abbrev double_unary : Node
double_unary = object (
    field "type" (string "UnaryExpression") (
      field "argument"
        (object (
          field "type" (string "UnaryExpression") (
            field "argument"
              (object (field "type" (string "ArrayExpression") (field "elements" (array nil) end)))
              end)))
        end))

abbrev obfuscated : Deobfuscator
obfuscated = walk ascii double_unary (
    walk ascii (declarator "_0x6") (
      walk ascii (declarator "_0x5") (
        walk ascii (declarator "_0x4") (
          walk ascii (declarator "_0x3")
            (walk ascii (declarator "_0x2") (walk ascii (declarator "_0x1") new_deobfuscator.0))))))

obfuscated-Run : Run ascii obfuscated
obfuscated-Run = walked double_unary (
    walked (declarator "_0x6") (
      walked (declarator "_0x5") (
        walked (declarator "_0x4") (
          walked (declarator "_0x3") (
            walked (declarator "_0x2")
              (walked (declarator "_0x1") (started new_deobfuscator.1)))))))

assert_obfuscation-IsObfuscatorIo_example : IsObfuscatorIo obfuscated
unfolding assert_obfuscation walk new_deobfuscator recurse auto_prefix
assert_obfuscation-IsObfuscatorIo_example =
    assert_obfuscation-IsObfuscatorIo ascii obfuscated
      (record obfuscated { has_prefixed_identifiers = true }) obfuscated-Run refl

verify_obfuscator_io-eq_example : verify_obfuscator_io seen (aggregate_counters seen) ≡ (
    eqb (unwrap_or 0 (IndexMap.get "false" (aggregate_counters seen).member_expression)) 0
    && ltb 0 (aggregate_counters seen).double_unary_expression
    && seen.has_prefixed_identifiers)
verify_obfuscator_io-eq_example = verify_obfuscator_io-eq seen (aggregate_counters seen)

seen_names : All (λ name. head name ≢ 0) (names_of seen)
unfolding walk analyze_string new_deobfuscator
seen_names = tt

deobfuscate_walk_returns_example :
    (out : List Value) × (deobfuscate_walk ascii (call ∷ []) ≡ some out)
deobfuscate_walk_returns_example = deobfuscate_walk_returns ascii (call ∷ [])

-- Two pipelines of one name, and one of another.
abbrev three_pipelines : List Pipeline
three_pipelines =
    record { name = "inline"; walk = λ body. some body }
    ∷ record { name = "inline"; walk = λ body. none }
    ∷ record { name = "deobfuscate"; walk = λ body. some [] }
    ∷ []

new_runner-find_example :
    AllFirst [] (new_runner three_pipelines).pipelines
    × (find (λ pipeline. pipeline.name == "inline") (new_runner three_pipelines).pipelines
        ≡ find (λ pipeline. pipeline.name == "inline") three_pipelines)
new_runner-find_example = new_runner-find three_pipelines "inline"
