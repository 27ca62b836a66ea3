-- ===== src/Obfuscation.antt =====
-- The recognition of obfuscated sources: crates/js-x-ray/src/deobfuscator.rs. The seven counters, an
-- array in the source, are the fields of `Counters` in the order of that array.
pub mod Counter
pub mod Score
pub mod Morse
pub mod Verify
pub mod Counts
pub mod Run
pub mod Verdict
use js_x_ray_rs.Prelude.{
  ℕ, zero, suc, ◌+◌, ◌-◌, ◌%◌, ◌^◌, String, Bool, true, false, not, ◌&&◌, ◌||◌, Option, none, some,
  ◌>>=◌, List, [], ◌∷◌, ◌++◌, ◌==◌, map, if◌then◌else◌, leb, ltb, eqb, all, length, unwrap_or,
  is_some_and, contains_text, ◌≡◌, refl, flat_map, retain,
}
use js_x_ray_rs.Prelude.IndexMap
use js_x_ray_rs.Prelude.IndexMap.{IndexMap, insert_set}
use js_x_ray_rs.Json.{Node, Value, null, get, get_str, get_array, is_null}
use js_x_ray_rs.Std.{Std}
use js_x_ray_rs.Estree.{is_type, is_identifier, type_among}
use js_x_ray_rs.Estree.Bindings.{get_variable_declaration_identifiers}
use js_x_ray_rs.Utils.Patterns.{CommonHexadecimalPrefixResult, common_hexadecimal_prefix}
use js_x_ray_rs.Obfuscation.Counter.{NodeCounter, new_counter, with_options, walk_counter}
use js_x_ray_rs.Obfuscation.Score.{string_suspicion_score}
use js_x_ray_rs.Obfuscation.Morse.{is_morse}
use js_x_ray_rs.Obfuscation.Verify.{
  ObfuscatedIdentifier, ObfuscatedCounters, is_above_80, verify_jsfuck, verify_jjencode,
  verify_freejsobfuscator,
}

pub record Counters : Type 0 where
  pub variable_declaration : NodeCounter
  pub assignment_expression : NodeCounter
  pub function_declaration : NodeCounter
  pub member_expression : NodeCounter
  pub property : NodeCounter
  pub double_unary_expression : NodeCounter
  pub variable_declarator : NodeCounter

pub record Deobfuscator : Type 0 where
  pub deep_binary_expression : ℕ
  pub encoded_array_value : ℕ
  pub has_dictionary_string : Bool
  pub has_prefixed_identifiers : Bool
  pub morse_literals : List String
  pub literal_scores : List ℕ
  pub identifiers : List ObfuscatedIdentifier
  pub counters : Counters

abbrev or_null : Option Value → Value
or_null = unwrap_or null

abbrev has_identifier_key : Node → Bool
has_identifier_key node = is_identifier (or_null (get "key" node))

abbrev is_double_unary : Node → Bool
is_double_unary node =
    let argument = or_null (get "argument" node) in
    is_type argument "UnaryExpression"
    && is_type (or_null (get "argument" argument)) "ArrayExpression"

-- `Deobfuscator::new`; `none` is a panic of `NodeCounter::new`.
unfoldable pub new : Option Deobfuscator
unfolding new_counter with_options is_identifier is_type get
new = do
  variable_declaration ← new_counter "VariableDeclaration[kind]"
  assignment_expression ← new_counter "AssignmentExpression"
  function_declaration ← new_counter "FunctionDeclaration"
  member_expression ← new_counter "MemberExpression[computed]"
  property ← with_options "Property" (record { name = none; filter = some has_identifier_key })
  double_unary_expression ←
      with_options "UnaryExpression"
        (record { name = some "DoubleUnaryExpression"; filter = some is_double_unary })
  variable_declarator ← new_counter "VariableDeclarator"
  some (record {
    deep_binary_expression = 0;
    encoded_array_value = 0;
    has_dictionary_string = false;
    has_prefixed_identifiers = false;
    morse_literals = [];
    literal_scores = [];
    identifiers = [];
    counters = record {
      variable_declaration = variable_declaration;
      assignment_expression = assignment_expression;
      function_declaration = function_declaration;
      member_expression = member_expression;
      property = property;
      double_unary_expression = double_unary_expression;
      variable_declarator = variable_declarator;
    };
  })

-- `analyze_string`, in its three steps.
abbrev dictionary_str_parts : List String
dictionary_str_parts =
    "abcdefghijklmnopqrstuvwxyz" ∷ "ABCDEFGHIJKLMNOPQRSTUVWXYZ" ∷ "0123456789" ∷ []

abbrev pub push_score : ℕ → Deobfuscator → Deobfuscator
push_score score d =
    if eqb score 0 then d else record d { literal_scores = d.literal_scores ++ score ∷ [] }

abbrev pub look_for_dictionary : String → Deobfuscator → Deobfuscator
look_for_dictionary s d =
    if not d.has_dictionary_string && all (λ word. contains_text s word) dictionary_str_parts
    then record d { has_dictionary_string = true }
    else d

abbrev pub look_for_morse : String → Deobfuscator → Deobfuscator
look_for_morse s d =
    if is_morse s then record d { morse_literals = insert_set s d.morse_literals } else d

unfoldable pub analyze_string : String → Deobfuscator → Deobfuscator
unfolding string_suspicion_score contains_text insert_set is_morse
analyze_string s d =
    look_for_morse s (look_for_dictionary s (push_score (string_suspicion_score s) d))

-- The probe of binary expressions counts a deep one (probes/is_binary_expression.rs).
abbrev pub count_deep_binary_expression : Deobfuscator → Deobfuscator
count_deep_binary_expression d = record d {
  deep_binary_expression = (d.deep_binary_expression + 1) % 2 ^ 32;
}

-- `extract_identifier_nodes`
abbrev option_list {ℓ} : {A : Type ℓ} → Option A → List A
option_list none = []
option_list (some a) = a ∷ []

abbrev named : String → Node → List ObfuscatedIdentifier
named kind node =
    if is_identifier node
    then elim (get_str "name" node) [
      | none ↦ []
      | some name ↦ record { name = name; kind = kind } ∷ []
    ]
    else []

unfoldable pub extract_identifier_nodes : String → List Node → List ObfuscatedIdentifier
unfolding is_identifier get_str
extract_identifier_nodes kind nodes = flat_map (named kind) nodes

-- `extract_counter_identifiers`
unfoldable pub extract_counter_identifiers : String → Node → List ObfuscatedIdentifier
unfolding is_identifier get_str is_null get_variable_declaration_identifiers
extract_counter_identifiers counter_type node =
    if is_null node
    then []
    else if counter_type == "VariableDeclarator" || counter_type == "AssignmentExpression"
    then map (λ binding. record { name = binding.0; kind = counter_type })
        (get_variable_declaration_identifiers node none)
    else if counter_type == "Property" || counter_type == "FunctionDeclaration"
    then named counter_type node
    else []

-- What `walk` collects before it counts.
unfoldable pub declared_identifiers : Node → List ObfuscatedIdentifier
unfolding extract_identifier_nodes is_type type_among is_null get get_array
declared_identifiers node =
    if is_type node "ClassDeclaration"
    then extract_identifier_nodes "ClassDeclaration" (
        retain (λ candidate. not (is_null candidate))
          (option_list (get "id" node) ++ option_list (get "superClass" node)))
    else if type_among node ("FunctionDeclaration" ∷ "FunctionExpression" ∷ [])
    then extract_identifier_nodes "FunctionParams" (unwrap_or [] (get_array "params" node))
    else if is_type node "MethodDefinition"
    then extract_identifier_nodes "MethodDefinition" (option_list (get "key" node))
    else []

-- The child of a matching node that a counter forwards.
unfoldable pub target_of : String → Node → Option Node
unfolding get
target_of kind node =
    if kind == "AssignmentExpression"
    then get "left" node
    else if kind == "FunctionDeclaration"
    then get "id" node
    else if kind == "Property"
    then get "key" node
    else if kind == "VariableDeclarator"
    then get "id" node
    else none

abbrev forwarded : String → Node → Bool → List ObfuscatedIdentifier
forwarded kind node matched =
    if matched
    then elim (target_of kind node) [
      | none ↦ []
      | some target ↦ extract_counter_identifiers kind target
    ]
    else []

-- One counter of the loop of `walk`: the counter, and the identifiers after it.
unfoldable pub walk_one :
    Std → Node → NodeCounter → List ObfuscatedIdentifier → NodeCounter × List ObfuscatedIdentifier
unfolding walk_counter target_of extract_counter_identifiers
walk_one std node counter identifiers =
    let (walked, matched) = walk_counter std counter node in
    (walked, identifiers ++ forwarded counter.kind node matched)

-- `walk`
unfoldable pub walk : Std → Node → Deobfuscator → Deobfuscator
unfolding declared_identifiers walk_one
walk std node d =
    let c = d.counters in
    let (variable_declaration, ids1) =
      walk_one std node c.variable_declaration (d.identifiers ++ declared_identifiers node) in
    let (assignment_expression, ids2) = walk_one std node c.assignment_expression ids1 in
    let (function_declaration, ids3) = walk_one std node c.function_declaration ids2 in
    let (member_expression, ids4) = walk_one std node c.member_expression ids3 in
    let (property, ids5) = walk_one std node c.property ids4 in
    let (double_unary_expression, ids6) = walk_one std node c.double_unary_expression ids5 in
    let (variable_declarator, ids7) = walk_one std node c.variable_declarator ids6 in
    record d {
      identifiers = ids7;
      counters = record {
        variable_declaration = variable_declaration;
        assignment_expression = assignment_expression;
        function_declaration = function_declaration;
        member_expression = member_expression;
        property = property;
        double_unary_expression = double_unary_expression;
        variable_declarator = variable_declarator;
      };
    }

unfoldable pub aggregate_counters : Deobfuscator → ObfuscatedCounters
aggregate_counters d =
    let c = d.counters in
    record {
      identifiers = length d.identifiers;
      variable_declaration = c.variable_declaration.properties;
      assignment_expression = c.assignment_expression.count;
      function_declaration = c.function_declaration.count;
      member_expression = c.member_expression.properties;
      property = c.property.count;
      double_unary_expression = c.double_unary_expression.count;
      variable_declarator = c.variable_declarator.count;
    }

-- `calc_avg_prefixed_identifiers`: the two largest counts, where there are two.
abbrev pub two_largest : ℕ → ℕ → IndexMap ℕ → ℕ × ℕ
two_largest first second [] = (first, second)
two_largest first second ((k, n) ∷ m) =
    if ltb first n
    then two_largest n first m
    else if ltb second n
    then two_largest first n m
    else two_largest first second m

abbrev nb_of_prefixed_ids : IndexMap ℕ → ℕ
nb_of_prefixed_ids prefix = let (first, second) = two_largest 0 0 prefix in first + second

-- `calc_avg_prefixed_identifiers(counters, prefix) > 80.0`. A quotient by 0 is infinite, or no number
-- where it is 0 / 0; a quotient by a negative number is not above 80.
unfoldable pub is_mostly_prefixed : ObfuscatedCounters → IndexMap ℕ → Bool
is_mostly_prefixed counters prefix =
    let nb = nb_of_prefixed_ids prefix in
    if eqb (length prefix) 0
    then false
    else if leb counters.property counters.identifiers
    then is_above_80 nb (counters.identifiers - counters.property)
    else false

-- obfuscators/obfuscator_io.rs
unfoldable pub verify_obfuscator_io : Deobfuscator → ObfuscatedCounters → Bool
unfolding IndexMap.get
verify_obfuscator_io d counters =
    let has_some_patterns =
      ltb 0 counters.double_unary_expression
      || ltb 0 d.deep_binary_expression
      || ltb 0 d.encoded_array_value
      || d.has_dictionary_string in
    if ltb 0 (unwrap_or 0 (IndexMap.get "false" counters.member_expression))
      || eqb counters.double_unary_expression 0
    then false
    else d.has_prefixed_identifiers && has_some_patterns

-- The end of `assert_obfuscation`, once the prefixes are known.
abbrev pub judge_prefixes : ObfuscatedCounters → IndexMap ℕ → Deobfuscator → Deobfuscator
judge_prefixes counters prefix d =
    if ltb 5 (length d.identifiers) && ltb 0 (length prefix)
    then record d { has_prefixed_identifiers = is_mostly_prefixed counters prefix }
    else d

abbrev pub verdict : ObfuscatedCounters → IndexMap ℕ → Deobfuscator → Option String
verdict counters prefix d =
    if eqb (length prefix) 1 && verify_freejsobfuscator d.identifiers prefix
    then some "freejsobfuscator"
    else if verify_obfuscator_io d counters
    then some "obfuscator.io"
    else none

abbrev pub judged :
    ObfuscatedCounters → Deobfuscator → CommonHexadecimalPrefixResult → Deobfuscator × Option String
judged counters d result =
    let d' = judge_prefixes counters result.prefix d in (d', verdict counters result.prefix d')

abbrev pub by_prefixes : ObfuscatedCounters → Deobfuscator → Option (Deobfuscator × Option String)
by_prefixes counters d = do
  result ←
      common_hexadecimal_prefix
        (map (λ (identifier : ObfuscatedIdentifier). identifier.name) d.identifiers)
  some (judged counters d result)

-- `assert_obfuscation`: the deobfuscator, whose flag it sets, and the name of the obfuscator; `none` is
-- a panic.
unfoldable pub assert_obfuscation : Deobfuscator → Option (Deobfuscator × Option String)
unfolding aggregate_counters verify_jsfuck verify_jjencode verify_freejsobfuscator
    verify_obfuscator_io is_mostly_prefixed common_hexadecimal_prefix
assert_obfuscation d =
    let counters = aggregate_counters d in
    let rest = by_prefixes counters d in
    if verify_jsfuck counters
    then some (d, some "jsfuck")
    else if verify_jjencode d.identifiers counters
    then some (d, some "jjencode")
    else if leb 36 (length d.morse_literals)
    then some (d, some "morse")
    else rest
