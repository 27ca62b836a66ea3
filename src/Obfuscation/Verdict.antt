-- ===== src/Obfuscation/Verdict.antt =====
-- When an obfuscator is named (crates/js-x-ray/src/deobfuscator.rs: `assert_obfuscation`).
use js_x_ray_rs.Prelude.{
  ℕ, ◌+◌, ◌-◌, ◌*◌, ◌≤◌, ◌<◌, [], ◌∷◌, String, Bool, true, false, ◌&&◌, Option, none, some, ◌>>=◌,
  List, ◌==◌, if◌then◌else◌, eqb, leb, ltb, length, unwrap_or, is_some_and, ◌≡◌, refl, ◌≢◌, arith,
  Bool-cases, inl, inr, ◌∙◌, ap, All, map, sym, subst,
}
use js_x_ray_rs.Prelude.IndexMap
use js_x_ray_rs.Prelude.IndexMap.{IndexMap}
use js_x_ray_rs.Std.{Std}
use js_x_ray_rs.Utils.Patterns.{CommonHexadecimalPrefixResult, common_hexadecimal_prefix}
use js_x_ray_rs.Utils.Patterns.Totals.{head}
use js_x_ray_rs.Utils.Patterns.Counted.{common_hexadecimal_prefix-total}
use js_x_ray_rs.Obfuscation.Verify.{
  ObfuscatedIdentifier, ObfuscatedCounters, verify_jsfuck, verify_jjencode,
}
use js_x_ray_rs.Obfuscation.{
  Deobfuscator, aggregate_counters, is_mostly_prefixed, verify_obfuscator_io, judge_prefixes,
  verdict, judged, by_prefixes, two_largest, assert_obfuscation,
}
use js_x_ray_rs.Obfuscation.Run.{Run, Run-IsSound}

-- The recogniser of obfuscator.io never consults the dictionary, the encoded arrays or the deep binary
-- expressions: its guard already asks for a double unary expression.
pub verify_obfuscator_io-eq :
    (d : Deobfuscator) (counters : ObfuscatedCounters)
    → verify_obfuscator_io d counters ≡ (
        eqb (unwrap_or 0 (IndexMap.get "false" counters.member_expression)) 0
        && ltb 0 counters.double_unary_expression
        && d.has_prefixed_identifiers)
unfolding verify_obfuscator_io
verify_obfuscator_io-eq d counters = ground arith

abbrev pub names_of : Deobfuscator → List String
names_of d = map (λ (identifier : ObfuscatedIdentifier). identifier.name) d.identifiers

pub record IsObfuscatorIo (d : Deobfuscator) : Type 0 where
  pub many : 5 < length d.identifiers
  pub computed : unwrap_or 0 (IndexMap.get "false" (aggregate_counters d).member_expression) ≡ 0
  pub unary : 0 < (aggregate_counters d).double_unary_expression
  pub prefixes : CommonHexadecimalPrefixResult
  pub found : common_hexadecimal_prefix (names_of d) ≡ some prefixes
  -- Of the counts of the prefixes the first is largest, and the second is at most that.
  pub first : ℕ
  pub second : ℕ
  pub largest : All (λ (entry : String × ℕ). entry.1 ≤ first) prefixes.prefix
  pub ordered : second ≤ first
  pub counted : two_largest 0 0 prefixes.prefix ≡ (first, second)
  -- Together they are more than 80 percent of the identifiers less the properties.
  pub fewer : (aggregate_counters d).property ≤ length d.identifiers
  pub prefixed :
      80 * (length d.identifiers - (aggregate_counters d).property) < 100 * (first + second)

-- The first of two counts bounds them all, the ones before too.
abbrev Bounds : ℕ → IndexMap ℕ → ℕ × ℕ → Type 0
Bounds before m (first, second) =
    All (λ (entry : String × ℕ). entry.1 ≤ first) m × (before ≤ first) × (second ≤ first)

two_largest-Bounds :
    (first second : ℕ) (m : IndexMap ℕ)
    → second ≤ first
    → Bounds first m (two_largest first second m)
two_largest-Bounds first second [] h = (tt, omega arith, h)
two_largest-Bounds first second ((k, n) ∷ m) h = elim (Bool-cases (ltb first n)) [
  | inl e ↦
      let more : first < n = ground arith in
      let same : two_largest n first m ≡ two_largest first second ((k, n) ∷ m) = rw e refl in
      let (all, up, under) = two_largest-Bounds n first m (omega arith) in
      subst (Bounds first ((k, n) ∷ m)) same ((up, all), omega (arith, up), under)
  | inr e ↦
      let less : n ≤ first = ground arith in
      elim (Bool-cases (ltb second n)) [
        | inl f ↦
            let same : two_largest first n m ≡ two_largest first second ((k, n) ∷ m) =
              rw (e, f) refl in
            let (all, up, under) = two_largest-Bounds first n m less in
            subst (Bounds first ((k, n) ∷ m)) same ((omega (arith, up), all), up, under)
        | inr f ↦
            let same : two_largest first second m ≡ two_largest first second ((k, n) ∷ m) =
              rw (e, f) refl in
            let (all, up, under) = two_largest-Bounds first second m h in
            subst (Bounds first ((k, n) ∷ m)) same ((omega (arith, up), all), up, under)
      ]
]

is_mostly_prefixed-eq :
    (counters : ObfuscatedCounters) (prefix : IndexMap ℕ)
    → is_mostly_prefixed counters prefix ≡ true
    → (counters.property ≤ counters.identifiers)
      × (80 * (counters.identifiers - counters.property)
          < 100 * ((two_largest 0 0 prefix).0 + (two_largest 0 0 prefix).1))
unfolding is_mostly_prefixed
is_mostly_prefixed-eq counters prefix h = ground (arith, h)

judged_flag :
    (counters : ObfuscatedCounters) (prefix : IndexMap ℕ) (d : Deobfuscator)
    → (judge_prefixes counters prefix d).has_prefixed_identifiers ≡ (
        if ltb 5 (length d.identifiers) && ltb 0 (length prefix)
        then is_mostly_prefixed counters prefix
        else d.has_prefixed_identifiers)
judged_flag counters prefix d =
    elim (Bool-cases (ltb 5 (length d.identifiers) && ltb 0 (length prefix))) [
      | inl e ↦ rw e refl
      | inr e ↦ rw e refl
    ]

judged_io :
    (counters : ObfuscatedCounters) (prefix : IndexMap ℕ) (d : Deobfuscator)
    → d.has_prefixed_identifiers ≡ false
    → verify_obfuscator_io (judge_prefixes counters prefix d) counters ≡ true
    → (5 < length d.identifiers)
      × (unwrap_or 0 (IndexMap.get "false" counters.member_expression) ≡ 0)
      × (0 < counters.double_unary_expression)
      × (is_mostly_prefixed counters prefix ≡ true)
judged_io counters prefix d h e =
    let flag = judged_flag counters prefix d in
    let asked = sym (verify_obfuscator_io-eq (judge_prefixes counters prefix d) counters) ∙ e in
    ground (arith, flag, asked, h)

abbrev is_io : Option String → Bool
is_io = is_some_and (λ s. s == "obfuscator.io")

abbrev is_io_result : Option (Deobfuscator × Option String) → Bool
is_io_result none = false
is_io_result (some (d, name)) = is_io name

verdict_io :
    (free io : Bool)
    → ◌≡◌ {A = Option String}
        (if free then some "freejsobfuscator" else if io then some "obfuscator.io" else none)
        (some "obfuscator.io")
    → io ≡ true
verdict_io true io h = let wrong : false ≡ true = ap is_io h in cc
verdict_io false true h = refl
verdict_io false false h = cc

-- Where the first three recognisers are silent or name themselves, obfuscator.io comes from the rest.
rest_io :
    (jsfuck jjencode morse : Bool) (d d' : Deobfuscator)
    (rest : Option (Deobfuscator × Option String))
    → (if jsfuck
        then some (d, some "jsfuck")
        else if jjencode
        then some (d, some "jjencode")
        else if morse
        then some (d, some "morse")
        else rest)
      ≡ some (d', some "obfuscator.io")
    → rest ≡ some (d', some "obfuscator.io")
rest_io true jjencode morse d d' rest h = let wrong : false ≡ true = ap is_io_result h in cc
rest_io false true morse d d' rest h = let wrong : false ≡ true = ap is_io_result h in cc
rest_io false false true d d' rest h = let wrong : false ≡ true = ap is_io_result h in cc
rest_io false false false d d' rest h = h

-- What `assert_obfuscation` names, where it returns.
abbrev named_by : Option (Deobfuscator × Option String) → Option String
named_by none = none
named_by (some (d, name)) = name

by_prefixes_some :
    (counters : ObfuscatedCounters) (d d' : Deobfuscator) (o : Option CommonHexadecimalPrefixResult)
    → (o >>= λ result. some (judged counters d result)) ≡ some (d', some "obfuscator.io")
    → (result : CommonHexadecimalPrefixResult) × (o ≡ some result)
      × (verdict counters result.prefix (judge_prefixes counters result.prefix d)
          ≡ some "obfuscator.io")
by_prefixes_some counters d d' none h = cc
by_prefixes_some counters d d' (some result) h = (result, refl, ap named_by h)

-- After a run, obfuscator.io is named only for more than five identifiers, with a double unary
-- expression and no member expression that is not computed, where the two largest counts of shared
-- prefixes come to more than 80 percent of the identifiers less the properties.
pub assert_obfuscation-IsObfuscatorIo :
    (std : Std) (d d' : Deobfuscator)
    → Run std d
    → assert_obfuscation d ≡ some (d', some "obfuscator.io")
    → IsObfuscatorIo d
unfolding assert_obfuscation
assert_obfuscation-IsObfuscatorIo std d d' r h =
    let counters = aggregate_counters d in
    let rest : by_prefixes counters d ≡ some (d', some "obfuscator.io") = rest_io _ _ _ d d' _ h in
    let (prefixes, found, named) =
      by_prefixes_some counters d d' (common_hexadecimal_prefix (names_of d)) rest in
    let (many, computed, unary, prefixed) =
      judged_io counters prefixes.prefix d (Run-IsSound std d r).unprefixed
        (verdict_io _ _ named) in
    let nothing : 0 ≤ 0 = omega arith in
    let bounds = two_largest-Bounds 0 0 prefixes.prefix nothing in
    let share = is_mostly_prefixed-eq counters prefixes.prefix prefixed in
    record {
      many = many;
      computed = computed;
      unary = unary;
      prefixes = prefixes;
      found = found;
      first = (two_largest 0 0 prefixes.prefix).0;
      second = (two_largest 0 0 prefixes.prefix).1;
      largest = bounds.0;
      ordered = bounds.2;
      counted = refl;
      fewer = share.0;
      prefixed = share.1;
    }

returns :
    (jsfuck jjencode morse : Bool) (x y z : Deobfuscator × Option String)
    (rest : Option (Deobfuscator × Option String)) (r : Deobfuscator × Option String)
    → rest ≡ some r
    → (v : Deobfuscator × Option String) × ((if jsfuck
          then some x
          else if jjencode
          then some y
          else if morse
          then some z
          else rest)
        ≡ some v)
returns true jjencode morse x y z rest r h = (x, refl)
returns false true morse x y z rest r h = (y, refl)
returns false false true x y z rest r h = (z, refl)
returns false false false x y z rest r h = (r, h)

-- `assert_obfuscation` returns on every deobfuscator whose identifiers are not empty, without the panic
-- of an index into the prefixes.
pub assert_obfuscation_returns :
    (d : Deobfuscator)
    → All (λ name. head name ≢ 0) (names_of d)
    → (r : Deobfuscator × Option String) × (assert_obfuscation d ≡ some r)
unfolding assert_obfuscation
assert_obfuscation_returns d filled =
    let (prefixes, found, _) = common_hexadecimal_prefix-total (names_of d) filled in
    let counters = aggregate_counters d in
    let rest : by_prefixes counters d ≡ some (judged counters d prefixes) = rw found refl in
    returns (verify_jsfuck counters) (verify_jjencode d.identifiers counters)
      (leb 36 (length d.morse_literals)) (d, some "jsfuck") (d, some "jjencode") (d, some "morse")
      (by_prefixes counters d) (judged counters d prefixes) rest
