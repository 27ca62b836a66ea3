-- ===== src/Obfuscation/Counts.antt =====
-- What the counters count (crates/js-x-ray/src/node_counter.rs, deobfuscator.rs: `walk`).
use js_x_ray_rs.Prelude.{
  ℕ, suc, ◌+◌, ◌%◌, ◌^◌, ◌<◌, String, Bool, true, Option, none, some, List, [], ◌∷◌, if◌then◌else◌,
  ◌≡◌, refl, arith, Bool-cases, Option-cases, inl, inr, ◌∙◌, ap,
}
use js_x_ray_rs.Prelude.IndexMap.{IndexMap, modify_or}
use js_x_ray_rs.Json.{Node, get}
use js_x_ray_rs.Std.{Std}
use js_x_ray_rs.Estree.Literal.{js_string}
use js_x_ray_rs.Obfuscation.Counter.{
  NodeCounter, increment, counted, counts, count_property, count_node, walk_counter,
}

-- How many of the nodes satisfy `p`.
abbrev pub how_many : (Node → Bool) → List Node → ℕ
how_many p [] = 0
how_many p (node ∷ nodes) = if p node then suc (how_many p nodes) else how_many p nodes

module _ (std : Std) where
  abbrev pub walk_nodes : List Node → NodeCounter → NodeCounter
  walk_nodes [] counter = counter
  walk_nodes (node ∷ nodes) counter = walk_nodes nodes (walk_counter std counter node).0

  -- What a node leaves of a counter: its settings, and a count of one more where the node counts.
  record Walked (counter : NodeCounter) (node : Node) (after : NodeCounter) : Type 0 where
    kind : after.kind ≡ counter.kind
    filter_fn : after.filter_fn ≡ counter.filter_fn
    lookup : after.lookup ≡ counter.lookup
    count : after.count ≡ (if counts counter node then increment counter.count else counter.count)

  Walked-counted :
      (counter : NodeCounter) (node : Node) (properties : IndexMap ℕ)
      → counts counter node ≡ true
      → Walked counter node (record (counted counter) { properties = properties })
  Walked-counted counter node properties e = record {
    kind = refl;
    filter_fn = refl;
    lookup = refl;
    count = rw e refl;
  }

  Walked-lookup :
      (counter : NodeCounter) (node : Node) (lookup : Option String)
      → counts counter node ≡ true
      → Walked counter node (count_node std counter node lookup).0
  Walked-lookup counter node none e = Walked-counted counter node counter.properties e
  Walked-lookup counter node (some key) e = elim (Option-cases (get key node)) [
    | inl g ↦ rw (g, count_property) (Walked-counted counter node counter.properties e)
    | inr (value, g) ↦
        rw (g, count_property)
          (Walked-counted counter node
            (modify_or (js_string std value) 0 increment counter.properties) e)
  ]

  walk_counter-Walked :
      (counter : NodeCounter) (node : Node) → Walked counter node (walk_counter std counter node).0
  unfolding walk_counter
  walk_counter-Walked counter node = elim (Bool-cases (counts counter node)) [
    | inl e ↦ rw e (Walked-lookup counter node counter.lookup e)
    | inr e ↦ rw e (record { kind = refl; filter_fn = refl; lookup = refl; count = rw e refl })
  ]

  counts-Walked :
      (counter : NodeCounter) (node other : Node) (after : NodeCounter)
      → Walked counter node after
      → counts after other ≡ counts counter other
  unfolding counts
  counts-Walked counter node other after h = rw (h.kind, h.filter_fn) refl

  how_many-cong :
      (p q : Node → Bool) (nodes : List Node)
      → ((node : Node) → p node ≡ q node)
      → how_many p nodes ≡ how_many q nodes
  how_many-cong p q [] same = refl
  how_many-cong p q (node ∷ nodes) same = rw (same node, how_many-cong p q nodes same) refl

  increment-more : (n k : ℕ) → (increment n + k) % 2 ^ 32 ≡ (n + suc k) % 2 ^ 32
  increment-more n k = omega arith

  step_count :
      (counter : NodeCounter) (node : Node) (k : ℕ)
      → counter.count < 2 ^ 32
      → ((if counts counter node then increment counter.count else counter.count) + k) % 2 ^ 32
        ≡ (counter.count + (if counts counter node then suc k else k)) % 2 ^ 32
  step_count counter node k h = ground (arith, increment-more counter.count k)

  -- After some nodes a counter has counted those of its type that pass its filter, modulo 2 ^ 32.
  pub walk_nodes-count :
      (nodes : List Node) (counter : NodeCounter)
      → counter.count < 2 ^ 32
      → (walk_nodes nodes counter).count
        ≡ (counter.count + how_many (counts counter) nodes) % 2 ^ 32
  walk_nodes-count [] counter h = omega arith
  walk_nodes-count (node ∷ nodes) counter h =
      let after = (walk_counter std counter node).0 in
      let walked = walk_counter-Walked counter node in
      let same =
        how_many-cong (counts after) (counts counter) nodes
          (λ other. counts-Walked counter node other after walked) in
      let counted_once = step_count counter node (how_many (counts counter) nodes) h in
      let small : after.count < 2 ^ 32 = ground (arith, walked.count) in
      walk_nodes-count nodes after small
      ∙ ap (λ k. (after.count + k) % 2 ^ 32) same
      ∙ ap (λ n. (n + how_many (counts counter) nodes) % 2 ^ 32) walked.count
      ∙ counted_once
