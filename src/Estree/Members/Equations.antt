-- ===== src/Estree/Members/Equations.antt =====
-- The readers satisfy the equations that the source writes: the fuel of the recursion is enough for
-- every tree (crates/js-x-ray/src/estree/functions.rs).
use js_x_ray_rs.Prelude.{Bool, none, [], ◌++◌, ◌≡◌, refl, ap, ap₂, if◌then◌else◌, ◌&&◌, arith, ◌<◌}
use js_x_ray_rs.Json.{Value}
use js_x_ray_rs.Json.Depth.{depth}
use js_x_ray_rs.Json.Recursion.{recurse-eq, at_field-cong, at_array-cong, flat_map-cong}
use js_x_ray_rs.Std.{Std}
use js_x_ray_rs.Estree.{Lookup, is_node, is_type, is_call_expression}
use js_x_ray_rs.Estree.Members.{
  Readers, no_readers, object_part, property_part, row_part, joined_part, read_member, read_binary,
  read_elements, read_joined, read, readers,
}

abbrev Agree : (Value → Readers) → (Value → Readers) → Value → Type 0
Agree f g v = (w : Value) → depth w < depth v → f w ≡ g w

module _ (std : Std) (f g : Value → Readers) (v : Value) (agree : Agree f g v) where
  read_member-cong : (lookup : Lookup) → read_member std f v lookup ≡ read_member std g v lookup
  read_member-cong lookup = at_field-cong "object" v [] _ _ λ o below_o.
      ap₂ ◌++◌ (ap (λ r. object_part r lookup o) (agree o below_o)) (
        at_field-cong "property" v [] _ _
          λ p below_p. ap (λ r. property_part std r lookup p) (agree p below_p))

  read_binary-cong :
      (lookup : Lookup) (stop : Bool)
      → read_binary std f v lookup stop ≡ read_binary std g v lookup stop
  read_binary-cong lookup stop = at_field-cong "left" v none _ _ λ l below_l.
      at_field-cong "right" v none _ _ λ r below_r. rw (agree l below_l, agree r below_r) refl

  read_elements-cong :
      (lookup : Lookup) (resolve : Bool)
      → read_elements std f v lookup resolve ≡ read_elements std g v lookup resolve
  read_elements-cong lookup resolve =
      ap (λ l. if is_node v && is_type v "ArrayExpression" then l else [])
        (at_array-cong "elements" v [] _ _ λ l below.
          flat_map-cong _ _ (depth v) l below
            λ w k. ap (λ r. row_part std r lookup resolve w) (agree w k))

  read_joined-cong : (lookup : Lookup) → read_joined std f v lookup ≡ read_joined std g v lookup
  read_joined-cong lookup =
      ap (λ o. if is_call_expression v then o else none)
        (at_array-cong "arguments" v none _ _ λ args _.
          at_field-cong "callee" v none _ _ λ c below_c.
            at_field-cong "object" c none _ _ λ o below_o.
              ap₂ (λ r s. joined_part r s lookup args c o) (agree c below_c)
                (agree o (omega arith)))

  read-cong : read std f v ≡ read std g v
  read-cong = λ i. record {
    member = λ lookup. read_member-cong lookup i;
    binary = λ lookup stop. read_binary-cong lookup stop i;
    elements = λ lookup resolve. read_elements-cong lookup resolve i;
    joined = λ lookup. read_joined-cong lookup i;
  }

-- The four functions satisfy their defining equations on every tree, however deep.
pub readers-eq : (std : Std) (v : Value) → readers std v ≡ read std (readers std) v
unfolding readers
readers-eq std v = recurse-eq no_readers (read std) (read-cong std) v
