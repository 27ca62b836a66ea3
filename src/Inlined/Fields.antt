-- ===== src/Inlined/Fields.antt =====
-- Setting a field of a node, which is `Map::insert` on an object (crates/js-x-ray/src/inlined.rs).
use js_x_ray_rs.Prelude.{
  String, true, false, Option, none, some, ◌==◌, ◌≡◌, refl, sym, ap, Bool-cases, inl, inr, eq_iff,
}
use js_x_ray_rs.Json.{
  Value, Fields, null, bool, number, string, array, object, end, field, field_of, set_field, get,
  get_str,
}
use js_x_ray_rs.Estree.{same_type, is_type, node_type, is_call_expression, is_member_expression}
use js_x_ray_rs.Inlined.{set}

field_of-set_field :
    (k : String) (x w : Value) (fs : Fields)
    → field_of k fs ≡ some w
    → field_of k (set_field k x fs) ≡ some x
field_of-set_field k x w end h = absurd (cc h)
field_of-set_field k x w (field j y fs) h = elim (Bool-cases (j == k)) [
  | inl e ↦ rw (e, e) refl
  | inr e ↦ rw (e, e) (field_of-set_field k x w fs (rw e at h))
]

set_field_other :
    (k j : String) (x : Value) (fs : Fields)
    → (k == j) ≡ false
    → field_of j (set_field k x fs) ≡ field_of j fs
set_field_other k j x end n = rw n refl
set_field_other k j x (field i y fs) n = elim (Bool-cases (i == k)) [
  | inl e ↦ let at : i ≡ k = (eq_iff i k).0 e in rw (e, at, n) refl
  | inr e ↦
      rw e (elim (Bool-cases (i == j)) [
        | inl f ↦ rw f refl
        | inr f ↦ rw f (set_field_other k j x fs n)
      ])
]

set_field_same :
    (k : String) (w : Value) (fs : Fields) → field_of k fs ≡ some w → set_field k w fs ≡ fs
set_field_same k w end h = absurd (cc h)
set_field_same k w (field j y fs) h = elim (Bool-cases (j == k)) [
  | inl e ↦ rw e (let y≡w : y ≡ w = cc (rw e at h) in ap (λ v. field j v fs) (sym y≡w))
  | inr e ↦ rw e (ap (field j y) (set_field_same k w fs (rw e at h)))
]

set_field_twice :
    (k : String) (x y : Value) (fs : Fields) → set_field k x (set_field k y fs) ≡ set_field k x fs
set_field_twice k x y end = elim (Bool-cases (k == k)) [
  | inl e ↦ rw e refl
  | inr e ↦ absurd (cc (e, (eq_iff k k).1 refl))
]
set_field_twice k x y (field j z fs) = elim (Bool-cases (j == k)) [
  | inl e ↦ rw (e, e) refl
  | inr e ↦ rw (e, e) (ap (field j z) (set_field_twice k x y fs))
]

pub get-set : (k : String) (x w v : Value) → get k v ≡ some w → get k (set k x v) ≡ some x
unfolding get
get-set k x w (object fs) h = field_of-set_field k x w fs h
get-set k x w null h = cc
get-set k x w (bool _) h = cc
get-set k x w (number _) h = cc
get-set k x w (string _) h = cc
get-set k x w (array _) h = cc

pub get-set_other : (k j : String) (x v : Value) → (k == j) ≡ false → get j (set k x v) ≡ get j v
unfolding get
get-set_other k j x (object fs) n = set_field_other k j x fs n
get-set_other k j x null n = refl
get-set_other k j x (bool _) n = refl
get-set_other k j x (number _) n = refl
get-set_other k j x (string _) n = refl
get-set_other k j x (array _) n = refl

pub set-get : (k : String) (w v : Value) → get k v ≡ some w → set k w v ≡ v
unfolding get
set-get k w (object fs) h = ap object (set_field_same k w fs h)
set-get k w null h = refl
set-get k w (bool _) h = refl
set-get k w (number _) h = refl
set-get k w (string _) h = refl
set-get k w (array _) h = refl

pub set-set : (k : String) (x y v : Value) → set k x (set k y v) ≡ set k x v
set-set k x y (object fs) = ap object (set_field_twice k x y fs)
set-set k x y null = refl
set-set k x y (bool _) = refl
set-set k x y (number _) = refl
set-set k x y (string _) = refl
set-set k x y (array _) = refl

-- A field other than the type leaves the kind of a node.
pub is_call_expression-set :
    (k : String) (x v : Value)
    → (k == "type") ≡ false
    → is_call_expression (set k x v) ≡ is_call_expression v
unfolding is_call_expression is_type node_type get_str
is_call_expression-set k x v n = rw (get-set_other k "type" x v n) refl

pub is_member_expression-set :
    (k : String) (x v : Value)
    → (k == "type") ≡ false
    → is_member_expression (set k x v) ≡ is_member_expression v
unfolding is_member_expression is_type node_type get_str
is_member_expression-set k x v n = rw (get-set_other k "type" x v n) refl

same_type_other :
    (o : Option String)
    → same_type "CallExpression" o ≡ true
    → same_type "MemberExpression" o ≡ false
same_type_other none h = cc
same_type_other (some t) h = rw ((eq_iff t "CallExpression").0 h) refl

-- No node is both.
pub is_call_expression-not_member :
    (v : Value) → is_call_expression v ≡ true → is_member_expression v ≡ false
unfolding is_call_expression is_member_expression is_type
is_call_expression-not_member v h = same_type_other (node_type v) h
