-- ===== src/Collectable/RoundTrip.antt =====
-- A collectable set survives its JSON form (crates/js-x-ray/src/collectable_set.rs).
use mathlib.Core.List.{append_assoc, append-nil}
use js_x_ray_rs.Prelude.{
  String, ◌≡◌, refl, ◌∙◌, ap, Option, List, [], ◌∷◌, ◌++◌, map, arith, eq_iff, ◌≢◌,
}
use js_x_ray_rs.Prelude.IndexMap.{
  IndexMap, modify_or, Absent, Distinct, modify_or-Absent, modify_or_last, Absent-last,
  Distinct-modify_or,
}
use js_x_ray_rs.Utils.Location.{SourceArrayLocation}
use js_x_ray_rs.Collectable.{
  Entry, DefaultCollectableSet, Metadata, new, add, to_json, from_json, merge_entries,
  merge_locations, location_json, entry_json,
}

abbrev NoneEmpty : IndexMap (List Entry) → Type 0
NoneEmpty [] = Unit
NoneEmpty ((k, entries) ∷ m) = (entries ≢ []) × NoneEmpty m

-- The keys are distinct, and each has a location.
pub record IsWellFormed (set : DefaultCollectableSet) : Type 0 where
  pub distinct : Distinct set.entries
  pub located : NoneEmpty set.entries

pub new-IsWellFormed : (kind : String) → IsWellFormed (new kind)
new-IsWellFormed kind = record { distinct = tt; located = tt }

append-ne-nil : (entries : List Entry) (e : Entry) → entries ++ e ∷ [] ≢ []
append-ne-nil [] e h = cc
append-ne-nil (x ∷ entries) e h = cc

NoneEmpty-modify_or :
    (k : String) (e : Entry) (m : IndexMap (List Entry))
    → NoneEmpty m
    → NoneEmpty (modify_or k [] (λ entries. entries ++ e ∷ []) m)
unfolding modify_or
NoneEmpty-modify_or k e [] h = (append-ne-nil [] e, tt)
NoneEmpty-modify_or k e ((j, w) ∷ m) h =
    ground (arith, append-ne-nil w e, NoneEmpty-modify_or k e m h.1)

-- Adding an occurrence keeps the keys distinct and every key with a location.
pub add-IsWellFormed :
    (value : String) (file : Option String) (location : SourceArrayLocation) (metadata : Metadata)
    (set : DefaultCollectableSet)
    → IsWellFormed set
    → IsWellFormed (add value file location metadata set)
unfolding add
add-IsWellFormed value file location metadata set h = record {
  distinct = Distinct-modify_or value [] _ set.entries h.distinct;
  located = NoneEmpty-modify_or value _ set.entries h.located;
}

abbrev set_of : String → IndexMap (List Entry) → DefaultCollectableSet
set_of kind m = record { kind = kind; entries = m }

-- One more location for the last key of the set.
add_last :
    (kind k : String) (e : Entry) (es : List Entry) (m : IndexMap (List Entry))
    → Absent k m
    → add k e.file e.location e.metadata (set_of kind (m ++ (k, es) ∷ []))
      ≡ set_of kind (m ++ (k, es ++ e ∷ []) ∷ [])
unfolding add
add_last kind k e es m h =
    ap (set_of kind) (modify_or_last k [] es (λ entries. entries ++ e ∷ []) m h)

add_first :
    (kind k : String) (e : Entry) (m : IndexMap (List Entry))
    → Absent k m
    → add k e.file e.location e.metadata (set_of kind m) ≡ set_of kind (m ++ (k, e ∷ []) ∷ [])
unfolding add
add_first kind k e m h = ap (set_of kind) (modify_or-Absent k [] (λ entries. entries ++ e ∷ []) m h)

merge_locations_last :
    (kind k : String) (es more : List Entry) (m : IndexMap (List Entry))
    → Absent k m
    → merge_locations k (map location_json more) (set_of kind (m ++ (k, es) ∷ []))
      ≡ set_of kind (m ++ (k, es ++ more) ∷ [])
merge_locations_last kind k es [] m h = rw append-nil refl
merge_locations_last kind k es (e ∷ more) m h =
    ap (merge_locations k (map location_json more)) (add_last kind k e es m h)
    ∙ merge_locations_last kind k (es ++ e ∷ []) more m h
    ∙ (rw append_assoc refl)

merge_locations_first :
    (kind k : String) (es : List Entry) (m : IndexMap (List Entry))
    → es ≢ []
    → Absent k m
    → merge_locations k (map location_json es) (set_of kind m) ≡ set_of kind (m ++ (k, es) ∷ [])
merge_locations_first kind k [] m ne h = absurd (ne refl)
merge_locations_first kind k (e ∷ es) m ne h =
    ap (merge_locations k (map location_json es)) (add_first kind k e m h)
    ∙ merge_locations_last kind k (e ∷ []) es m h

-- The keys of `rest` are new to `m`.
abbrev AllNew : IndexMap (List Entry) → IndexMap (List Entry) → Type 0
AllNew [] m = Unit
AllNew ((k, es) ∷ rest) m = Absent k m × AllNew rest m

AllNew-last :
    (rest m : IndexMap (List Entry)) (k : String) (es : List Entry)
    → Absent k rest
    → AllNew rest m
    → AllNew rest (m ++ (k, es) ∷ [])
AllNew-last [] m k es h n = tt
AllNew-last ((j, w) ∷ rest) m k es h n = (
  Absent-last j k es m n.0 (ground (arith, h.0, eq_iff j k, eq_iff k j)),
  AllNew-last rest m k es h.1 n.1,
)

AllNew-nil : (rest : IndexMap (List Entry)) → AllNew rest []
AllNew-nil [] = tt
AllNew-nil ((k, es) ∷ rest) = (tt, AllNew-nil rest)

merge_entries_json :
    (kind : String) (rest m : IndexMap (List Entry))
    → Distinct rest
    → NoneEmpty rest
    → AllNew rest m
    → merge_entries (map entry_json rest) (set_of kind m) ≡ set_of kind (m ++ rest)
merge_entries_json kind [] m d l n = rw append-nil refl
merge_entries_json kind ((k, es) ∷ rest) m d l n =
    ap (merge_entries (map entry_json rest)) (merge_locations_first kind k es m l.0 n.0)
    ∙ merge_entries_json kind rest (m ++ (k, es) ∷ []) d.1 l.1 (AllNew-last rest m k es d.0 n.1)
    ∙ (rw append_assoc refl)

-- Reading back the JSON form of a well-formed set gives the set: keys, locations and their order.
pub from_json-to_json :
    (set : DefaultCollectableSet) → IsWellFormed set → from_json (to_json set) ≡ set
unfolding from_json to_json
from_json-to_json set h =
    merge_entries_json set.kind set.entries [] h.distinct h.located (AllNew-nil set.entries)
