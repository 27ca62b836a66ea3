-- ===== src/Collectable.antt =====
-- The collectable sets (urls, hostnames, ips, emails, dependencies) and their registry:
-- crates/js-x-ray/src/collectable_set.rs.
pub mod RoundTrip
pub mod Registry
use js_x_ray_rs.Prelude.{
  ℕ, String, Bool, true, false, Option, none, some, List, [], ◌∷◌, ◌++◌, map, is_some,
}
use js_x_ray_rs.Prelude.IndexMap
use js_x_ray_rs.Prelude.IndexMap.{IndexMap, modify_or, modify, insert, contains_key}
use js_x_ray_rs.Json.{Fields, end}
use js_x_ray_rs.Utils.Location.{SourceArrayLocation}

-- "url" | "hostname" | "ip" | "email" | "dependency" | custom
abbrev pub CollectableType : Type 0
CollectableType = String

-- A `serde_json::Map`.
abbrev pub Metadata : Type 0
Metadata = Option Fields

pub record CollectableLocation : Type 0 where
  pub file : Option String
  pub location : List SourceArrayLocation
  pub metadata : Metadata

pub record CollectableEntry : Type 0 where
  pub value : String
  pub locations : List CollectableLocation

pub record CollectableSetData : Type 0 where
  pub kind : CollectableType
  pub entries : List CollectableEntry

pub record Entry : Type 0 where
  pub file : Option String
  pub location : SourceArrayLocation
  pub metadata : Metadata

pub record DefaultCollectableSet : Type 0 where
  pub entries : IndexMap (List Entry)
  pub kind : CollectableType

-- `DefaultCollectableSet::new`
abbrev pub new : CollectableType → DefaultCollectableSet
new kind = record { entries = []; kind = kind }

unfoldable pub add :
    String
    → Option String
    → SourceArrayLocation
    → Metadata
    → DefaultCollectableSet
    → DefaultCollectableSet
add value file location metadata set = record set {
  entries =
      modify_or value []
        (λ (entries : List Entry).
          entries ++ record { file = file; location = location; metadata = metadata } ∷ [])
        set.entries;
}

unfoldable pub values : DefaultCollectableSet → List String
values set = IndexMap.keys set.entries

abbrev location_json : Entry → CollectableLocation
location_json entry = record {
  file = entry.file;
  location = entry.location ∷ [];
  metadata = entry.metadata;
}

abbrev entry_json : String × List Entry → CollectableEntry
entry_json (value, entries) = record { value = value; locations = map location_json entries }

unfoldable pub to_json : DefaultCollectableSet → CollectableSetData
to_json set = record { kind = set.kind; entries = map entry_json set.entries }

-- The three nested loops of `merge_data`.
abbrev merge_location :
    String
    → CollectableLocation
    → List SourceArrayLocation
    → DefaultCollectableSet
    → DefaultCollectableSet
merge_location value entry [] set = set
merge_location value entry (loc ∷ locs) set =
    merge_location value entry locs (add value entry.file loc entry.metadata set)

abbrev merge_locations :
    String → List CollectableLocation → DefaultCollectableSet → DefaultCollectableSet
merge_locations value [] set = set
merge_locations value (entry ∷ rest) set =
    merge_locations value rest (merge_location value entry entry.location set)

abbrev merge_entries : List CollectableEntry → DefaultCollectableSet → DefaultCollectableSet
merge_entries [] set = set
merge_entries (entry ∷ rest) set =
    merge_entries rest (merge_locations entry.value entry.locations set)

unfoldable pub merge_data : CollectableSetData → DefaultCollectableSet → DefaultCollectableSet
unfolding add
merge_data data_ set = merge_entries data_.entries set

unfoldable pub from_json : CollectableSetData → DefaultCollectableSet
unfolding merge_data
from_json data_ = merge_data data_ (new data_.kind)

pub record CollectableSetRegistry : Type 0 where
  pub collectable_sets : IndexMap DefaultCollectableSet

abbrev insert_sets :
    List DefaultCollectableSet → IndexMap DefaultCollectableSet → IndexMap DefaultCollectableSet
insert_sets [] m = m
insert_sets (set ∷ rest) m = insert_sets rest (insert set.kind set m)

-- `CollectableSetRegistry::new`: of two sets of one type the later stays.
unfoldable pub new_registry : List DefaultCollectableSet → CollectableSetRegistry
new_registry sets = record { collectable_sets = insert_sets sets [] }

abbrev or_empty : Metadata → Metadata
or_empty none = some end
or_empty (some m) = some m

-- `CollectableSetRegistry::add`: a type that has no set is ignored.
unfoldable pub add_to_registry :
    CollectableType
    → String
    → Option String
    → SourceArrayLocation
    → Metadata
    → CollectableSetRegistry
    → CollectableSetRegistry
unfolding add
add_to_registry kind value file location metadata registry = record {
  collectable_sets =
      modify kind (add value file location (or_empty metadata)) registry.collectable_sets;
}

unfoldable pub has : CollectableType → CollectableSetRegistry → Bool
has kind registry = contains_key kind registry.collectable_sets

unfoldable pub get : CollectableType → CollectableSetRegistry → Option DefaultCollectableSet
get kind registry = IndexMap.get kind registry.collectable_sets
