-- ===== src/Collectable/Registry.antt =====
-- What the registry holds after an addition (crates/js-x-ray/src/collectable_set.rs).
use js_x_ray_rs.Prelude.{
  String, Bool, true, false, ◌&&◌, none, some, refl, Bool-cases, inl, inr, ap, ◌∙◌, ◌≡◌, Option,
  List, [], ◌∷◌, ◌++◌, arith, ◌==◌, if◌then◌else◌, unwrap_or, option_map,
}
use js_x_ray_rs.Prelude.IndexMap
use js_x_ray_rs.Prelude.IndexMap.{IndexMap, get-modify, get-modify_or}
use js_x_ray_rs.Utils.Location.{SourceArrayLocation}
use js_x_ray_rs.Collectable.{
  Entry, DefaultCollectableSet, CollectableSetRegistry, Metadata, add, add_to_registry, has, get,
  or_empty,
}
use js_x_ray_rs.Json.{end}

abbrev pub entries_of : String → DefaultCollectableSet → List Entry
entries_of value set = unwrap_or [] (IndexMap.get value set.entries)

-- One more occurrence at the end of the value's list, and no other value's list changes.
pub add_entries :
    (value v : String) (file : Option String) (location : SourceArrayLocation) (metadata : Metadata)
    (set : DefaultCollectableSet)
    → entries_of v (add value file location metadata set) ≡ (
        if value == v
        then entries_of v set
          ++ record { file = file; location = location; metadata = metadata } ∷ []
        else entries_of v set)
unfolding add
add_entries value v file location metadata set = ground (
  arith,
  get-modify_or value v []
      (λ (entries : List Entry).
        entries ++ record { file = file; location = location; metadata = metadata } ∷ [])
      set.entries,
)

-- What the value has in the set of a type, where there is such a set.
abbrev pub listed : String → String → CollectableSetRegistry → Option (List Entry)
unfolding get
listed k v r = option_map (entries_of v) (get k r)

some-if :
    (test : Bool) (x y : List Entry)
    → some (if test then x else y) ≡ (if test then some x else some y)
some-if true x y = refl
some-if false x y = refl

module _ (kind value : String) (file : Option String) (location : SourceArrayLocation)
    (metadata : Metadata) (registry : CollectableSetRegistry) where
  -- A set of the type gets the occurrence, with an empty map for missing metadata; the sets of other
  -- types stay; and no set is created where the type has none.
  pub get-add_to_registry :
      (k : String)
      → get k (add_to_registry kind value file location metadata registry) ≡ (
          if kind == k
          then option_map (add value file location (or_empty metadata)) (get k registry)
          else get k registry)
  unfolding get add_to_registry
  get-add_to_registry k = ground (
    arith,
    get-modify kind k (add value file location (or_empty metadata)) registry.collectable_sets,
  )

  pub has-add_to_registry :
      (k : String)
      → has k (add_to_registry kind value file location metadata registry) ≡ has k registry
  unfolding has add_to_registry
  has-add_to_registry k = ground (
    arith,
    get-modify kind k (add value file location (or_empty metadata)) registry.collectable_sets,
  )

  or_empty-some : (m : Metadata) → or_empty m ≡ some (unwrap_or end m)
  or_empty-some none = refl
  or_empty-some (some fields) = refl

  abbrev pub occurrence : Entry
  occurrence = record { file = file; location = location; metadata = some (unwrap_or end metadata) }

  added_entries :
      (v : String) (o : Option DefaultCollectableSet)
      → option_map (entries_of v) (option_map (add value file location (or_empty metadata)) o) ≡ (
          if value == v
          then option_map (λ l. l ++ occurrence ∷ []) (option_map (entries_of v) o)
          else option_map (entries_of v) o)
  added_entries v none = ground arith
  added_entries v (some set) =
      ap some (add_entries value v file location (or_empty metadata) set)
      ∙ rw (or_empty-some metadata)
          (some-if (value == v) (entries_of v set ++ occurrence ∷ []) (entries_of v set))

  -- In the set of the type the list of the value gets the occurrence at its end, with an empty map for
  -- missing metadata; the lists of other values and the sets of other types stay; and no set is made
  -- where the type has none.
  pub add_to_registry_lists :
      (k v : String)
      → listed k v (add_to_registry kind value file location metadata registry) ≡ (
          if (kind == k) && (value == v)
          then option_map (λ l. l ++ occurrence ∷ []) (listed k v registry)
          else listed k v registry)
  unfolding listed
  add_to_registry_lists k v = elim (Bool-cases (kind == k)) [
    | inl e ↦
        ap (option_map (entries_of v)) (get-add_to_registry k)
        ∙ rw (e, added_entries v (get k registry)) refl
    | inr e ↦ ap (option_map (entries_of v)) (get-add_to_registry k) ∙ rw e refl
  ]
