-- ===== src/SourceFile/Literals.antt =====
-- The index of the encoded literals (crates/js-x-ray/src/source_file.rs: `add_encoded_literal`).
use js_x_ray_rs.Prelude.{
  ℕ, zero, suc, ◌-◌, ◌≤◌, String, Option, some, List, [], ◌∷◌, ◌++◌, ◌==◌, ltb, length, get_elem?,
  unwrap_or, ◌≡◌, refl, ◌⊎◌, option_map, arith, eq_iff, Bool-cases, Option-cases, inl, inr, ap, sym,
  subst, length-append,
}
use js_x_ray_rs.Prelude.IndexMap
use js_x_ray_rs.Prelude.IndexMap.{IndexMap, insert, get-insert}
use js_x_ray_rs.Estree.{SourceLocation, root_location}
use js_x_ray_rs.Utils.Location.{SourceArrayLocation, to_array_location}
use js_x_ray_rs.Warnings.{Warning, multiple, generate_warning, warnings}
use js_x_ray_rs.SourceFile.{
  SourceFile, value_at, add_location, modify_elem, add_occurrence, add_encoded_literal,
}

-- The warning is about the encoded literal, with a list of locations.
pub record IsAbout (value : String) (w : Warning) : Type 0 where
  pub kind : w.kind ≡ "encoded-literal"
  pub said : w.value ≡ some value
  pub locations : List SourceArrayLocation
  pub listed : w.location ≡ multiple locations

-- Each encoded literal has the index of its warning, and there are at most eleven.
pub record IsIndexed (file : SourceFile) : Type 0 where
  pub indexed :
      (value : String) (index : ℕ)
      → IndexMap.get value file.encoded_literals ≡ some index
      → (w : Warning) × (get_elem? file.warnings index ≡ some w) × IsAbout value w
  pub few : length file.encoded_literals ≤ 11

get_elem?-append :
    (xs ys : List Warning) (i : ℕ) (w : Warning)
    → get_elem? xs i ≡ some w
    → get_elem? (xs ++ ys) i ≡ some w
get_elem?-append [] ys i w h = cc
get_elem?-append (x ∷ xs) ys zero w h = h
get_elem?-append (x ∷ xs) ys (suc i) w h = get_elem?-append xs ys i w h

get_elem?-last : (xs : List Warning) (w : Warning) → get_elem? (xs ++ w ∷ []) (length xs) ≡ some w
get_elem?-last [] w = refl
get_elem?-last (x ∷ xs) w = get_elem?-last xs w

get_elem?-modify_elem :
    (i j : ℕ) (f : Warning → Warning) (ws : List Warning) (w : Warning)
    → get_elem? ws j ≡ some w
    → (get_elem? (modify_elem i f ws) j ≡ some w) ⊎ (get_elem? (modify_elem i f ws) j ≡ some (f w))
get_elem?-modify_elem i j f [] w h = cc
get_elem?-modify_elem zero zero f (x ∷ ws) w h = inr (ap (option_map f) h)
get_elem?-modify_elem zero (suc j) f (x ∷ ws) w h = inl h
get_elem?-modify_elem (suc i) zero f (x ∷ ws) w h = inl h
get_elem?-modify_elem (suc i) (suc j) f (x ∷ ws) w h = get_elem?-modify_elem i j f ws w h

add_location-IsAbout :
    (location : SourceArrayLocation) (value : String) (w : Warning)
    → IsAbout value w
    → IsAbout value (add_location location w)
add_location-IsAbout location value w h = rw h.listed (record {
  kind = h.kind;
  said = h.said;
  locations = h.locations ++ location ∷ [];
  listed = refl;
})

length-insert : (k : String) (v : ℕ) (m : IndexMap ℕ) → length (insert k v m) ≤ suc (length m)
unfolding insert
length-insert k v [] = omega arith
length-insert k v ((j, w) ∷ m) = ground (arith, length-insert k v m)

-- A warning that is pushed leaves the indices as they are.
pub push-IsIndexed :
    (file : SourceFile) (more : List Warning)
    → IsIndexed file
    → IsIndexed (record file { warnings = file.warnings ++ more })
push-IsIndexed file more h = record {
  indexed = λ value index e.
      let (w, at, about) = h.indexed value index e in
      (w, get_elem?-append file.warnings more index w at, about);
  few = h.few;
}

add_occurrence-IsIndexed :
    (index : ℕ) (location : Option SourceLocation) (file : SourceFile)
    → IsIndexed file
    → IsIndexed (add_occurrence index location file)
add_occurrence-IsIndexed index location file h =
    let f = add_location (to_array_location (some (unwrap_or root_location location))) in
    record {
      indexed = λ value i e.
          let (w, at, about) = h.indexed value i e in
          elim (get_elem?-modify_elem index i f file.warnings w at) [
            | inl same ↦ (w, same, about)
            | inr changed ↦ (f w, changed, add_location-IsAbout _ value w about)
          ];
      few = h.few;
    }

literal_warning :
    (value : String) (location : Option SourceLocation)
    → (w : Warning) × (generate_warning "encoded-literal" (value_at value location) ≡ some w)
      × IsAbout value w
unfolding generate_warning warnings
literal_warning value location = (
  _,
  refl,
  record { kind = refl; said = refl; locations = to_array_location location ∷ []; listed = refl },
)

insert-IsIndexed :
    (value : String) (w : Warning) (file : SourceFile)
    → IsAbout value w
    → IsIndexed file
    → length file.encoded_literals ≤ 10
    → IsIndexed (record file {
      warnings = file.warnings ++ w ∷ [];
      encoded_literals = insert value (length (file.warnings ++ w ∷ []) - 1) file.encoded_literals;
    })
insert-IsIndexed value w file about h small =
    let last : length (file.warnings ++ w ∷ []) - 1 ≡ length file.warnings =
      omega (arith, length-append file.warnings (w ∷ [])) in
    record {
      indexed = λ v i e. elim (Bool-cases (value == v)) [
        | inl same ↦
            let at : i ≡ length file.warnings = ground (
              arith,
              get-insert value v (length (file.warnings ++ w ∷ []) - 1) file.encoded_literals,
              e,
              same,
              last,
            ) in
            (
              w,
              subst (λ k. get_elem? (file.warnings ++ w ∷ []) k ≡ some w) (sym at)
                  (get_elem?-last file.warnings w),
              subst (λ s. IsAbout s w) ((eq_iff value v).0 same) about,
            )
        | inr other ↦
            let old : IndexMap.get v file.encoded_literals ≡ some i = ground (
              arith,
              get-insert value v (length (file.warnings ++ w ∷ []) - 1) file.encoded_literals,
              e,
              other,
            ) in
            let (x, at, said) = h.indexed v i old in
            (x, get_elem?-append file.warnings (w ∷ []) i x at, said)
      ];
      few =
          omega (
            arith,
            length-insert value (length (file.warnings ++ w ∷ []) - 1) file.encoded_literals,
          );
    }

-- Adding an encoded literal returns, and keeps the index: each literal with the place of its warning,
-- and no more than eleven of them.
pub add_encoded_literal-IsIndexed :
    (value : String) (location : Option SourceLocation) (file : SourceFile)
    → IsIndexed file
    → (file' : SourceFile) × (add_encoded_literal value location file ≡ some file')
      × IsIndexed file'
unfolding add_encoded_literal
add_encoded_literal-IsIndexed value location file h =
    elim (Bool-cases (ltb 10 (length file.encoded_literals))) [
      | inl full ↦ (file, rw full refl, h)
      | inr room ↦ elim (Option-cases (IndexMap.get value file.encoded_literals)) [
        | inl new ↦
            let (w, made, about) = literal_warning value location in
            let small : length file.encoded_literals ≤ 10 = ground arith in
            (_, rw (room, new, made) refl, insert-IsIndexed value w file about h small)
        | inr (index, old) ↦ (
          add_occurrence index location file,
          rw (room, old) refl,
          add_occurrence-IsIndexed index location file h,
        )
      ]
    ]
