-- ===== src/SourceFile/Dependencies.antt =====
-- What adding a dependency changes (crates/js-x-ray/src/source_file.rs: `add_dependency_with`).
use js_x_ray_rs.Prelude.{
  String, Bool, true, false, Option, some, List, [], ◌∷◌, ◌++◌, ◌==◌, if◌then◌else◌, unwrap_or, ◌≡◌,
  refl, Bool-cases, inl, inr, is_blank, strip_suffix, is_some_and,
}
use js_x_ray_rs.Prelude.IndexMap
use js_x_ray_rs.Prelude.IndexMap.{insert, get-insert}
use js_x_ray_rs.Estree.{SourceLocation}
use js_x_ray_rs.Warnings.{Warning, generate_warning, warnings}
use js_x_ray_rs.SourceFile.{
  SourceFile, value_at, add_dependency_with, collect_dependency, keep_dependency,
}
use js_x_ray_rs.SourceFile.Literals.{IsIndexed, push-IsIndexed}

abbrev pub stored_name : String → String
stored_name name = unwrap_or name (strip_suffix name "/")

-- The dependencies after `name` has been added to those of `before`, and the literals are indexed.
pub record IsAdded (name : String) (location : Option SourceLocation) (unsafe_ : Bool)
    (before after : SourceFile) : Type 0 where
  pub dependencies :
      (v : String)
      → IndexMap.get v after.dependencies ≡ (
          if is_blank name
          then IndexMap.get v before.dependencies
          else if stored_name name == v
          then some
              (record { unsafe_ = unsafe_; in_try = before.in_try_statement; location = location })
          else IndexMap.get v before.dependencies)
  pub literals : IsIndexed after
  pub blank : is_blank name ≡ true → after ≡ before

module _ (name : String) (location : Option SourceLocation) (unsafe_ : Bool) (file : SourceFile)
    (h : IsIndexed file) where
  abbrev collected : SourceFile
  collected =
      collect_dependency (stored_name name) location unsafe_
        (keep_dependency (stored_name name) location unsafe_ file)

  -- Collecting touches the registry only.
  record IsCollected (after : SourceFile) : Type 0 where
    dependencies :
        after.dependencies
        ≡ insert
            (stored_name name)
            (record { unsafe_ = unsafe_; in_try = file.in_try_statement; location = location })
            file.dependencies
    literals : IsIndexed after

  collect_dependency-IsCollected : IsCollected collected
  collect_dependency-IsCollected =
      elim (Bool-cases (is_some_and (λ own. own == stored_name name) file.package_name)) [
        | inl own ↦
            rw own (record {
              dependencies = refl;
              literals = record { indexed = h.indexed; few = h.few };
            })
        | inr other ↦
            rw other (record {
              dependencies = refl;
              literals = record { indexed = h.indexed; few = h.few };
            })
      ]

  IsCollected-push :
      (more : List Warning)
      → IsCollected collected
      → IsCollected (record collected { warnings = collected.warnings ++ more })
  IsCollected-push more c = record {
    dependencies = c.dependencies;
    literals = push-IsIndexed collected more c.literals;
  }

  import_warning :
      (v : String)
      → (w : Warning) × (generate_warning "unsafe-import" (value_at v location) ≡ some w)
  unfolding generate_warning warnings
  import_warning v = (_, refl)

  added :
      is_blank name ≡ false
      → (after : SourceFile) → IsCollected after
      → IsAdded name location unsafe_ file after
  added b after c = record {
    dependencies = λ v.
        rw (b, c.dependencies)
          (get-insert (stored_name name) v
            (record { unsafe_ = unsafe_; in_try = file.in_try_statement; location = location })
            file.dependencies);
    literals = c.literals;
    blank = λ b'. absurd (cc (b, b'));
  }

  -- Adding a dependency returns. A blank name changes nothing; another is stored without the `/` at its
  -- end, with whether it is unsafe, in a `try`, and its place; the other names stay, and the encoded
  -- literals stay indexed.
  pub add_dependency_with-IsAdded :
      (after : SourceFile) × (add_dependency_with name location unsafe_ file ≡ some after)
      × IsAdded name location unsafe_ file after
  unfolding add_dependency_with
  add_dependency_with-IsAdded = elim (Bool-cases (is_blank name)) [
    | inl blank ↦ (
      file,
      rw blank refl,
      record { dependencies = λ v. rw blank refl; literals = h; blank = λ b. refl },
    )
    | inr named ↦ elim (Bool-cases file.dependency_auto_warning) [
      | inl auto ↦
          let (w, made) = import_warning (stored_name name) in
          (
            record collected { warnings = collected.warnings ++ w ∷ [] },
            rw (named, auto, made) refl,
            added named _ (IsCollected-push (w ∷ []) collect_dependency-IsCollected),
          )
      | inr quiet ↦
          (collected, rw (named, quiet) refl, added named collected collect_dependency-IsCollected)
    ]
  ]
