-- ===== src/Warnings/Generate.antt =====
-- What a generated warning says (crates/js-x-ray/src/warnings.rs).
use js_x_ray_rs.Prelude.{
  String, Bool, true, none, some, List, [], ◌∷◌, ◌==◌, find, any, unwrap_or, if◌then◌else◌, ◌≡◌,
  refl, arith, eq_iff, Option-cases, inl, inr, is_some, all,
}
use js_x_ray_rs.Utils.Location.{to_array_location}
use js_x_ray_rs.Warnings.{
  Warning, WarningData, single, multiple, warnings, optional_warning_names, metadata,
  GenerateWarningOptions, generate_warning, warning_of,
}

find-any : (p : WarningData → Bool) (l : List WarningData) → is_some (find p l) ≡ any p l
find-any p [] = refl
find-any p (x ∷ l) = ground (arith, find-any p l)

find-holds :
    (p : WarningData → Bool) (l : List WarningData) (x : WarningData)
    → find p l ≡ some x
    → p x ≡ true
find-holds p [] x h = cc
find-holds p (y ∷ l) x h = ground (arith, find-holds p l x)

-- Generation panics on exactly the kinds that the table does not have.
pub generate_warning_total :
    (kind : String) (options : GenerateWarningOptions)
    → is_some (generate_warning kind options) ≡ any (λ data_. data_.name == kind) warnings
unfolding generate_warning
generate_warning_total kind options =
    ground (arith, find-any (λ (data_ : WarningData). data_.name == kind) warnings)

-- The warning has the kind that was asked for and the text of its row; its severity is the caller's,
-- or the row's where the caller gives none; but an `encoded-literal` has the row's severity, no file,
-- and a list of one location.
abbrev pub Says : String → GenerateWarningOptions → Warning → Type 0
Says kind options w =
    (data_ : WarningData) × (metadata kind ≡ some data_)
    × (data_.name ≡ kind)
    × (w.kind ≡ kind)
    × (w.i18n ≡ data_.i18n)
    × (w.value ≡ options.value)
    × (w.severity ≡ (
        if kind == "encoded-literal"
        then data_.severity
        else unwrap_or data_.severity options.severity))
    × (w.file ≡ (if kind == "encoded-literal" then none else options.file))
    × (w.location ≡ (
        if kind == "encoded-literal"
        then multiple (to_array_location options.location ∷ [])
        else single (to_array_location options.location)))

-- A generated warning has the kind that was asked for, the value that the caller gives, and the text of
-- the kind's row; its severity is the caller's, or the row's where the caller gives none; but an
-- `encoded-literal` has the row's severity, no file, and a list of one location.
pub generate_warning-Says :
    (kind : String) (options : GenerateWarningOptions) (w : Warning)
    → generate_warning kind options ≡ some w
    → Says kind options w
unfolding generate_warning
generate_warning-Says kind options w h = elim (Option-cases (metadata kind)) [
  | inl e ↦ absurd (ground arith)
  | inr (data_, e) ↦
      let found : find (λ (d : WarningData). d.name == kind) warnings ≡ some data_ =
        unfold metadata in e in
      let named : (data_.name == kind) ≡ true =
        find-holds (λ d. d.name == kind) warnings data_ found in
      let made : warning_of kind options data_ ≡ w = ground arith in
      (
        data_,
        e,
        (eq_iff data_.name kind).0 named,
        ground arith,
        ground arith,
        ground arith,
        ground arith,
        ground arith,
        ground arith,
      )
]

-- Each optional warning has a row.
optional_names_known :
    all (λ name. any (λ data_. data_.name == name) warnings) optional_warning_names ≡ true
unfolding warnings
optional_names_known = refl
