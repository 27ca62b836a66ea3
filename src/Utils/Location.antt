-- ===== src/Utils/Location.antt =====
-- crates/js-x-ray/src/utils/to_array_location.rs
use js_x_ray_rs.Prelude.{ℕ, Option, unwrap_or}
use js_x_ray_rs.Estree.{SourceLocation, root_location}

-- `[[line, column], [line, column]]`
abbrev pub SourceArrayLocation : Type 0
SourceArrayLocation = (ℕ × ℕ) × (ℕ × ℕ)

-- `toArrayLocation`
unfoldable pub to_array_location : Option SourceLocation → SourceArrayLocation
unfolding root_location
to_array_location location =
    let l = unwrap_or root_location location in
    ((l.start.line, l.start.column), (l.stop.line, l.stop.column))
