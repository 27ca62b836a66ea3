-- ===== src/Examples/Sets.antt =====
-- A collectable set of urls, its registry, and a warning.
use js_x_ray_rs.Collectable.Registry.{listed, add_to_registry_lists}
use js_x_ray_rs.Prelude.{
  if◌then◌else◌, ◌&&◌, ◌==◌, ◌++◌, false, none, some, [], ◌∷◌, ◌≡◌, refl, option_map,
}
use js_x_ray_rs.Json.{end}
use js_x_ray_rs.Utils.Location.{SourceArrayLocation}
use js_x_ray_rs.Collectable.{
  DefaultCollectableSet, Entry, new, add, to_json, from_json, new_registry, add_to_registry,
}
use js_x_ray_rs.Collectable.RoundTrip.{
  IsWellFormed, new-IsWellFormed, add-IsWellFormed, from_json-to_json,
}
use js_x_ray_rs.Warnings.{
  WarningData, warnings, generate_warning, no_options, warning_of, GenerateWarningOptions, critical,
  information,
}
use js_x_ray_rs.Warnings.Generate.{generate_warning-Says, Says}

abbrev spot : SourceArrayLocation
spot = ((1, 0), (1, 9))

abbrev urls : DefaultCollectableSet
urls = add "http://a" (some "a.js") spot none (new "url")

urls-IsWellFormed : IsWellFormed urls
urls-IsWellFormed =
    add-IsWellFormed "http://a" (some "a.js") spot none (new "url") (new-IsWellFormed "url")

from_json-to_json_example : from_json (to_json urls) ≡ urls
from_json-to_json_example = from_json-to_json urls urls-IsWellFormed

abbrev a_again : Entry
a_again = record { file = none; location = spot; metadata = none }

abbrev literal_options : GenerateWarningOptions
literal_options = record no_options {
  file = some "a.js";
  value = some "68656c6c6f";
  severity = some critical;
}

abbrev literal_row : WarningData
literal_row = record {
  name = "encoded-literal";
  i18n = "sast_warnings.encoded_literal";
  severity = information;
  experimental = false;
}

generate_warning-Says_example :
    Says "encoded-literal" literal_options
      (warning_of "encoded-literal" literal_options literal_row)
unfolding generate_warning warnings
generate_warning-Says_example =
    generate_warning-Says "encoded-literal" literal_options
      (warning_of "encoded-literal" literal_options literal_row) refl

add_to_registry_lists_example :
    listed "url" "http://b"
      (add_to_registry "url" "http://b" none spot none (new_registry (urls ∷ [])))
    ≡ (if ("url" == "url") && ("http://b" == "http://b")
        then option_map
            (λ l. l ++ record { file = none; location = spot; metadata = some end } ∷ [])
            (listed "url" "http://b" (new_registry (urls ∷ [])))
        else listed "url" "http://b" (new_registry (urls ∷ [])))
add_to_registry_lists_example =
    add_to_registry_lists "url" "http://b" none spot none (new_registry (urls ∷ [])) "url"
      "http://b"
