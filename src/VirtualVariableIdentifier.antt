-- ===== src/VirtualVariableIdentifier.antt =====
-- Identifiers that the analysis makes up: crates/js-x-ray/src/virtual_variable_identifier.rs. The
-- process-wide state behind the lock is passed along.
use js_x_ray_rs.Prelude.{ℕ, ◌+◌, String, Option, some, ◌>>=◌, [], ◌<>◌, decimal, ◌≡◌, refl}
use js_x_ray_rs.Prelude.IndexMap.{IndexMap, get, insert}
use js_x_ray_rs.Estree.{SourceLocation, root_location}

pub record State : Type 0 where
  pub counter : ℕ
  pub id_to_locations : IndexMap (Option SourceLocation)

unfoldable pub generate : String → Option SourceLocation → State → State × String
unfolding decimal insert
generate name location state =
    let virtual_id = "__virtual_" <> name <> "_" <> decimal state.counter <> "__" in
    (
      record {
        counter = state.counter + 1;
        id_to_locations = insert virtual_id location state.id_to_locations;
      },
      virtual_id,
    )

unfoldable pub get_location : String → State → Option SourceLocation
unfolding get
get_location virtual_id state = do location ← get virtual_id state.id_to_locations; location

unfoldable pub reset : State → State
reset state = record { counter = 0; id_to_locations = [] }

generate_runs :
    (generate "x" (some root_location) (record { counter = 12; id_to_locations = [] })).1
    ≡ "__virtual_x_12__"
unfolding generate
generate_runs = refl
