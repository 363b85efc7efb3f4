-- ===== src/Telemetry/Examples.antt =====
-- Items of telemetry with a concrete object of JSON.
use ts_m2cellcpp.Prelude.{List, ℕ, refl, [], ◌∷◌}
use ts_m2cellcpp.Telemetry.Json.{double}
use ts_m2cellcpp.Telemetry.Objects.{differ}
use ts_m2cellcpp.Telemetry.TelemetryItem.{ItemMap}
use ts_m2cellcpp.Telemetry.TelemetryItem.Laws.{Distinct, Fresh, AllAlike}
use ts_m2cellcpp.Telemetry.TelemetryMap.{net_forces_total}

-- The total forces of 3, 4 and 5 newtons.
abbrev pub forces : ItemMap ℕ
forces = record {
  id = "netForcesTotal";
  ti_map =
      record { id = "fx"; size = 0; val = double 3000 }
      ∷ record { id = "fy"; size = 0; val = double 4000 }
      ∷ record { id = "fz"; size = 0; val = double 5000 }
      ∷ [];
}

pub forces-Distinct : Distinct forces.ti_map
forces-Distinct =
    ((differ "fx" "fy" refl, (differ "fx" "fz" refl, tt)), ((differ "fy" "fz" refl, tt), (tt, tt)))

pub forces-Fresh : Fresh "id" forces.ti_map
forces-Fresh = (differ "id" "fx" refl, (differ "id" "fy" refl, (differ "id" "fz" refl, tt)))

pub forces-AllAlike : AllAlike forces.ti_map (net_forces_total 0).ti_map
forces-AllAlike = (
  record { same_id = refl; same_size = refl; same_shape = refl; sized = refl },
  (
    record { same_id = refl; same_size = refl; same_shape = refl; sized = refl },
    (record { same_id = refl; same_size = refl; same_shape = refl; sized = refl }, tt),
  ),
)

abbrev three : List ℕ
three = 1 ∷ 2 ∷ 3 ∷ []
