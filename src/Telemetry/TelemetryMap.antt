-- ===== src/Telemetry/TelemetryMap.antt =====
-- The items of telemetry that system/TelemetryItemDefs.h and TelemetryMap.h declare, with their
-- values at the start, and the messages that set them, system/TelemetryMap.cpp. The names of the
-- values are in the order of their map.
pub mod Laws
pub mod Layout
use Prim.Native.String.{String}
use text.Mathlib.Text
use ts_m2cellcpp.Prelude.{
  ℕ, Bool, true, false, List, [], ◌∷◌, Option, none, some, ◌>>=◌, ℤ, pos, Result, ok, err,
  Exception, range_error, undefined_behaviour, if◌then◌else◌,
}
use ts_m2cellcpp.Telemetry.Json.{Value, double, string, doubles, ints, Shape, Json}
use ts_m2cellcpp.Telemetry.TelemetryItem.{Item, ItemMap, set_map_from_json}

-- `zero` is the double 0.0.
module _ {D : Type 0} (zero : D) where
  abbrev copies : {A : Type 0} → ℕ → A → List A
  copies ℕ.zero x = []
  copies (ℕ.suc n) x = x ∷ copies n x

  abbrev pub t_double : String → Item D
  t_double id = record { id = id; size = 0; val = double zero }

  abbrev pub t_vector_double : String → ℕ → Item D
  t_vector_double id size = record { id = id; size = size; val = doubles (copies size zero) }

  abbrev pub t_vector_int : String → ℕ → Item D
  t_vector_int id size = record { id = id; size = size; val = ints (copies size (pos 0)) }

  abbrev pub t_string : String → Item D
  t_string id = record { id = id; size = 0; val = string "" }

  abbrev pub power_status_base : String → ItemMap D
  power_status_base id = record {
    id = id;
    ti_map =
        t_double "commCurrent"
        ∷ t_double "commVoltage"
        ∷ t_double "motorCurrent"
        ∷ t_double "motorVoltage"
        ∷ [];
  }

  abbrev pub power_status : ItemMap D
  power_status = power_status_base "powerStatus"

  abbrev pub power_status_raw : ItemMap D
  power_status_raw = power_status_base "powerStatusRaw"

  abbrev pub tangent_force : ItemMap D
  tangent_force = record {
    id = "tangentForce";
    ti_map =
        t_vector_double "applied" 6
        ∷ t_vector_double "hardpointCorrection" 6
        ∷ t_vector_double "lutGravity" 6
        ∷ t_vector_double "lutTemperature" 6
        ∷ t_vector_double "measured" 6
        ∷ [];
  }

  abbrev pub force_balance : ItemMap D
  force_balance = record {
    id = "forceBalance";
    ti_map =
        t_double "fx"
        ∷ t_double "fy"
        ∷ t_double "fz"
        ∷ t_double "mx"
        ∷ t_double "my"
        ∷ t_double "mz"
        ∷ [];
  }

  abbrev pub position_base : String → ItemMap D
  position_base id = record {
    id = id;
    ti_map =
        t_double "x"
        ∷ t_double "xRot"
        ∷ t_double "y"
        ∷ t_double "yRot"
        ∷ t_double "z"
        ∷ t_double "zRot"
        ∷ [];
  }

  abbrev pub position : ItemMap D
  position = position_base "position"

  abbrev pub position_ims : ItemMap D
  position_ims = position_base "positionIMS"

  abbrev pub temperature : ItemMap D
  temperature = record {
    id = "temperature";
    ti_map =
        t_vector_double "exhaust" 2 ∷ t_vector_double "intake" 2 ∷ t_vector_double "ring" 12 ∷ [];
  }

  abbrev pub zenith_angle : ItemMap D
  zenith_angle = record {
    id = "zenithAngle";
    ti_map =
        t_double "inclinometerProcessed" ∷ t_double "inclinometerRaw" ∷ t_double "measured" ∷ [];
  }

  abbrev pub axial_encoder_positions : ItemMap D
  axial_encoder_positions = record {
    id = "axialEncoderPositions";
    ti_map = t_vector_double "position" 72 ∷ [];
  }

  abbrev pub tangent_encoder_positions : ItemMap D
  tangent_encoder_positions = record {
    id = "tangentEncoderPositions";
    ti_map = t_vector_double "position" 6 ∷ [];
  }

  abbrev pub axial_actuator_steps : ItemMap D
  axial_actuator_steps = record { id = "axialActuatorSteps"; ti_map = t_vector_int "steps" 72 ∷ [] }

  abbrev pub tangent_actuator_steps : ItemMap D
  tangent_actuator_steps = record {
    id = "tangentActuatorSteps";
    ti_map = t_vector_int "steps" 6 ∷ [];
  }

  abbrev pub force_error_tangent : ItemMap D
  force_error_tangent = record {
    id = "forceErrorTangent";
    ti_map = t_vector_double "force" 6 ∷ t_double "sum" ∷ t_double "weight" ∷ [];
  }

  abbrev pub inclinometer_angle_tma : ItemMap D
  inclinometer_angle_tma = record {
    id = "inclinometerAngleTma";
    ti_map = t_double "inclinometer" ∷ [];
  }

  abbrev pub displacement_sensors : ItemMap D
  displacement_sensors = record {
    id = "displacementSensors";
    ti_map = t_vector_double "deltaZ" 6 ∷ t_vector_double "thetaZ" 6 ∷ [];
  }

  abbrev pub ilc_data : ItemMap D
  ilc_data = record { id = "ilcData"; ti_map = t_vector_double "status" 78 ∷ [] }

  abbrev pub net_forces_total : ItemMap D
  net_forces_total = record {
    id = "netForcesTotal";
    ti_map = t_double "fx" ∷ t_double "fy" ∷ t_double "fz" ∷ [];
  }

  abbrev pub net_moments_total : ItemMap D
  net_moments_total = record {
    id = "netMomentsTotal";
    ti_map = t_double "mx" ∷ t_double "my" ∷ t_double "mz" ∷ [];
  }

  abbrev pub axial_force : ItemMap D
  axial_force = record {
    id = "axialForce";
    ti_map =
        t_vector_double "applied" 72
        ∷ t_vector_double "hardpointCorrection" 72
        ∷ t_vector_double "lutGravity" 72
        ∷ t_vector_double "lutTemperature" 72
        ∷ t_vector_double "measured" 72
        ∷ [];
  }

  abbrev pub tel_elevation : ItemMap D
  tel_elevation = record {
    id = "tel_elevation";
    ti_map = t_double "actualPosition" ∷ t_string "compName" ∷ [];
  }

  -- Every item of the map, in the order of the declarations.
  abbrev pub telemetry_map : List (ItemMap D)
  telemetry_map =
      power_status ∷ power_status_raw ∷ tangent_force ∷ force_balance ∷ position ∷ position_ims
      ∷ temperature ∷ zenith_angle ∷ axial_encoder_positions ∷ tangent_encoder_positions
      ∷ axial_actuator_steps ∷ tangent_actuator_steps ∷ force_error_tangent ∷ inclinometer_angle_tma
      ∷ displacement_sensors ∷ ilc_data ∷ net_forces_total ∷ net_moments_total ∷ axial_force
      ∷ tel_elevation ∷ []

module _ {D J V : Type 0} (lib : Json D J V) where
  answer :
      String
      → ItemMap D × Result Bool
      → List (ItemMap D)
      → List (ItemMap D) × Result (Option String)
  answer id (m, err e) rest = (m ∷ rest, err e)
  answer id (m, ok true) rest = (m ∷ rest, ok (some id))
  answer id (m, ok false) rest = (m ∷ rest, ok none)

  behind :
      ItemMap D
      → List (ItemMap D) × Result (Option String)
      → List (ItemMap D) × Result (Option String)
  behind m (rest, r) = (m ∷ rest, r)

  set_found : String → J → List (ItemMap D) → List (ItemMap D) × Result (Option String)
  set_found id js [] = ([], ok none)
  set_found id js (m ∷ rest) =
      if Text.◌==◌ m.id id
      then answer id (set_map_from_json lib js m) rest
      else behind m (set_found id js rest)

  set_string : Option (Value D) → J → List (ItemMap D) → List (ItemMap D) × Result (Option String)
  set_string (some (string id)) js map = set_found id js map
  set_string _ js map = (map, err range_error)

  -- The operator [] of a constant object is undefined for a key that it has not.
  set_read : Option V → J → List (ItemMap D) → List (ItemMap D) × Result (Option String)
  set_read none js map = (map, err undefined_behaviour)
  set_read (some v) js map = set_string (lib.get Shape.is_string v) js map

  -- setItemFromJson, with the id for the pointer that it returns; `none` is nullptr.
  unfoldable pub set_item_from_json :
      J → List (ItemMap D) → List (ItemMap D) × Result (Option String)
  unfolding answer behind set_found set_string set_read
  set_item_from_json js map = set_read (lib.at "id" js) js map
