-- ===== src/Telemetry/TelemetryCom/Examples.antt =====
-- Connections with concrete texts of JSON.
use text.Mathlib.Text
use ts_m2cellcpp.Prelude.{
  parsed, parse_error, length, ℕ, ◌≡◌, refl, Bool, true, false, ◌&&◌, List, [], ◌∷◌, Option, some,
  if◌then◌else◌, arith,
}
use ts_m2cellcpp.Util.CsvFile.{Text, same_text}
use ts_m2cellcpp.Telemetry.Json.{Value, double, string}
use ts_m2cellcpp.Telemetry.TelemetryItem.{
  Item, ItemMap, fits, get_json, merge_items, build_json_from_map,
}
use ts_m2cellcpp.Telemetry.TelemetryItem.Laws.{AllAlike}
use ts_m2cellcpp.Telemetry.TelemetryMap.{net_forces_total, net_moments_total, telemetry_map}
use ts_m2cellcpp.Telemetry.TelemetryMap.Layout.{SameLayout}
use ts_m2cellcpp.Telemetry.Objects.{Object, objects, differ}
use ts_m2cellcpp.Telemetry.Examples.{forces, forces-Distinct, forces-Fresh, forces-AllAlike}
use ts_m2cellcpp.Telemetry.TelemetryCom.{
  Texts, reading, serv_conn_reader, client, Sending, send_items,
}
use ts_m2cellcpp.Telemetry.TelemetryCom.Transfer.{received, client-send_items}
use ts_m2cellcpp.Telemetry.TelemetryCom.Layout.{HasElevation, Reads, serv_conn_reader-SameLayout}

-- The elevation is 45 degrees.
abbrev elevation : ItemMap ℕ
elevation = record {
  id = "tel_elevation";
  ti_map =
      record { id = "actualPosition"; size = 0; val = double 45000 }
      ∷ record { id = "compName"; size = 0; val = string "MTMount" }
      ∷ [];
}

text_of : Option (Value ℕ) → Text
text_of (some (string s)) = if Text.◌==◌ s "tel_elevation" then 101 ∷ [] else 102 ∷ []
text_of _ = []

-- Two objects have a text.
texts : Texts Object
texts = record {
  to_string = λ j. text_of (j "id");
  parse = λ s.
      if same_text s (101 ∷ [])
      then parsed (some (build_json_from_map objects elevation))
      else if same_text s (102 ∷ [])
      then parsed (some (build_json_from_map objects forces))
      else parse_error;
}

-- The forces are sent, and the moments are not.
abbrev outgoing : List (Sending ℕ)
outgoing = (forces, false) ∷ (net_moments_total 7, true) ∷ []

abbrev incoming : List (ItemMap ℕ)
incoming = net_forces_total 0 ∷ net_moments_total 0 ∷ []

all_fit : List (Item ℕ) → Bool
all_fit [] = true
all_fit (i ∷ is) = fits i.size i.val && all_fit is

AllAlike-fit : (is : List (Item ℕ)) → all_fit is ≡ true → AllAlike is is
unfolding all_fit
AllAlike-fit [] h = tt
AllAlike-fit (i ∷ is) h = (
  record { same_id = refl; same_size = refl; same_shape = refl; sized = ground arith },
  AllAlike-fit is (ground arith),
)

AllAlike-moments : AllAlike {D = ℕ} (net_moments_total 7).ti_map (net_moments_total 0).ti_map
AllAlike-moments = (
  record { same_id = refl; same_size = refl; same_shape = refl; sized = refl },
  (
    record { same_id = refl; same_size = refl; same_shape = refl; sized = refl },
    (record { same_id = refl; same_size = refl; same_shape = refl; sized = refl }, tt),
  ),
)

-- Every send takes the whole message.
whole : ℕ → Text → Option ℕ
whole n s = some (length s)

client-send_items_example :
    client objects texts (send_items objects texts whole 0 outgoing).0 incoming
    ≡ reading (received objects texts whole 0 outgoing incoming) []
unfolding texts text_of whole build_json_from_map merge_items get_json
client-send_items_example =
    client-send_items objects texts whole 0 outgoing incoming (λ n s k e. ground (arith, e))
      ((refl, (refl, tt)), (tt, tt))
      (
        (refl, forces-Distinct, forces-Fresh, forces-AllAlike),
        (
          (
            refl,
            (
              (differ "mx" "my" refl, (differ "mx" "mz" refl, tt)),
              ((differ "my" "mz" refl, tt), (tt, tt)),
            ),
            (differ "id" "mx" refl, (differ "id" "my" refl, (differ "id" "mz" refl, tt))),
            AllAlike-moments,
          ),
          tt,
        ),
      )
      ((differ "netForcesTotal" "netMomentsTotal" refl, tt), (tt, tt))

all_sized : List (ItemMap ℕ) → Bool
unfolding all_fit
all_sized [] = true
all_sized (m ∷ ms) = all_fit m.ti_map && all_sized ms

SameLayout-sized : (ms : List (ItemMap ℕ)) → all_sized ms ≡ true → SameLayout ms ms
unfolding all_sized
SameLayout-sized [] h = tt
SameLayout-sized (m ∷ ms) h =
    (refl, AllAlike-fit m.ti_map (ground arith), SameLayout-sized ms (ground arith))

map_sized : all_sized (telemetry_map 0) ≡ true
unfolding all_sized
map_sized = refl

map_elevation : HasElevation {D = ℕ} (telemetry_map 0)
map_elevation = record { position = λ v e. ground (arith, e); angle = λ v e. ground (arith, e) }

serv_conn_reader-SameLayout_example :
    Reads
      (λ (ms : List (ItemMap ℕ)). SameLayout ms (telemetry_map 0))
      (serv_conn_reader objects texts (101 ∷ 13 ∷ 10 ∷ 102 ∷ []) (telemetry_map 0))
serv_conn_reader-SameLayout_example =
    serv_conn_reader-SameLayout objects texts (101 ∷ 13 ∷ 10 ∷ 102 ∷ []) (telemetry_map 0)
      (SameLayout-sized (telemetry_map 0) map_sized) map_elevation
