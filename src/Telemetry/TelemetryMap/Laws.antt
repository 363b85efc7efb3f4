-- ===== src/Telemetry/TelemetryMap/Laws.antt =====
-- A message reaches the item that it names, and no other.
use Prim.Native.String.{String}
use text.Mathlib.Text
use text.Mathlib.TextEquality.{eq_iff}
use ts_m2cellcpp.Prelude.{
  ◌≡◌, ◌≢◌, refl, sym, ◌∙◌, true, false, List, [], ◌∷◌, ◌++◌, Option, some, All, Result, ok,
  if_true, arith,
}
use ts_m2cellcpp.Telemetry.Json.{string, Json}
use ts_m2cellcpp.Telemetry.TelemetryItem.{ItemMap, build_json_from_map, set_map_from_json}
use ts_m2cellcpp.Telemetry.TelemetryItem.Laws.{
  AllAlike, Fresh, Distinct, at-build_json_from_map, set_map_from_json-build_json_from_map,
}
use ts_m2cellcpp.Telemetry.TelemetryMap.{
  answer, behind, set_found, set_string, set_read, set_item_from_json,
}

-- None of the items of the map has the id.
abbrev pub Absent : {D : Type 0} → String → List (ItemMap D) → Type 0
Absent {D} id ms = All (λ (m : ItemMap D). m.id ≢ id) ms

other_id : (a b : String) → a ≢ b → Text.◌==◌ a b ≡ false
other_id a b n = ground (arith, eq_iff a b, n)

same_id : (a b : String) → a ≡ b → Text.◌==◌ a b ≡ true
same_id a b e = ground (arith, eq_iff a b, e)

module _ {D J V : Type 0} (lib : Json D J V) where
  set_found_at :
      (id : String) (js : J) (before : List (ItemMap D)) (b : ItemMap D) (after : List (ItemMap D))
      → Absent id before
      → b.id ≡ id
      → set_found lib id js (before ++ b ∷ after) ≡ (
        before ++ (answer lib id (set_map_from_json lib js b) after).0,
        (answer lib id (set_map_from_json lib js b) after).1,
      )
  unfolding set_found behind
  set_found_at id js [] b after n e =
      let found = answer lib id (set_map_from_json lib js b) after in
      if_true (λ (r : List (ItemMap D) × Result (Option String)). r ≡ (found.0, found.1))
        (Text.◌==◌ b.id id) found (behind lib b (set_found lib id js after)) (same_id b.id id e)
        refl
  set_found_at id js (m ∷ ms) b after (n, ns) e =
      rw (other_id m.id id n, set_found_at id js ms b after ns e) refl

  -- The message that one item writes sets the item with its id in the map, wherever this stands,
  -- leaves all others alone, and is answered with the id, if both items have the same layout.
  pub set_item_from_json-build_json_from_map :
      (a b : ItemMap D) (before after : List (ItemMap D))
      → a.id ≡ b.id
      → Absent a.id before
      → Distinct a.ti_map
      → Fresh "id" a.ti_map
      → AllAlike a.ti_map b.ti_map
      → set_item_from_json lib (build_json_from_map lib a) (before ++ b ∷ after)
        ≡ (before ++ a ∷ after, ok (some a.id))
  unfolding set_item_from_json set_read set_string answer
  set_item_from_json-build_json_from_map a b before after e n d f h =
      rw (at-build_json_from_map lib a f, lib.get-to_json (string a.id))
        (set_found_at a.id (build_json_from_map lib a) before b after n (sym e)
          ∙ rw (set_map_from_json-build_json_from_map lib a b e d f h) refl)
