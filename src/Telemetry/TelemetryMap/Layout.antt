-- ===== src/Telemetry/TelemetryMap/Layout.antt =====
-- The ids, the types and the sizes of the items of a map outlast every message.
use Prim.Native.String.{String}
use text.Mathlib.Text
use ts_m2cellcpp.Prelude.{
  ◌≡◌, refl, ◌∙◌, inl, inr, Bool, true, false, Bool-cases, List, [], ◌∷◌, Option, none, some,
  Result, ok, err,
}
use ts_m2cellcpp.Telemetry.Json.{Value, double, boolean, string, doubles, ints, is_string, Json}
use ts_m2cellcpp.Telemetry.TelemetryItem.{ItemMap, set_map_from_json}
use ts_m2cellcpp.Telemetry.TelemetryItem.Laws.{AllAlike}
use ts_m2cellcpp.Telemetry.TelemetryItem.Layout.{
  AllAlike-trans, AllAlike-self, set_map_from_json-AllAlike, set_map_from_json-id,
}
use ts_m2cellcpp.Telemetry.TelemetryMap.{
  answer, behind, set_found, set_string, set_read, set_item_from_json,
}

module _ {D : Type 0} where
  -- Items with the same ids, and values of the same ids, types and sizes.
  abbrev pub SameLayout : List (ItemMap D) → List (ItemMap D) → Type 0
  SameLayout [] [] = Unit
  SameLayout (a ∷ ms) (b ∷ ns) = (a.id ≡ b.id) × AllAlike a.ti_map b.ti_map × SameLayout ms ns
  SameLayout _ _ = ⊥

  pub SameLayout-trans :
      (ms ns ks : List (ItemMap D)) → SameLayout ms ns → SameLayout ns ks → SameLayout ms ks
  SameLayout-trans [] [] [] h k = tt
  SameLayout-trans [] [] (z ∷ zs) h k = elim k [ ]
  SameLayout-trans [] (y ∷ ys) zs h k = elim h [ ]
  SameLayout-trans (x ∷ xs) [] zs h k = elim h [ ]
  SameLayout-trans (x ∷ xs) (y ∷ ys) [] h k = elim k [ ]
  SameLayout-trans (x ∷ xs) (y ∷ ys) (z ∷ zs) (e, h, hs) (f, k, ks) =
      (e ∙ f, AllAlike-trans x.ti_map y.ti_map z.ti_map h k, SameLayout-trans xs ys zs hs ks)

  pub SameLayout-self : (ms ns : List (ItemMap D)) → SameLayout ms ns → SameLayout ms ms
  SameLayout-self [] ns h = tt
  SameLayout-self (m ∷ ms) [] h = elim h [ ]
  SameLayout-self (m ∷ ms) (n ∷ ns) (e, h, hs) =
      (refl, AllAlike-self m.ti_map n.ti_map h, SameLayout-self ms ns hs)

module _ {D J V : Type 0} (lib : Json D J V) where
  answer-SameLayout :
      (id : String) (r : ItemMap D × Result Bool) (m : ItemMap D) (rest : List (ItemMap D))
      → r.0.id ≡ m.id
      → AllAlike r.0.ti_map m.ti_map
      → SameLayout rest rest
      → SameLayout (answer lib id r rest).0 (m ∷ rest)
  unfolding answer
  answer-SameLayout id (n, err e) m rest i h k = (i, h, k)
  answer-SameLayout id (n, ok true) m rest i h k = (i, h, k)
  answer-SameLayout id (n, ok false) m rest i h k = (i, h, k)

  set_found-SameLayout :
      (id : String) (js : J) (ms : List (ItemMap D))
      → SameLayout ms ms
      → SameLayout (set_found lib id js ms).0 ms
  unfolding set_found behind
  set_found-SameLayout id js [] h = tt
  set_found-SameLayout id js (m ∷ ms) (e, h, hs) = elim (Bool-cases (Text.◌==◌ m.id id)) [
    | inl c ↦ rw c (
        answer-SameLayout id (set_map_from_json lib js m) m ms (set_map_from_json-id lib js m)
          (set_map_from_json-AllAlike lib js m h) hs)
    | inr c ↦ rw c (refl, h, set_found-SameLayout id js ms hs)
  ]

  set_string-SameLayout :
      (o : Option (Value D)) (js : J) (ms : List (ItemMap D))
      → SameLayout ms ms
      → SameLayout (set_string lib o js ms).0 ms
  unfolding set_string
  set_string-SameLayout (some (string id)) js ms h = set_found-SameLayout id js ms h
  set_string-SameLayout (some (double x)) js ms h = h
  set_string-SameLayout (some (boolean x)) js ms h = h
  set_string-SameLayout (some (doubles x)) js ms h = h
  set_string-SameLayout (some (ints x)) js ms h = h
  set_string-SameLayout none js ms h = h

  set_read-SameLayout :
      (o : Option V) (js : J) (ms : List (ItemMap D))
      → SameLayout ms ms
      → SameLayout (set_read lib o js ms).0 ms
  unfolding set_read
  set_read-SameLayout none js ms h = h
  set_read-SameLayout (some v) js ms h = set_string-SameLayout (lib.get is_string v) js ms h

  pub set_item_from_json-SameLayout :
      (js : J) (ms : List (ItemMap D))
      → SameLayout ms ms
      → SameLayout (set_item_from_json lib js ms).0 ms
  unfolding set_item_from_json
  set_item_from_json-SameLayout js ms h = set_read-SameLayout (lib.at "id" js) js ms h
