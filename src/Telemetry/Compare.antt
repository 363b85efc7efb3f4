-- ===== src/Telemetry/Compare.antt =====
-- The comparisons of items and of maps of them, compareItem and compareTelemetryItemMaps of
-- system/TelemetryItem.h and TelemetryItem.cpp, and compareMaps of TelemetryMap.cpp.
pub mod Sorted
pub mod Laws
pub mod Examples
use Prim.Native.String.{String}
use text.Mathlib.Text
use ts_m2cellcpp.Prelude.{
  ℕ, Bool, true, false, not, ◌&&◌, ◌==◌, List, [], ◌∷◌, length, Option, none, some, ℤ,
  if◌then◌else◌,
}
use ts_m2cellcpp.Util.NamedValue.{same_bool, same_int}
use ts_m2cellcpp.Telemetry.Json.{Value, double, boolean, string, doubles, ints}
use ts_m2cellcpp.Telemetry.TelemetryItem.{Item, ItemMap}

-- The maps of items of any class, with its id and compareItem.
module _ {A : Type 0} (id_of : A → String) where
  unfoldable pub find_id : String → List A → Option A
  find_id k [] = none
  find_id k (a ∷ xs) = let rest = find_id k xs in if Text.◌==◌ (id_of a) k then some a else rest

abbrev pub matches : {A : Type 0} → (A → A → Bool) → A → Option A → Bool
matches compare a none = false
matches compare a (some b) = compare a b

module _ {A : Type 0} (id_of : A → String) (compare : A → A → Bool) where
  -- The loop over the elements of the first map.
  unfoldable pub compare_elements : List A → List A → Bool
  compare_elements [] ys = true
  compare_elements (a ∷ xs) ys =
      let rest = compare_elements xs ys in
      if matches compare a (find_id id_of (id_of a) ys) then rest else false

  unfoldable pub compare_telemetry_item_maps : List A → List A → Bool
  compare_telemetry_item_maps xs ys =
      if not (length xs == length ys) then false else compare_elements xs ys

-- == of vectors.
abbrev pub same_list : {A : Type 0} → (A → A → Bool) → List A → List A → Bool
same_list same [] [] = true
same_list same (x ∷ xs) (y ∷ ys) = same x y && same_list same xs ys
same_list same _ _ = false

abbrev pub item_id : {D : Type 0} → Item D → String
item_id a = a.id

abbrev pub map_id : {D : Type 0} → ItemMap D → String
map_id a = a.id

-- The class whose compareItem an item with a map has, by the id of the first that has it.
abbrev pub class_of : String → String
class_of id =
    if Text.◌==◌ id "powerStatusRaw"
    then "powerStatus"
    else if Text.◌==◌ id "positionIMS"
    then "position"
    else id

-- `eq` is == of doubles.
module _ {D : Type 0} (eq : D → D → Bool) where
  -- Values of different classes are a bad_cast; only the vectors compare their sizes.
  abbrev pub compare_value : ℕ → ℕ → Value D → Value D → Bool
  compare_value m n (double x) (double y) = eq x y
  compare_value m n (boolean x) (boolean y) = same_bool x y
  compare_value m n (string x) (string y) = Text.◌==◌ x y
  compare_value m n (doubles xs) (doubles ys) = m == n && same_list eq xs ys
  compare_value m n (ints xs) (ints ys) = m == n && same_list same_int xs ys
  compare_value m n _ _ = false

  -- compareItem of an item with a value.
  unfoldable pub compare_item : Item D → Item D → Bool
  compare_item a b = Text.◌==◌ a.id b.id && compare_value a.size b.size a.val b.val

  -- compareItemsTemplate.
  unfoldable pub compare_items_template : ItemMap D → ItemMap D → Bool
  compare_items_template a b =
      if Text.◌==◌ (class_of a.id) (class_of b.id)
      then compare_telemetry_item_maps item_id compare_item a.ti_map b.ti_map
      else false

  -- compareMaps.
  unfoldable pub compare_maps : List (ItemMap D) → List (ItemMap D) → Bool
  compare_maps = compare_telemetry_item_maps map_id compare_items_template
