-- ===== src/Telemetry/TelemetryItem.antt =====
-- The items of system/TelemetryItem.h and TelemetryItem.cpp: TItemSimple, TItemString and
-- TItemVector with one value, and an item with a map of these.
pub mod Laws
pub mod Layout
use Prim.Native.String.{String}
use text.Mathlib.Text
use ts_m2cellcpp.Prelude.{
  ℕ, ◌≤◌, ◌<◌, Bool, true, false, not, ◌&&◌, ltb, ◌==◌, List, [], ◌∷◌, ◌++◌, length, Option, none,
  some, any, ◌>>=◌, Result, ok, err, Exception, bug, range_error, if◌then◌else◌,
}
use ts_m2cellcpp.Telemetry.Json.{Value, double, boolean, string, doubles, ints, Shape, shape, Json}

-- `size` is `_size` of a TItemVector, and 0 for the other items.
pub record Item (D : Type 0) : Type 0 where
  pub id : String
  pub size : ℕ
  pub val : Value D

-- An item with a map, in the order of its keys.
pub record ItemMap (D : Type 0) : Type 0 where
  pub id : String
  pub ti_map : List (Item D)

module _ {D : Type 0} where
  -- The sizes of TItemVector::setVals agree.
  abbrev pub fits : ℕ → Value D → Bool
  fits n (doubles xs) = length xs == n
  fits n (ints xs) = length xs == n
  fits n _ = true

  -- setVals and setVal of an item.
  unfoldable pub set_vals : Value D → Item D → Item D × Bool
  set_vals v item = if fits item.size v then (record item { val = v }, true) else (item, false)

  abbrev pub replace_at : ℕ → D → List D → List D
  replace_at i x [] = []
  replace_at ℕ.zero x (y ∷ ys) = x ∷ ys
  replace_at (ℕ.suc i) x (y ∷ ys) = y ∷ replace_at i x ys

  -- What `_vals[index] = val` stores where it has an element; `none` is a write past the end.
  store : ℕ → D → List D → Option (List D)
  store i x xs = if ltb i (length xs) then some (replace_at i x xs) else none

  -- TItemVector::setVal, of a vector of doubles: the answer, and the vector after the write.
  unfoldable pub set_val : ℕ → ℕ → D → List D → Option (List D × Bool)
  unfolding store
  set_val size index x xs =
      if ltb size index then some (xs, false) else (store index x xs >>= λ ys. some (ys, true))

module _ {D J V : Type 0} (lib : Json D J V) where
  -- getJson of an item with a value.
  unfoldable pub get_json : Item D → J
  get_json item = lib.set item.id (lib.to_json item.val) lib.empty

  set_got : Option (Value D) → Item D → Item D × Result Bool
  set_got none item = (item, err range_error)
  set_got (some v) item = let (after, success) = set_vals v item in (after, ok success)

  set_at : Option V → Item D → Item D × Result Bool
  set_at none item = (item, ok false)
  set_at (some v) item = set_got (lib.get (shape item.val) v) item

  -- setFromJson of an item with a value, of a message without an "id"; the exception is a
  -- type_error, which nothing on the way catches.
  unfoldable pub set_from_json : J → Item D → Item D × Result Bool
  unfolding set_got set_at
  set_from_json js item = set_at (lib.at item.id js) item

  -- buildJsonFromMap, with the object so far.
  unfoldable pub merge_items : List (Item D) → J → J
  merge_items [] js = js
  merge_items (item ∷ items) js = merge_items items (lib.merge_patch js (get_json item))

  unfoldable pub build_json_from_map : ItemMap D → J
  build_json_from_map m = merge_items m.ti_map (lib.set "id" (lib.to_json (string m.id)) lib.empty)

  -- The status of the rest, once this item has `status`; an exception ends the loop.
  and_then :
      Item D × Result Bool
      → (List (Item D) × Result Bool)
      → List (Item D)
      → List (Item D) × Result Bool
  and_then (after, err e) done items = (after ∷ items, err e)
  and_then (after, ok status) (rest, err e) items = (after ∷ rest, err e)
  and_then (after, ok status) (rest, ok success) items = (after ∷ rest, ok (status && success))

  -- The loop of setMapFromJson.
  unfoldable pub set_items : J → List (Item D) → List (Item D) × Result Bool
  unfolding and_then
  set_items js [] = ([], ok true)
  set_items js (item ∷ items) = and_then (set_from_json js item) (set_items js items) items

  is_id : String → Option (Value D) → Bool
  is_id id (some (string s)) = Text.◌==◌ s id
  is_id id _ = false

  -- checkIdCorrect where an "id" is expected; a missing one is not equal.
  unfoldable pub check_id_correct : J → String → Bool
  unfolding is_id
  check_id_correct js id = is_id id (lib.at "id" js >>= lib.get Shape.is_string)

  -- setMapFromJson, with the map that it leaves.
  unfoldable pub set_map_from_json : J → ItemMap D → ItemMap D × Result Bool
  set_map_from_json js m =
      let (items, status) = set_items js m.ti_map in
      if check_id_correct js m.id then (record m { ti_map = items }, status) else (m, ok false)
