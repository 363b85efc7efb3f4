-- ===== src/Telemetry/Json.antt =====
-- What system/TelemetryItem.h asks of its library of JSON: `J` is the type of an object, `V` that of
-- a value in it, and `D` that of a double.
use Prim.Native.String.{String}
use ts_m2cellcpp.Prelude.{◌≡◌, ◌≢◌, Bool, List, Option, none, some, ℤ}

-- The values that the items store.
pub data Value (D : Type 0) : Type 0 where
  double : D → Value D
  boolean : Bool → Value D
  string : String → Value D
  doubles : List D → Value D
  ints : List ℤ → Value D

pub data Shape : Type 0 where
  is_double is_boolean is_string is_doubles is_ints : Shape

abbrev pub shape : {D : Type 0} → Value D → Shape
shape (double x) = is_double
shape (boolean x) = is_boolean
shape (string x) = is_string
shape (doubles xs) = is_doubles
shape (ints xs) = is_ints

-- `get` converts to the type of the shape, and `none` is a type_error; `at` is `none` for the
-- out_of_range of a missing key. A value of an
-- item is never null and never an object, so one that is merged in replaces the key.
pub record Json (D J V : Type 0) : Type 0 where
  pub to_json : Value D → V
  pub get : Shape → V → Option (Value D)
  pub empty : J
  pub at : String → J → Option V
  pub set : String → V → J → J
  pub merge_patch : J → J → J
  pub get-to_json : (v : Value D) → get (shape v) (to_json v) ≡ some v
  pub get_shape : (s : Shape) (x : V) (v : Value D) → get s x ≡ some v → shape v ≡ s
  pub at-empty : (k : String) → at k empty ≡ none
  pub at-set : (k : String) (v : V) (j : J) → at k (set k v j) ≡ some v
  pub at-set_other : (k i : String) (v : V) (j : J) → k ≢ i → at k (set i v j) ≡ at k j
  pub at-merge_patch_some :
      (k : String) (j p : J) (v : Value D)
      → at k p ≡ some (to_json v)
      → at k (merge_patch j p) ≡ some (to_json v)
  pub at-merge_patch_none : (k : String) (j p : J) → at k p ≡ none → at k (merge_patch j p) ≡ at k j
