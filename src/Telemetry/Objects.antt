-- ===== src/Telemetry/Objects.antt =====
-- A concrete library of JSON, for the tests.
use Prim.Native.String.{String}
use text.Mathlib.Text
use text.Mathlib.TextEquality.{eq_iff}
use text.Mathlib.TextPositions.{eq_refl}
use ts_m2cellcpp.Prelude.{ℕ, ◌≡◌, ◌≢◌, refl, false, Option, none, some, if◌then◌else◌, arith}
use ts_m2cellcpp.Telemetry.Json.{
  Value, double, boolean, string, doubles, ints, Shape, is_double, is_boolean, is_string,
  is_doubles, is_ints, shape, Json,
}

-- A double is its count of thousandths, and an object a function from its keys.
unfoldable pub get_value : Shape → Value ℕ → Option (Value ℕ)
get_value is_double (double x) = some (double x)
get_value is_boolean (boolean x) = some (boolean x)
get_value is_string (string x) = some (string x)
get_value is_doubles (doubles x) = some (doubles x)
get_value is_ints (ints x) = some (ints x)
get_value _ _ = none

pub get_value-shape : (v : Value ℕ) → get_value (shape v) v ≡ some v
unfolding get_value
get_value-shape (double x) = refl
get_value-shape (boolean x) = refl
get_value-shape (string x) = refl
get_value-shape (doubles x) = refl
get_value-shape (ints x) = refl

pub shape-get_value : (s : Shape) (x v : Value ℕ) → get_value s x ≡ some v → shape v ≡ s
unfolding get_value
shape-get_value is_double (double x) v h = ground (arith, h)
shape-get_value is_boolean (boolean x) v h = ground (arith, h)
shape-get_value is_string (string x) v h = ground (arith, h)
shape-get_value is_doubles (doubles x) v h = ground (arith, h)
shape-get_value is_ints (ints x) v h = ground (arith, h)
shape-get_value _ _ v h = ground (arith, h)

abbrev pub Object : Type 0
Object = String → Option (Value ℕ)

abbrev pub put : String → Value ℕ → Object → Object
put k v j i = if Text.◌==◌ i k then some v else j i

pub put_same : (k : String) (v : Value ℕ) (j : Object) → put k v j k ≡ some v
put_same k v j = rw (eq_refl k) refl

pub put_other : (k i : String) (v : Value ℕ) (j : Object) → k ≢ i → put i v j k ≡ j k
put_other k i v j n = ground (arith, eq_iff k i, n)

abbrev pub over : Option (Value ℕ) → Option (Value ℕ) → Option (Value ℕ)
over (some v) o = some v
over none o = o

abbrev pub objects : Json ℕ Object (Value ℕ)
objects = record {
  to_json = λ v. v;
  get = get_value;
  empty = λ k. none;
  at = λ k j. j k;
  set = put;
  merge_patch = λ j p k. over (p k) (j k);
  get-to_json = get_value-shape;
  get_shape = shape-get_value;
  at-empty = λ k. refl;
  at-set = put_same;
  at-set_other = put_other;
  at-merge_patch_some = λ k j p v e. rw e refl;
  at-merge_patch_none = λ k j p e. rw e refl;
}

pub differ : (a b : String) → Text.◌==◌ a b ≡ false → a ≢ b
differ a b h = ground (arith, eq_iff a b, h)
