-- ===== src/Util/NamedValue.antt =====
-- The named values of util/NamedValue.h and NamedValue.cpp, which a row of a CSV file sets. The
-- conversions of the C library and the arithmetic of doubles are the parameter `lib`.
pub mod Laws
use ts_m2cellcpp.Prelude.{
  ℕ, ◌-◌, ◌%◌, ◌^◌, ◌>>=◌, Bool, true, false, not, ◌&&◌, ◌==◌, ltb, leb, List, [], ◌∷◌, map, Option,
  none, some, Result, ok, err, Exception, range_error, ℤ, pos, negsuc, if◌then◌else◌,
}
use ts_m2cellcpp.Util.CsvFile.{Text, same_text, CsvFile, get_value}

-- `strtol`, of type long, and `strtod` are `none` where characters are left over; `void_val` is -9876543210.0.
pub record Numbers (D : Type 0) : Type 0 where
  pub strtol : Text → Option ℤ
  pub strtod : Text → Option D
  pub sub : D → D → D
  pub mul : D → D → D
  pub le : D → D → Bool
  pub rad_per_deg : D
  pub void_val : D

-- NamedValueType: `val` and `_valueRead`.
pub record NamedValueType (T : Type 0) : Type 0 where
  pub val : T
  pub value_read : T

pub data UnitType : Type 0 where
  radian degree : UnitType

-- The classes with a name; a double and an angle have a tolerance.
pub data NamedValue (D : Type 0) : Type 0 where
  named_string : Text → NamedValueType Text → NamedValue D
  named_bool : Text → NamedValueType Bool → NamedValue D
  named_int : Text → NamedValueType ℤ → NamedValue D
  named_double : Text → D → NamedValueType D → NamedValue D
  named_angle : Text → UnitType → D → NamedValueType D → NamedValue D

-- setValueRead.
abbrev pub set_value_read : {T : Type 0} → T → NamedValueType T
set_value_read x = record { val = x; value_read = x }

abbrev pub same_bool : Bool → Bool → Bool
same_bool true b = b
same_bool false b = not b

abbrev pub same_int : ℤ → ℤ → Bool
same_int (pos m) (pos n) = m == n
same_int (negsuc m) (negsuc n) = m == n
same_int _ _ = false

-- The `int` that a `long` is stored in.
abbrev pub signed : ℕ → ℤ
signed n = if ltb n (2 ^ 31) then pos n else negsuc (2 ^ 32 - 1 - n)

abbrev pub to_int : ℤ → ℤ
to_int (pos n) = signed (n % 2 ^ 32)
to_int (negsuc n) = signed (2 ^ 32 - 1 - n % 2 ^ 32)

abbrev pub to_upper : ℕ → ℕ
to_upper c = if leb 97 c && leb c 122 then c - 32 else c

-- The conversion of NamedBool::setFromString; the bytes are TRUE and FALSE.
unfoldable pub bool_of : Text → Option Bool
bool_of s =
    if same_text (map to_upper s) (84 ∷ 82 ∷ 85 ∷ 69 ∷ [])
    then some true
    else if same_text (map to_upper s) (70 ∷ 65 ∷ 76 ∷ 83 ∷ 69 ∷ [])
    then some false
    else none

-- The order of the keys of a map.
abbrev pub text_lt : Text → Text → Bool
text_lt s [] = false
text_lt [] (b ∷ t) = true
text_lt (a ∷ s) (b ∷ t) = if a == b then text_lt s t else ltb a b

-- The map afterwards, with the exception that was thrown.
abbrev pub Answer : Type 0 → Type 0
Answer D = List (NamedValue D) × Option Exception

module _ {D : Type 0} where
  abbrev pub get_name : NamedValue D → Text
  get_name (named_string name x) = name
  get_name (named_bool name x) = name
  get_name (named_int name x) = name
  get_name (named_double name t x) = name
  get_name (named_angle name u t x) = name

  -- A value that was converted, or a runtime_error.
  abbrev pub set_converted :
      {T : Type 0} → Option T → (NamedValueType T → NamedValue D) → Result (NamedValue D)
  set_converted none mk = err range_error
  set_converted (some x) mk = ok (mk (set_value_read x))

  -- `insert` of a map in the order of its keys; `none` where the key is there.
  unfoldable pub insert : NamedValue D → List (NamedValue D) → Option (List (NamedValue D))
  insert v [] = some (v ∷ [])
  insert v (w ∷ ws) =
      let rest = insert v ws in
      if text_lt (get_name v) (get_name w)
      then some (v ∷ w ∷ ws)
      else if same_text (get_name v) (get_name w)
      then none
      else elim rest [ none ↦ none | some more ↦ some (w ∷ more) ]

  insert_into : Option (List (NamedValue D)) → List (NamedValue D) → Answer D
  insert_into none m = (m, some range_error)
  insert_into (some more) m = (more, none)

  unfoldable pub setup : NamedValue D → List (NamedValue D) → Answer D
  unfolding insert_into
  setup v m = insert_into (insert v m) m

  -- insertMapElements; the elements before a duplicate stay in `dest`.
  unfoldable pub insert_map_elements : List (NamedValue D) → List (NamedValue D) → Answer D
  insert_map_elements [] dest = (dest, none)
  insert_map_elements (v ∷ src) dest = elim (insert v dest) [
    | none ↦ (dest, some range_error)
    | some more ↦ insert_map_elements src more
  ]

module _ {D : Type 0} (lib : Numbers D) where
  -- setFromStringDeg, with the conversion to radians of setDegRead.
  abbrev pub in_units : UnitType → Option D → Option D
  in_units degree (some x) = some (lib.mul x lib.rad_per_deg)
  in_units _ o = o

  -- setFromString of the classes.
  unfoldable pub set_from_string : Text → NamedValue D → Result (NamedValue D)
  set_from_string s (named_string name x) = ok (named_string name (set_value_read s))
  set_from_string s (named_bool name x) = set_converted (bool_of s) (named_bool name)
  set_from_string s (named_int name x) =
      set_converted (lib.strtol s >>= λ x. some (to_int x)) (named_int name)
  set_from_string s (named_double name t x) = set_converted (lib.strtod s) (named_double name t)
  set_from_string s (named_angle name u t x) =
      set_converted (in_units u (lib.strtod s)) (named_angle name u t)

  -- NamedDouble::approxEqual.
  unfoldable pub approx_equal : D → NamedValueType D → D → Bool
  approx_equal t x v =
      let delta = lib.sub x.value_read v in lib.le (lib.mul delta delta) (lib.mul t t)

  unfoldable pub check : NamedValue D → Bool
  check (named_string name x) = same_text x.value_read x.val
  check (named_bool name x) = same_bool x.value_read x.val
  check (named_int name x) = same_int x.value_read x.val
  check (named_double name t x) = approx_equal t x x.val
  check (named_angle name u t x) = approx_equal t x x.val

  unfoldable pub void_for_test : NamedValue D → NamedValue D
  void_for_test (named_string name x) = named_string name (record x { val = [] })
  void_for_test (named_bool name x) = named_bool name (record x { val = not x.value_read })
  void_for_test (named_int name x) = named_int name (record x { val = negsuc 987653 })
  void_for_test (named_double name t x) = named_double name t (record x { val = lib.void_val })
  void_for_test (named_angle name u t x) = named_angle name u t (record x { val = lib.void_val })

  -- voidValForTest of a map.
  unfoldable pub void_val_for_test : List (NamedValue D) → List (NamedValue D)
  void_val_for_test m = map void_for_test m

  set_next : Result (NamedValue D) → List (NamedValue D) → Answer D → Answer D
  set_next (err e) m rest = (m, some e)
  set_next (ok w) m (ws, thrown) = (w ∷ ws, thrown)

  set_got : Result Text → NamedValue D → List (NamedValue D) → Answer D → Answer D
  unfolding set_next
  set_got (err e) v vs rest = (v ∷ vs, some e)
  set_got (ok text) v vs rest = set_next (set_from_string text v) (v ∷ vs) rest

  -- setMapValuesFromFile; the values before the one that throws stay set.
  unfoldable pub set_map_values_from_file : List (NamedValue D) → CsvFile → ℕ → Answer D
  unfolding set_got
  set_map_values_from_file [] f row = ([], none)
  set_map_values_from_file (v ∷ vs) f row =
      let rest = set_map_values_from_file vs f row in
      set_got (get_value (get_name v) row f) v vs rest
