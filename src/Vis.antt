-- ===== src/Vis.antt =====
-- The checks that were LabView programs. vis/LabViewVI.cpp: their constants are set from the
-- configuration, from a section of the check itself or else from the section "Globals".
pub mod Laws
pub mod TangentLoadCell
pub mod Examples
use ts_m2cellcpp.Prelude.{
  Bool, true, false, ◌||◌, List, [], ◌∷◌, map, Option, none, some, Result, ok, err, Exception,
  if◌then◌else◌,
}
use ts_m2cellcpp.Util.CsvFile.{Text}
use ts_m2cellcpp.Util.NamedValue.{Numbers, NamedValue, get_name, set_from_string}
use ts_m2cellcpp.Config.{
  ConfigError, config_exception, bad_subscript, parser_exception, Checked, value, throws,
}

-- An exception of the configuration, or of a text that does not convert.
pub data Thrown : Type 0 where
  by_config : ConfigError → Thrown
  by_value : Exception → Thrown

-- An element of constMap, and whether undefConsts, which shares it, still has it.
abbrev pub Constant : Type 0 → Type 0
Constant D = NamedValue D × Bool

-- The bytes of "Globals".
abbrev pub globals : Text
globals = 71 ∷ 108 ∷ 111 ∷ 98 ∷ 97 ∷ 108 ∷ 115 ∷ []

module _ {D : Type 0} where
  abbrev pub undefined : NamedValue D → Constant D
  undefined v = (v, true)

  abbrev pub any_undefined : List (Constant D) → Bool
  any_undefined [] = false
  any_undefined ((v, b) ∷ cs) = b || any_undefined cs

  abbrev pub named_values : List (Constant D) → List (NamedValue D)
  named_values [] = []
  named_values ((v, b) ∷ cs) = v ∷ named_values cs

  -- The element is erased from undefConsts once it is set.
  abbrev pub set_read : Result (NamedValue D) → NamedValue D → Constant D × Option Thrown
  set_read (ok w) v = ((w, false), none)
  set_read (err e) v = ((v, true), some (by_value e))

  abbrev pub search_on :
      Constant D × Option Thrown
      → List (Constant D)
      → List (Constant D) × Option Thrown
      → List (Constant D) × Option Thrown
  search_on (c, some e) cs rest = (c ∷ cs, some e)
  search_on (c, none) cs (ds, thrown) = (c ∷ ds, thrown)

  -- The end of setConstFromConfig.
  abbrev pub all_defined : List (Constant D) × Option Thrown → List (NamedValue D) × Option Thrown
  all_defined (cs, some e) = (named_values cs, some e)
  all_defined (cs, none) =
      (named_values cs, if any_undefined cs then some (by_config config_exception) else none)

-- `get_key` is getSectionKeyAsString of the configuration, of a section and a key.
module _ {D : Type 0} (lib : Numbers D) (get_key : Text → Text → Checked Text) where
  abbrev pub read_key : Checked Text → NamedValue D → Constant D × Option Thrown
  read_key (value text) v = set_read (set_from_string lib text v) v
  read_key (throws config_exception) v = ((v, true), none)
  read_key (throws bad_subscript) v = ((v, true), some (by_config bad_subscript))
  read_key (throws parser_exception) v = ((v, true), some (by_config parser_exception))

  -- _searchConfig.
  unfoldable pub search_config : Text → List (Constant D) → List (Constant D) × Option Thrown
  search_config section [] = ([], none)
  search_config section ((v, false) ∷ cs) =
      search_on ((v, false), none) cs (search_config section cs)
  search_config section ((v, true) ∷ cs) =
      search_on (read_key (get_key section (get_name v)) v) cs (search_config section cs)

  abbrev pub search_globals : List (Constant D) × Option Thrown → List (Constant D) × Option Thrown
  search_globals (cs, some e) = (cs, some e)
  search_globals (cs, none) = search_config globals cs

  -- setConstFromConfig, with the name of the check.
  unfoldable pub set_const_from_config :
      Text → List (NamedValue D) → List (NamedValue D) × Option Thrown
  set_const_from_config vi_name_id const_map =
      all_defined (search_globals (search_config vi_name_id (map undefined const_map)))
