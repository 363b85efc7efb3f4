-- ===== src/Config.antt =====
-- The configuration, system/Config.cpp. The library of YAML is the parameter `lib`.
pub mod Laws
pub mod Examples
use Prim.Native.String.{String}
use ts_m2cellcpp.Prelude.{
  ℕ, Bool, true, false, ◌||◌, ltb, List, [], ◌∷◌, Option, none, some, ℤ, pos, negsuc, if◌then◌else◌,
}

-- Those of the library that the code does not catch: a section that is no map, and a file that does
-- not parse.
pub data ConfigError : Type 0 where
  config_exception bad_subscript parser_exception : ConfigError

pub data Checked (A : Type 0) : Type 0 where
  value : A → Checked A
  throws : ConfigError → Checked A

infixl 5 ◌>>=◌
abbrev pub ◌>>=◌ : {A B : Type 0} → Checked A → (A → Checked B) → Checked B
value a >>= f = f a
throws e >>= f = throws e

-- What `_yaml[section][key]` is, and what LoadFile does.
pub data Lookup (V : Type 0) : Type 0 where
  missing not_a_map : Lookup V
  found : V → Lookup V

pub data Load (Y : Type 0) : Type 0 where
  loaded : Y → Load Y
  bad_file bad_text : Load Y

-- A document is a `Y` and an entry of it a `V`; the conversions of an entry are `none` where the
-- library throws.
pub record Yaml (Y V D : Type 0) : Type 0 where
  pub load_file : String → Load Y
  pub lookup : Y → String → String → Lookup V
  pub as_int : V → Option ℤ
  pub as_double : V → Option D
  pub as_string : V → Option String
  pub lt : D → D → Bool

abbrev pub lt_int : ℤ → ℤ → Bool
lt_int (pos m) (pos n) = ltb m n
lt_int (pos m) (negsuc n) = false
lt_int (negsuc m) (pos n) = true
lt_int (negsuc m) (negsuc n) = ltb n m

pub record Config (Y : Type 0) : Type 0 where
  pub source : String
  pub yaml : Y

abbrev pub converted : {A : Type 0} → Option A → Checked A
converted none = throws config_exception
converted (some a) = value a

-- The body that the getSectionKeyAs functions share, with the conversion.
abbrev pub entry : {V A : Type 0} → Lookup V → (V → Option A) → Checked A
entry missing convert = throws config_exception
entry not_a_map convert = throws bad_subscript
entry (found v) convert = converted (convert v)

abbrev pub in_range : {A : Type 0} → (A → A → Bool) → A → A → A → Checked A
in_range lt min max val = if lt val min || lt max val then throws config_exception else value val

module _ {Y V D : Type 0} (lib : Yaml Y V D) where
  unfoldable pub get_section_key_as_int : String → String → Config Y → Checked ℤ
  get_section_key_as_int section key c = entry (lib.lookup c.yaml section key) lib.as_int

  unfoldable pub get_section_key_as_double : String → String → Config Y → Checked D
  get_section_key_as_double section key c = entry (lib.lookup c.yaml section key) lib.as_double

  unfoldable pub get_section_key_as_string : String → String → Config Y → Checked String
  get_section_key_as_string section key c = entry (lib.lookup c.yaml section key) lib.as_string

  -- The versions with a range.
  unfoldable pub get_section_key_as_int_in : String → String → ℤ → ℤ → Config Y → Checked ℤ
  get_section_key_as_int_in section key min max c =
      get_section_key_as_int section key c >>= in_range lt_int min max

  unfoldable pub get_section_key_as_double_in : String → String → D → D → Config Y → Checked D
  get_section_key_as_double_in section key min max c =
      get_section_key_as_double section key c >>= in_range lib.lt min max

  unfoldable pub get_control_server_port : Config Y → Checked ℤ
  get_control_server_port = get_section_key_as_int_in "ControlServer" "port" (pos 1) (pos 65535)

  unfoldable pub get_control_server_threads : Config Y → Checked ℤ
  get_control_server_threads =
      get_section_key_as_int_in "ControlServer" "threads" (pos 1) (pos 3000)

  unfoldable pub get_control_server_host : Config Y → Checked String
  get_control_server_host = get_section_key_as_string "ControlServer" "host"

  unfoldable pub get_log_file_name : Config Y → Checked String
  get_log_file_name = get_section_key_as_string "Log" "fileName"

  unfoldable pub get_log_file_size_mb : Config Y → Checked ℤ
  get_log_file_size_mb = get_section_key_as_int "Log" "fileSizeMB"

  unfoldable pub get_log_max_files : Config Y → Checked ℤ
  get_log_max_files = get_section_key_as_int "Log" "maxFiles"

  unfoldable pub get_telemetry_server_port : Config Y → Checked ℤ
  get_telemetry_server_port = get_section_key_as_int_in "TelemetryServer" "port" (pos 1) (pos 65535)

  unfoldable pub get_telemetry_server_threads : Config Y → Checked ℤ
  get_telemetry_server_threads =
      get_section_key_as_int_in "TelemetryServer" "threads" (pos 1) (pos 3000)

  unfoldable pub get_telemetry_server_host : Config Y → Checked String
  get_telemetry_server_host = get_section_key_as_string "TelemetryServer" "host"

  -- verifyRequiredElements.
  unfoldable pub verify_required_elements : Config Y → Checked (Unit {0})
  verify_required_elements c = do
    host ← get_control_server_host c
    port ← get_control_server_port c
    threads ← get_control_server_threads c
    telemetry_host ← get_telemetry_server_host c
    telemetry_port ← get_telemetry_server_port c
    telemetry_threads ← get_telemetry_server_threads c
    name ← get_log_file_name c
    size ← get_log_file_size_mb c
    files ← get_log_max_files c
    value tt

  verified : Config Y → Checked (Config Y)
  verified c = verify_required_elements c >>= λ _. value c

  load_config : String → Load Y → Checked (Config Y)
  load_config source bad_file = throws config_exception
  load_config source bad_text = throws parser_exception
  load_config source (loaded y) = verified (record { source = source; yaml = y })

  -- The constructor.
  unfoldable pub config : String → Checked (Config Y)
  unfolding verified load_config
  config source = load_config source (lib.load_file source)

  keep_config : Checked (Config Y) → Option (Config Y)
  keep_config (value c) = some c
  keep_config (throws e) = none

  -- `setup` of the global instance, which a failure leaves empty.
  unfoldable pub setup : String → Option (Config Y) → Option (Config Y)
  unfolding keep_config
  setup source (some c) = some c
  setup source none = keep_config (config source)

  -- The calls of `setup`, one after the other.
  unfoldable pub setups : List String → Option (Config Y) → Option (Config Y)
  setups [] p = p
  setups (source ∷ sources) p = setups sources (setup source p)

unfoldable pub get : {Y : Type 0} → Option (Config Y) → Checked (Config Y)
get none = throws config_exception
get (some c) = value c
