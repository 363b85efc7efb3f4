-- ===== src/Config/Examples.antt =====
-- A configuration with every element.
use Prim.Native.String.{String}
use text.Mathlib.Text
use ts_m2cellcpp.Prelude.{ℕ, ◌≡◌, refl, Option, none, some, ℤ, pos, ltb, if◌then◌else◌, arith}
use ts_m2cellcpp.Config.{
  value, Lookup, missing, found, Load, loaded, bad_file, Yaml, Config, get_section_key_as_int,
  get_section_key_as_string, get_section_key_as_int_in, get_control_server_port,
  get_control_server_threads, get_control_server_host, get_log_file_name, get_log_file_size_mb,
  get_log_max_files, get_telemetry_server_port, get_telemetry_server_threads,
  get_telemetry_server_host, config,
}
use ts_m2cellcpp.Config.Laws.{Complete, config_iff}

-- An entry is an integer or a text.
data Entry : Type 0 where
  number : ℕ → Entry
  word : String → Entry

as_number : Entry → Option ℤ
as_number (number n) = some (pos n)
as_number (word s) = none

as_word : Entry → Option String
as_word (number n) = none
as_word (word s) = some s

-- The entries of the file by their keys, the same in each section.
entries : String → Lookup Entry
entries key =
    if Text.◌==◌ key "host"
    then found (word "127.0.0.1")
    else if Text.◌==◌ key "fileName"
    then found (word "log")
    else if Text.◌==◌ key "port"
    then found (number 12678)
    else if Text.◌==◌ key "threads"
    then found (number 2)
    else if Text.◌==◌ key "fileSizeMB"
    then found (number 20)
    else if Text.◌==◌ key "maxFiles"
    then found (number 5)
    else missing

load : String → Load ℕ
load source = if Text.◌==◌ source "conf.yaml" then loaded 0 else bad_file

abbrev yaml : Yaml ℕ Entry ℕ
yaml = record {
  load_file = load;
  lookup = λ y section key. entries key;
  as_int = as_number;
  as_double = λ e. none;
  as_string = as_word;
  lt = ltb;
}

abbrev conf : Config ℕ
conf = record { source = "conf.yaml"; yaml = 0 }

conf-Complete : Complete yaml conf
unfolding get_section_key_as_int get_section_key_as_string get_section_key_as_int_in
    get_control_server_port get_control_server_threads get_control_server_host get_log_file_name
    get_log_file_size_mb get_log_max_files get_telemetry_server_port get_telemetry_server_threads
    get_telemetry_server_host entries as_number as_word
conf-Complete = record {
  control_host = ("127.0.0.1", refl);
  control_port = (12678, refl, omega arith, omega arith);
  control_threads = (2, refl, omega arith, omega arith);
  telemetry_host = ("127.0.0.1", refl);
  telemetry_port = (12678, refl, omega arith, omega arith);
  telemetry_threads = (2, refl, omega arith, omega arith);
  file_name = ("log", refl);
  file_size = (pos 20, refl);
  max_files = (pos 5, refl);
}

config_iff_example : config yaml "conf.yaml" ≡ value conf
unfolding load
config_iff_example = (config_iff yaml "conf.yaml" conf).1 (refl, refl, conf-Complete)
