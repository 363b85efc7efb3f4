-- ===== src/Net/NetCommandFactory.antt =====
-- The factory of commands, control/NetCommandFactory.cpp, and the calls of system/ComControl.cpp.
pub mod Laws
use Prim.Native.String.{String}
use text.Mathlib.Text.{◌==◌}
use ts_m2cellcpp.Prelude.{
  ℕ, Bool, leb, List, [], ◌∷◌, Option, none, some, ◌>>=◌, if◌then◌else◌, Parsed, parsed,
  parse_error, too_large,
}
use ts_m2cellcpp.Net.Json.{Json}
use ts_m2cellcpp.Net.NetCommand.{
  CommandClass, class_ack, class_no_ack, class_echo, class_switch_command_source, class_power,
  class_system_shutdown, get_command_name, NetCommand, parse, create_new_net_command,
}

-- The map of the commands by their names.
abbrev pub CmdMap : Type 0
CmdMap = List (String × CommandClass)

pub record NetCommandFactory : Type 0 where
  pub cmd_map : CmdMap
  pub prev_seq_id : ℕ

abbrev pub find : String → CmdMap → Option CommandClass
find k [] = none
find k ((j, c) ∷ m) = if j == k then some c else find k m

unfoldable pub factory : NetCommandFactory
factory = record { cmd_map = []; prev_seq_id = 0 }

add_found : Option CommandClass → CommandClass → NetCommandFactory → Option NetCommandFactory
add_found (some old) c f = none
add_found none c f = some (record f { cmd_map = (get_command_name c, c) ∷ f.cmd_map })

-- `none` is the exception for a name that is already in the map.
unfoldable pub add_net_command : CommandClass → NetCommandFactory → Option NetCommandFactory
unfolding add_found
add_net_command c f = add_found (find (get_command_name c) f.cmd_map) c f

unfoldable pub setup_normal_factory : NetCommandFactory → Option NetCommandFactory
setup_normal_factory f = do
  f1 ← add_net_command class_ack f
  f2 ← add_net_command class_no_ack f1
  f3 ← add_net_command class_echo f2
  f4 ← add_net_command class_switch_command_source f3
  f5 ← add_net_command class_power f4
  add_net_command class_system_shutdown f5

abbrev pub made : NetCommandFactory × Option NetCommand → NetCommandFactory × Parsed NetCommand
made (f, none) = (f, parse_error)
made (f, some c) = (f, parsed c)

module _ {J : Type 0} (lib : Json J) where
  or_no_ack : J → Option NetCommand → Option NetCommand
  or_no_ack in_json (some c) = some c
  or_no_ack in_json none = create_new_net_command lib class_no_ack in_json

  -- The command that is found, or the default.
  create_found : J → Option CommandClass → Option NetCommand
  create_found in_json none = create_new_net_command lib class_no_ack in_json
  create_found in_json (some class) = or_no_ack in_json (create_new_net_command lib class in_json)

  get_parsed : J → String → ℕ → NetCommandFactory → NetCommandFactory × Option NetCommand
  get_parsed in_json cmd_id seq_id f =
      if leb seq_id f.prev_seq_id
      then (f, create_new_net_command lib class_no_ack in_json)
      else (record f { prev_seq_id = seq_id }, create_found in_json (find cmd_id f.cmd_map))

  get_read :
      J → Option String → Option ℕ → NetCommandFactory → NetCommandFactory × Option NetCommand
  get_read in_json (some cmd_id) (some seq_id) f = get_parsed in_json cmd_id seq_id f
  get_read in_json _ _ f = (f, none)

  get_for : Parsed J → NetCommandFactory → NetCommandFactory × Parsed NetCommand
  get_for parse_error f = (f, parse_error)
  get_for too_large f = (f, too_large)
  get_for (parsed in_json) f =
      made (get_read in_json (lib.get_string "id" in_json) (lib.get_uint "sequence_id" in_json) f)

  -- getCommandFor; `parse_error` is a NetCommandException, and `too_large` the exception of the
  -- library that `parse` does not catch.
  unfoldable pub get_command_for :
      String → NetCommandFactory → NetCommandFactory × Parsed NetCommand
  unfolding or_no_ack create_found get_parsed get_read get_for
  get_command_for json_str f = get_for (parse lib json_str) f

  unfoldable pub get_no_ack : Option NetCommand
  get_no_ack = create_new_net_command lib class_no_ack (lib.object "noack" 0)

  or_default : NetCommandFactory × Parsed NetCommand → NetCommandFactory × Option NetCommand
  or_default (f, parsed c) = (f, some c)
  or_default (f, parse_error) = (f, get_no_ack)
  or_default (f, too_large) = (f, none)

  -- ComControl::interpretCommand: the command whose acknowledgement is sent and that runs after it.
  -- Only a NetCommandException is caught: `none` is the other exception, which goes on.
  unfoldable pub interpret_command :
      String → NetCommandFactory → NetCommandFactory × Option NetCommand
  unfolding or_default
  interpret_command command_str f = or_default (get_command_for command_str f)
