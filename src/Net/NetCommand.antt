-- ===== src/Net/NetCommand.antt =====
-- The commands of control/NetCommand.cpp and control/NetCommandDefs.cpp. The "user_info" texts and
-- the broadcasts of the new state are left out.
use Prim.Native.String.{String}
use ts_m2cellcpp.Prelude.{
  ℕ, Bool, true, false, Option, none, some, ◌>>=◌, if◌then◌else◌, Parsed, parsed, parse_error,
  too_large,
}
use ts_m2cellcpp.Control.Defs.{PowerSystemType, unknownpowersystem, int_to_power_system_type}
use ts_m2cellcpp.State.Model.{cmd_power}
use ts_m2cellcpp.System.{World}
use ts_m2cellcpp.Net.Json.{Json}

-- The child classes.
pub data CommandClass : Type 0 where
  class_ack class_no_ack class_echo class_switch_command_source class_power : CommandClass
  class_system_shutdown : CommandClass

-- getCommandName of each.
unfoldable pub get_command_name : CommandClass → String
get_command_name class_ack = "cmd_ack"
get_command_name class_no_ack = "cmd_noack"
get_command_name class_echo = "cmd_echo"
get_command_name class_switch_command_source = "cmd_switchCommandSource"
get_command_name class_power = "cmd_power"
get_command_name class_system_shutdown = "cmd_systemShutdown"

-- An object of a child class by its own members.
pub data Members : Type 0 where
  ncmd_ack ncmd_no_ack : Members
  ncmd_echo : String → Members
  ncmd_switch_command_source : Bool → Members
  ncmd_power : PowerSystemType → Bool → Members
  ncmd_system_shutdown : Members

-- ackJson or respJson.
pub record Reply : Type 0 where
  pub id : String
  pub sequence_id : ℕ
  pub msg : Option String

pub record NetCommand : Type 0 where
  pub name : String
  pub seq_id : ℕ
  pub members : Members
  pub ack_json : Reply
  pub resp_json : Reply

-- What a child's constructor does last.
unfoldable pub set_ack : NetCommand → NetCommand
set_ack c = record c { ack_json = record (c.ack_json) { id = "ack" } }

module _ {J : Type 0} (lib : Json J) where
  -- The constructor of the base class; `none` is a NetCommandException.
  unfoldable pub net_command : Members → J → Option NetCommand
  net_command members in_json = do
    name ← lib.get_string "id" in_json
    seq_id ← lib.get_uint "sequence_id" in_json
    some (record {
      name = name;
      seq_id = seq_id;
      members = members;
      ack_json = record { id = "noack"; sequence_id = seq_id; msg = none };
      resp_json = record { id = "fail"; sequence_id = seq_id; msg = none };
    })

  unfoldable pub or_exception : Option J → Parsed J
  or_exception none = parse_error
  or_exception (some in_json) = parsed in_json

  unfoldable pub check_parsed : Parsed J → Parsed J
  check_parsed parse_error = parse_error
  check_parsed too_large = too_large
  check_parsed (parsed in_json) = or_exception (do
    id ← lib.get_string "id" in_json
    seq_id ← lib.get_uint "sequence_id" in_json
    some in_json)

  -- NetCommand::parse: an object with a valid "id" and "sequence_id". `parse_error` is a
  -- NetCommandException here; the exception for a number that is too large is not caught.
  unfoldable pub parse : String → Parsed J
  unfolding check_parsed or_exception
  parse in_str = check_parsed (lib.parse in_str)

  unfoldable pub ncmd_power_type : PowerSystemType → Bool → J → Option NetCommand
  ncmd_power_type unknownpowersystem status in_json = none
  ncmd_power_type type status in_json = do
    c ← net_command (ncmd_power type status) in_json
    some (set_ack c)

  -- createNewNetCommand of each class: the constructor of the base class, then its own.
  unfoldable pub create_new_net_command : CommandClass → J → Option NetCommand
  create_new_net_command class_ack in_json = do c ← net_command ncmd_ack in_json; some (set_ack c)
  create_new_net_command class_no_ack in_json = net_command ncmd_no_ack in_json
  create_new_net_command class_echo in_json = do
    msg ← lib.get_string "msg" in_json
    c ← net_command (ncmd_echo msg) in_json
    some (set_ack c)
  create_new_net_command class_switch_command_source in_json = do
    is_remote ← lib.get_bool "isRemote" in_json
    c ← net_command (ncmd_switch_command_source is_remote) in_json
    some (set_ack c)
  create_new_net_command class_power in_json = do
    power_val ← lib.get_int "powerType" in_json
    status ← lib.get_bool "status" in_json
    ncmd_power_type (int_to_power_system_type power_val) status in_json
  create_new_net_command class_system_shutdown in_json = do
    c ← net_command ncmd_system_shutdown in_json
    some (set_ack c)

-- What the commands act on: the system, two members of Globals, and the threads that sleep before
-- they shut the system down.
pub record Site : Type 0 where
  pub world : World
  pub command_source_is_remote : Bool
  pub commandable_by_dds : Bool
  pub shutting_down : ℕ

-- Globals::setCommandSourceIsRemote.
unfoldable pub set_command_source_is_remote : Bool → Site → Site × Bool
set_command_source_is_remote is_remote s =
    (record s { command_source_is_remote = is_remote; commandable_by_dds = is_remote }, true)

-- `action` of each class; the command comes back for its response.
unfoldable pub action : ℕ → Members → NetCommand → Site → NetCommand × Site × Bool
action now ncmd_ack c s = (c, s, true)
action now ncmd_no_ack c s = (c, s, false)
action now (ncmd_echo msg) c s =
    (record c { resp_json = record (c.resp_json) { msg = some msg } }, s, true)
action now (ncmd_switch_command_source is_remote) c s =
    let (after, result) = set_command_source_is_remote is_remote s in (c, after, result)
action now (ncmd_power type status) c s =
    let (m, result) = cmd_power now s.world.faults type status s.world.model in
    (c, record s { world = record (s.world) { model = m } }, result)
action now ncmd_system_shutdown c s = (c, record s { shutting_down = ℕ.suc s.shutting_down }, true)

unfoldable pub run : ℕ → NetCommand → Site → NetCommand × Site × Bool
run now c s =
    let (acted, after, result) = action now c.members c s in
    let answer = if result then "success" else "fail" in
    (record acted { resp_json = record (acted.resp_json) { id = answer } }, after, result)
