-- ===== src/Net/Examples.antt =====
-- Concrete messages and connections.
use Prim.Native.String.{String}
use text.Mathlib.Text.{◌==◌}
use ts_m2cellcpp.Prelude.{
  ◌+◌, parsed, parse_error, ◌⊎◌, ℕ, ◌≤◌, ◌≡◌, refl, true, false, Bool, List, [], ◌∷◌, length, none,
  some, ℤ, pos, if◌then◌else◌,
}
use ts_m2cellcpp.Control.Defs.{SysInfo, comm}
use ts_m2cellcpp.Control.PowerSubsystem.Invariant.{IsOff}
use ts_m2cellcpp.State.Model.Laws.{BothIn}
use ts_m2cellcpp.System
use ts_m2cellcpp.System.{World, world, setup, start, connections, power_command}
use ts_m2cellcpp.System.Built.{world-IsOff}
use ts_m2cellcpp.Net.Json.{Json}
use ts_m2cellcpp.Net.NetCommand.{parse, run, action, net_command, create_new_net_command}
use ts_m2cellcpp.Net.NetCommandFactory.{
  NetCommandFactory, factory, setup_normal_factory, interpret_command, get_command_for, get_no_ack,
}
use ts_m2cellcpp.Net.NetCommandFactory.Laws.{Served, Escapes, interpret_command-Served}
use ts_m2cellcpp.Net.ControlServer
use ts_m2cellcpp.Net.ControlServer.{
  server, serve, step, acknowledge, run_taken, Server, receive, run_command, other,
}
use ts_m2cellcpp.Net.ControlServer.Refines.{trace, shutdowns, asked_in, serve_refines}
use ts_m2cellcpp.Net.ControlServer.Numbers.{accepted, Numbered, serve-Numbered}
use ts_m2cellcpp.Net.ControlServer.Once.{issued_in, issued_in-server}
use ts_m2cellcpp.Net.ControlServer.Refusals.{no_ack-IsOff}
use ts_m2cellcpp.Net.ComServer
use ts_m2cellcpp.Net.ComServer.{
  com_server, begins, accepts, closes, steps, run_begin, begin_accept, handle_accept,
  begin_protocol, set_tcp_ip_connected, report_count, happen, emplace, erase_connection, close,
}
use ts_m2cellcpp.Net.ComServer.Laws.{no_connection-IsOff}

-- A message to switch a power system.
record Message : Type 0 where
  id : String
  sequence_id : ℕ
  power_type : ℤ
  status : Bool

-- Two texts are JSON, and every other one is not.
abbrev messages : Json Message
messages = record {
  parse = λ text.
      if text == "comm on"
      then parsed (record { id = "cmd_power"; sequence_id = 1; power_type = pos 2; status = true })
      else if text == "unknown"
      then parsed
          (record { id = "cmd_reboot"; sequence_id = 2; power_type = pos 0; status = false })
      else parse_error;
  get_string = λ k m. if k == "id" then some m.id else none;
  get_uint = λ k m. if k == "sequence_id" then some m.sequence_id else none;
  get_int = λ k m. if k == "powerType" then some m.power_type else none;
  get_bool = λ k m. if k == "status" then some m.status else none;
  object = λ s n. record { id = s; sequence_id = n; power_type = pos 0; status = false };
  get_string-object = λ s n. refl;
  get_uint-object = λ s n. refl;
}

abbrev info : SysInfo
info = record {
  output_port = 0;
  input_port = 4294967295;
  motor_voltage = 0;
  motor_current = 0;
  motor_breaker_closed = true;
  comm_voltage = 0;
  comm_current = 0;
  comm_breaker_closed = true;
  iterations = 0;
  timestamp = 0;
}

abbrev built : World
built = world 5 info 0

abbrev ready : NetCommandFactory
ready = elim (setup_normal_factory factory) [ none ↦ factory | some f ↦ f ]

-- A client connects, switches the comm power on, and repeats its message.
abbrev session : List (ℕ × ControlServer.Step)
session =
    (10, other setup)
    ∷ (20, other start)
    ∷ (30, other (connections 1))
    ∷ (40, receive "comm on")
    ∷ (45, run_command 0)
    ∷ (50, receive "comm on")
    ∷ (55, run_command 0)
    ∷ []

interpret_command-Served_example :
    let r = interpret_command messages "comm on" ready in
    Escapes messages "comm on" ready r ⊎ Served ready r
interpret_command-Served_example = interpret_command-Served messages "comm on" ready

serve_refines_example :
    let s = server ready built in
    ((serve messages session s).site.world ≡ System.run (trace messages session s) s.site.world)
    × (shutdowns (trace messages session s) + (serve messages session s).site.shutting_down
        ≡ s.site.shutting_down + asked_in messages session s)
serve_refines_example = serve_refines messages session (server ready built)

numbered : Numbered (server ready built)
unfolding server
numbered = tt

serve-Numbered_example : Numbered (serve messages session (server ready built))
serve-Numbered_example = serve-Numbered messages session (server ready built) numbered

issued_in-server_example :
    issued_in messages session (server ready built)
    ≤ length (accepted (serve messages session (server ready built)).acks)
issued_in-server_example = issued_in-server messages session ready built

-- An unknown command and a text that is no JSON.
abbrev refused : List (ℕ × ControlServer.Step)
refused = (40, receive "unknown") ∷ (45, run_command 0) ∷ (50, receive "{") ∷ []

none_accepted : accepted (serve messages refused (server factory built)).acks ≡ []
unfolding server serve step acknowledge interpret_command get_command_for parse get_no_ack
    create_new_net_command net_command factory run_taken run action
none_accepted = refl

no_ack-IsOff_example : BothIn IsOff (serve messages refused (server factory built)).site.world.model
no_ack-IsOff_example =
    no_ack-IsOff messages refused factory built refl none_accepted (world-IsOff 5 info 0)

-- A client connects, asks for power, and leaves.
abbrev visit : List (ℕ × ComServer.Step)
visit =
    (10, begins)
    ∷ (20, accepts false)
    ∷ (30, ComServer.other (power_command comm true))
    ∷ (40, closes 0)
    ∷ []

left : (steps visit (com_server (world 5 info 0))).connections_map ≡ []
unfolding com_server steps ComServer.step run_begin begin_accept handle_accept begin_protocol
    set_tcp_ip_connected report_count happen emplace erase_connection close
left = refl

no_connection-IsOff_example : BothIn IsOff (steps visit (com_server (world 5 info 0))).world.model
no_connection-IsOff_example = no_connection-IsOff visit 5 info 0 refl left
