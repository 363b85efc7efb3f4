-- ===== src/Net/ControlServer.antt =====
-- The commands of the clients against the system: the handler of a message in
-- system/ComConnection.cpp, the threads that it starts for the commands, and everything else that
-- reaches the system, in any order.
pub mod Refines
pub mod Numbers
pub mod Once
pub mod Refusals
use Prim.Native.String.{String}
use ts_m2cellcpp.Prelude.{ℕ, Bool, true, false, List, [], ◌∷◌, Option, none, some}
use ts_m2cellcpp.System.{World, Event, power_command, shutdown, handle}
use ts_m2cellcpp.Net.Json.{Json}
use ts_m2cellcpp.Net.NetCommand.{
  Members, ncmd_power, ncmd_system_shutdown, Reply, NetCommand, Site, run,
}
use ts_m2cellcpp.Net.NetCommandFactory.{NetCommandFactory, interpret_command}

-- `waiting` are the commands whose threads have not run yet; the replies stand newest first.
pub record Server : Type 0 where
  pub factory : NetCommandFactory
  pub site : Site
  pub waiting : List NetCommand
  pub acks : List Reply
  pub responses : List Reply

-- A server without clients so far; `command_source_is_remote` and the other member of Globals start
-- as their declarations say.
unfoldable pub server : NetCommandFactory → World → Server
server f w = record {
  factory = f;
  site = record {
    world = w;
    command_source_is_remote = false;
    commandable_by_dds = true;
    shutting_down = 0;
  };
  waiting = [];
  acks = [];
  responses = [];
}

-- A message, the thread of a waiting command by its position, the end of the sleep before a
-- shutdown, and the other events.
pub data Step : Type 0 where
  receive : String → Step
  run_command : ℕ → Step
  end_sleep : Step
  other : Event → Step

-- The command at a position, and the list without it.
abbrev pub take_at : ℕ → List NetCommand → Option (NetCommand × List NetCommand)
take_at n [] = none
take_at ℕ.zero (c ∷ cs) = some (c, cs)
take_at (ℕ.suc n) (c ∷ cs) = keep c (take_at n cs)
  where
    keep :
        NetCommand → Option (NetCommand × List NetCommand) → Option (NetCommand × List NetCommand)
    keep c none = none
    keep c (some (d, ds)) = some (d, c ∷ ds)

-- The acknowledgement is sent before the thread starts. Without a command, an exception has left the
-- handler: nothing is sent and no thread starts. The program then ends; what the steps behind it show
-- is about no run of it.
unfoldable pub acknowledge : NetCommandFactory × Option NetCommand → Server → Server
acknowledge (f, none) s = record s { factory = f }
acknowledge (f, some c) s = record s {
  factory = f;
  waiting = c ∷ s.waiting;
  acks = c.ack_json ∷ s.acks;
}

-- The function that interpretCommand puts into the command.
unfoldable pub run_taken : ℕ → Option (NetCommand × List NetCommand) → Server → Server
run_taken now none s = s
run_taken now (some (c, rest)) s =
    let (ran, after, result) = run now c s.site in
    record s { site = after; waiting = rest; responses = ran.resp_json ∷ s.responses }

-- The thread of NCmdSystemShutdown after its sleep.
unfoldable pub wake : ℕ → ℕ → Site → Site
wake now ℕ.zero s = s
wake now (ℕ.suc n) s = record s { world = handle now shutdown s.world; shutting_down = n }

abbrev put_site : Site → Server → Server
put_site x s = record s { site = x }

module _ {J : Type 0} (lib : Json J) where
  unfoldable pub step : ℕ → Step → Server → Server
  step now (receive text) s = acknowledge (interpret_command lib text s.factory) s
  step now (run_command n) s = run_taken now (take_at n s.waiting) s
  step now end_sleep s = put_site (wake now s.site.shutting_down s.site) s
  step now (other e) s = put_site (record (s.site) { world = handle now e s.site.world }) s

  unfoldable pub serve : List (ℕ × Step) → Server → Server
  serve [] s = s
  serve ((now, e) ∷ rest) s = serve rest (step now e s)

-- What a command does to the system, as an event.
unfoldable pub event_of : Members → Option Event
event_of (ncmd_power type status) = some (power_command type status)
event_of _ = none
