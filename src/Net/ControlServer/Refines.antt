-- ===== src/Net/ControlServer/Refines.antt =====
-- The commands of the clients refine the events of the system.
use ts_m2cellcpp.Prelude.{◌+◌, arith, ℕ, ◌≡◌, refl, sym, ap, ◌∙◌, List, [], ◌∷◌, Option, none, some}
use ts_m2cellcpp.System
use ts_m2cellcpp.System.{World, Event, power_command, shutdown, handle}
use ts_m2cellcpp.Net.Json.{Json}
use ts_m2cellcpp.Net.NetCommand.{
  Members, ncmd_ack, ncmd_no_ack, ncmd_echo, ncmd_switch_command_source, ncmd_power,
  ncmd_system_shutdown, NetCommand, Site, set_command_source_is_remote, action, run,
}
use ts_m2cellcpp.Net.NetCommandFactory.{NetCommandFactory, interpret_command}
use ts_m2cellcpp.Net.ControlServer.{
  Server, Step, receive, run_command, end_sleep, other, take_at, acknowledge, run_taken, wake, step,
  serve, event_of,
}

-- An event before the rest, if there is one.
abbrev pub emit : ℕ → Option Event → List (ℕ × Event) → List (ℕ × Event)
emit now none rest = rest
emit now (some e) rest = (now, e) ∷ rest

abbrev pub taken_event : Option (NetCommand × List NetCommand) → Option Event
taken_event none = none
taken_event (some (c, rest)) = event_of c.members

abbrev pub sleep_event : ℕ → Option Event
sleep_event ℕ.zero = none
sleep_event (ℕ.suc n) = some shutdown

-- The event of a step, if it reaches the system.
abbrev pub step_event : Step → Server → Option Event
step_event (receive text) s = none
step_event (run_command n) s = taken_event (take_at n s.waiting)
step_event end_sleep s = sleep_event s.site.shutting_down
step_event (other e) s = some e

-- The events in the order of the steps.
unfoldable pub trace : {J : Type 0} → Json J → List (ℕ × Step) → Server → List (ℕ × Event)
trace lib [] s = []
trace lib ((now, x) ∷ rest) s = emit now (step_event x s) (trace lib rest (step lib now x s))

abbrev happens : ℕ → Option Event → World → World
happens now none w = w
happens now (some e) w = handle now e w

-- What one command does to the system is its event.
action_world :
    (now : ℕ) (m : Members) (c : NetCommand) (s : Site)
    → (action now m c s).1.world ≡ happens now (event_of m) s.world
unfolding action event_of handle set_command_source_is_remote
action_world now ncmd_ack c s = refl
action_world now ncmd_no_ack c s = refl
action_world now (ncmd_echo msg) c s = refl
action_world now (ncmd_switch_command_source x) c s = refl
action_world now (ncmd_power type x) c s = refl
action_world now ncmd_system_shutdown c s = refl

run_taken_world :
    (now : ℕ) (t : Option (NetCommand × List NetCommand)) (s : Server)
    → (run_taken now t s).site.world ≡ happens now (taken_event t) s.site.world
unfolding run_taken run
run_taken_world now none s = refl
run_taken_world now (some (c, rest)) s = action_world now c.members c s.site

wake_world : (now n : ℕ) (s : Site) → (wake now n s).world ≡ happens now (sleep_event n) s.world
unfolding wake
wake_world now ℕ.zero s = refl
wake_world now (ℕ.suc n) s = refl

acknowledge_site :
    (r : NetCommandFactory × Option NetCommand) (s : Server) → (acknowledge r s).site ≡ s.site
unfolding acknowledge
acknowledge_site (f, none) s = refl
acknowledge_site (f, some c) s = refl

abbrev pub one_shutdown : Option Event → ℕ
one_shutdown (some shutdown) = 1
one_shutdown _ = 0

abbrev pub shutdowns : List (ℕ × Event) → ℕ
shutdowns [] = 0
shutdowns ((now, e) ∷ rest) = one_shutdown (some e) + shutdowns rest

shutdowns-emit :
    (now : ℕ) (e : Option Event) (rest : List (ℕ × Event))
    → shutdowns (emit now e rest) ≡ one_shutdown e + shutdowns rest
shutdowns-emit now none rest = omega arith
shutdowns-emit now (some e) rest = refl

abbrev asks : Members → ℕ
asks ncmd_system_shutdown = 1
asks _ = 0

abbrev pub taken_asks : Option (NetCommand × List NetCommand) → ℕ
taken_asks none = 0
taken_asks (some (c, rest)) = asks c.members

-- Whether a step asks for a shutdown.
abbrev pub asked : Step → Server → ℕ
asked (receive text) s = 0
asked (run_command n) s = taken_asks (take_at n s.waiting)
asked end_sleep s = 0
asked (other e) s = one_shutdown (some e)

action_shutdowns :
    (now : ℕ) (m : Members) (c : NetCommand) (s : Site)
    → one_shutdown (event_of m) + (action now m c s).1.shutting_down ≡ s.shutting_down + asks m
unfolding action event_of set_command_source_is_remote
action_shutdowns now ncmd_ack c s = omega arith
action_shutdowns now ncmd_no_ack c s = omega arith
action_shutdowns now (ncmd_echo msg) c s = omega arith
action_shutdowns now (ncmd_switch_command_source x) c s = omega arith
action_shutdowns now (ncmd_power type x) c s = omega arith
action_shutdowns now ncmd_system_shutdown c s = omega arith

taken_shutdowns :
    (now : ℕ) (t : Option (NetCommand × List NetCommand)) (s : Server)
    → one_shutdown (taken_event t) + (run_taken now t s).site.shutting_down
      ≡ s.site.shutting_down + taken_asks t
unfolding run_taken run
taken_shutdowns now none s = omega arith
taken_shutdowns now (some (c, rest)) s = action_shutdowns now c.members c s.site

slept_shutdowns :
    (now n : ℕ) (s : Site)
    → s.shutting_down ≡ n
    → one_shutdown (sleep_event n) + (wake now n s).shutting_down ≡ n + 0
unfolding wake
slept_shutdowns now ℕ.zero s e = omega (arith, e)
slept_shutdowns now (ℕ.suc n) s e = omega arith

module _ {J : Type 0} (lib : Json J) where
  step_world :
      (now : ℕ) (x : Step) (s : Server)
      → (step lib now x s).site.world ≡ happens now (step_event x s) s.site.world
  unfolding step
  step_world now (receive text) s =
      ap (λ t. t.world) (acknowledge_site (interpret_command lib text s.factory) s)
  step_world now (run_command n) s = run_taken_world now (take_at n s.waiting) s
  step_world now end_sleep s = wake_world now s.site.shutting_down s.site
  step_world now (other e) s = refl

  emit_lem :
      (now : ℕ) (e : Option Event) (rest : List (ℕ × Event)) (w : World)
      → System.run (emit now e rest) w ≡ System.run rest (happens now e w)
  unfolding System.run
  emit_lem now none rest w = refl
  emit_lem now (some e) rest w = refl

  -- One step moves a shutdown from the threads that sleep to the events.
  step_shutdowns :
      (now : ℕ) (x : Step) (s : Server)
      → one_shutdown (step_event x s) + (step lib now x s).site.shutting_down
        ≡ s.site.shutting_down + asked x s
  unfolding step wake
  step_shutdowns now (receive text) s =
      omega (
        arith,
        ap (λ t. t.shutting_down) (acknowledge_site (interpret_command lib text s.factory) s),
      )
  step_shutdowns now (run_command n) s = taken_shutdowns now (take_at n s.waiting) s
  step_shutdowns now end_sleep s = slept_shutdowns now s.site.shutting_down s.site refl
  step_shutdowns now (other e) s = omega arith

  -- The shutdowns that the steps ask for: cmd_systemShutdown that runs, and those from elsewhere.
  abbrev pub asked_in : List (ℕ × Step) → Server → ℕ
  asked_in [] s = 0
  asked_in ((now, x) ∷ rest) s = asked x s + asked_in rest (step lib now x s)

  -- Whatever the clients send, and in whatever order the threads of their commands run: the system
  -- goes through the run of its own events that the steps emit: those that came from elsewhere, the
  -- power command of each cmd_power that runs, and a shutdown at the end of each sleep. The shutdowns
  -- of that run and the sleeps that have not ended are together as many as the cmd_systemShutdown
  -- that ran, the shutdowns from elsewhere and the sleeps at the start.
  pub serve_refines :
      (steps : List (ℕ × Step)) (s : Server)
      → ((serve lib steps s).site.world ≡ System.run (trace lib steps s) s.site.world)
        × (shutdowns (trace lib steps s) + (serve lib steps s).site.shutting_down
            ≡ s.site.shutting_down + asked_in steps s)
  unfolding serve trace System.run
  serve_refines [] s = (refl, omega arith)
  serve_refines ((now, x) ∷ rest) s =
      let (ran, counted) = serve_refines rest (step lib now x s) in
      (
        ran
            ∙ ap (System.run (trace lib rest (step lib now x s))) (step_world now x s)
            ∙ sym (emit_lem now (step_event x s) (trace lib rest (step lib now x s)) s.site.world),
        omega (
          arith,
          counted,
          step_shutdowns now x s,
          shutdowns-emit now (step_event x s) (trace lib rest (step lib now x s)),
        ),
      )
