-- ===== src/Net/ControlServer/Refusals.antt =====
-- Clients whose messages are all refused.
use ts_m2cellcpp.Prelude.{
  ℕ, ◌≡◌, refl, ap, Bool, true, not, ◌&&◌, List, [], ◌∷◌, length, Option, none, some, arith,
}
use ts_m2cellcpp.Control.PowerSubsystem.Invariant.{IsOff}
use ts_m2cellcpp.State.Model.Laws.{BothIn}
use ts_m2cellcpp.System.{World, Event}
use ts_m2cellcpp.System.Commands.{switches_on}
use ts_m2cellcpp.System.Safety.{no_command, run-IsOff}
use ts_m2cellcpp.Net.Json.{Json}
use ts_m2cellcpp.Net.NetCommandFactory.{NetCommandFactory}
use ts_m2cellcpp.Net.ControlServer.{
  Server, server, Step, receive, run_command, end_sleep, other, take_at, step, serve,
}
use ts_m2cellcpp.Net.ControlServer.Refines.{emit, taken_event, sleep_event, trace, serve_refines}
use ts_m2cellcpp.Net.ControlServer.Numbers.{accepted}
use ts_m2cellcpp.Net.ControlServer.Once.{one, issued_in, issued_in-server}

-- The other events ask for no power.
abbrev pub quiet : List (ℕ × Step) → Bool
quiet [] = true
quiet ((now, other e) ∷ rest) = not (switches_on e) && quiet rest
quiet ((now, _) ∷ rest) = quiet rest

no_command-emit :
    (now : ℕ) (e : Option Event) (rest : List (ℕ × Event))
    → one e ≡ 0
    → no_command (emit now e rest) ≡ no_command rest
no_command-emit now none rest h = refl
no_command-emit now (some e) rest h = ground (arith, h)

module _ {J : Type 0} (lib : Json J) where
  no_command-trace :
      (steps : List (ℕ × Step)) (s : Server)
      → quiet steps ≡ true
      → issued_in lib steps s ≡ 0
      → no_command (trace lib steps s) ≡ true
  unfolding issued_in trace
  no_command-trace [] s q h = refl
  no_command-trace ((now, receive text) ∷ rest) s q h =
      no_command-trace rest (step lib now (receive text) s) q (omega (arith, h))
  no_command-trace ((now, run_command n) ∷ rest) s q h =
      rw (no_command-emit now (taken_event (take_at n s.waiting)) _ (omega (arith, h)))
        (no_command-trace rest (step lib now (run_command n) s) q (omega (arith, h)))
  no_command-trace ((now, end_sleep) ∷ rest) s q h =
      rw (no_command-emit now (sleep_event s.site.shutting_down) _ (omega (arith, h)))
        (no_command-trace rest (step lib now end_sleep s) q (omega (arith, h)))
  no_command-trace ((now, other e) ∷ rest) s q h = ground (
    arith,
    no_command-trace rest (step lib now (other e) s) (ground (arith, q)) (omega (arith, h)),
    q,
  )

  nothing_issued :
      (steps : List (ℕ × Step)) (f : NetCommandFactory) (w : World)
      → accepted (serve lib steps (server f w)).acks ≡ []
      → issued_in lib steps (server f w) ≡ 0
  nothing_issued steps f w r = omega (arith, issued_in-server lib steps f w, ap length r)

  -- A client whose messages are all refused cannot switch power on: while no other event asks for
  -- power, both subsystems that are off stay off.
  pub no_ack-IsOff :
      (steps : List (ℕ × Step)) (f : NetCommandFactory) (w : World)
      → quiet steps ≡ true
      → accepted (serve lib steps (server f w)).acks ≡ []
      → BothIn IsOff w.model
      → BothIn IsOff (serve lib steps (server f w)).site.world.model
  unfolding server
  no_ack-IsOff steps f w q r b = rw ((serve_refines lib steps (server f w)).0) (
      run-IsOff (trace lib steps (server f w)) w
        (no_command-trace steps (server f w) q (nothing_issued steps f w r)) b)
