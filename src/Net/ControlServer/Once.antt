-- ===== src/Net/ControlServer/Once.antt =====
-- How often the commands of the clients act on the system.
use ts_m2cellcpp.Prelude.{
  ℕ, ◌+◌, ◌≤◌, ◌≡◌, refl, inl, inr, List, [], ◌∷◌, length, Option, none, some, arith,
}
use ts_m2cellcpp.System.{World}
use ts_m2cellcpp.Net.Json.{Json}
use ts_m2cellcpp.Net.NetCommand.{
  Members, ncmd_power, ncmd_system_shutdown, NetCommand, Site, set_command_source_is_remote, action,
  run,
}
use ts_m2cellcpp.Net.NetCommandFactory.{NetCommandFactory, interpret_command}
use ts_m2cellcpp.Net.NetCommandFactory.Laws.{Served, interpret_command-Served}
use ts_m2cellcpp.Net.ControlServer.{
  Server, server, Step, receive, run_command, end_sleep, other, take_at, acknowledge, run_taken,
  wake, step, serve, event_of,
}
use ts_m2cellcpp.Net.ControlServer.Refines.{taken_event, sleep_event}
use ts_m2cellcpp.Net.ControlServer.Numbers.{accepted, accepted-ack, accepted-noack}

abbrev pub one : {A : Type 0} → Option A → ℕ
one none = 0
one (some a) = 1

-- The events that a step takes from a command: a cmd_power at once, a cmd_systemShutdown after the
-- sleep.
abbrev pub issued : Step → Server → ℕ
issued (run_command n) s = one (taken_event (take_at n s.waiting))
issued end_sleep s = one (sleep_event s.site.shutting_down)
issued _ s = 0

unfoldable pub issued_in : {J : Type 0} → Json J → List (ℕ × Step) → Server → ℕ
issued_in lib [] s = 0
issued_in lib ((now, x) ∷ rest) s = issued x s + issued_in lib rest (step lib now x s)

-- The events that are still to come of a command.
abbrev due : Members → ℕ
due (ncmd_power type x) = 1
due ncmd_system_shutdown = 1
due _ = 0

abbrev all_due : List NetCommand → ℕ
all_due [] = 0
all_due (c ∷ cs) = due c.members + all_due cs

abbrev pending : Server → ℕ
pending s = all_due s.waiting + s.site.shutting_down

due_le : (m : Members) → due m ≤ 1
due_le m = ground arith

due-action :
    (now : ℕ) (m : Members) (c : NetCommand) (s : Site)
    → one (event_of m) + (action now m c s).1.shutting_down ≡ due m + s.shutting_down
unfolding action event_of set_command_source_is_remote
due-action now m c s = ground arith

abbrev TakenDue : List NetCommand → Option (NetCommand × List NetCommand) → Type 0
TakenDue cs none = Unit
TakenDue cs (some (c, rest)) = all_due cs ≡ due c.members + all_due rest

all_due-take_at : (n : ℕ) (cs : List NetCommand) → TakenDue cs (take_at n cs)
all_due-take_at n [] = tt
all_due-take_at ℕ.zero (c ∷ cs) = refl
all_due-take_at (ℕ.suc n) (c ∷ cs) = ground (arith, all_due-take_at n cs)

run_taken-pending :
    (now : ℕ) (t : Option (NetCommand × List NetCommand)) (s : Server)
    → TakenDue s.waiting t
    → one (taken_event t) + pending (run_taken now t s) ≡ pending s
unfolding run_taken run
run_taken-pending now none s h = omega arith
run_taken-pending now (some (c, rest)) s h = omega (arith, h, due-action now c.members c s.site)

run_taken-acks :
    (now : ℕ) (t : Option (NetCommand × List NetCommand)) (s : Server)
    → (run_taken now t s).acks ≡ s.acks
unfolding run_taken
run_taken-acks now none s = refl
run_taken-acks now (some (c, rest)) s = refl

wake-pending :
    (now n : ℕ) (s : Site)
    → s.shutting_down ≡ n
    → one (sleep_event n) + (wake now n s).shutting_down ≡ n
unfolding wake
wake-pending now ℕ.zero s e = omega (arith, e)
wake-pending now (ℕ.suc n) s e = omega arith

acknowledge-pending :
    (s : Server) (p : NetCommandFactory × Option NetCommand)
    → Served s.factory p
    → pending (acknowledge p s) + length (accepted s.acks)
      ≤ pending s + length (accepted (acknowledge p s).acks)
unfolding acknowledge
acknowledge-pending s (g, r) v = rw v.created (elim v.outcome [
  | inl a ↦
      rw (accepted-ack v.command.ack_json s.acks a.acked) (omega (arith, due_le v.command.members))
  | inr r ↦ rw (accepted-noack v.command.ack_json s.acks r.answer) (rw r.inert (omega arith))
])

module _ {J : Type 0} (lib : Json J) where
  step-issued :
      (now : ℕ) (x : Step) (s : Server)
      → issued x s + pending (step lib now x s) + length (accepted s.acks)
        ≤ pending s + length (accepted (step lib now x s).acks)
  unfolding step acknowledge
  step-issued now (receive text) s = elim (interpret_command-Served lib text s.factory) [
    | inl (t, e) ↦ rw e (omega arith)
    | inr v ↦ omega (arith, acknowledge-pending s (interpret_command lib text s.factory) v)
  ]
  step-issued now (run_command n) s =
      rw (run_taken-acks now (take_at n s.waiting) s)
        (omega (arith, run_taken-pending now (take_at n s.waiting) s (all_due-take_at n s.waiting)))
  step-issued now end_sleep s = omega (arith, wake-pending now s.site.shutting_down s.site refl)
  step-issued now (other e) s = omega arith

  serve-issued :
      (steps : List (ℕ × Step)) (s : Server)
      → issued_in lib steps s + pending (serve lib steps s) + length (accepted s.acks)
        ≤ pending s + length (accepted (serve lib steps s).acks)
  unfolding serve issued_in
  serve-issued [] s = omega arith
  serve-issued ((now, x) ∷ rest) s =
      omega (arith, step-issued now x s, serve-issued rest (step lib now x s))

  -- From a new server on, the commands of the clients have acted on the system at most as often as
  -- a command was acknowledged with "ack".
  pub issued_in-server :
      (steps : List (ℕ × Step)) (f : NetCommandFactory) (w : World)
      → issued_in lib steps (server f w) ≤ length (accepted (serve lib steps (server f w)).acks)
  unfolding server
  issued_in-server steps f w = omega (arith, serve-issued steps (server f w))
