-- ===== src/Net/ControlServer/Numbers.antt =====
-- Which commands of the clients run.
use text.Mathlib.Text.{◌==◌}
use text.Mathlib.TextEquality.{eq_iff}
use ts_m2cellcpp.Prelude.{
  ℕ, ◌≤◌, ◌<◌, ◌≡◌, refl, ◌⊎◌, inl, inr, List, [], ◌∷◌, Option, none, some, if◌then◌else◌, arith,
}
use ts_m2cellcpp.Net.Json.{Json}
use ts_m2cellcpp.Net.NetCommand.{Reply, NetCommand}
use ts_m2cellcpp.Net.NetCommandFactory.{NetCommandFactory, interpret_command}
use ts_m2cellcpp.Net.NetCommandFactory.Laws.{Accepted, Refused, Served, interpret_command-Served}
use ts_m2cellcpp.Net.ControlServer.{
  Server, Step, receive, run_command, end_sleep, other, take_at, acknowledge, run_taken, step,
  serve,
}

-- The numbers of the commands that were acknowledged, newest first.
abbrev pub accepted : List Reply → List ℕ
accepted [] = []
accepted (r ∷ rs) = if r.id == "ack" then r.sequence_id ∷ accepted rs else accepted rs

-- Each is below the one before it in the list, and the first is below the bound.
abbrev pub Descending : ℕ → List ℕ → Type 0
Descending bound [] = Unit
Descending bound (n ∷ ns) = (n < bound) × Descending n ns

abbrev pub Numbered : Server → Type 0
Numbered s = Descending (ℕ.suc s.factory.prev_seq_id) (accepted s.acks)

Descending-mono : (a b : ℕ) (ns : List ℕ) → a ≤ b → Descending a ns → Descending b ns
Descending-mono a b [] h d = tt
Descending-mono a b (n ∷ ns) h (k, d) = (ground (arith, h, k), d)

pub accepted-ack :
    (r : Reply) (rs : List Reply) → r.id ≡ "ack" → accepted (r ∷ rs) ≡ r.sequence_id ∷ accepted rs
accepted-ack r rs e = ground (arith, e, eq_iff r.id "ack")

pub accepted-noack :
    (r : Reply) (rs : List Reply) → r.id ≡ "noack" → accepted (r ∷ rs) ≡ accepted rs
accepted-noack r rs e = rw (e, accepted) refl

module _ {f g : NetCommandFactory} {c : NetCommand} (rs : List Reply)
    (h : f.prev_seq_id ≤ g.prev_seq_id) (d : Descending (ℕ.suc f.prev_seq_id) (accepted rs)) where
  outcome-Descending :
      Accepted f g c ⊎ Refused c → Descending (ℕ.suc g.prev_seq_id) (accepted (c.ack_json ∷ rs))
  outcome-Descending (inl a) =
      rw (accepted-ack c.ack_json rs a.acked)
        (ground (arith, a.latest), Descending-mono _ _ (accepted rs) (ground (arith, a.newer)) d)
  outcome-Descending (inr r) =
      rw (accepted-noack c.ack_json rs r.answer)
        (Descending-mono _ _ (accepted rs) (ground (arith, h)) d)

acknowledge-Numbered :
    (s : Server) (p : NetCommandFactory × Option NetCommand)
    → Served s.factory p
    → Numbered s
    → Numbered (acknowledge p s)
unfolding acknowledge
acknowledge-Numbered s (g, r) v d = rw v.created (outcome-Descending s.acks v.ordered d v.outcome)

run_taken-Numbered :
    (now : ℕ) (t : Option (NetCommand × List NetCommand)) (s : Server)
    → Numbered s
    → Numbered (run_taken now t s)
unfolding run_taken
run_taken-Numbered now none s d = d
run_taken-Numbered now (some (c, rest)) s d = d

module _ {J : Type 0} (lib : Json J) where
  step-Numbered : (now : ℕ) (x : Step) (s : Server) → Numbered s → Numbered (step lib now x s)
  unfolding step acknowledge
  step-Numbered now (receive text) s d = elim (interpret_command-Served lib text s.factory) [
    | inl (t, e) ↦ rw e d
    | inr v ↦ acknowledge-Numbered s (interpret_command lib text s.factory) v d
  ]
  step-Numbered now (run_command n) s d = run_taken-Numbered now (take_at n s.waiting) s d
  step-Numbered now end_sleep s d = d
  step-Numbered now (other e) s d = d

  -- The numbers of the acknowledged commands strictly increase over any steps of the server, and
  -- the factory holds a number at least as large as each, if that is so at the start.
  pub serve-Numbered :
      (steps : List (ℕ × Step)) (s : Server) → Numbered s → Numbered (serve lib steps s)
  unfolding serve
  serve-Numbered [] s d = d
  serve-Numbered ((now, x) ∷ rest) s d =
      serve-Numbered rest (step lib now x s) (step-Numbered now x s d)
