-- ===== src/System/Dark.antt =====
-- What the flag of the lost connection says of the power.
use ts_m2cellcpp.Prelude.{
  ℕ, ◌≡◌, ◌∙◌, sym, refl, inl, inr, true, false, ltb, Bool-cases, if_true, if_false,
}
use ts_m2cellcpp.Faultmgr.FaultMgr.{FaultMgr, report_com_connection_count, reset_faults}
use ts_m2cellcpp.Control.Defs.{SysInfo}
use ts_m2cellcpp.Control.PowerSubsystem.Invariant.{IsOff}
use ts_m2cellcpp.Control.PowerSystem.Both.{IsOff-Local}
use ts_m2cellcpp.State.Model.{Model}
use ts_m2cellcpp.State.Model.Laws.{BothIn, go_to_safe_mode_lem}
use ts_m2cellcpp.System.{World, handle, world, Event, connections}
use ts_m2cellcpp.System.Invariants.{Rest}
use ts_m2cellcpp.System.Commands.{handle-Both}
use ts_m2cellcpp.System.Built.{world-Rest, world-IsOff}
use ts_m2cellcpp.System.Safety.{handle-Rest}
use ts_m2cellcpp.System.Connection.{flag, counts, flag-handle_other, refused-IsOff}

-- While the flag stands, both subsystems are off.
pub record Dark (w : World) : Type 0 where
  pub rest : Rest w.model
  pub off : flag w ≡ true → BothIn IsOff w.model

other-IsOff :
    (now : ℕ) (e : Event) (w : World)
    → counts e ≡ false
    → Dark w
    → flag (handle now e w) ≡ true
    → BothIn IsOff (handle now e w).model
other-IsOff now e w c d h =
    let before = sym (flag-handle_other now e w c) ∙ h in
    handle-Both IsOff-Local now e w (λ x o. refused-IsOff now w.faults o before) (d.off before)

pub flag-connections : (now n : ℕ) (w : World) → flag (handle now (connections n) w) ≡ ltb n 1
unfolding handle report_com_connection_count reset_faults
flag-connections now n w =
    let P = λ (r : FaultMgr × Model). r.0.comm_connection_fault ≡ ltb n 1 in
    elim (Bool-cases (ltb n 1)) [
      | inl e ↦ if_true P (ltb n 1) _ _ e (sym e)
      | inr e ↦ if_false P (ltb n 1) _ _ e (sym e)
    ]

connections-IsOff :
    (now n : ℕ) (w : World)
    → Rest w.model
    → flag (handle now (connections n) w) ≡ true
    → BothIn IsOff (handle now (connections n) w).model
unfolding handle report_com_connection_count
connections-IsOff now n w r h =
    if_true (λ (r : FaultMgr × Model). BothIn IsOff r.1) (ltb n 1) _ _
      (sym (flag-connections now n w) ∙ h) (go_to_safe_mode_lem now w.model r.sound.configured).0

pub handle-Dark : (now : ℕ) (e : Event) (w : World) → Dark w → Dark (handle now e w)
handle-Dark now (connections n) w d = record {
  rest = handle-Rest now (connections n) w d.rest;
  off = connections-IsOff now n w d.rest;
}
handle-Dark now e w d = record {
  rest = handle-Rest now e w d.rest;
  off = other-IsOff now e w refl d;
}

pub world-Dark : (now : ℕ) (info : SysInfo) (port : ℕ) → Dark (world now info port)
world-Dark now info port = record {
  rest = world-Rest now info port;
  off = λ h. world-IsOff now info port;
}
