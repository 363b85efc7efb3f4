-- ===== src/System/Invariants.antt =====
-- The two invariants of the model: one of its subsystems alone, and one with the state.
use ts_m2cellcpp.Prelude.{ℕ, ◌≡◌, refl, Bool, true, not, ◌||◌, ◌&&◌, if_both, arith}
use ts_m2cellcpp.Faultmgr.FaultMgr.{FaultMgr}
use ts_m2cellcpp.Control.Defs.{SysInfo}
use ts_m2cellcpp.Control.Ports.{
  write_output, motor_power_on, ilc_comm_power_on, crio_interlock_enable,
}
use ts_m2cellcpp.Control.Ports.Laws.{get_output-write_output}
use ts_m2cellcpp.Control.PowerSubsystem.{Drive}
use ts_m2cellcpp.Control.PowerSubsystem.Kept.{daq_begin-Kept, daq_end-Kept}
use ts_m2cellcpp.Control.PowerSubsystem.Invariant.{Inv, IsOff, Apart-Kept}
use ts_m2cellcpp.Control.PowerSystem.{
  PowerSystem, motor_drive, comm_drive, write_crio_interlock_enable,
}
use ts_m2cellcpp.Control.PowerSystem.Both.{
  Local, Both, put_motor-Both, put_comm-Both, motor_power_off-Both, comm_power_off-Both,
  motor-Apart, comm-Apart, motor_output, comm_output, Inv-Local, IsOff-Local,
}
use ts_m2cellcpp.State.StateMap.{StateEnum, startupstate, offlinestate, same_state, acceptable}
use ts_m2cellcpp.State.Model.{
  Model, turn_off_all, enter_state, change_state, report_while_off, report_in,
  report_power_system_state_change,
}
use ts_m2cellcpp.State.Model.Laws.{
  BothIn, turn_off_all-Both, turn_off_all-IsOff, go_to_safe_mode-Both, go_to_safe_mode_lem,
  report-Both,
}
use ts_m2cellcpp.System.{begin_motor_daq, end_motor_daq, begin_comm_daq, end_comm_daq}
use ts_m2cellcpp.System.Laws.{Upheld}

module _ {P : Drive → Type 0} (k : Local P) where
  begin_motor-Both :
      (now : ℕ) (f : FaultMgr) (info : SysInfo) (c : ℕ) (m : Model)
      → BothIn P m
      → BothIn P (begin_motor_daq now f info c m).0
  begin_motor-Both now f info c m b =
      put_motor-Both k _ m.power_system b
        (daq_begin-Kept k.kept now f info _ (k.kept.faults c _ b.motor))
        (daq_begin-Kept (Apart-Kept _ _ _) now f info _ (motor-Apart c _ b.configured))

  end_motor-Both : (now c : ℕ) (m : Model) → BothIn P m → BothIn P (end_motor_daq now c m).0
  end_motor-Both now c m b =
      put_motor-Both k _ m.power_system b (daq_end-Kept k.kept now _ (k.kept.faults c _ b.motor))
        (daq_end-Kept (Apart-Kept _ _ _) now _ (motor-Apart c _ b.configured))

  begin_comm-Both :
      (now : ℕ) (f : FaultMgr) (info : SysInfo) (c : ℕ) (m : Model)
      → BothIn P m
      → BothIn P (begin_comm_daq now f info c m).0
  begin_comm-Both now f info c m b =
      put_comm-Both k _ m.power_system b
        (daq_begin-Kept k.kept now f info _ (k.kept.faults c _ b.comm))
        (daq_begin-Kept (Apart-Kept _ _ _) now f info _ (comm-Apart c _ b.configured))

  end_comm-Both : (now c : ℕ) (m : Model) → BothIn P m → BothIn P (end_comm_daq now c m).0
  end_comm-Both now c m b =
      put_comm-Both k _ m.power_system b (daq_end-Kept k.kept now _ (k.kept.faults c _ b.comm))
        (daq_end-Kept (Apart-Kept _ _ _) now _ (comm-Apart c _ b.configured))

  -- The time of the last read is no part of what holds.
  read_time-Both :
      (now : ℕ) (m : Model)
      → BothIn P m
      → BothIn P (record m { power_system = record (m.power_system) { daq_read_time = now } })
  read_time-Both now m b = record {
    configured = record { motor_cfg = b.configured.motor_cfg; comm_cfg = b.configured.comm_cfg };
    motor = b.motor;
    comm = b.comm;
  }

  pub Both-Upheld : Upheld (BothIn P)
  Both-Upheld = record {
    motor_off = λ now m b. motor_power_off-Both k now m.power_system b;
    comm_off = λ now m b. comm_power_off-Both k now m.power_system b;
    begin_motor = begin_motor-Both;
    begin_comm = begin_comm-Both;
    end_motor = end_motor-Both;
    end_comm = end_comm-Both;
    report = report-Both k;
    safe = go_to_safe_mode-Both k;
    read_time = read_time-Both;
  }

  -- The interlock is no power output.
  pub crio_interlock-Both :
      (v : Bool) (p : PowerSystem) → Both P p → Both P (write_crio_interlock_enable v p)
  unfolding write_crio_interlock_enable
  crio_interlock-Both v p b =
      let port = write_output p.port crio_interlock_enable v in
      let at_motor = get_output-write_output p.port crio_interlock_enable motor_power_on v in
      let at_comm = get_output-write_output p.port crio_interlock_enable ilc_comm_power_on v in
      record {
        configured = record {
          motor_cfg = b.configured.motor_cfg;
          comm_cfg = b.configured.comm_cfg;
        };
        motor =
            k.port port (motor_drive 0 p) (ground (arith, motor_output p b.configured, at_motor))
              b.motor;
        comm =
            k.port port (comm_drive 0 p) (ground (arith, comm_output p b.configured, at_comm))
              b.comm;
      }

-- In startup and offline no power is on.
abbrev pub at_rest : StateEnum → Bool
at_rest s = same_state s startupstate || same_state s offlinestate

pub record Rest (m : Model) : Type 0 where
  pub sound : BothIn Inv m
  pub off : at_rest m.current_state ≡ true → BothIn IsOff m

-- A report leads to no state at rest that was not there before.
report_state :
    (now : ℕ) (s : StateEnum) (m : Model)
    → m.current_state ≡ s
    → at_rest (report_in now s m).current_state ≡ true
    → at_rest m.current_state ≡ true
unfolding report_in report_while_off change_state enter_state turn_off_all
report_state now s m e h = ground arith

report-Rest : (now : ℕ) (m : Model) → Rest m → Rest (report_power_system_state_change now m)
unfolding report_power_system_state_change
report-Rest now m r = record {
  sound = report-Both Inv-Local now m r.sound;
  off = λ h. report-Both IsOff-Local now m (r.off (report_state now m.current_state m refl h));
}

pub Rest-Upheld : Upheld Rest
Rest-Upheld =
    let i = Both-Upheld Inv-Local in
    let o = Both-Upheld IsOff-Local in
    record {
      motor_off = λ now m r. record {
        sound = i.motor_off now m r.sound;
        off = λ h. o.motor_off now m (r.off h);
      };
      comm_off = λ now m r. record {
        sound = i.comm_off now m r.sound;
        off = λ h. o.comm_off now m (r.off h);
      };
      begin_motor = λ now f info c m r. record {
        sound = i.begin_motor now f info c m r.sound;
        off = λ h. o.begin_motor now f info c m (r.off h);
      };
      begin_comm = λ now f info c m r. record {
        sound = i.begin_comm now f info c m r.sound;
        off = λ h. o.begin_comm now f info c m (r.off h);
      };
      end_motor = λ now c m r. record {
        sound = i.end_motor now c m r.sound;
        off = λ h. o.end_motor now c m (r.off h);
      };
      end_comm = λ now c m r. record {
        sound = i.end_comm now c m r.sound;
        off = λ h. o.end_comm now c m (r.off h);
      };
      report = report-Rest;
      safe = λ now m r. record {
        sound = i.safe now m r.sound;
        off = λ h. (go_to_safe_mode_lem now m r.sound.configured).0;
      };
      read_time = λ now m r. record {
        sound = i.read_time now m r.sound;
        off = λ h. o.read_time now m (r.off h);
      };
    }

resting : (now : ℕ) (m : Model) → BothIn Inv m → Rest (turn_off_all now m)
resting now m b = record {
  sound = turn_off_all-Both Inv-Local now m b;
  off = λ h. turn_off_all-IsOff now m b.configured;
}

-- A state is entered again, or anew.
again-Rest : (now : ℕ) (s : StateEnum) (m : Model) → Rest m → Rest (enter_state now s m)
unfolding enter_state
again-Rest now startupstate m r = resting now m r.sound
again-Rest now offlinestate m r = resting now m r.sound
again-Rest now _ m r = r

anew-Rest :
    (now : ℕ) (s : StateEnum) (m : Model)
    → BothIn Inv m
    → Rest (enter_state now s (record m { current_state = s }))
unfolding enter_state
anew-Rest now startupstate m b = resting now (record m { current_state = startupstate }) b
anew-Rest now offlinestate m b = resting now (record m { current_state = offlinestate }) b
anew-Rest now _ m b = record { sound = b; off = λ h. ground (arith, h) }

pub change_state-Rest :
    (now : ℕ) (s : StateEnum) (m : Model) → Rest m → Rest (change_state now s m).0
unfolding change_state
change_state-Rest now s m r =
    let Q : Model × Bool → Type 0 = λ a. Rest a.0 in
    if_both Q (same_state s m.current_state) (again-Rest now s m r) (
      if_both Q (same_state m.current_state startupstate && not m.setup_finished) r
        (if_both Q (acceptable m.current_state s) (anew-Rest now s m r.sound) r))
