-- ===== src/Control/MotionEngine.antt =====
-- The motion engine of control/MotionEngine.cpp: its start, stop and join, and the timeout of the
-- ILC communication. Times are nanoseconds. The threads are flags: `running` is the event thread,
-- `checking` the thread of the timeout checks.
pub mod Laws
use ts_m2cellcpp.Prelude.{
  ℕ, ◌+◌, ◌-◌, ◌*◌, Bool, true, false, not, ◌||◌, ◌&&◌, ltb, List, [], ◌∷◌, Result, ok, err,
  Exception, bug, if◌then◌else◌,
}
use ts_m2cellcpp.Faultmgr.FaultMgr.{FaultMgr, report_motion_engine_timeout}

pub record MotionEngine : Type 0 where
  pub e_started : Bool
  pub e_stop_called : Bool
  pub e_join_called : Bool
  pub timeout_loop : Bool
  pub com_read_time : ℕ
  pub running : Bool
  pub checking : Bool

-- _comTimeoutErrorSecs and _comTimeoutWarnSecs.
abbrev pub com_timeout_error : ℕ
com_timeout_error = 2500000000

abbrev pub com_timeout_warn : ℕ
com_timeout_warn = 1500000000

unfoldable pub motion_engine : ℕ → MotionEngine
motion_engine now = record {
  e_started = false;
  e_stop_called = false;
  e_join_called = false;
  timeout_loop = true;
  com_read_time = now;
  running = false;
  checking = false;
}

-- engineStart; the flag is set even when it throws.
unfoldable pub engine_start : ℕ → MotionEngine → MotionEngine × Result (Unit {0})
engine_start now m =
    let started = record m { e_started = true } in
    if m.e_started || m.e_stop_called
    then (started, err bug)
    else (record started { com_read_time = now; running = true; checking = true }, ok tt)

-- engineStop, with the end that queEnd brings to the event thread and the flag to the checks.
unfoldable pub engine_stop : MotionEngine → MotionEngine × Bool
engine_stop m =
    if m.e_stop_called
    then (m, false)
    else (record m { e_stop_called = true; timeout_loop = false }, true)

-- engineJoin: it waits for the threads that were started.
unfoldable pub engine_join : MotionEngine → MotionEngine
engine_join m =
    if m.e_join_called
    then m
    else record m { e_join_called = true; running = false; checking = false }

-- _checkTimeout; the answer says whether the time for an error has passed.
unfoldable pub check_timeout : ℕ → FaultMgr → FaultMgr × Bool
check_timeout diff f =
    if ltb com_timeout_error diff
    then (report_motion_engine_timeout true f, true)
    else (if ltb com_timeout_warn diff then report_motion_engine_timeout false f else f, false)

-- _comTimeoutCheck.
unfoldable pub com_timeout_check : ℕ → MotionEngine → FaultMgr → FaultMgr
com_timeout_check now m f = (check_timeout (now - m.com_read_time) f).0
