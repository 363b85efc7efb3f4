-- ===== src/State/StateMap/Laws.antt =====
-- The transitions that the chain of tests lets through, as a relation.
use ts_m2cellcpp.Prelude.{◌≡◌, ◌↔◌, ◌≢◌, refl, true, arith}
use ts_m2cellcpp.State.StateMap.{
  StateEnum, offlinestate, startupstate, standbystate, idlestate, pausestate, inmotionstate,
  acceptable, is_a_safe_state,
}

pub data Allowed : StateEnum → StateEnum → Type 0 where
  -- Power and motion stop from everywhere.
  to_standby : {s : StateEnum} → Allowed s standbystate
  to_offline : {s : StateEnum} → Allowed s offlinestate
  -- Power is on.
  power_up :
      {s : StateEnum} → s ≢ pausestate → s ≢ inmotionstate → s ≢ idlestate → Allowed s idlestate
  -- Motion.
  move : Allowed idlestate inmotionstate
  go_on : Allowed inmotionstate inmotionstate
  stop : Allowed inmotionstate idlestate
  -- A pause and its ends.
  pause : Allowed inmotionstate pausestate
  pause_idle : Allowed idlestate pausestate
  resume : Allowed pausestate inmotionstate
  leave : Allowed pausestate idlestate

acceptable→Allowed : (current new : StateEnum) → acceptable current new ≡ true → Allowed current new
unfolding acceptable is_a_safe_state
acceptable→Allowed _ standbystate h = to_standby
acceptable→Allowed _ offlinestate h = to_offline
acceptable→Allowed idlestate inmotionstate h = move
acceptable→Allowed idlestate pausestate h = pause_idle
acceptable→Allowed inmotionstate inmotionstate h = go_on
acceptable→Allowed inmotionstate pausestate h = pause
acceptable→Allowed inmotionstate idlestate h = stop
acceptable→Allowed pausestate inmotionstate h = resume
acceptable→Allowed pausestate idlestate h = leave
acceptable→Allowed standbystate idlestate h = power_up (ground arith) (ground arith) (ground arith)
acceptable→Allowed offlinestate idlestate h = power_up (ground arith) (ground arith) (ground arith)
acceptable→Allowed startupstate idlestate h = power_up (ground arith) (ground arith) (ground arith)
acceptable→Allowed _ _ h = ground arith

power_up→acceptable :
    (s : StateEnum)
    → s ≢ pausestate
    → s ≢ inmotionstate
    → s ≢ idlestate
    → acceptable s idlestate ≡ true
unfolding acceptable is_a_safe_state
power_up→acceptable s p m i = ground arith

Allowed→acceptable : (current new : StateEnum) → Allowed current new → acceptable current new ≡ true
unfolding acceptable is_a_safe_state
Allowed→acceptable _ _ to_standby = refl
Allowed→acceptable _ _ to_offline = refl
Allowed→acceptable _ _ (power_up p m i) = power_up→acceptable _ p m i
Allowed→acceptable _ _ move = refl
Allowed→acceptable _ _ go_on = refl
Allowed→acceptable _ _ stop = refl
Allowed→acceptable _ _ pause = refl
Allowed→acceptable _ _ pause_idle = refl
Allowed→acceptable _ _ resume = refl
Allowed→acceptable _ _ leave = refl

-- The tests let a transition through exactly when it is one of the relation: standby and offline
-- from every state, idle from every other state, and between idle, pause and motion all but a
-- state to itself, where only motion may be followed by motion.
pub acceptable-Allowed :
    (current new : StateEnum) → (acceptable current new ≡ true) ↔ Allowed current new
acceptable-Allowed current new = (acceptable→Allowed current new, Allowed→acceptable current new)
