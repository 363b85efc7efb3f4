-- ===== src/State/StateMap.antt =====
-- Which state may follow which: StateEnum of state/State.h, isASafeState and the decision of
-- _changeState of state/StateMap.cpp.
pub mod Laws
use ts_m2cellcpp.Prelude.{ℕ, Bool, true, false, ◌||◌, ◌==◌, if◌then◌else◌}

pub data StateEnum : Type 0 where
  offlinestate startupstate standbystate idlestate pausestate inmotionstate : StateEnum

abbrev pub state_id : StateEnum → ℕ
state_id offlinestate = 0
state_id startupstate = 1
state_id standbystate = 2
state_id idlestate = 3
state_id pausestate = 4
state_id inmotionstate = 5

-- `==` of the enumeration.
abbrev pub same_state : StateEnum → StateEnum → Bool
same_state a b = state_id a == state_id b

unfoldable pub is_a_safe_state : StateEnum → Bool
is_a_safe_state s = same_state s standbystate || same_state s offlinestate

-- The chain of tests, for a current state and a new one.
unfoldable pub acceptable : StateEnum → StateEnum → Bool
acceptable current new =
    if is_a_safe_state new
    then true
    else if same_state current idlestate
    then same_state new inmotionstate || same_state new pausestate
    else if same_state current inmotionstate
    then same_state new inmotionstate || same_state new pausestate || same_state new idlestate
    else if same_state current pausestate
    then same_state new inmotionstate || same_state new idlestate
    else if is_a_safe_state current || same_state current startupstate
    then same_state new idlestate
    else false
