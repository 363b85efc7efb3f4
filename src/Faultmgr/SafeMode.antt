-- ===== src/Faultmgr/SafeMode.antt =====
-- What the fault manager asks of the model, state/Model.h: FaultMgr calls goToSafeMode when power
-- must not stay on. The model fills the interface, and the manager is proved against it.
use ts_m2cellcpp.Prelude.{ℕ, Bool, true, ◌≡◌}

-- `is_off` is what the call promises of the state `S` of the rest of the program.
pub record SafeMode (S : Type 0) : Type 0 where
  pub go_to_safe_mode : ℕ → S → S
  pub is_off : S → Bool
  pub go_to_safe_mode-off : (now : ℕ) (s : S) → is_off (go_to_safe_mode now s) ≡ true
