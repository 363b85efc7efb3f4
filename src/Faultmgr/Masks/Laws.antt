-- ===== src/Faultmgr/Masks/Laws.antt =====
-- How the masks relate, for every bit.
use ts_m2cellcpp.Prelude.{
  ℕ, ◌≡◌, ◌∙◌, sym, ap, refl, true, false, ◌&&◌, bit, bit-bit_and, bit-zero, bit_and, arith,
}
use ts_m2cellcpp.Faultmgr.FaultStatusBits.{set_all}
use ts_m2cellcpp.Faultmgr.Masks.{
  get_mask_closed_loop_control, get_mask_open_loop_control, get_mask_telemetry_only_control,
  get_mask_faults, get_mask_warn, get_mask_info, get_mask_health_faults, get_mask_comm_faults,
  get_mask_motor_faults,
}

-- Words whose conjunction is the first are included bit by bit.
pub bit-le_of_and : (a b i : ℕ) → bit_and a b ≡ a → bit a i ≡ true → bit b i ≡ true
bit-le_of_and a b i e h = ground (arith, bit-bit_and a b i)

pub bit-disjoint : (a b i : ℕ) → bit_and a b ≡ 0 → (bit a i && bit b i) ≡ false
bit-disjoint a b i e = sym (bit-bit_and a b i) ∙ (ap (λ (w : ℕ). bit w i) e ∙ bit-zero i)

-- Each level of control tolerates the faults that the stricter level does, and all of them are
-- faults: open-loop within telemetry-only within the fault mask.
pub masks_nested :
    (i : ℕ)
    → (bit get_mask_closed_loop_control i ≡ true → bit get_mask_open_loop_control i ≡ true)
      × (bit get_mask_open_loop_control i ≡ true → bit get_mask_telemetry_only_control i ≡ true)
      × (bit get_mask_telemetry_only_control i ≡ true → bit get_mask_faults i ≡ true)
unfolding set_all get_mask_closed_loop_control get_mask_open_loop_control
    get_mask_telemetry_only_control get_mask_faults
masks_nested i = (
  bit-le_of_and get_mask_closed_loop_control get_mask_open_loop_control i refl,
  bit-le_of_and get_mask_open_loop_control get_mask_telemetry_only_control i refl,
  bit-le_of_and get_mask_telemetry_only_control get_mask_faults i refl,
)

-- No bit is in two of the fault, warning and info masks.
pub masks_disjoint :
    (i : ℕ)
    → ((bit get_mask_faults i && bit get_mask_warn i) ≡ false)
      × ((bit get_mask_faults i && bit get_mask_info i) ≡ false)
      × ((bit get_mask_warn i && bit get_mask_info i) ≡ false)
unfolding set_all get_mask_faults get_mask_warn get_mask_info
masks_disjoint i = (bit-disjoint _ _ i refl, bit-disjoint _ _ i refl, bit-disjoint _ _ i refl)

-- What the power subsystems look for is enabled: their masks, and the health faults, are faults.
pub power_masks-faults :
    (i : ℕ)
    → (bit get_mask_comm_faults i ≡ true → bit get_mask_faults i ≡ true)
      × (bit get_mask_motor_faults i ≡ true → bit get_mask_faults i ≡ true)
      × (bit get_mask_health_faults i ≡ true → bit get_mask_faults i ≡ true)
unfolding set_all get_mask_comm_faults get_mask_motor_faults get_mask_health_faults get_mask_faults
power_masks-faults i = (
  bit-le_of_and get_mask_comm_faults get_mask_faults i refl,
  bit-le_of_and get_mask_motor_faults get_mask_faults i refl,
  bit-le_of_and get_mask_health_faults get_mask_faults i refl,
)
