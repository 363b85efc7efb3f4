-- ===== src/Faultmgr/BasicFaultMgr/Laws.antt =====
-- What the operations of one fault record do to each fault.
use ts_m2cellcpp.Prelude.{
  ℕ, ◌<◌, ◌≡◌, ◌≢◌, refl, inl, inr, Bool, true, false, not, xor, ◌&&◌, ◌||◌, ◌==◌, ltb, Bool-cases,
  bit, bit_and, bit_or, bit_xor, complement, bit-bit_and, bit-bit_or, bit-bit_xor, bit-complement,
  bit-mod, bit-zero, bit_of_zero, nonzero-bit, arith,
}
use ts_m2cellcpp.Faultmgr.BasicFaultMgr.{
  BasicFaultMgr, update_faults, reset_faults, update_fault_status, merge_faults, set_mask_comm,
  enable_faults_in_mask,
}

-- What updateFaults returns and does: it returns false and changes nothing when no enabled fault
-- differs between the previous and the current word, and else copies the current word to the
-- previous, and sums it up with the faults that the default mask keeps.
pub data Updated (m : BasicFaultMgr) : BasicFaultMgr × Bool → Type 0 where
  unchanged :
      ((i : ℕ) → bit m.fault_enable_mask i ≡ true → bit m.prev_faults i ≡ bit m.current_faults i)
      → Updated m (m, false)
  changed :
      (m' : BasicFaultMgr) (i : ℕ)
      → bit m.fault_enable_mask i ≡ true
      → bit m.prev_faults i ≢ bit m.current_faults i
      → m'.prev_faults ≡ m.current_faults
      → m'.current_faults ≡ m.current_faults
      → ((j : ℕ)
          → bit m'.summary_faults j
            ≡ ((bit m.summary_faults j && bit m.default_fault_mask j) || bit m.current_faults j))
      → Updated m (m', true)

pub diff-bit :
    (m : BasicFaultMgr) (i : ℕ)
    → bit (bit_and (bit_xor m.prev_faults m.current_faults) m.fault_enable_mask) i
      ≡ (xor (bit m.prev_faults i) (bit m.current_faults i) && bit m.fault_enable_mask i)
diff-bit m i = ground (
  arith,
  bit-bit_and (bit_xor m.prev_faults m.current_faults) m.fault_enable_mask i,
  bit-bit_xor m.prev_faults m.current_faults i,
)

pub summary-bit :
    (m : BasicFaultMgr) (j : ℕ)
    → bit (bit_or (bit_and m.summary_faults m.default_fault_mask) m.current_faults) j
      ≡ ((bit m.summary_faults j && bit m.default_fault_mask j) || bit m.current_faults j)
summary-bit m j = ground (
  arith,
  bit-bit_or (bit_and m.summary_faults m.default_fault_mask) m.current_faults j,
  bit-bit_and m.summary_faults m.default_fault_mask j,
)

-- updateFaults acts exactly when an enabled fault changed.
pub update_faults-Updated : (now : ℕ) (m : BasicFaultMgr) → Updated m (update_faults now m)
unfolding update_faults
update_faults-Updated now m =
    let diff = bit_and (bit_xor m.prev_faults m.current_faults) m.fault_enable_mask in
    elim (Bool-cases (diff == 0)) [
      | inl same ↦ rw same (unchanged (λ i e. ground (arith, diff-bit m i, bit_of_zero diff i)))
      | inr differs ↦ rw differs (
          let (i, found) = nonzero-bit diff differs in
          changed _ i (ground (arith, diff-bit m i)) (ground (arith, diff-bit m i)) refl refl
            (summary-bit m))
    ]

-- Below bit 64, resetFaults clears the faults of the mask in all three words, and no other fault.
pub reset_faults-bit :
    (now mask : ℕ) (m : BasicFaultMgr) (i : ℕ)
    → i < 64
    → let m' = reset_faults now mask m in
      (bit m'.summary_faults i ≡ (bit m.summary_faults i && not (bit mask i)))
      × (bit m'.current_faults i ≡ (bit m.current_faults i && not (bit mask i)))
      × (bit m'.prev_faults i ≡ (bit m.prev_faults i && not (bit mask i)))
unfolding reset_faults
reset_faults-bit now mask m i h = ground (
  arith,
  bit-bit_and m.summary_faults (complement 64 mask) i,
  bit-bit_and m.current_faults (complement 64 mask) i,
  bit-bit_and m.prev_faults (complement 64 mask) i,
  bit-complement 64 mask i,
)

-- mergeFaults adds the enabled faults of its argument to the summary and to the current word, and
-- returns exactly those that were not in the summary before.
pub merge_faults-bit :
    (bits : ℕ) (m : BasicFaultMgr) (i : ℕ)
    → let (m', changed_bits) = merge_faults bits m in
      let new = bit m.fault_enable_mask i && bit bits i in
      (bit m'.summary_faults i ≡ (bit m.summary_faults i || new))
      × (bit m'.current_faults i ≡ (bit m.current_faults i || new))
      × (bit changed_bits i ≡ (new && not (bit m.summary_faults i)))
unfolding merge_faults
merge_faults-bit bits m i = ground (
  arith,
  bit-zero i,
  bit-bit_and m.fault_enable_mask bits i,
  bit-bit_or m.summary_faults (bit_and m.fault_enable_mask bits) i,
  bit-bit_or m.current_faults (bit_and m.fault_enable_mask bits) i,
  bit-bit_xor (bit_or m.summary_faults (bit_and m.fault_enable_mask bits)) m.summary_faults i,
)

-- updateFaultStatus keeps the low 16 bits of its two words. There the first says which faults the
-- update changes, and the second which of these are enabled and affected.
pub update_fault_status-bit :
    (summary enable new warn fault i : ℕ)
    → let (updated, changed_bits) = update_fault_status summary enable new warn fault in
      let affected = bit fault i || bit warn i in
      let next = (bit new i && affected) || (bit summary i && xor (bit warn i) (ltb i 64)) in
      (bit updated i ≡ (ltb i 16 && xor (bit summary i) next))
      × (bit changed_bits i ≡ (bit updated i && (bit enable i && affected)))
unfolding update_fault_status
update_fault_status-bit summary enable new warn fault i =
    let affected = bit_or fault warn in
    let kept = bit_and summary (complement 64 warn) in
    let next = bit_or (bit_and new affected) kept in
    ground (
      arith,
      bit-mod 16 (bit_xor summary next) i,
      bit-mod 16 (bit_and (bit_and enable affected) (bit_xor summary next)) i,
      bit-bit_and (bit_and enable affected) (bit_xor summary next) i,
      bit-bit_and enable affected i,
      bit-bit_xor summary next i,
      bit-bit_or (bit_and new affected) kept i,
      bit-bit_and new affected i,
      bit-bit_or fault warn i,
      bit-bit_and summary (complement 64 warn) i,
      bit-complement 64 warn i,
    )

-- setMaskComm enables the faults of its mask, and sums them up with the faults that the default
-- mask keeps; the summary is then the current word too.
pub set_mask_comm-bit :
    (now mask : ℕ) (m : BasicFaultMgr) (i : ℕ)
    → let m' = set_mask_comm now mask m in
      (bit m'.fault_enable_mask i ≡ (bit m.fault_enable_mask i || bit mask i))
      × (bit m'.summary_faults i
          ≡ ((bit m.summary_faults i && bit m.default_fault_mask i) || bit mask i))
      × (m'.current_faults ≡ m'.summary_faults)
unfolding set_mask_comm
set_mask_comm-bit now mask m i = ground (
  arith,
  bit-bit_or m.fault_enable_mask mask i,
  bit-bit_or (bit_and m.summary_faults m.default_fault_mask) mask i,
  bit-bit_and m.summary_faults m.default_fault_mask i,
)

-- enableFaultsInMask enables the faults of its mask, and returns those that were not enabled.
pub enable_faults_in_mask-bit :
    (mask : ℕ) (m : BasicFaultMgr) (i : ℕ)
    → let (m', changed_bits) = enable_faults_in_mask mask m in
      (bit m'.fault_enable_mask i ≡ (bit m.fault_enable_mask i || bit mask i))
      × (bit changed_bits i ≡ (bit mask i && not (bit m.fault_enable_mask i)))
unfolding enable_faults_in_mask
enable_faults_in_mask-bit mask m i = ground (
  arith,
  bit-bit_or m.fault_enable_mask mask i,
  bit-bit_xor (bit_or m.fault_enable_mask mask) m.fault_enable_mask i,
)
