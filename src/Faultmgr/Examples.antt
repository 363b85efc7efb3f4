-- ===== src/Faultmgr/Examples.antt =====
-- Concrete cases of the fault manager: faultmgr/.
use ts_m2cellcpp.Prelude.{◌≡◌, true, false, ◌&&◌, bit}
use ts_m2cellcpp.Faultmgr.BasicFaultMgr.{update_fault_status}
use ts_m2cellcpp.Faultmgr.BasicFaultMgr.Laws.{update_fault_status-bit}

-- A fault of bit 17 is lost.
update_fault_status-bit_example :
    (bit (update_fault_status 0 4294967295 131072 0 4294967295).0 17 ≡ false)
    × (bit (update_fault_status 0 4294967295 131072 0 4294967295).1 17
        ≡ (bit (update_fault_status 0 4294967295 131072 0 4294967295).0 17 && true))
unfolding bit
update_fault_status-bit_example = update_fault_status-bit 0 4294967295 131072 0 4294967295 17
