-- ===== src/Monitor/Tests.antt =====
-- The monitor of src/sn_monitor.cpp at concrete inputs.
use pskynet.Prelude.{[], ◌∷◌, arith}
use pskynet.Monitor.{Monitor}
use pskynet.Monitor.Checks.{Checked, check-Checked}

abbrev busy : Monitor
busy = record { version = 7; check_version = 5; source = 1; destination = 9 }

check-Checked_example : Checked busy ((0, 0) ∷ (2, 9) ∷ [])
check-Checked_example = check-Checked busy ((0, 0) ∷ (2, 9) ∷ []) (omega arith)
