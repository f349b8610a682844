-- ===== src/Monitor.antt =====
-- src/sn_monitor.cpp: finds a worker that stays in one message.
pub mod Checks
mod Tests
use pskynet.Prelude.{ℕ, ◌+◌, ◌%◌, ◌^◌, Option, none, some, ◌==◌, if◌then◌else◌}

-- `check_version` is an int, by its bit pattern.
pub record Monitor : Type 0 where
  pub version : ℕ
  pub check_version : ℕ
  pub source : ℕ
  pub destination : ℕ

unfoldable pub new_monitor : Monitor
new_monitor = record { version = 0; check_version = 0; source = 0; destination = 0 }

-- The service that `Endless` is called for, if any.
unfoldable pub check : Monitor → Option ℕ × Monitor
check m =
    if m.version == m.check_version
    then (if m.destination == 0 then (none, m) else (some m.destination, m))
    else (none, record m { check_version = m.version })

unfoldable pub trigger : ℕ → ℕ → Monitor → Monitor
trigger source destination m = record m {
  source = source;
  destination = destination;
  version = (m.version + 1) % 2 ^ 32;
}
