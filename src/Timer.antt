-- ===== src/Timer.antt =====
-- src/sn_timer.cpp: a timing wheel of 256 near slots and four levels of 64 slots. Times are
-- uint32_t ticks of a hundredth of a second.
pub mod Wheel
pub mod Place
pub mod Tick
pub mod Slots
pub mod Shift
pub mod Execute
pub mod Clock
pub mod Runs
pub mod Fires
pub mod UpdateTime
mod Tests
use pskynet.Prelude.{ℕ}
