-- ===== src/Timer/UpdateTime.antt =====
-- `skynet_updatetime` and `skynet_timeout` of src/sn_timer.cpp.
use pskynet.Prelude.{
  ℕ, ◌-◌, ◌≤◌, ◌<◌, ◌≡◌, refl, ◌∙◌, Bool, List, [], ◌∷◌, none, some, arith, if◌then◌else◌,
  le→ltb_false, ≢→==, ◌≢◌,
}
use pskynet.Timer.Wheel.{
  Timer, TimerNode, TimerEvent, Slot, near_slot, level_slot, slot, u32, Push, response, timer_add,
}
use pskynet.Timer.Clock.{skynet_updatetime, skynet_timeout, advance}
use pskynet.Timer.Runs.{Schedule}
use pskynet.Timer.Fires.{Ran, update_rounds-Ran}

slot-advance : (s : Timer) (cp diff : ℕ) (k : Slot) → slot (advance s cp diff) k ≡ slot s k
unfolding advance
slot-advance s cp diff (near_slot i) = refl
slot-advance s cp diff (level_slot i j) = refl

advance-Schedule :
    (s : Timer) (ns : List TimerNode) (cp diff : ℕ)
    → Schedule s ns
    → Schedule (advance s cp diff) ns × ((advance s cp diff).time ≡ s.time)
unfolding advance
advance-Schedule s ns cp diff a = (
  record {
    small = a.small;
    represents = record { lists = λ k. slot-advance s cp diff k ∙ a.represents.lists k };
    pending = a.pending;
  },
  refl,
)

-- When the clock went on, and the wheel holds the nodes `ns`, `skynet_updatetime` returns; it
-- dispatches exactly what is due in as many ticks as the clock went on, modulo 2 ^ 32, and the wheel
-- then holds the other nodes.
pub skynet_updatetime-Ran :
    (s : Timer) (ns : List TimerNode) (cp : ℕ)
    → Schedule s ns
    → s.current_point < cp
    → Ran (u32 (cp - s.current_point)) s.time ns (skynet_updatetime s cp)
unfolding skynet_updatetime advance
skynet_updatetime-Ran s ns cp a h =
    let diff = u32 (cp - s.current_point) in
    let on = advance-Schedule s ns cp diff a in
    rw (le→ltb_false cp s.current_point (omega arith), ≢→== cp s.current_point (omega arith))
      (rw on.1 at (update_rounds-Ran diff (advance s cp diff) ns on.0))

-- When the clock stands still or goes back, nothing is dispatched.
pub skynet_updatetime_back :
    (s : Timer) (cp : ℕ)
    → cp ≤ s.current_point
    → skynet_updatetime s cp ≡ some (record s { current_point = cp }, [])
unfolding skynet_updatetime
skynet_updatetime_back s cp h = ground arith

-- A timeout of 0 is answered at once, by the message that the wheel would push, and reported as
-- failed exactly when the push fails; any other timeout is left to the wheel.
pub skynet_timeout_cases :
    (fails : Push → Bool) (s : Timer) (handle time session : ℕ)
    → let event : TimerEvent = record { handle = handle; session = session } in
      let r = skynet_timeout fails s handle time session in
      (time ≡ 0
        → (r.wheel ≡ s)
          × (r.pushed ≡ response event ∷ [])
          × (r.result ≡ (if fails (response event) then none else some session)))
      × (time ≢ 0
          → (r.wheel ≡ timer_add s event time) × (r.pushed ≡ []) × (r.result ≡ some session))
unfolding skynet_timeout
skynet_timeout_cases fails s handle time session = (λ h. ground arith, λ h. ground arith)
