-- ===== src/Timer/Tests.antt =====
-- Runs of the wheel, and its theorems at concrete timeouts.
use pskynet.Prelude.{◌-◌, ◌^◌, ◌≡◌, refl, List, [], ◌∷◌, Option, none, some, arith}
use pskynet.Timer.Wheel.{
  Timer, TimerEvent, Push, response, timer_add, place, near_slot, level_slot, add_node, link,
  link_clear, set_slot, timer_shift, shift_loop, timer_execute, execute_loop, move_list, add_nodes,
  dispatch_list,
}
use pskynet.Timer.Clock.{timer_create_timer, timer_update, update_rounds, skynet_updatetime}
use pskynet.Timer.UpdateTime.{skynet_updatetime-Ran}
use pskynet.Timer.Runs.{Schedule}
use pskynet.Timer.Fires.{
  Ran, FiresAt, timeout_node, timer_add-Schedule, create-Schedule, update_rounds-Ran,
  timeout-FiresAt,
}

abbrev alarm : TimerEvent
alarm = record { handle = 7; session = 1 }

abbrev reminder : TimerEvent
reminder = record { handle = 8; session = 2 }

abbrev one_alarm : Timer
one_alarm = timer_add timer_create_timer alarm 300

one_alarm-Schedule : Schedule one_alarm (timeout_node 0 alarm 300 ∷ [])
one_alarm-Schedule =
    timer_add-Schedule timer_create_timer [] alarm 300 create-Schedule (omega arith) (omega arith)

places :
    (place 0 255 ≡ near_slot 255)
    × (place 0 256 ≡ level_slot 0 1)
    × (place 0 (2 ^ 26) ≡ level_slot 3 1)
    × (place (2 ^ 32 - 1) 3 ≡ level_slot 3 0)
unfolding place
places = (refl, refl, refl, refl)

abbrev pushes : Option (Timer × List Push) → List Push
pushes none = []
pushes (some r) = r.1

-- Nothing in 299 updates, the alarm in the 300th.
fires_on_time :
    (pushes (update_rounds 299 one_alarm) ≡ [])
    × (pushes (update_rounds 300 one_alarm) ≡ response alarm ∷ [])
unfolding update_rounds timer_update timer_execute execute_loop timer_shift shift_loop move_list
    add_nodes timer_add add_node link set_slot link_clear place dispatch_list
fires_on_time = (refl, refl)

update_rounds-Ran_example :
    Ran 300 one_alarm.time (timeout_node 0 alarm 300 ∷ []) (update_rounds 300 one_alarm)
update_rounds-Ran_example =
    update_rounds-Ran 300 one_alarm (timeout_node 0 alarm 300 ∷ []) one_alarm-Schedule

timeout-FiresAt_example : FiresAt 20 one_alarm reminder
timeout-FiresAt_example =
    timeout-FiresAt one_alarm (timeout_node 0 alarm 300 ∷ []) reminder 20 one_alarm-Schedule
      (omega arith) (omega arith)

skynet_updatetime-Ran_example :
    Ran 45 one_alarm.time (timeout_node 0 alarm 300 ∷ []) (skynet_updatetime one_alarm 45)
unfolding timer_add add_node link set_slot place
skynet_updatetime-Ran_example =
    skynet_updatetime-Ran one_alarm (timeout_node 0 alarm 300 ∷ []) 45 one_alarm-Schedule
      (omega arith)
