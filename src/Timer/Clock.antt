-- ===== src/Timer/Clock.antt =====
-- The timer's entry points in src/sn_timer.cpp. The clock readings of `gettime` and `systime` are
-- arguments.
use pskynet.Prelude.{
  ℕ, zero, suc, ◌+◌, ◌-◌, ◌/◌, Bool, List, [], ◌∷◌, ◌++◌, Option, none, some, ◌>>=◌, ◌==◌, ltb,
  if◌then◌else◌,
}
use pskynet.Timer.Wheel.{
  Timer, TimerEvent, Push, response, u32, timer_add, timer_shift, timer_execute,
}

unfoldable pub timer_update : Timer → Option (Timer × List Push)
timer_update s = do
  (s1, first) ← timer_execute s
  s2 ← timer_shift s1
  (s3, second) ← timer_execute s2
  some (s3, first ++ second)

-- `memset` to 0, and `link_clear` of every list
abbrev pub timer_create_timer : Timer
timer_create_timer = record {
  near_ = λ k. [];
  t = λ i j. [];
  time = 0;
  current = 0;
  starttime = 0;
  current_point = 0;
  origin_point = 0;
}

-- `skynet_timer_init`, with the readings of `systime` and `gettime`.
unfoldable pub timer_init : ℕ → ℕ → ℕ → Timer
timer_init sec cs point = record timer_create_timer {
  starttime = sec;
  current = cs;
  current_point = point;
  origin_point = point;
}

-- What `skynet_timeout` does: the new wheel, the messages pushed at once, and its result, `none`
-- for -1.
pub record Timeout : Type 0 where
  pub wheel : Timer
  pub pushed : List Push
  pub result : Option ℕ

-- `fails` is the outcome of `skynet_context_push`: true when the handle has no context.
unfoldable pub skynet_timeout : (Push → Bool) → Timer → ℕ → ℕ → ℕ → Timeout
skynet_timeout fails s handle time session =
    let event : TimerEvent = record { handle = handle; session = session } in
    if time == 0
    then record {
      wheel = s;
      pushed = response event ∷ [];
      result = if fails (response event) then none else some session;
    }
    else record { wheel = timer_add s event time; pushed = []; result = some session }

-- The `for` of `skynet_updatetime`.
unfoldable pub update_rounds : ℕ → Timer → Option (Timer × List Push)
update_rounds zero s = some (s, [])
update_rounds (suc n) s = do
  (s1, first) ← timer_update s
  (s2, rest) ← update_rounds n s1
  some (s2, first ++ rest)

-- The clock fields after `diff` ticks.
unfoldable pub advance : Timer → ℕ → ℕ → Timer
advance s cp diff =
    let current : ℕ = u32 (s.current + diff) in
    record s {
      current = current;
      starttime =
          if ltb current s.current then u32 (s.starttime + 0xffffffff / 100) else s.starttime;
      current_point = cp;
    }

unfoldable pub skynet_updatetime : Timer → ℕ → Option (Timer × List Push)
skynet_updatetime s cp =
    if ltb cp s.current_point
    then some (record s { current_point = cp }, [])
    else if cp == s.current_point
    then some (s, [])
    else update_rounds (u32 (cp - s.current_point)) (advance s cp (u32 (cp - s.current_point)))

unfoldable pub skynet_gettime : Timer → ℕ
skynet_gettime s = s.current

unfoldable pub skynet_gettime_fixsec : Timer → ℕ
skynet_gettime_fixsec s = s.starttime
