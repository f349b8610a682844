-- ===== src/Timer/Fires.antt =====
-- Many updates: when each timeout fires, and what `skynet_updatetime` dispatches.
use pskynet.Prelude.{
  ℕ, zero, suc, ◌+◌, ◌-◌, ◌^◌, ◌<◌, ◌≡◌, refl, subst, ap, ◌∙◌, ◌≢◌, List, [], ◌∷◌, ◌++◌, append-nil,
  Option, some, arith, ≢→==, ==_refl,
}
use pskynet.Prelude.Filter.{All-append, filter, filter-append}
use pskynet.Timer.Wheel.{
  Timer, TimerNode, TimerEvent, Slot, near_slot, level_slot, slot, u32, Push, response,
  dispatch_list, timer_add,
}
use pskynet.Timer.Clock.{timer_create_timer, timer_update, update_rounds}
use pskynet.Timer.Slots.{add_node-Represents, time-add_node}
use pskynet.Timer.Shift.{Later}
use pskynet.Timer.Execute.{is_due, later}
use pskynet.Timer.Runs.{Schedule, Ticked, next_tick, timer_update-Ticked}

-- The agenda and the messages of `n` ticks from the time `t`, with no wheel.
unfoldable pub left_after : ℕ → ℕ → List TimerNode → List TimerNode
left_after zero t ns = ns
left_after (suc n) t ns = left_after n (next_tick t) (later (next_tick t) ns)

unfoldable pub fired_in : ℕ → ℕ → List TimerNode → List Push
fired_in zero t ns = []
fired_in (suc n) t ns =
    dispatch_list (filter (is_due (next_tick t)) ns)
    ++ fired_in n (next_tick t) (later (next_tick t) ns)

unfoldable pub tick_after : ℕ → ℕ → ℕ
tick_after zero t = t
tick_after (suc n) t = tick_after n (next_tick t)

-- The outcome of `n` updates from the time `t`.
pub record Ran (n t : ℕ) (ns : List TimerNode) (r : Option (Timer × List Push)) : Type 0 where
  pub last : Timer
  pub returns : r ≡ some (last, fired_in n t ns)
  pub schedule : Schedule last (left_after n t ns)
  pub time : last.time ≡ tick_after n t

Ran-suc :
    (n : ℕ) (s : Timer) (t : ℕ) (ns : List TimerNode) (one : Ticked t ns (timer_update s))
    → Ran n (next_tick t) (later (next_tick t) ns) (update_rounds n one.next)
    → Ran (suc n) t ns (update_rounds (suc n) s)
unfolding update_rounds fired_in left_after tick_after
Ran-suc n s t ns one rest = record {
  last = rest.last;
  returns = rw (one.returns, rest.returns);
  schedule = rest.schedule;
  time = rest.time;
}

-- From a wheel that holds the nodes `ns`, `n` rounds of the `for` of `skynet_updatetime` return;
-- they dispatch, tick by tick, exactly the nodes that are due, oldest first, and the wheel then
-- holds the others, at the tick `n` further on.
pub update_rounds-Ran :
    (n : ℕ) (s : Timer) (ns : List TimerNode) → Schedule s ns → Ran n s.time ns (update_rounds n s)
update_rounds-Ran zero s ns a =
    unfold update_rounds fired_in left_after tick_after in
    (record { last = s; returns = refl; schedule = a; time = refl })
update_rounds-Ran (suc n) s ns a =
    let one = timer_update-Ticked s ns a in
    let t' = next_tick s.time in
    Ran-suc n s s.time ns one (
      subst (λ u. Ran n u (later t' ns) (update_rounds n one.next)) one.time
        (update_rounds-Ran n one.next (later t' ns) one.schedule))

-- Adding a timeout.

abbrev pub timeout_node : ℕ → TimerEvent → ℕ → TimerNode
timeout_node t event d = record { expire = u32 (d + t); event = event }

timeout-Later :
    (t d : ℕ) (event : TimerEvent)
    → t < 2 ^ 32
    → 0 < d
    → d < 2 ^ 31
    → Later t (timeout_node t event d)
timeout-Later t d event ht pos small = record {
  waits = record { small = omega arith; ahead = ground arith };
  not_due = omega arith;
}

-- A timeout that is a positive int joins the agenda, last.
pub timer_add-Schedule :
    (s : Timer) (ns : List TimerNode) (event : TimerEvent) (d : ℕ)
    → Schedule s ns
    → 0 < d
    → d < 2 ^ 31
    → Schedule (timer_add s event d) (ns ++ timeout_node s.time event d ∷ [])
unfolding timer_add
timer_add-Schedule s ns event d a pos small = record {
  small = rw time-add_node a.small;
  represents = add_node-Represents _ a.represents;
  pending =
      rw time-add_node
        (All-append _ ns _ a.pending (timeout-Later s.time d event a.small pos small, tt));
}

time-timer_add : (s : Timer) (event : TimerEvent) (d : ℕ) → (timer_add s event d).time ≡ s.time
unfolding timer_add
time-timer_add s event d = time-add_node s _

create-lists : (k : Slot) → slot timer_create_timer k ≡ []
create-lists (near_slot i) = refl
create-lists (level_slot i j) = refl

-- A new wheel is empty.
pub create-Schedule : Schedule timer_create_timer []
unfolding filter
create-Schedule = record {
  small = omega arith;
  represents = record { lists = create-lists };
  pending = tt;
}

tick_after-u32 : (n t : ℕ) → t < 2 ^ 32 → tick_after n t ≡ u32 (t + n)
unfolding tick_after
tick_after-u32 zero t h = omega arith
tick_after-u32 (suc n) t h = omega (arith, tick_after-u32 n (next_tick t) (omega arith))

dispatch_list-append :
    (ms ns : List TimerNode) → dispatch_list (ms ++ ns) ≡ dispatch_list ms ++ dispatch_list ns
unfolding dispatch_list
dispatch_list-append [] ns = refl
dispatch_list-append (m ∷ ms) ns = ap (◌∷◌ (response m.event)) (dispatch_list-append ms ns)

module _ (n : TimerNode) where
  filter-due_ne :
      (t : ℕ) (ns : List TimerNode)
      → n.expire ≢ t
      → filter (is_due t) (ns ++ n ∷ []) ≡ filter (is_due t) ns
  unfolding filter
  filter-due_ne t ns ne = rw (filter-append, ≢→== _ _ ne) (append-nil _)

  later-ne :
      (t : ℕ) (ns : List TimerNode) → n.expire ≢ t → later t (ns ++ n ∷ []) ≡ later t ns ++ n ∷ []
  unfolding filter
  later-ne t ns ne = rw (filter-append, ≢→== _ _ ne)

  -- Before its time a node changes no message, and stays last on the agenda.
  before_due :
      (k d t : ℕ) (ns : List TimerNode)
      → t < 2 ^ 32
      → d < 2 ^ 31
      → k < d
      → n.expire ≡ u32 (d + t)
      → (fired_in k t (ns ++ n ∷ []) ≡ fired_in k t ns)
        × (left_after k t (ns ++ n ∷ []) ≡ left_after k t ns ++ n ∷ [])
  unfolding fired_in left_after
  before_due zero d t ns ht hd lt e = (refl, refl)
  before_due (suc k) d t ns ht hd lt e =
      let ne : n.expire ≢ next_tick t = omega arith in
      let ih =
        before_due k (d - 1) (next_tick t) (later (next_tick t) ns) (omega arith) (omega arith)
          (omega arith) (omega arith) in
      rw (filter-due_ne (next_tick t) ns ne, later-ne (next_tick t) ns ne)
        (rw (ih.0, ih.1) (refl, refl))

-- When the timeout `event` of `d` ticks is added between two updates, the updates before the `d`th
-- dispatch what they would without it, and the `d`th what it would without it and then, last, the
-- response for `event`.
pub record FiresAt (d : ℕ) (s : Timer) (event : TimerEvent) : Type 0 where
  pub with_it : Timer
  pub without : Timer
  pub early : List Push
  pub on_time : List Push
  pub added_runs : update_rounds (d - 1) (timer_add s event d) ≡ some (with_it, early)
  pub same_before : update_rounds (d - 1) s ≡ some (without, early)
  pub next_with : Timer
  pub next_without : Timer
  pub fires : timer_update with_it ≡ some (next_with, on_time ++ response event ∷ [])
  pub alone : timer_update without ≡ some (next_without, on_time)

module _ (s : Timer) (ns : List TimerNode) (event : TimerEvent) (d : ℕ) (a : Schedule s ns)
    (pos : 0 < d) (small : d < 2 ^ 31) where
  abbrev node : TimerNode
  node = timeout_node s.time event d

  -- the updates before the last, with and without the new timeout
  added : Ran (d - 1) s.time (ns ++ node ∷ []) (update_rounds (d - 1) (timer_add s event d))
  added =
      subst (λ t. Ran (d - 1) t (ns ++ node ∷ []) (update_rounds (d - 1) (timer_add s event d)))
        (time-timer_add s event d)
        (update_rounds-Ran (d - 1) (timer_add s event d) (ns ++ node ∷ [])
          (timer_add-Schedule s ns event d a pos small))

  old : Ran (d - 1) s.time ns (update_rounds (d - 1) s)
  old = update_rounds-Ran (d - 1) s ns a

  unchanged :
      (fired_in (d - 1) s.time (ns ++ node ∷ []) ≡ fired_in (d - 1) s.time ns)
      × (left_after (d - 1) s.time (ns ++ node ∷ []) ≡ left_after (d - 1) s.time ns ++ node ∷ [])
  unchanged = before_due node (d - 1) d s.time ns a.small small (omega arith) refl

  abbrev due_now : List TimerNode
  due_now = filter (is_due (u32 (d + s.time))) (left_after (d - 1) s.time ns)

  due_node :
      (u : ℕ)
      → u ≡ u32 (d + s.time)
      → dispatch_list (filter (is_due u) (left_after (d - 1) s.time (ns ++ node ∷ [])))
        ≡ dispatch_list due_now ++ response event ∷ []
  unfolding filter dispatch_list
  due_node u e = rw (e, unchanged.1, filter-append, dispatch_list-append, ==_refl)

  added_tick : next_tick added.last.time ≡ u32 (d + s.time)
  added_tick = omega (arith, added.time, tick_after-u32 (d - 1) s.time a.small, a.small)

  old_tick : next_tick old.last.time ≡ u32 (d + s.time)
  old_tick = omega (arith, old.time, tick_after-u32 (d - 1) s.time a.small, a.small)

  -- Between two updates of a wheel that holds the nodes `ns`, a timeout of `d` ticks with
  -- 0 < d < 2 ^ 31 is added. Then the first d - 1 updates dispatch what they would without it, and
  -- the next one what it would without it and then, last, the response to the timeout.
  pub timeout-FiresAt : FiresAt d s event
  timeout-FiresAt = record {
    with_it = added.last;
    without = old.last;
    early = fired_in (d - 1) s.time ns;
    on_time = dispatch_list due_now;
    added_runs = added.returns ∙ rw unchanged.0;
    same_before = old.returns;
    next_with = with_next.next;
    next_without = without_next.next;
    fires = with_next.returns ∙ ap (λ p. some (with_next.next, p)) (due_node _ added_tick);
    alone =
        without_next.returns
        ∙ ap
            (λ t.
              some (
                without_next.next,
                dispatch_list (filter (is_due t) (left_after (d - 1) s.time ns)),
              ))
            old_tick;
  }
    where
      with_next :
          Ticked added.last.time
            (left_after (d - 1) s.time (ns ++ node ∷ []))
            (timer_update added.last)
      with_next = timer_update-Ticked added.last _ added.schedule

      without_next : Ticked old.last.time (left_after (d - 1) s.time ns) (timer_update old.last)
      without_next = timer_update-Ticked old.last _ old.schedule
