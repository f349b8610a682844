-- ===== src/Timer/Runs.antt =====
-- Updates of the wheel against an agenda: the nodes that wait, oldest first.
use pskynet.Prelude.{
  ℕ, ◌+◌, ◌^◌, ◌<◌, ◌≡◌, refl, subst, ap, ◌∙◌, not, List, [], ◌∷◌, ◌++◌, Option, some, arith, ≢→==,
}
use pskynet.Prelude.Filter.{All, All-mono, filter, filter-none, filter-passes, filter-All, All-both}
use pskynet.Timer.Wheel.{Timer, TimerNode, u32, Push, dispatch_list, timer_execute, timer_shift}
use pskynet.Timer.Clock.{timer_update}
use pskynet.Timer.Slots.{Represents}
use pskynet.Timer.Shift.{Waits, Later, Shifted, timer_shift-Shifted}
use pskynet.Timer.Execute.{Executed, is_due, later, timer_execute-Executed}

-- The wheel `s` holds exactly the nodes `ns`, all of them still to come.
pub record Agenda (s : Timer) (ns : List TimerNode) : Type 0 where
  pub small : s.time < 2 ^ 32
  pub represents : Represents s ns
  pub waits : All (Waits s.time) ns

later-Waits : (t : ℕ) (ns : List TimerNode) → All (Waits t) ns → All (Later t) (later t ns)
later-Waits t ns w =
    All-both _ _ _ (later t ns) (λ n p q. record { waits = q; not_due = ground (arith, p) })
      (filter-passes (λ n. not (is_due t n)) ns) (filter-All (Waits t) (λ n. not (is_due t n)) ns w)

-- A node that is not due at `t` waits at the next tick.
Later-Waits : (t : ℕ) (n : TimerNode) → t < 2 ^ 32 → Later t n → Waits (u32 (t + 1)) n
Later-Waits t n ht l = record {
  small = l.waits.small;
  ahead = ground (arith, l.waits.ahead, l.waits.small, l.not_due);
}

abbrev pub next_tick : ℕ → ℕ
next_tick t = u32 (t + 1)

-- The outcome of `timer_update` at the time `t`: all that is due at `t`, then all that is due at
-- the next tick, is dispatched; the rest waits.
pub record Updated (t : ℕ) (ns : List TimerNode) (r : Option (Timer × List Push)) : Type 0 where
  pub next : Timer
  pub returns :
      r
      ≡ some (
        next,
        dispatch_list (filter (is_due t) ns)
            ++ dispatch_list (filter (is_due (next_tick t)) (later t ns)),
      )
  pub agenda : Agenda next (later (next_tick t) (later t ns))
  pub time : next.time ≡ next_tick t

execute_at :
    (s : Timer) (ns : List TimerNode) (t : ℕ)
    → s.time ≡ t
    → Represents s ns
    → Executed t ns (timer_execute s)
execute_at s ns t e r =
    subst (λ u. Executed u ns (timer_execute s)) e (timer_execute-Executed s ns r)

shift_at :
    (s : Timer) (ns : List TimerNode) (t : ℕ)
    → s.time ≡ t
    → Represents s ns
    → t < 2 ^ 32
    → All (Later t) ns
    → Shifted (next_tick t) ns (timer_shift s)
shift_at s ns t e r =
    subst (λ u. u < 2 ^ 32 → All (Later u) ns → Shifted (next_tick u) ns (timer_shift s)) e
      (timer_shift-Shifted s ns r)

-- From any agenda `timer_update` returns, and its outcome is the one above.
pub timer_update-Updated :
    (s : Timer) (ns : List TimerNode) → Agenda s ns → Updated s.time ns (timer_update s)
unfolding timer_update
timer_update-Updated s ns a = record {
  next = second.next;
  returns = rw (first.returns, shifted.returns, second.returns);
  agenda = record {
    small = rw second.time (omega arith);
    represents = second.represents;
    waits = rw second.time (
        filter-All (Waits t') (λ n. not (is_due t' n)) (later t ns)
          (All-mono _ _ (later t ns) (λ n. Later-Waits t n a.small) not_due));
  };
  time = second.time;
}
  where
    t : ℕ
    t = s.time

    t' : ℕ
    t' = next_tick t

    not_due : All (Later t) (later t ns)
    not_due = later-Waits t ns a.waits

    first : Executed t ns (timer_execute s)
    first = timer_execute-Executed s ns a.represents

    shifted : Shifted t' (later t ns) (timer_shift first.next)
    shifted = shift_at first.next (later t ns) t first.time first.represents a.small not_due

    second : Executed t' (later t ns) (timer_execute shifted.next)
    second = execute_at shifted.next (later t ns) t' shifted.time shifted.represents

-- The wheel holds exactly the nodes `ns`, and none of them is due at its time: so it is between
-- two updates.
pub record Schedule (s : Timer) (ns : List TimerNode) : Type 0 where
  pub small : s.time < 2 ^ 32
  pub represents : Represents s ns
  pub pending : All (Later s.time) ns

none_due : (t : ℕ) (ns : List TimerNode) → All (Later t) ns → filter (is_due t) ns ≡ []
none_due t ns p = filter-none _ ns (All-mono _ _ ns (λ n l. ≢→== _ _ l.not_due) p)

none_dropped : (t : ℕ) (ns : List TimerNode) → All (Later t) ns → later t ns ≡ ns
unfolding filter
none_dropped t [] p = refl
none_dropped t (n ∷ ns) p = rw (≢→== _ _ p.0.not_due) (ap (◌∷◌ n) (none_dropped t ns p.1))

-- The outcome of one update between two ticks.
pub record Ticked (t : ℕ) (ns : List TimerNode) (r : Option (Timer × List Push)) : Type 0 where
  pub next : Timer
  pub returns : r ≡ some (next, dispatch_list (filter (is_due (next_tick t)) ns))
  pub schedule : Schedule next (later (next_tick t) ns)
  pub time : next.time ≡ next_tick t

ticked :
    (t : ℕ) (ns : List TimerNode) (r : Option (Timer × List Push))
    → filter (is_due t) ns ≡ []
    → later t ns ≡ ns
    → Updated t ns r
    → Ticked t ns r
unfolding dispatch_list
ticked t ns r none_now all_on u = record {
  next = u.next;
  returns = u.returns ∙ rw (none_now, all_on);
  schedule = record {
    small = u.agenda.small;
    represents = subst (λ xs. Represents u.next (later t' xs)) all_on u.agenda.represents;
    pending = rw u.time (
        All-both _ _ _ (later t' ns) (λ n p q. record { waits = q; not_due = ground (arith, p) })
          (filter-passes (λ n. not (is_due t' n)) ns) waits);
  };
  time = u.time;
}
  where
    t' : ℕ
    t' = next_tick t

    waits : All (Waits t') (later t' ns)
    waits =
        subst (λ v. All (Waits v) (later t' ns)) u.time
          (subst (λ xs. All (Waits u.next.time) (later t' xs)) all_on u.agenda.waits)

-- `timer_update` dispatches exactly the nodes due at the next tick, oldest first.
pub timer_update-Ticked :
    (s : Timer) (ns : List TimerNode) → Schedule s ns → Ticked s.time ns (timer_update s)
timer_update-Ticked s ns a =
    ticked s.time ns (timer_update s) (none_due s.time ns a.pending)
      (none_dropped s.time ns a.pending)
      (timer_update-Updated s ns (record {
        small = a.small;
        represents = a.represents;
        waits = All-mono _ _ ns (λ n l. l.waits) a.pending;
      }))
