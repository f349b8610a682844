-- ===== src/Timer/Execute.antt =====
-- `timer_execute` of src/sn_timer.cpp: exactly the nodes that are due are dispatched.
use pskynet.Prelude.{
  ℕ, ◌%◌, ◌≡◌, refl, sym, ap, ◌∙◌, Bool, false, not, List, [], ◌∷◌, Option, some, arith, ◌&&◌, ◌==◌,
  if◌then◌else◌, Bool-cases, inl, inr, ==_refl,
}
use pskynet.Prelude.Bits.{bit_and_mask}
use pskynet.Prelude.Filter.{All, filter, filter-ext, filter-filter, filter-none}
use pskynet.Timer.Wheel.{
  Timer, TimerNode, Slot, near_slot, level_slot, slot, slot_eq, set_slot, link_clear, Push,
  dispatch_list, execute_loop, timer_execute,
}
use pskynet.Timer.Slots.{Represents, at, slot-set_slot, time-set_slot, slot_eq→≡}

abbrev pub is_due : ℕ → TimerNode → Bool
is_due t n = n.expire == t

abbrev pub later : ℕ → List TimerNode → List TimerNode
later t ns = filter (λ n. not (is_due t n)) ns

at-is_due : (t : ℕ) (n : TimerNode) → at t (near_slot (t % 256)) n ≡ is_due t n
at-is_due t n = ground arith

each {κ} : {P : TimerNode → Type κ} (ns : List TimerNode) → ((n : TimerNode) → P n) → All P ns
each [] f = tt
each (n ∷ ns) f = (f n, each ns f)

due-nodes : (t : ℕ) (ns : List TimerNode) → All (λ n. at t (near_slot (t % 256)) n ≡ is_due t n) ns
due-nodes t ns = each ns (at-is_due t)

-- Clearing the near list of the time `t` takes the nodes that are due.
later-at :
    (t : ℕ) (k : Slot) (n : TimerNode)
    → (not (is_due t n) && at t k n) ≡ (if slot_eq (near_slot (t % 256)) k then false else at t k n)
later-at t (near_slot a) n = ground arith
later-at t (level_slot i j) n = ground arith

later-lists :
    (t : ℕ) (k : Slot) (ns : List TimerNode)
    → filter (at t k) (later t ns)
      ≡ (if slot_eq (near_slot (t % 256)) k then [] else filter (at t k) ns)
later-lists t k ns = elim (Bool-cases (slot_eq (near_slot (t % 256)) k)) [
  | inl here ↦ rw (here, filter-filter) (filter-none _ ns (each ns (λ n. later-at t k n ∙ rw here)))
  | inr other ↦
      rw (other, filter-filter) (filter-ext _ _ ns (each ns (λ n. later-at t k n ∙ rw other)))
]

-- The outcome of dispatching the nodes due at the wheel's time.
pub record Executed (t : ℕ) (ns : List TimerNode) (r : Option (Timer × List Push)) : Type 0 where
  pub next : Timer
  pub returns : r ≡ some (next, dispatch_list (filter (is_due t) ns))
  pub represents : Represents next (later t ns)
  pub time : next.time ≡ t

module _ (s : Timer) (ns : List TimerNode) (r : Represents s ns) where
  abbrev due_slot : Slot
  due_slot = near_slot (s.time % 256)

  due-slot : slot s due_slot ≡ filter (is_due s.time) ns
  due-slot = r.lists due_slot ∙ filter-ext _ _ ns (due-nodes s.time ns)

  cleared-lists :
      (k : Slot)
      → slot (set_slot s due_slot []) k
        ≡ filter (at (set_slot s due_slot []).time k) (later s.time ns)
  cleared-lists k =
      slot-set_slot s due_slot k []
      ∙ rw (time-set_slot s due_slot [], r.lists k) (sym (later-lists s.time k ns))

  -- An empty list stays as it is when it is cleared.
  same-lists : slot s due_slot ≡ [] → (k : Slot) → slot s k ≡ slot (set_slot s due_slot []) k
  same-lists e k = rw slot-set_slot (elim (Bool-cases (slot_eq due_slot k)) [
    | inl here ↦ rw (here, ← slot_eq→≡ due_slot k here) e
    | inr other ↦ rw other
  ])

  execute_rounds :
      (xs : List TimerNode)
      → s.near_ (s.time % 256) ≡ xs
      → Executed s.time ns (execute_loop 2 (s.time % 256) s [])
  unfolding execute_loop link_clear set_slot dispatch_list
  execute_rounds [] e = record {
    next = s;
    returns = rw (← due-slot, e, execute_loop);
    represents = record {
      lists = λ k.
          same-lists e k
          ∙ cleared-lists k
          ∙ ap (λ t. filter (at t k) (later s.time ns)) (time-set_slot s due_slot []);
    };
    time = refl;
  }
  execute_rounds (x ∷ xs) e = record {
    next = set_slot s due_slot [];
    returns = rw (← due-slot, e, execute_loop, ==_refl);
    represents = record { lists = cleared-lists };
    time = time-set_slot s due_slot [];
  }

  -- The loop of `timer_execute` stops within its rounds, having dispatched the nodes due at the
  -- wheel's time, oldest first, and no other.
  pub timer_execute-Executed : Executed s.time ns (timer_execute s)
  unfolding timer_execute
  timer_execute-Executed = rw (bit_and_mask 8 s.time) (execute_rounds (s.near_ (s.time % 256)) refl)
