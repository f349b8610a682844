-- ===== src/Timer/Shift.antt =====
-- `timer_shift` of src/sn_timer.cpp: the wheel goes to the next tick and loses no node.
use pskynet.Prelude.{
  ℕ, ◌+◌, ◌/◌, ◌%◌, ◌^◌, ◌<◌, ◌≡◌, refl, ◌≢◌, List, Option, some, arith, ◌==◌, Bool-cases, inl, inr,
  ==→≡,
}
use native.Mathlib.Decide.{ℕ_discrete}
use pskynet.Prelude.Bits.{bit_and_mask}
use pskynet.Prelude.Filter.{All, All-mono, filter, filter-ext}
use pskynet.Timer.Wheel.{Timer, TimerNode, Slot, slot, u32, shift_loop, timer_shift, move_list}
use pskynet.Timer.Place.{block_place}
use pskynet.Timer.Tick.{
  Ahead, Moves, stays, cascade_0, cascade_1, cascade_2, cascade_3, cascade_wrap,
}
use pskynet.Timer.Slots.{Represents, at, slot-time, move_list-Represents}

-- A node that waits: its time is a uint32_t and has not come before `t`.
pub record Waits (t : ℕ) (n : TimerNode) : Type 0 where
  pub small : n.expire < 2 ^ 32
  pub ahead : Ahead t n.expire

-- A node that is not due at `t`.
pub record Later (t : ℕ) (n : TimerNode) : Type 0 where
  pub waits : Waits t n
  pub not_due : n.expire ≢ t

module _ (s : Timer) (ct : ℕ) where
  abbrev loop : Option Timer
  loop = shift_loop 4 s ct 256 (ct / 2 ^ 8) 0

  loop_none : ct % 2 ^ 8 ≢ 0 → loop ≡ some s
  unfolding shift_loop
  loop_none h = ground (arith, bit_and_mask 8 ct)

  loop_0 :
      ct % 2 ^ 8 ≡ 0 → ct / 2 ^ 8 % 2 ^ 6 ≢ 0 → loop ≡ some (move_list s 0 (ct / 2 ^ 8 % 2 ^ 6))
  unfolding shift_loop
  loop_0 h k = ground (arith, bit_and_mask 8 ct, bit_and_mask 6 (ct / 2 ^ 8))

  loop_1 :
      ct % 2 ^ 14 ≡ 0 → ct / 2 ^ 14 % 2 ^ 6 ≢ 0 → loop ≡ some (move_list s 1 (ct / 2 ^ 14 % 2 ^ 6))
  unfolding shift_loop
  loop_1 h k = ground (
    arith,
    bit_and_mask 8 ct,
    bit_and_mask 6 (ct / 2 ^ 8),
    bit_and_mask 14 ct,
    bit_and_mask 6 (ct / 2 ^ 8 / 2 ^ 6),
  )

  loop_2 :
      ct % 2 ^ 20 ≡ 0 → ct / 2 ^ 20 % 2 ^ 6 ≢ 0 → loop ≡ some (move_list s 2 (ct / 2 ^ 20 % 2 ^ 6))
  unfolding shift_loop
  loop_2 h k = ground (
    arith,
    bit_and_mask 8 ct,
    bit_and_mask 6 (ct / 2 ^ 8),
    bit_and_mask 14 ct,
    bit_and_mask 6 (ct / 2 ^ 8 / 2 ^ 6),
    bit_and_mask 20 ct,
    bit_and_mask 6 (ct / 2 ^ 8 / 2 ^ 6 / 2 ^ 6),
  )

  loop_3 :
      ct % 2 ^ 26 ≡ 0 → ct / 2 ^ 26 % 2 ^ 6 ≢ 0 → loop ≡ some (move_list s 3 (ct / 2 ^ 26 % 2 ^ 6))
  unfolding shift_loop
  loop_3 h k = ground (
    arith,
    bit_and_mask 8 ct,
    bit_and_mask 6 (ct / 2 ^ 8),
    bit_and_mask 14 ct,
    bit_and_mask 6 (ct / 2 ^ 8 / 2 ^ 6),
    bit_and_mask 20 ct,
    bit_and_mask 6 (ct / 2 ^ 8 / 2 ^ 6 / 2 ^ 6),
    bit_and_mask 26 ct,
    bit_and_mask 6 (ct / 2 ^ 8 / 2 ^ 6 / 2 ^ 6 / 2 ^ 6),
  )

-- The level whose list a shift to `ct` moves: the first one with a digit that is not 0.
data Level (ct : ℕ) : Type 0 where
  near_level : ct % 2 ^ 8 ≢ 0 → Level ct
  level_0 : ct % 2 ^ 8 ≡ 0 → ct / 2 ^ 8 % 2 ^ 6 ≢ 0 → Level ct
  level_1 : ct % 2 ^ 14 ≡ 0 → ct / 2 ^ 14 % 2 ^ 6 ≢ 0 → Level ct
  level_2 : ct % 2 ^ 20 ≡ 0 → ct / 2 ^ 20 % 2 ^ 6 ≢ 0 → Level ct
  level_3 : ct % 2 ^ 26 ≡ 0 → ct / 2 ^ 26 % 2 ^ 6 ≢ 0 → Level ct

Level-cases : (ct : ℕ) → ct < 2 ^ 32 → ct ≢ 0 → Level ct
Level-cases ct small ne = elim (ℕ_discrete (ct % 2 ^ 8) 0) [
  | no a ↦ near_level a
  | yes a ↦ elim (ℕ_discrete (ct / 2 ^ 8 % 2 ^ 6) 0) [
    | no b ↦ level_0 a b
    | yes b ↦ elim (ℕ_discrete (ct / 2 ^ 14 % 2 ^ 6) 0) [
      | no c ↦ level_1 (omega arith) c
      | yes c ↦ elim (ℕ_discrete (ct / 2 ^ 20 % 2 ^ 6) 0) [
        | no d ↦ level_2 (omega arith) d
        | yes d ↦ level_3 (omega arith) (omega arith)
      ]
    ]
  ]
]

-- The outcome of a shift to the time `ct`.
pub record Shifted (ct : ℕ) (ns : List TimerNode) (r : Option Timer) : Type 0 where
  pub next : Timer
  pub returns : r ≡ some next
  pub represents : Represents next ns
  pub time : next.time ≡ ct

module _ (s : Timer) (ns : List TimerNode) (r : Represents s ns) (ht : s.time < 2 ^ 32)
    (all : All (Later s.time) ns) where
  abbrev ct : ℕ
  ct = s.time + 1

  abbrev at_ct : ℕ → Timer
  at_ct t = record s { time = t }

  stay_Shifted : ct % 2 ^ 8 ≢ 0 → Shifted ct ns (some (at_ct ct))
  stay_Shifted h = record {
    next = at_ct ct;
    returns = refl;
    represents = record { lists = lists };
    time = refl;
  }
    where
      same : (k : Slot) → All (λ n. at s.time k n ≡ at ct k n) ns
      same k =
          All-mono _ _ ns
            (λ n l. rw (stays s.time n.expire ht l.waits.small l.waits.ahead l.not_due h)) all

      lists : (k : Slot) → slot (at_ct ct) k ≡ filter (at ct k) ns
      lists k = rw (slot-time s ct k, r.lists k) (filter-ext _ _ ns (same k))

  moved_Shifted :
      (i j t : ℕ)
      → ((n : TimerNode)
          → Later s.time n
          → Moves i j (block_place s.time n.expire) (block_place t n.expire))
      → Shifted t ns (some (move_list (at_ct t) i j))
  moved_Shifted i j t m =
      let moved = move_list-Represents s t i j ns r (All-mono _ _ ns m all) in
      record {
        next = move_list (at_ct t) i j;
        returns = refl;
        represents = moved.0;
        time = moved.1;
      }

  abbrev looped : Option Timer
  looped = shift_loop 4 (at_ct ct) ct 256 (ct / 2 ^ 8) 0

  cascade_shift : ct < 2 ^ 32 → Level ct → Shifted ct ns looped
  cascade_shift small (near_level a) = rw (loop_none (at_ct ct) ct a) (stay_Shifted a)
  cascade_shift small (level_0 a b) = rw (loop_0 (at_ct ct) ct a b) (
      moved_Shifted 0 _ ct
        λ n l. cascade_0 s.time n.expire ht l.waits.small l.waits.ahead l.not_due a b)
  cascade_shift small (level_1 a b) = rw (loop_1 (at_ct ct) ct a b) (
      moved_Shifted 1 _ ct λ n l.
        cascade_1 s.time n.expire ht l.waits.small l.waits.ahead l.not_due (omega arith)
          (omega arith) b)
  cascade_shift small (level_2 a b) = rw (loop_2 (at_ct ct) ct a b) (
      moved_Shifted 2 _ ct λ n l.
        cascade_2 s.time n.expire ht l.waits.small l.waits.ahead l.not_due (omega arith)
          (omega arith) b)
  cascade_shift small (level_3 a b) = rw (loop_3 (at_ct ct) ct a b) (
      moved_Shifted 3 _ ct λ n l.
        cascade_3 s.time n.expire ht l.waits.small l.waits.ahead l.not_due (omega arith)
          (omega arith) b small)

  -- One shift from the tick `s.time`, when no node is due then, ends in the next tick and keeps
  -- every node; the loop of `timer_shift` stops within its rounds.
  pub timer_shift-Shifted : Shifted (u32 ct) ns (timer_shift s)
  unfolding timer_shift
  timer_shift-Shifted = elim (Bool-cases (u32 ct == 0)) [
    | inl wrap ↦
        let last : ct ≡ 2 ^ 32 = ground arith in
        rw (wrap, ==→≡ _ _ wrap)
          (moved_Shifted 3 0 0
            λ n l. cascade_wrap s.time n.expire ht l.waits.small l.waits.ahead l.not_due last)
    | inr on ↦
        let small : ct < 2 ^ 32 = ground arith in
        let e : u32 ct ≡ ct = omega arith in
        rw (on, e) (cascade_shift small (Level-cases ct small (omega arith)))
  ]
