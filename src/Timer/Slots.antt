-- ===== src/Timer/Slots.antt =====
-- What each list of the wheel holds after a node is linked, and when a list is moved.
use pskynet.Prelude.{
  ℕ, ◌≡◌, refl, sym, ap, ap₂, ◌∙◌, ◌≢◌, inl, inr, Bool, true, false, arith, ◌&&◌, List, [], ◌∷◌,
  ◌++◌, append-nil, append_assoc, if◌then◌else◌, Bool-cases,
}
use pskynet.Prelude.Filter.{
  All, All-mono, filter, filter-append, filter-ext, filter-none, filter-filter,
}
use pskynet.Timer.Wheel.{
  Slot, near_slot, level_slot, slot_eq, slot, Timer, TimerNode, set_slot, link, link_clear,
  add_node, add_nodes, move_list,
}
use pskynet.Timer.Place.{block_place, place-block_place}
use pskynet.Timer.Tick.{Moves, lower}

pub slot_eq→≡ : (k l : Slot) → slot_eq k l ≡ true → k ≡ l
slot_eq→≡ (near_slot a) (near_slot b) h = ground arith
slot_eq→≡ (near_slot a) (level_slot c d) h = cc
slot_eq→≡ (level_slot a b) (near_slot c) h = cc
slot_eq→≡ (level_slot a b) (level_slot c d) h = ground arith

pub slot_eq_refl : (k : Slot) → slot_eq k k ≡ true
slot_eq_refl (near_slot a) = ground arith
slot_eq_refl (level_slot a b) = ground arith

pub slot-set_slot :
    (s : Timer) (l k : Slot) (ns : List TimerNode)
    → slot (set_slot s l ns) k ≡ (if slot_eq l k then ns else slot s k)
unfolding set_slot
slot-set_slot s (near_slot a) (near_slot b) ns = refl
slot-set_slot s (near_slot a) (level_slot b c) ns = refl
slot-set_slot s (level_slot a b) (near_slot c) ns = refl
slot-set_slot s (level_slot a b) (level_slot c d) ns = refl

pub time-set_slot : (s : Timer) (l : Slot) (ns : List TimerNode) → (set_slot s l ns).time ≡ s.time
unfolding set_slot
time-set_slot s (near_slot a) ns = refl
time-set_slot s (level_slot a b) ns = refl

-- The test by which a list picks its nodes at the time `t`.
abbrev pub at : ℕ → Slot → TimerNode → Bool
at t k n = slot_eq (block_place t n.expire) k

pub slot-add_node :
    (s : Timer) (n : TimerNode) (k : Slot)
    → slot (add_node s n) k ≡ slot s k ++ filter (at s.time k) (n ∷ [])
unfolding add_node link filter
slot-add_node s n k =
    rw (place-block_place s.time n.expire, slot-set_slot)
      (elim (Bool-cases (at s.time k n)) [
        | inl here ↦ rw (here, slot_eq→≡ _ k here)
        | inr other ↦ rw (other, append-nil)
      ])

pub time-add_node : (s : Timer) (n : TimerNode) → (add_node s n).time ≡ s.time
unfolding add_node link
time-add_node s n = time-set_slot s _ _

pub time-add_nodes : (s : Timer) (ns : List TimerNode) → (add_nodes s ns).time ≡ s.time
unfolding add_nodes
time-add_nodes s [] = refl
time-add_nodes s (n ∷ ns) = time-add_nodes (add_node s n) ns ∙ time-add_node s n

pub slot-add_nodes :
    (s : Timer) (ns : List TimerNode) (k : Slot)
    → slot (add_nodes s ns) k ≡ slot s k ++ filter (at s.time k) ns
unfolding add_nodes
slot-add_nodes s [] k = unfold filter in sym (append-nil (slot s k))
slot-add_nodes s (n ∷ ns) k =
    rw (slot-add_nodes (add_node s n) ns k, time-add_node s n, slot-add_node s n k, append_assoc)
      (ap (◌++◌ (slot s k)) (sym (filter-append (at s.time k) (n ∷ []) ns)))

slot_eq_apart : (i : ℕ) (a b : Slot) → lower i a ≢ lower i b → slot_eq a b ≡ false
slot_eq_apart i a b h = elim (Bool-cases (slot_eq a b)) [
  | inl e ↦ absurd (h (ap (lower i) (slot_eq→≡ a b e)))
  | inr e ↦ e
]

lower_self : (i j : ℕ) → lower i (level_slot i j) ≡ false
lower_self i j = ground arith

module _ (i j : ℕ) (k p q : Slot) (m : Moves i j p q) where
  -- Into the moved list itself nothing goes back.
  moved_self :
      slot_eq (level_slot i j) k ≡ true → (slot_eq p (level_slot i j) && slot_eq q k) ≡ slot_eq q k
  moved_self h = elim (Bool-cases (slot_eq p (level_slot i j))) [
    | inl from ↦ rw from
    | inr other ↦
        let e : level_slot i j ≡ k = slot_eq→≡ (level_slot i j) k h in rw (m.kept other, ← e, other)
  ]

  -- A list below the moved one was empty, and gets all its nodes from it.
  moved_lower :
      lower i k ≡ true
      → (slot_eq p k ≡ false) × ((slot_eq p (level_slot i j) && slot_eq q k) ≡ slot_eq q k)
  moved_lower h =
      let apart : slot_eq p k ≡ false = slot_eq_apart i p k (λ e. cc (m.clear)) in
      (
        apart,
        elim (Bool-cases (slot_eq p (level_slot i j))) [
          | inl from ↦ rw from
          | inr other ↦ rw (other, m.kept other, apart)
        ],
      )

  -- Any other list gets nothing and keeps its nodes.
  moved_upper :
      lower i k ≡ false
      → slot_eq (level_slot i j) k ≡ false
      → ((slot_eq p (level_slot i j) && slot_eq q k) ≡ false) × (slot_eq p k ≡ slot_eq q k)
  moved_upper h o = elim (Bool-cases (slot_eq p (level_slot i j))) [
    | inl from ↦
        let gone : slot_eq q k ≡ false = slot_eq_apart i q k (λ e. cc (m.down from)) in
        let left : slot_eq p k ≡ false = rw (slot_eq→≡ p (level_slot i j) from) o in
        (rw (from, gone), rw (gone, left))
    | inr other ↦ (rw other, rw (m.kept other))
  ]

-- The wheel holds the nodes `ns`, oldest first: each list has those that `add_node` puts there at
-- the time of the wheel, in that order.
pub record Represents (s : Timer) (ns : List TimerNode) : Type 0 where
  pub lists : (k : Slot) → slot s k ≡ filter (at s.time k) ns

pub add_node-Represents :
    {s : Timer} {ns : List TimerNode} (n : TimerNode)
    → Represents s ns
    → Represents (add_node s n) (ns ++ n ∷ [])
add_node-Represents {s} {ns} n r = record {
  lists = λ k. rw (time-add_node s n, slot-add_node s n k, r.lists k, filter-append);
}

abbrev Moving : ℕ → ℕ → ℕ → ℕ → TimerNode → Type 0
Moving i j t ct n = Moves i j (block_place t n.expire) (block_place ct n.expire)

module _ (i j t ct : ℕ) (k : Slot) (ns : List TimerNode) (all : All (Moving i j t ct) ns) where
  moved_list :
      (if slot_eq (level_slot i j) k then [] else filter (at t k) ns)
        ++ filter (at ct k) (filter (at t (level_slot i j)) ns)
      ≡ filter (at ct k) ns
  moved_list = rw filter-filter (elim (Bool-cases (slot_eq (level_slot i j) k)) [
    | inl self ↦
        rw self (filter-ext _ _ ns (All-mono _ _ ns (λ n m. moved_self i j k _ _ m self) all))
    | inr other ↦ rw other (elim (Bool-cases (lower i k)) [
      | inl low ↦
          rw
            (filter-none (at t k) ns (All-mono _ _ ns (λ n m. (moved_lower i j k _ _ m low).0) all))
            (filter-ext _ _ ns (All-mono _ _ ns (λ n m. (moved_lower i j k _ _ m low).1) all))
      | inr up ↦
          rw
            (
              filter-none _ ns (All-mono _ _ ns (λ n m. (moved_upper i j k _ _ m up other).0) all),
              append-nil,
            )
            (filter-ext _ _ ns (All-mono _ _ ns (λ n m. (moved_upper i j k _ _ m up other).1) all))
    ])
  ])

refill : (s : Timer) (l : Slot) (ms : List TimerNode) → Timer
refill s l ms = add_nodes (set_slot s l []) ms

time-refill : (s : Timer) (l : Slot) (ms : List TimerNode) → (refill s l ms).time ≡ s.time
unfolding refill
time-refill s l ms = time-add_nodes (set_slot s l []) ms ∙ time-set_slot s l []

slot-refill :
    (s : Timer) (l k : Slot) (ms : List TimerNode)
    → slot (refill s l ms) k ≡ (if slot_eq l k then [] else slot s k) ++ filter (at s.time k) ms
unfolding refill
slot-refill s l k ms =
    slot-add_nodes (set_slot s l []) ms k
    ∙ ap₂ (λ (xs : List TimerNode) t. xs ++ filter (at t k) ms) (slot-set_slot s l k [])
        (time-set_slot s l [])

pub slot-time : (s : Timer) (ct : ℕ) (k : Slot) → slot (record s { time = ct }) k ≡ slot s k
slot-time s ct (near_slot a) = refl
slot-time s ct (level_slot a b) = refl

module _ (s : Timer) (ct i j : ℕ) (ns : List TimerNode) (r : Represents s ns)
    (all : All (Moving i j s.time ct) ns) where
  abbrev refilled : Timer
  refilled = refill (record s { time = ct }) (level_slot i j) (slot s (level_slot i j))

  refilled-lists : (k : Slot) → slot refilled k ≡ filter (at refilled.time k) ns
  refilled-lists k =
      slot-refill (record s { time = ct }) (level_slot i j) k (slot s (level_slot i j))
      ∙ rw
          (
            slot-time s ct k,
            r.lists k,
            r.lists (level_slot i j),
            time-refill (record s { time = ct }) (level_slot i j),
          )
          (moved_list i j s.time ct k ns all)

  -- `move_list` at the new time `ct` keeps the nodes.
  pub move_list-Represents :
      Represents (move_list (record s { time = ct }) i j) ns
      × ((move_list (record s { time = ct }) i j).time ≡ ct)
  unfolding move_list link_clear refill
  move_list-Represents = (
    record { lists = refilled-lists },
    time-refill (record s { time = ct }) (level_slot i j) (slot s (level_slot i j)),
  )
