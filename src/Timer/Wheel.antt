-- ===== src/Timer/Wheel.antt =====
-- struct timer of src/sn_timer.cpp and the functions that read and write it.
use pskynet.Prelude.{
  ℕ, zero, suc, ◌+◌, ◌-◌, ◌*◌, ◌/◌, ◌%◌, ◌^◌, Bool, false, ◌&&◌, List, [], ◌∷◌, ◌++◌, Option, none,
  some, bit_and, bit_or, ◌==◌, if◌then◌else◌,
}
use pskynet.Message.{Message, ptype_response, handle_remote_shift}

abbrev pub time_near : ℕ
time_near = 256

abbrev pub time_near_mask : ℕ
time_near_mask = 255

abbrev pub time_level_mask : ℕ
time_level_mask = 63

abbrev pub u32 : ℕ → ℕ
u32 n = n % 2 ^ 32

pub record TimerEvent : Type 0 where
  pub handle : ℕ
  pub session : ℕ

-- A `timer_node` with the `timer_event` stored behind it; `next` is the order of the list.
pub record TimerNode : Type 0 where
  pub expire : ℕ
  pub event : TimerEvent

-- A `link_list` is the list of its nodes, head first.
pub record Timer : Type 0 where
  pub near_ : ℕ → List TimerNode
  pub t : ℕ → ℕ → List TimerNode
  pub time : ℕ
  pub current : ℕ
  pub starttime : ℕ
  pub current_point : ℕ
  pub origin_point : ℕ

-- One of the wheel's lists: `near_[k]` or `t[i][j]`.
pub data Slot : Type 0 where
  near_slot : ℕ → Slot
  level_slot : ℕ → ℕ → Slot

abbrev pub slot_eq : Slot → Slot → Bool
slot_eq (near_slot k) (near_slot l) = k == l
slot_eq (level_slot i j) (level_slot k l) = (i == k) && (j == l)
slot_eq _ _ = false

abbrev pub slot : Timer → Slot → List TimerNode
slot s (near_slot k) = s.near_ k
slot s (level_slot i j) = s.t i j

unfoldable pub set_slot : Timer → Slot → List TimerNode → Timer
set_slot s (near_slot k) ns = record s {
  near_ = λ l. if slot_eq (near_slot k) (near_slot l) then ns else s.near_ l;
}
set_slot s (level_slot i j) ns = record s {
  t = λ k l. if slot_eq (level_slot i j) (level_slot k l) then ns else s.t k l;
}

-- `link_clear`: the list is emptied and its nodes are returned.
unfoldable pub link_clear : Timer → Slot → List TimerNode × Timer
link_clear s l = (slot s l, set_slot s l [])

-- `link`: the node goes to the tail.
unfoldable pub link : Timer → Slot → TimerNode → Timer
link s l node = set_slot s l (slot s l ++ node ∷ [])

-- The `for` of `add_node` with `n` rounds left: the level whose block holds both times.
unfoldable pub find_level : ℕ → ℕ → ℕ → ℕ → ℕ → ℕ
find_level zero i mask time current_time = i
find_level (suc n) i mask time current_time =
    let next = find_level n (i + 1) (u32 (mask * 2 ^ 6)) time current_time in
    if bit_or time (mask - 1) == bit_or current_time (mask - 1) then i else next

-- The list that `add_node` picks for a node that expires at `time`.
unfoldable pub place : ℕ → ℕ → Slot
unfolding find_level
place current_time time =
    if bit_or time time_near_mask == bit_or current_time time_near_mask
    then near_slot (bit_and time time_near_mask)
    else let i = find_level 3 0 (time_near * 2 ^ 6) time current_time in
      level_slot i (bit_and (time / 2 ^ (8 + i * 6)) time_level_mask)

unfoldable pub add_node : Timer → TimerNode → Timer
add_node s node = link s (place s.time node.expire) node

-- `time` is an int, given by its bit pattern.
unfoldable pub timer_add : Timer → TimerEvent → ℕ → Timer
timer_add s event time = add_node s (record { expire = u32 (time + s.time); event = event })

unfoldable pub add_nodes : Timer → List TimerNode → Timer
add_nodes s [] = s
add_nodes s (node ∷ nodes) = add_nodes (add_node s node) nodes

unfoldable pub move_list : Timer → ℕ → ℕ → Timer
move_list s level idx =
    let (current, s') = link_clear s (level_slot level idx) in add_nodes s' current

-- The `while` of `timer_shift`; `none` means that the rounds ran out.
unfoldable pub shift_loop : ℕ → Timer → ℕ → ℕ → ℕ → ℕ → Option Timer
shift_loop zero s ct mask time i = none
shift_loop (suc n) s ct mask time i =
    let rest = shift_loop n s ct (mask * 2 ^ 6) (time / 2 ^ 6) (i + 1) in
    if bit_and ct (mask - 1) == 0
    then (if bit_and time time_level_mask == 0
        then rest
        else some (move_list s i (bit_and time time_level_mask)))
    else some s

-- Four rounds reach the top level, so `mask` stays below 2 ^ 32 in every test that is made.
unfoldable pub timer_shift : Timer → Option Timer
timer_shift s =
    let ct = u32 (s.time + 1) in
    let s' : Timer = record s { time = ct } in
    if ct == 0 then some (move_list s' 3 0) else shift_loop 4 s' ct time_near (ct / 2 ^ 8) 0

-- A call of `skynet_context_push`: the receiver and the message.
pub record Push : Type 0 where
  pub handle : ℕ
  pub message : Message

abbrev pub response : TimerEvent → Push
response e = record {
  handle = e.handle;
  message = record {
    source = 0;
    session = e.session;
    data_ptr = none;
    sz = ptype_response * 2 ^ handle_remote_shift;
  };
}

unfoldable pub dispatch_list : List TimerNode → List Push
dispatch_list [] = []
dispatch_list (n ∷ ns) = response n.event ∷ dispatch_list ns

-- The `while` of `timer_execute`, with what has been dispatched so far.
unfoldable pub execute_loop : ℕ → ℕ → Timer → List Push → Option (Timer × List Push)
execute_loop zero idx s out = none
execute_loop (suc n) idx s out = elim (s.near_ idx) [
  | [] ↦ some (s, out)
  | x ∷ xs ↦ execute_loop n idx (link_clear s (near_slot idx)).1 (out ++ dispatch_list (x ∷ xs))
]

-- No other thread adds a node for the current tick, so two rounds are enough.
unfoldable pub timer_execute : Timer → Option (Timer × List Push)
timer_execute s = execute_loop 2 (bit_and s.time time_near_mask) s []
