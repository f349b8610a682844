-- ===== src/Mq.antt =====
-- src/sn_mq.cpp: the message queue of a service, and the global queue of services that have work.
pub mod Overload
pub mod System
pub mod Invariant
pub mod Fifo
mod Tests
use pskynet.Prelude.{
  ℕ, zero, suc, ◌+◌, ◌*◌, Bool, true, false, not, ◌&&◌, List, [], ◌∷◌, ◌++◌, Option, none, some,
  ◌==◌, ltb, if◌then◌else◌, length,
}
use pskynet.Message.{Message}

-- MQ_OVERLOAD
abbrev pub mq_overload : ℕ
mq_overload = 1024

-- `threshold` and `overload` are ints: they stay so while the queue has at most 2^30 messages.
-- `endless` says that a `Pop` has not come out of its loop within the rounds that it was given.
pub record MessageQueue : Type 0 where
  pub in_global : Bool
  pub overload : ℕ
  pub threshold : ℕ
  pub messages : List Message
  pub handle : ℕ
  pub endless : Bool

unfoldable pub create : ℕ → MessageQueue
create handle = record {
  in_global = true;
  overload = 0;
  threshold = mq_overload;
  messages = [];
  handle = handle;
  endless = false;
}

-- The `while` of `Pop` with `fuel` rounds left.
unfoldable pub raise : ℕ → ℕ → MessageQueue → MessageQueue
raise zero len q = if ltb q.threshold len then record q { endless = true } else q
raise (suc fuel) len q =
    let again = raise fuel len (record q { overload = len; threshold = q.threshold * 2 }) in
    if ltb q.threshold len then again else q

unfoldable pub leave_global : Bool → MessageQueue → MessageQueue
leave_global remove_global q = record q {
  in_global = q.in_global && not remove_global;
  threshold = mq_overload;
}

-- The message is `none` where `Pop` returns 1.
unfoldable pub pop_from : List Message → Bool → MessageQueue → Option Message × MessageQueue
pop_from [] remove_global q = (none, leave_global remove_global q)
pop_from (m ∷ ms) remove_global q =
    (some m, raise (length ms) (length ms) (record q { messages = ms }))

unfoldable pub pop : Bool → MessageQueue → Option Message × MessageQueue
pop remove_global q = pop_from q.messages remove_global q

-- Each of the next two also says whether it puts the queue into the global queue.
unfoldable pub push : Message → MessageQueue → MessageQueue × Bool
push m q = (record q { messages = q.messages ++ m ∷ []; in_global = true }, not q.in_global)

unfoldable pub force_in_global : MessageQueue → MessageQueue × Bool
force_in_global q = (record q { in_global = true }, not q.in_global)

unfoldable pub queue_length : MessageQueue → ℕ
queue_length q = length q.messages

-- `Overload` reports a peak once.
unfoldable pub take_overload : MessageQueue → ℕ × MessageQueue
take_overload q = (q.overload, record q { overload = 0 })

-- `_drop_queue`: the messages handed to the drop function, in order, with `fuel` rounds left.
unfoldable pub drop_queue : ℕ → MessageQueue → List Message × MessageQueue
drop_queue zero q = ([], q)
drop_queue (suc fuel) q =
    let (m, q') = pop false q in
    elim m [ none ↦ ([], q') | some a ↦ let (rest, last) = drop_queue fuel q' in (a ∷ rest, last) ]

-- `Release`
unfoldable pub release : MessageQueue → List Message × MessageQueue
release q = drop_queue (length q.messages + 1) q
