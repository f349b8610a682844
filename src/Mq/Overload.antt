-- ===== src/Mq/Overload.antt =====
-- `Pop`, `Overload` and `Release` of src/sn_mq.cpp on one queue.
use pskynet.Prelude.{
  ℕ, zero, suc, ◌+◌, ◌*◌, ◌≤◌, ◌<◌, ◌≡◌, refl, sym, ◌∙◌, Bool, Bool-cases, inl, inr, false, List,
  [], ◌∷◌, Option, none, some, arith, ltb, if◌then◌else◌, length,
}
use pskynet.Message.{Message}
use pskynet.Mq.{MessageQueue, raise, pop, pop_from, leave_global, drop_queue, release}

-- The fields that the loop of `Pop` leaves alone.
pub record SameContent (q r : MessageQueue) : Type 0 where
  pub in_global : r.in_global ≡ q.in_global
  pub messages : r.messages ≡ q.messages
  pub handle : r.handle ≡ q.handle

pub raise-SameContent : (fuel len : ℕ) (q : MessageQueue) → SameContent q (raise fuel len q)
unfolding raise
raise-SameContent zero len q = elim (Bool-cases (ltb q.threshold len)) [
  | inl t ↦ rw (t, raise) (record { in_global = refl; messages = refl; handle = refl })
  | inr f ↦ rw (f, raise) (record { in_global = refl; messages = refl; handle = refl })
]
raise-SameContent (suc fuel) len q =
    ground
      (arith, raise-SameContent fuel len (record q { overload = len; threshold = q.threshold * 2 }))

-- The loop ends with a threshold that the length does not pass, and notes the length as a peak
-- exactly when it passed the old threshold.
pub record Raised (len : ℕ) (q r : MessageQueue) : Type 0 where
  pub enough : len ≤ r.threshold
  pub grows : q.threshold ≤ r.threshold
  pub peak : r.overload ≡ (if ltb q.threshold len then len else q.overload)
  pub ends : r.endless ≡ q.endless

pub raise-Raised :
    (fuel len : ℕ) (q : MessageQueue)
    → 0 < q.threshold
    → len ≤ fuel + q.threshold
    → Raised len q (raise fuel len q)
unfolding raise
raise-Raised zero len q pos h =
    let low : ltb q.threshold len ≡ false = ground arith in
    rw (low, raise)
      (record { enough = omega arith; grows = omega arith; peak = rw low refl; ends = refl })
raise-Raised (suc fuel) len q pos h =
    ground (arith, raise-Raised fuel len (record q { overload = len; threshold = q.threshold * 2 }))

pub record Popped (q : MessageQueue) (m : Message) (ms : List Message)
    (r : Option Message × MessageQueue) : Type 0 where
  pub message : r.0 ≡ some m
  pub rest : r.1.messages ≡ ms
  pub same : r.1.in_global ≡ q.in_global
  pub raised : Raised (length ms) q r.1

-- With a threshold above 0, `Pop` of a queue that has messages takes the oldest one and leaves the
-- flag and the others; afterwards the threshold is at least the length that is left and no lower
-- than before, and that length is noted as a peak exactly when it is above the old threshold. The
-- loop of `Pop` ends.
pub pop-Popped :
    (remove_global : Bool) (q : MessageQueue) (m : Message) (ms : List Message)
    → 0 < q.threshold
    → q.messages ≡ m ∷ ms
    → Popped q m ms (pop remove_global q)
unfolding pop pop_from
pop-Popped remove_global q m ms pos e =
    let less : MessageQueue = record q { messages = ms } in
    let same = raise-SameContent (length ms) (length ms) less in
    let up = raise-Raised (length ms) (length ms) less pos (omega arith) in
    rw (e, pop_from)
      (record {
        message = refl;
        rest = same.messages;
        same = same.in_global;
        raised = record { enough = up.enough; grows = up.grows; peak = up.peak; ends = up.ends };
      })

-- What `Release` leaves: every message was handed to the drop function, oldest first.
pub record Dropped (q : MessageQueue) (r : List Message × MessageQueue) : Type 0 where
  pub all : r.0 ≡ q.messages
  pub empty : r.1.messages ≡ []
  pub same : r.1.in_global ≡ q.in_global
  pub ends : r.1.endless ≡ q.endless

pub pop-nil : (b : Bool) (q : MessageQueue) → q.messages ≡ [] → pop b q ≡ (none, leave_global b q)
unfolding pop pop_from
pop-nil b q e = rw (e, pop_from)

pub pop-cons :
    (b : Bool) (q : MessageQueue) (m : Message) (ms : List Message)
    → q.messages ≡ m ∷ ms
    → pop b q ≡ (some m, raise (length ms) (length ms) (record q { messages = ms }))
unfolding pop pop_from
pop-cons b q m ms e = rw (e, pop_from)

drop_queue-Dropped :
    (fuel : ℕ) (q : MessageQueue) (ms : List Message)
    → 0 < q.threshold
    → q.messages ≡ ms
    → length ms < fuel
    → Dropped q (drop_queue fuel q)
unfolding drop_queue leave_global
drop_queue-Dropped zero q ms pos e h = absurd (omega arith)
drop_queue-Dropped (suc fuel) q [] pos e h =
    rw (pop-nil false q e, drop_queue)
      (rw (pop-nil false q e) (record { all = sym e; empty = e; same = ground arith; ends = refl }))
drop_queue-Dropped (suc fuel) q (m ∷ ms) pos e h =
    let less : MessageQueue = record q { messages = ms } in
    let same = raise-SameContent (length ms) (length ms) less in
    let up = raise-Raised (length ms) (length ms) less pos (omega arith) in
    let rest =
      drop_queue-Dropped fuel (raise (length ms) (length ms) less) ms (omega (arith, pos, up.grows))
        same.messages (omega arith) in
    rw (pop-cons false q m ms e, drop_queue)
      (rw (pop-cons false q m ms e) (record {
        all = rw (rest.all, same.messages) (sym e);
        empty = rest.empty;
        same = rest.same ∙ same.in_global;
        ends = rest.ends ∙ up.ends;
      }))

-- With a threshold above 0, `Release` drops every message, oldest first, and stops: it does not stay
-- in the loop of any of its calls of `Pop`.
pub release-Dropped : (q : MessageQueue) → 0 < q.threshold → Dropped q (release q)
unfolding release
release-Dropped q pos =
    drop_queue-Dropped (length q.messages + 1) q q.messages pos refl (omega arith)

drop_queue-nil :
    (fuel : ℕ) (q : MessageQueue) → 0 < fuel → q.messages ≡ [] → (drop_queue fuel q).0 ≡ []
unfolding drop_queue
drop_queue-nil zero q h e = absurd (omega arith)
drop_queue-nil (suc fuel) q h e = rw (pop-nil false q e, drop_queue) refl

pub release-nil : (q : MessageQueue) → q.messages ≡ [] → (release q).0 ≡ []
unfolding release
release-nil q e = drop_queue-nil (length q.messages + 1) q (omega arith) e
