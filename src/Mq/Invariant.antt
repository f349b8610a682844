-- ===== src/Mq/Invariant.antt =====
-- Who has a queue, in every reachable state.
use pskynet.Prelude.{
  ℕ, suc, ◌+◌, ◌≤◌, ◌≡◌, refl, ap, ◌≢◌, Bool, true, false, not, List, [], ◌∷◌, ◌++◌, arith, ◌==◌,
  if◌then◌else◌, length, Bool-cases, inl, inr,
}
use pskynet.Message.{Message}
use pskynet.Mq.{MessageQueue, create, push, leave_global, force_in_global}
use pskynet.Mq.Overload.{raise-SameContent, pop-nil, pop-cons}
use pskynet.Mq.System.{
  System, Action, send, force, take, dispatch, give_back, member, remove_one, push_global,
  pop_global, send_to, force_on, taken, take_from, dispatch_one, give, step, run, start,
}

abbrev pub count : ℕ → List ℕ → ℕ
count q [] = 0
count q (r ∷ rs) = if r == q then suc (count q rs) else count q rs

abbrev pub bit : Bool → ℕ
bit true = 1
bit false = 0

-- Each queue is at one place when its flag is set, in the global queue or with one thread, and
-- nowhere when it is not set; then it is empty.
pub record IsOwned (s : System) : Type 0 where
  pub once : (q : ℕ) → count q s.global + count q s.held ≡ bit (s.queues q).in_global
  pub idle_empty : (q : ℕ) → (s.queues q).in_global ≡ false → (s.queues q).messages ≡ []

count-append : (q : ℕ) (xs ys : List ℕ) → count q (xs ++ ys) ≡ count q xs + count q ys
count-append q [] ys = omega arith
count-append q (x ∷ xs) ys = ground (arith, count-append q xs ys)

count-push_global :
    (q r : ℕ) (b : Bool) (g : List ℕ)
    → count q (push_global r b g) ≡ count q g + (if r == q then bit b else 0)
unfolding push_global
count-push_global q r true g = ground (arith, count-append q g (r ∷ []))
count-push_global q r false g = ground arith

count-remove_one_self :
    (q : ℕ) (xs : List ℕ) → member q xs ≡ true → suc (count q (remove_one q xs)) ≡ count q xs
count-remove_one_self q [] h = cc
count-remove_one_self q (x ∷ xs) h = ground (arith, count-remove_one_self q xs)

count-remove_one_ne :
    (q r : ℕ) (xs : List ℕ) → (r == q) ≡ false → count q (remove_one r xs) ≡ count q xs
count-remove_one_ne q r [] h = refl
count-remove_one_ne q r (x ∷ xs) h = ground (arith, count-remove_one_ne q r xs h)

send-IsOwned : (s : System) (q : ℕ) (m : Message) → IsOwned s → IsOwned (send_to s q m)
unfolding send_to push
send-IsOwned s q m o = record {
  once = λ r. ground (arith, o.once r, count-push_global r q (not (s.queues q).in_global) s.global);
  idle_empty = λ r. ground (arith, o.idle_empty r);
}

force-IsOwned : (s : System) (q : ℕ) → IsOwned s → IsOwned (force_on s q)
unfolding force_on force_in_global
force-IsOwned s q o = record {
  once = λ r. ground (arith, o.once r, count-push_global r q (not (s.queues q).in_global) s.global);
  idle_empty = λ r. ground (arith, o.idle_empty r);
}

taken-IsOwned :
    (s : System) (g : List ℕ) → s.global ≡ g → IsOwned s → IsOwned (taken s (pop_global g))
unfolding taken pop_global
taken-IsOwned s [] e o = o
taken-IsOwned s (x ∷ xs) e o = record {
  once = λ r. ground (arith, o.once r, ap (count r) e);
  idle_empty = o.idle_empty;
}

take-IsOwned : (s : System) → IsOwned s → IsOwned (take_from s)
unfolding take_from
take-IsOwned s o = taken-IsOwned s s.global refl o

give-IsOwned : (s : System) (q : ℕ) → member q s.held ≡ true → IsOwned s → IsOwned (give s q)
unfolding give
give-IsOwned s q h o = record {
  once = λ r. ground (
    arith,
    o.once r,
    count-push_global r q true s.global,
    count-remove_one_self q s.held h,
    count-remove_one_ne r q s.held,
  );
  idle_empty = o.idle_empty;
}

-- A queue that a thread has carries its flag.
held_flag :
    (s : System) (q : ℕ) → member q s.held ≡ true → IsOwned s → (s.queues q).in_global ≡ true
held_flag s q h o = ground (arith, o.once q, count-remove_one_self q s.held h)

dispatch_cases :
    (s : System) (q : ℕ) (ms : List Message)
    → (s.queues q).messages ≡ ms
    → member q s.held ≡ true
    → IsOwned s
    → IsOwned (dispatch_one s q).1
unfolding dispatch_one leave_global
dispatch_cases s q [] e h o =
    rw (pop-nil true (s.queues q) e, dispatch_one)
      (rw (pop-nil true (s.queues q) e) (record {
        once = λ r. ground (
          arith,
          o.once r,
          held_flag s q h o,
          count-remove_one_self q s.held h,
          count-remove_one_ne r q s.held,
        );
        idle_empty = λ r. ground (arith, o.idle_empty r, e);
      }))
dispatch_cases s q (m ∷ ms) e h o =
    let less : MessageQueue = record (s.queues q) { messages = ms } in
    let same = raise-SameContent (length ms) (length ms) less in
    rw (pop-cons true (s.queues q) m ms e, dispatch_one)
      (rw (pop-cons true (s.queues q) m ms e) (record {
        once = λ r. ground (arith, o.once r, same.in_global);
        idle_empty = λ r. ground (arith, o.idle_empty r, same.in_global, held_flag s q h o);
      }))

dispatch-IsOwned :
    (s : System) (q : ℕ) → member q s.held ≡ true → IsOwned s → IsOwned (dispatch_one s q).1
dispatch-IsOwned s q h o = dispatch_cases s q (s.queues q).messages refl h o

-- Every locked section keeps the queues owned.
pub step-IsOwned : (s : System) (a : Action) → IsOwned s → IsOwned (step s a)
unfolding step
step-IsOwned s (send q m) o = send-IsOwned s q m o
step-IsOwned s (force q) o = force-IsOwned s q o
step-IsOwned s take o = take-IsOwned s o
step-IsOwned s (dispatch q) o = elim (Bool-cases (member q s.held)) [
  | inl h ↦ rw h (dispatch-IsOwned s q h o)
  | inr h ↦ rw h o
]
step-IsOwned s (give_back q) o = elim (Bool-cases (member q s.held)) [
  | inl h ↦ rw h (give-IsOwned s q h o)
  | inr h ↦ rw h o
]

pub run-IsOwned : (s : System) (acts : List Action) → IsOwned s → IsOwned (run s acts)
unfolding run
run-IsOwned s [] o = o
run-IsOwned s (a ∷ acts) o = run-IsOwned (step s a) acts (step-IsOwned s a o)

-- As long as no queue is released or deleted: from a state where the queues are owned, in whatever
-- order the sections of Push, of ForceInGlobal, and of workers that take a queue, pop from it and put
-- it back come, no queue is with two threads, or with a thread and in the global queue, or twice in
-- the global queue; and a queue with messages is with a thread or in the global queue.
pub run_exclusive :
    (s : System) (acts : List Action) (q : ℕ)
    → IsOwned s
    → let r = run s acts in
      (count q r.global + count q r.held ≤ 1)
      × ((r.queues q).messages ≢ [] → count q r.global + count q r.held ≡ 1)
run_exclusive s acts q o =
    let kept = run-IsOwned s acts o in
    (ground (arith, kept.once q), λ ne. ground (arith, kept.once q, kept.idle_empty q, ne))

member-count : (q : ℕ) (xs : List ℕ) → count q xs ≤ 1 → count q xs ≡ bit (member q xs)
member-count q [] h = refl
member-count q (x ∷ xs) h = ground (arith, member-count q xs)

-- Right after their creation the queues of new services are owned.
pub start-IsOwned : (held : List ℕ) → ((q : ℕ) → count q held ≤ 1) → IsOwned (start held)
unfolding start create
start-IsOwned held distinct = record {
  once = λ q. ground (arith, member-count q held, distinct q);
  idle_empty = λ q. ground arith;
}
