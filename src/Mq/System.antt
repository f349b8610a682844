-- ===== src/Mq/System.antt =====
-- The queues of all services, the global queue, and the threads that work on them, one locked
-- section at a time: src/sn_mq.cpp and the calls of it in src/sn_server.cpp. A queue that is named
-- here is not given up: the sections in which `Release` empties the queue of a service that has gone,
-- or that did not start, and the deletion of the queue are no actions.
use pskynet.Prelude.{
  ℕ, Bool, true, false, List, [], ◌∷◌, ◌++◌, Option, none, some, ◌==◌, if◌then◌else◌,
}
use pskynet.Message.{Message}
use pskynet.Mq.{MessageQueue, create, push, pop, force_in_global}

-- A queue is named by its address. `held` has the queues that some thread has taken from the
-- global queue, or has created, and has not put back.
pub record System : Type 0 where
  pub queues : ℕ → MessageQueue
  pub global : List ℕ
  pub held : List ℕ

abbrev pub update : (ℕ → MessageQueue) → ℕ → MessageQueue → ℕ → MessageQueue
update f q a r = if q == r then a else f r

abbrev pub member : ℕ → List ℕ → Bool
member q [] = false
member q (r ∷ rs) = if r == q then true else member q rs

abbrev pub remove_one : ℕ → List ℕ → List ℕ
remove_one q [] = []
remove_one q (r ∷ rs) = if r == q then rs else r ∷ remove_one q rs

-- `SNMessageQueueMgr::Push`, with the queue that a member of `SNMessageQueue` asks it for.
unfoldable pub push_global : ℕ → Bool → List ℕ → List ℕ
push_global q false global = global
push_global q true global = global ++ q ∷ []

-- `SNMessageQueueMgr::Pop`
unfoldable pub pop_global : List ℕ → Option ℕ × List ℕ
pop_global [] = (none, [])
pop_global (q ∷ qs) = (some q, qs)

-- What a thread does in one locked section, on a queue that is not being released.
pub data Action : Type 0 where
  send : ℕ → Message → Action  -- `SNMessageQueue::Push`
  force : ℕ → Action  -- `ForceInGlobal`
  take : Action  -- a worker takes a queue from the global queue
  dispatch : ℕ → Action  -- the worker that has the queue pops one message from it
  give_back : ℕ → Action  -- the thread that has the queue puts it into the global queue

unfoldable pub send_to : System → ℕ → Message → System
send_to s q m =
    let (a, enqueue) = push m (s.queues q) in
    record s { queues = update s.queues q a; global = push_global q enqueue s.global }

unfoldable pub force_on : System → ℕ → System
force_on s q =
    let (a, enqueue) = force_in_global (s.queues q) in
    record s { queues = update s.queues q a; global = push_global q enqueue s.global }

unfoldable pub taken : System → Option ℕ × List ℕ → System
taken s (none, rest) = s
taken s (some q, rest) = record s { global = rest; held = q ∷ s.held }

unfoldable pub take_from : System → System
unfolding taken
take_from s = taken s (pop_global s.global)

-- An empty queue is let go.
unfoldable pub dispatch_one : System → ℕ → Option Message × System
dispatch_one s q =
    let (m, a) = pop true (s.queues q) in
    let popped : System = record s { queues = update s.queues q a } in
    elim m [
      | none ↦ (none, record popped { held = remove_one q s.held })
      | some b ↦ (some b, popped)
    ]

unfoldable pub give : System → ℕ → System
give s q = record s { global = push_global q true s.global; held = remove_one q s.held }

-- An action on a queue that no thread has is not taken.
unfoldable pub step : System → Action → System
step s (send q m) = send_to s q m
step s (force q) = force_on s q
step s take = take_from s
step s (dispatch q) = if member q s.held then (dispatch_one s q).1 else s
step s (give_back q) = if member q s.held then give s q else s

unfoldable pub run : System → List Action → System
run s [] = s
run s (a ∷ acts) = run (step s a) acts

-- The services `held` have just been created, each by a thread that has not put its queue into
-- the global queue yet. An address where no queue has been created is like an idle queue.
unfoldable pub start : List ℕ → System
start held = record {
  queues = λ q. if member q held then create q else record (create q) { in_global = false };
  global = [];
  held = held;
}
