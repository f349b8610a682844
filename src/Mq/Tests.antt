-- ===== src/Mq/Tests.antt =====
-- Runs of the queues, and their theorems at concrete schedules.
use pskynet.Prelude.{ℕ, ◌+◌, ◌≤◌, ◌≡◌, refl, ◌≢◌, true, List, [], ◌∷◌, ◌++◌, none, arith}
use pskynet.Message.{Message}
use pskynet.Mq.{MessageQueue, create, push, pop, pop_from, raise, leave_global, release}
use pskynet.Mq.Overload.{Popped, Dropped, pop-Popped, release-Dropped}
use pskynet.Mq.System.{
  Action, send, take, dispatch, give_back, start, run, step, send_to, take_from, dispatch_one, give,
  push_global, pop_global,
}
use pskynet.Mq.Invariant.{count, start-IsOwned, run_exclusive}
use pskynet.Mq.Fifo.{sent, popped, run_fifo}

abbrev hello : Message
hello = record { source = 1; session = 1; data_ptr = none; sz = 0 }

abbrev bye : Message
bye = record { source = 1; session = 2; data_ptr = none; sz = 0 }

-- The service 3 is launched, gets two messages and is served by one worker.
abbrev schedule : List Action
schedule =
    send 3 hello
    ∷ give_back 3
    ∷ take
    ∷ dispatch 3
    ∷ send 3 bye
    ∷ dispatch 3
    ∷ dispatch 3
    ∷ take
    ∷ []

abbrev two_queued : MessageQueue
two_queued = record (create 3) { messages = hello ∷ bye ∷ [] }

served : (run (start (3 ∷ [])) schedule).global ≡ []
unfolding run step start create send_to take_from dispatch_one give push pop pop_from raise
    leave_global push_global pop_global
served = refl

distinct : (q : ℕ) → count q (3 ∷ []) ≤ 1
distinct q = ground arith

run_exclusive_example :
    let r = run (start (3 ∷ [])) schedule in
    (count 3 r.global + count 3 r.held ≤ 1)
    × ((r.queues 3).messages ≢ [] → count 3 r.global + count 3 r.held ≡ 1)
run_exclusive_example = run_exclusive (start (3 ∷ [])) schedule 3 (start-IsOwned (3 ∷ []) distinct)

run_fifo_example :
    ((start (3 ∷ [])).queues 3).messages ++ sent 3 schedule
    ≡ popped 3 (start (3 ∷ [])) schedule ++ ((run (start (3 ∷ [])) schedule).queues 3).messages
run_fifo_example = run_fifo 3 (start (3 ∷ [])) schedule

pop-Popped_example : Popped two_queued hello (bye ∷ []) (pop true two_queued)
unfolding create
pop-Popped_example = pop-Popped true two_queued hello (bye ∷ []) (omega arith) refl

release-Dropped_example : Dropped two_queued (release two_queued)
unfolding create
release-Dropped_example = release-Dropped two_queued (omega arith)
