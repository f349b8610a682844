-- ===== src/Server/Dispatch.antt =====
-- src/sn_server.cpp: a worker takes a queue and calls its service with messages from it.
pub mod Rounds
use pskynet.Prelude.{
  ℕ, zero, suc, ◌+◌, ◌-◌, ◌/◌, ◌^◌, Bool, true, false, not, List, [], ◌∷◌, ◌++◌, map, Option, none,
  some, ◌>>=◌, ◌==◌, if◌then◌else◌,
}
use pskynet.Message.{Message}
use pskynet.Handle.{find_context}
use pskynet.Mq.{MessageQueue, take_overload, queue_length, release}
use pskynet.Mq.System.{System, update, dispatch_one, taken, pop_global, give, remove_one}
use pskynet.Monitor.{Monitor, trigger}
use pskynet.Server.{Context, Server, ptype_error, type_of, size_of, free, send}

-- A call of a service's callback, by its arguments; `ctx` stands for the context and its `ud`.
pub record Call : Type 0 where
  pub ctx : ℕ
  pub type : ℕ
  pub session : ℕ
  pub source : ℕ
  pub data_ptr : Option ℕ
  pub sz : ℕ

pub data Event : Type 0 where
  called : Call → Event
  freed : ℕ → Event
  overloaded : ℕ → Event  -- the warning with the queue's length

unfoldable pub call_of : ℕ → Message → Call
call_of ctx msg = record {
  ctx = ctx;
  type = type_of msg.sz;
  session = msg.session;
  source = msg.source;
  data_ptr = msg.data_ptr;
  sz = size_of msg.sz;
}

-- The events, the state, and whether the queue ran empty.
pub record Worked : Type 0 where
  pub events : List Event
  pub server : Server
  pub monitor : Monitor
  pub empty : Bool

-- How many rounds follow the first, where `weight` is `none` for a negative number and the queue has
-- the length `len` behind the first `Pop`.
unfoldable pub more_rounds : Option ℕ → ℕ → ℕ
more_rounds none len = 0
more_rounds (some weight) len = len / 2 ^ weight - 1

-- `callback` is the code of the services, with whether it keeps the data; `alloc` gives addresses
-- for what is allocated.
module _ (callback : Call → Server → Server × Bool) (alloc : Server → ℕ) where
  -- `SNContext::DispatchMessage`, without the log file.
  unfoldable pub dispatch_message : Server → ℕ → Message → List Event × Server
  dispatch_message s ctx msg =
      let dropped : List Event = map freed (free msg.data_ptr) in
      let (s', keeps) = callback (call_of ctx msg) s in
      if (s.contexts ctx).has_callback
      then (called (call_of ctx msg) ∷ (if keeps then [] else dropped), s')
      else (dropped, s)

  -- A round of `DispatchMessageQueue` behind the call of `Pop`.
  unfoldable pub handle_message : ℕ → ℕ → ℕ → Server → Monitor → Message → Worked
  handle_message q ctx handle s m msg =
      let (overload, queue) = take_overload (s.system.queues q) in
      let quiet : Server = record s {
        system = record s.system { queues = update s.system.queues q queue };
      } in
      let warned : List Event = if overload == 0 then [] else overloaded overload ∷ [] in
      let (out, s') = dispatch_message quiet ctx msg in
      record {
        events = warned ++ out;
        server = s';
        monitor = trigger 0 0 (trigger msg.source handle m);
        empty = false;
      }

  abbrev pub after : List Event → Worked → Worked
  after out w = record w { events = out ++ w.events }

  -- A round with what `Pop` gave; `rest` are the rounds behind it.
  unfoldable pub work :
      ℕ
      → ℕ
      → ℕ
      → (System → Server → Monitor → Worked)
      → Server
      → Monitor
      → Option Message × System
      → Worked
  work q ctx handle rest s m (none, system) = record {
    events = [];
    server = record s { system = system };
    monitor = m;
    empty = true;
  }
  work q ctx handle rest s m (some msg, system) =
      let w = handle_message q ctx handle (record s { system = system }) m msg in
      after w.events (rest system w.server w.monitor)

  -- `rounds` rounds of the `for`.
  unfoldable pub dispatch_rounds : ℕ → ℕ → ℕ → ℕ → Server → Monitor → Worked
  dispatch_rounds zero q ctx handle s m = record {
    events = [];
    server = s;
    monitor = m;
    empty = false;
  }
  dispatch_rounds (suc rounds) q ctx handle s m =
      work q ctx handle (λ system s' m'. dispatch_rounds rounds q ctx handle s' m') s m
        (dispatch_one s.system q)

  -- The `for` of `DispatchMessageQueue`.
  unfoldable pub dispatch_loop : Option ℕ → ℕ → ℕ → ℕ → Server → Monitor → Worked
  dispatch_loop weight q ctx handle s m =
      work q ctx handle
        (λ system s' m'.
          dispatch_rounds (more_rounds weight (queue_length (system.queues q))) q ctx handle s' m')
        s m (dispatch_one s.system q)

  -- `m_pMqMgr->Pop()`
  unfoldable pub next_queue : Server → Option ℕ × Server
  next_queue s =
      let (q, rest) = pop_global s.system.global in
      (q, record s { system = taken s.system (q, rest) })

  -- The end of `DispatchMessageQueue`: the queue goes back if another one waits.
  unfoldable pub pass_on : ℕ → Server → ℕ × Server
  pass_on q s =
      let (nq, s') = next_queue s in
      elim nq [ none ↦ (q, s') | some r ↦ (r, record s' { system = give s'.system q }) ]

  -- `drop_message` for the messages of a service that has gone: each source gets an error.
  -- The handle of a service is not 0, which the source asserts.
  unfoldable pub drop_messages : ℕ → List Message → Server → Option (List Event × Server)
  drop_messages handle [] s = some ([], s)
  drop_messages handle (msg ∷ msgs) s = do
    (result, unsent, s') ← send 0 (alloc s) s 0 handle msg.source ptype_error 0 none 0
    (out, last) ← drop_messages handle msgs s'
    some (map freed (free msg.data_ptr) ++ out, last)

  -- A queue whose service is gone. Its messages are dropped, and it is deleted.
  unfoldable pub drop_service : ℕ → ℕ → Server → Option (List Event × Server)
  drop_service q handle s =
      let (msgs, queue) = release (s.system.queues q) in
      let emptied : Server = record s {
        system = record s.system {
          queues = update s.system.queues q queue;
          held = remove_one q s.system.held;
        };
        deleted = q ∷ s.deleted;
      } in
      drop_messages handle msgs emptied

  -- `DispatchMessageQueue` with the queue `q`: the next queue, the events and the state. `none` is a
  -- failed assertion.
  unfoldable pub dispatch_queue :
      Option ℕ → ℕ → Server → Monitor → Option (Option ℕ × List Event × Server × Monitor)
  dispatch_queue weight q s m =
      let handle = (s.system.queues q).handle in
      elim (find_context s.handles handle) [
        | none ↦ do
          (out, s') ← drop_service q handle s
          let (nq, last) = next_queue s'
          some (nq, out, last, m)
        | some ctx ↦
            let w = dispatch_loop weight q ctx handle s m in
            if w.empty
            then (let (nq, last) = next_queue w.server in some (nq, w.events, last, w.monitor))
            else (let (nq, last) = pass_on q w.server in some (some nq, w.events, last, w.monitor))
      ]

  unfoldable pub dispatch_message_queue :
      Option ℕ → Option ℕ → Server → Monitor → Option (Option ℕ × List Event × Server × Monitor)
  dispatch_message_queue weight (some q) s m = dispatch_queue weight q s m
  dispatch_message_queue weight none s m =
      let (q, s') = next_queue s in
      elim q [ none ↦ some (none, [], s', m) | some r ↦ dispatch_queue weight r s' m ]
