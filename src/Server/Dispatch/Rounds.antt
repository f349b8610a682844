-- ===== src/Server/Dispatch/Rounds.antt =====
-- Which messages `DispatchMessageQueue` of src/sn_server.cpp calls the service with.
use Prim.Native.Nat.{max}
use pskynet.Prelude.{
  ℕ, suc, ◌/◌, ◌^◌, ◌≤◌, ◌≡◌, refl, sym, ap, ◌∙◌, inl, inr, arith, Bool, true, false, List, [], ◌∷◌,
  ◌++◌, map, append_assoc, append-nil, Option, none, some, ◌==◌, if◌then◌else◌, length, take, drop,
  subst, take-append-drop, length-take, ==_refl, Bool-cases,
}
use pskynet.Message.{Message}
use pskynet.Mq.{MessageQueue, take_overload, queue_length, raise}
use pskynet.Mq.Overload.{raise-SameContent, pop-cons}
use pskynet.Mq.System.{System, update, dispatch_one}
use pskynet.Monitor.{Monitor}
use pskynet.Server.{Server, free}
use pskynet.Server.Dispatch.{
  Call, Event, called, freed, overloaded, call_of, Worked, dispatch_message, handle_message, after,
  work, dispatch_rounds, more_rounds, dispatch_loop,
}

-- The calls among the events.
abbrev pub calls : List Event → List Call
calls [] = []
calls (called c ∷ es) = c ∷ calls es
calls (freed p ∷ es) = calls es
calls (overloaded n ∷ es) = calls es

pub calls-append : (xs ys : List Event) → calls (xs ++ ys) ≡ calls xs ++ calls ys
calls-append [] ys = refl
calls-append (called c ∷ xs) ys = ap (λ k. c ∷ k) (calls-append xs ys)
calls-append (freed p ∷ xs) ys = calls-append xs ys
calls-append (overloaded n ∷ xs) ys = calls-append xs ys

abbrev pub content : Server → ℕ → List Message
content s q = (s.system.queues q).messages

-- What the code of services may do while it is called: it adds messages to the queue `q` but takes
-- none, and the service `ctx` keeps its callback.
pub record IsService (q ctx : ℕ) (callback : Call → Server → Server × Bool) : Type 0 where
  pub adds : Call → Server → List Message
  pub content_lem :
      (call : Call) (s : Server) → content (callback call s).0 q ≡ content s q ++ adds call s
  pub callback_lem :
      (call : Call) (s : Server)
      → (s.contexts ctx).has_callback ≡ true
      → ((callback call s).0.contexts ctx).has_callback ≡ true

calls_free : (p : Option ℕ) → calls (map freed (free p)) ≡ []
calls_free none = refl
calls_free (some p) = refl

calls_kept : (keeps : Bool) (p : Option ℕ) → calls (if keeps then [] else map freed (free p)) ≡ []
calls_kept true p = refl
calls_kept false p = calls_free p

calls_warned :
    (n : ℕ) (es : List Event) → calls ((if n == 0 then [] else overloaded n ∷ []) ++ es) ≡ calls es
calls_warned n es = elim (Bool-cases (n == 0)) [ inl quiet ↦ rw quiet | inr loud ↦ rw loud ]

-- One message is taken from the queue.
record Taken (s : System) (q : ℕ) (msg : Message) (msgs : List Message) : Type 0 where
  next : System
  returns : dispatch_one s q ≡ (some msg, next)
  rest : (next.queues q).messages ≡ msgs

dispatch_one-Taken :
    (s : System) (q : ℕ) (msg : Message) (msgs : List Message)
    → (s.queues q).messages ≡ msg ∷ msgs
    → Taken s q msg msgs
unfolding dispatch_one
dispatch_one-Taken s q msg msgs h =
    let less : MessageQueue = record (s.queues q) { messages = msgs } in
    let left : MessageQueue = raise (length msgs) (length msgs) less in
    record {
      next = record s { queues = update s.queues q left };
      returns =
          rw (pop-cons true (s.queues q) msg msgs h, dispatch_one)
            (ap
              (λ (r : Option Message × MessageQueue).
                (some msg, record s { queues = update s.queues q r.1 }))
              (pop-cons true (s.queues q) msg msgs h));
      rest = rw (==_refl q) (raise-SameContent (length msgs) (length msgs) less).messages;
    }

-- How many messages a worker takes from a queue with `len` messages behind the first.
abbrev pub batch : Option ℕ → ℕ → ℕ
batch none len = 1
batch (some weight) len = max 1 (len / 2 ^ weight)

pub batch_alone : (weight : Option ℕ) → batch weight 0 ≡ 1
batch_alone none = refl
batch_alone (some weight) = let e : 0 / 2 ^ weight ≤ 0 = grind arith in omega (arith, e)

batch_lem : (weight : Option ℕ) (len : ℕ) → batch weight len ≡ suc (more_rounds weight len)
unfolding more_rounds
batch_lem none len = refl
batch_lem (some weight) len = omega arith

more_rounds_le : (weight : Option ℕ) (len : ℕ) → more_rounds weight len ≤ len
unfolding more_rounds
more_rounds_le none len = omega arith
more_rounds_le (some weight) len =
    let quotient : len / 2 ^ weight ≤ len = grind arith in omega arith

module _ (callback : Call → Server → Server × Bool) (alloc : Server → ℕ) (q ctx handle : ℕ)
    (service : IsService q ctx callback) where
  -- A message is handled: the service is called with it, and the queue may have grown.
  record Handled (s : Server) (m : Monitor) (msg : Message) : Type 0 where
    added : List Message
    grown :
        content (handle_message callback alloc q ctx handle s m msg).server q ≡ content s q ++ added
    still :
        ((handle_message callback alloc q ctx handle s m msg).server.contexts ctx).has_callback
        ≡ true
    once : calls (handle_message callback alloc q ctx handle s m msg).events ≡ call_of ctx msg ∷ []

  handle_message-Handled :
      (s : Server) (m : Monitor) (msg : Message)
      → (s.contexts ctx).has_callback ≡ true
      → Handled s m msg
  unfolding handle_message dispatch_message take_overload
  handle_message-Handled s m msg has =
      let peak : ℕ = (s.system.queues q).overload in
      let queue : MessageQueue = record (s.system.queues q) { overload = 0 } in
      let quiet : Server = record s {
        system = record s.system { queues = update s.system.queues q queue };
      } in
      let call : Call = call_of ctx msg in
      let same : content quiet q ≡ content s q = rw (==_refl q, content) in
      let run : dispatch_message callback alloc quiet ctx msg ≡ (
        called call ∷ (if (callback call quiet).1 then [] else map freed (free msg.data_ptr)),
        (callback call quiet).0,
      ) =
        rw has in
      record {
        added = service.adds call quiet;
        grown =
            rw run (service.content_lem call quiet ∙ ap (λ k. k ++ service.adds call quiet) same);
        still = rw run (service.callback_lem call quiet has);
        once = rw run (
            calls_warned peak (
              called call ∷ (if (callback call quiet).1 then [] else map freed (free msg.data_ptr)))
            ∙ ap (λ k. call ∷ k) (calls_kept (callback call quiet).1 msg.data_ptr));
      }

  -- The service was called with `msgs`, once with each and in order; `more` is still in the queue,
  -- with what the service has added behind it.
  pub record Served (msgs more : List Message) (w : Worked) : Type 0 where
    pub all : calls w.events ≡ map (call_of ctx) msgs
    pub added : List Message
    pub left : content w.server q ≡ more ++ added
    pub busy : w.empty ≡ false

  -- A message, and what is done behind it.
  then-Served :
      (s : Server) (m : Monitor) (msg : Message) (msgs more : List Message)
      (taken_ : Taken s.system q msg (msgs ++ more)) (rounds : ℕ)
      → (s.contexts ctx).has_callback ≡ true
      → ((s' : Server) (m' : Monitor) (more' : List Message)
          → content s' q ≡ msgs ++ more'
          → (s'.contexts ctx).has_callback ≡ true
          → Served msgs more' (dispatch_rounds callback alloc rounds q ctx handle s' m'))
      → let w =
          handle_message callback alloc q ctx handle (record s { system = taken_.next }) m msg in
        Served (msg ∷ msgs) more (
          after callback alloc w.events
            (dispatch_rounds callback alloc rounds q ctx handle w.server w.monitor))
  then-Served s m msg msgs more taken_ rounds has later =
      let begun : Server = record s { system = taken_.next } in
      let h = handle_message-Handled begun m msg has in
      let w = handle_message callback alloc q ctx handle begun m msg in
      let there : content w.server q ≡ msgs ++ (more ++ h.added) =
        h.grown ∙ ap (λ k. k ++ h.added) taken_.rest ∙ append_assoc msgs more h.added in
      let r = later w.server w.monitor (more ++ h.added) there h.still in
      let rest = dispatch_rounds callback alloc rounds q ctx handle w.server w.monitor in
      record {
        all =
            calls-append w.events rest.events
            ∙ ap (λ k. k ++ calls rest.events) h.once
            ∙ ap (λ k. call_of ctx msg ∷ k) r.all;
        added = h.added ++ r.added;
        left = r.left ∙ append_assoc more h.added r.added;
        busy = r.busy;
      }

  dispatch_rounds-Served :
      (msgs : List Message) (s : Server) (m : Monitor) (more : List Message)
      → content s q ≡ msgs ++ more
      → (s.contexts ctx).has_callback ≡ true
      → Served msgs more (dispatch_rounds callback alloc (length msgs) q ctx handle s m)
  unfolding dispatch_rounds work
  dispatch_rounds-Served [] s m more h has = record {
    all = refl;
    added = [];
    left = h ∙ sym (append-nil more);
    busy = refl;
  }
  dispatch_rounds-Served (msg ∷ msgs) s m more h has =
      let t = dispatch_one-Taken s.system q msg (msgs ++ more) h in
      rw (t.returns, dispatch_rounds)
        (then-Served s m msg msgs more t (length msgs) has
          (λ s' m' more' e k. dispatch_rounds-Served msgs s' m' more' e k))

  -- For a queue that has messages, the service is called with the first of them, one for a negative
  -- weight, and else as many as the number of the others shifted by the weight, but one at least;
  -- once with each, in order. The others are still in the queue, behind them what came meanwhile.
  pub dispatch_loop-Served :
      (weight : Option ℕ) (s : Server) (m : Monitor) (msg : Message) (msgs : List Message)
      → content s q ≡ msg ∷ msgs
      → (s.contexts ctx).has_callback ≡ true
      → Served
          (take (batch weight (length msgs)) (msg ∷ msgs))
          (drop (batch weight (length msgs)) (msg ∷ msgs))
          (dispatch_loop callback alloc weight q ctx handle s m)
  unfolding dispatch_loop queue_length work
  dispatch_loop-Served weight s m msg msgs h has =
      let t = dispatch_one-Taken s.system q msg msgs h in
      let n : ℕ = more_rounds weight (length msgs) in
      let split : msgs ≡ take n msgs ++ drop n msgs = sym (take-append-drop n msgs) in
      let t' : Taken s.system q msg (take n msgs ++ drop n msgs) =
        dispatch_one-Taken s.system q msg (take n msgs ++ drop n msgs)
          (h ∙ ap (λ k. msg ∷ k) split) in
      let long : length (take n msgs) ≡ n =
        omega (arith, length-take n msgs, more_rounds_le weight (length msgs)) in
      let count : more_rounds weight (length (t'.next.queues q).messages) ≡ n =
        ap (λ (k : List Message). more_rounds weight (length k)) (t'.rest ∙ sym split) in
      rw (batch_lem weight (length msgs)) (
        rw (t'.returns, dispatch_loop, count)
          (then-Served s m msg (take n msgs) (drop n msgs) t' n has (λ s' m' more' e k.
            subst
              (λ r.
                Served (take n msgs) more' (dispatch_rounds callback alloc r q ctx handle s' m'))
              long (dispatch_rounds-Served (take n msgs) s' m' more' e k))))
