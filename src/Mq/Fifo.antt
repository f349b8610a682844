-- ===== src/Mq/Fifo.antt =====
-- Each queue hands out what it was sent, in order, under any interleaving.
use pskynet.Prelude.{
  ℕ, ◌≡◌, refl, ap, sym, ◌∙◌, true, List, [], ◌∷◌, ◌++◌, append-nil, append_assoc, Option, none,
  some, arith, ◌==◌, if◌then◌else◌, length, Bool-cases, inl, inr,
}
use pskynet.Message.{Message}
use pskynet.Mq.{MessageQueue, push, force_in_global, leave_global}
use pskynet.Mq.Overload.{raise-SameContent, pop-nil, pop-cons}
use pskynet.Mq.System.{
  System, Action, send, force, take, dispatch, give_back, member, send_to, force_on, taken,
  take_from, dispatch_one, give, step, run, pop_global,
}

-- The messages that an action sends to `q`, and those that it pops from `q` in the state `s`.
abbrev pub sent_by : ℕ → Action → List Message
sent_by q (send r m) = if r == q then m ∷ [] else []
sent_by q _ = []

abbrev pub option_list : Option Message → List Message
option_list none = []
option_list (some m) = m ∷ []

unfoldable pub popped_by : ℕ → System → Action → List Message
popped_by q s (dispatch r) =
    if r == q then (if member r s.held then option_list (dispatch_one s r).0 else []) else []
popped_by q s _ = []

unfoldable pub sent : ℕ → List Action → List Message
sent q [] = []
sent q (a ∷ acts) = sent_by q a ++ sent q acts

unfoldable pub popped : ℕ → System → List Action → List Message
popped q s [] = []
popped q s (a ∷ acts) = popped_by q s a ++ popped q (step s a) acts

queues-taken : (s : System) (g : List ℕ) → (taken s (pop_global g)).queues ≡ s.queues
unfolding taken pop_global
queues-taken s [] = refl
queues-taken s (x ∷ xs) = refl

abbrev content : System → ℕ → List Message
content s q = (s.queues q).messages

send_content :
    (s : System) (q r : ℕ) (m : Message)
    → content s q ++ (if r == q then m ∷ [] else []) ≡ content (send_to s r m) q
unfolding send_to push
send_content s q r m = ground (arith, append-nil (content s q))

force_content : (s : System) (q r : ℕ) → content s q ++ [] ≡ content (force_on s r) q
unfolding force_on force_in_global
force_content s q r = ground (arith, append-nil (content s q))

dispatch_content :
    (s : System) (q r : ℕ) (ms : List Message)
    → content s r ≡ ms
    → content s q ++ []
      ≡ (if r == q then option_list (dispatch_one s r).0 else []) ++ content (dispatch_one s r).1 q
unfolding dispatch_one leave_global
dispatch_content s q r [] e =
    rw (pop-nil true (s.queues r) e, dispatch_one)
      (rw (pop-nil true (s.queues r) e) (ground (arith, append-nil (content s q), e)))
dispatch_content s q r (m ∷ ms) e =
    let less : MessageQueue = record (s.queues r) { messages = ms } in
    let same = raise-SameContent (length ms) (length ms) less in
    rw (pop-cons true (s.queues r) m ms e, dispatch_one)
      (rw (pop-cons true (s.queues r) m ms e)
        (ground (arith, append-nil (content s q), e, same.messages)))

-- One action: what was queued and what is sent is what is popped and what stays queued.
one_action :
    (q : ℕ) (s : System) (a : Action)
    → content s q ++ sent_by q a ≡ popped_by q s a ++ content (step s a) q
unfolding step popped_by take_from give
one_action q s (send r m) = send_content s q r m
one_action q s (force r) = force_content s q r
one_action q s take =
    append-nil (content s q)
    ∙ ap (λ (f : ℕ → MessageQueue). (f q).messages) (sym (queues-taken s s.global))
one_action q s (dispatch r) = elim (Bool-cases (member r s.held)) [
  | inl h ↦ rw h (dispatch_content s q r (content s r) refl)
  | inr h ↦ rw h (ground (arith, append-nil (content s q)))
]
one_action q s (give_back r) = elim (Bool-cases (member r s.held)) [
  | inl h ↦ rw h (append-nil (content s q))
  | inr h ↦ rw h (append-nil (content s q))
]

-- Under any sequence of locked sections, as long as no queue is released or deleted, the messages
-- popped from a queue are those that it had and those that it was sent, in order, up to the ones
-- that are still queued: none is lost, repeated or overtaken.
pub run_fifo :
    (q : ℕ) (s : System) (acts : List Action)
    → (s.queues q).messages ++ sent q acts ≡ popped q s acts ++ ((run s acts).queues q).messages
unfolding run sent popped
run_fifo q s [] = append-nil _
run_fifo q s (a ∷ acts) =
    sym (append_assoc (s.queues q).messages (sent_by q a) (sent q acts))
    ∙ ap (λ xs. xs ++ sent q acts) (one_action q s a)
    ∙ append_assoc (popped_by q s a) ((step s a).queues q).messages (sent q acts)
    ∙ ap (◌++◌ (popped_by q s a)) (run_fifo q (step s a) acts)
    ∙ sym (
        append_assoc (popped_by q s a) (popped q (step s a) acts)
          ((run (step s a) acts).queues q).messages)
