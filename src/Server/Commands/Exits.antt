-- ===== src/Server/Commands/Exits.antt =====
-- What the senders of messages to a service that has gone learn from src/sn_server.cpp.
use pskynet.Prelude.{
  ℕ, ◌≡◌, ◌≢◌, refl, sym, ap, ◌∙◌, inl, inr, Bool, false, List, [], ◌∷◌, ◌++◌, map, append_assoc,
  append-nil, Option, none, some, bit_or, ◌==◌, if◌then◌else◌, Bool-cases, Option-cases, ≢→==, ==→≡,
}
use pskynet.Message.{Message}
use pskynet.Handle.{HandleMgr, find_context}
use pskynet.Mq.{push}
use pskynet.Mq.System.{send_to}
use pskynet.Server.{
  Context, Server, ptype_error, shift_type, is_remote, copied, copied_bytes, filter_args, free,
  route, route_local, context_push, push_context, send,
}
use pskynet.Server.Dispatch.{Event, freed, Call, drop_messages}
use pskynet.Server.Dispatch.Rounds.{content}

-- The error from the service with the handle.
abbrev pub error_message : ℕ → Message
error_message handle = record {
  source = handle;
  session = 0;
  data_ptr = none;
  sz = bit_or 0 (shift_type ptype_error);
}

-- A service of this node gets the error, if there is one; the source 0 is not a service.
unfoldable pub notify : Server → ℕ → ℕ → Server
notify s handle source = if source == 0 then s else elim (find_context s.handles source) [
  | none ↦ s
  | some ctx ↦ push_context s ctx (error_message handle)
]

pub send_error :
    (rmsg : ℕ) (s : Server) (handle source : ℕ)
    → handle ≢ 0
    → is_remote s.harbor source ≡ false
    → (result : Option ℕ) × (send 0 rmsg s 0 handle source ptype_error 0 none 0
        ≡ some (result, [], notify s handle source))
unfolding send filter_args copied copied_bytes route route_local context_push notify
send_error rmsg s handle source used near =
    let a : (handle == 0) ≡ false = ≢→== handle 0 used in
    elim (Bool-cases (source == 0)) [
      | inl none_ ↦ (some 0, rw (a, none_, notify))
      | inr b ↦ elim (Option-cases (find_context s.handles source)) [
        | inl missing ↦ (none, rw (a, b, near) (rw (missing, notify)))
        | inr (ctx, there) ↦ (some 0, rw (a, b, near) (rw (there, notify)))
      ]
    ]

-- Whether a source is the handle of a service with the queue `q`.
unfoldable pub reaches : HandleMgr → (ℕ → Context) → ℕ → ℕ → Bool
reaches handles contexts q source =
    if source == 0
    then false
    else elim (find_context handles source) [ none ↦ false | some ctx ↦ (contexts ctx).queue == q ]

-- The errors for the queue `q` when the messages are dropped.
abbrev pub errors : HandleMgr → (ℕ → Context) → ℕ → ℕ → List Message → List Message
errors handles contexts handle q [] = []
errors handles contexts handle q (msg ∷ msgs) =
    (if reaches handles contexts q msg.source then error_message handle ∷ [] else [])
    ++ errors handles contexts handle q msgs

-- A notice changes queues only.
record Notified (s : Server) (handle source q : ℕ) : Type 0 where
  handles : (notify s handle source).handles ≡ s.handles
  contexts : (notify s handle source).contexts ≡ s.contexts
  harbor : (notify s handle source).harbor ≡ s.harbor
  grown :
      content (notify s handle source) q
      ≡ content s q
        ++ (if reaches s.handles s.contexts q source then error_message handle ∷ [] else [])

content-push_context :
    (s : Server) (ctx q : ℕ) (msg : Message)
    → content (push_context s ctx msg) q
      ≡ content s q ++ (if (s.contexts ctx).queue == q then msg ∷ [] else [])
unfolding push_context send_to push
content-push_context s ctx q msg = elim (Bool-cases ((s.contexts ctx).queue == q)) [
  | inl same ↦
      let e : (s.contexts ctx).queue ≡ q = ==→≡ (s.contexts ctx).queue q same in
      rw (same, content) (ap (λ k. (s.system.queues k).messages ++ msg ∷ []) e)
  | inr differ ↦ rw (differ, content) (sym (append-nil (s.system.queues q).messages))
]

notify-Notified : (s : Server) (handle source q : ℕ) → Notified s handle source q
unfolding notify reaches push_context
notify-Notified s handle source q = elim (Bool-cases (source == 0)) [
  | inl zero_ ↦ record {
    handles = rw (zero_, notify);
    contexts = rw (zero_, notify);
    harbor = rw (zero_, notify);
    grown = rw (zero_, notify, reaches) (sym (append-nil (content s q)));
  }
  | inr b ↦ elim (Option-cases (find_context s.handles source)) [
    | inl missing ↦ record {
      handles = rw (b, missing, notify);
      contexts = rw (b, missing, notify);
      harbor = rw (b, missing, notify);
      grown = rw (b, missing, notify, reaches) (sym (append-nil (content s q)));
    }
    | inr (ctx, there) ↦ record {
      handles = rw (b, there, notify);
      contexts = rw (b, there, notify);
      harbor = rw (b, there, notify);
      grown = rw (b, there, notify, reaches) (content-push_context s ctx q (error_message handle));
    }
  ]
]

-- No source is on another node; 0 stands for the timer or a socket.
abbrev pub AreLocal : ℕ → List Message → Type 0
AreLocal harbor [] = Unit {0}
AreLocal harbor (msg ∷ msgs) = (is_remote harbor msg.source ≡ false) × AreLocal harbor msgs

-- The data of messages, which is freed.
abbrev pub sent_data : List Message → List ℕ
sent_data [] = []
sent_data (msg ∷ msgs) = free msg.data_ptr ++ sent_data msgs

freed_append :
    (p : Option ℕ) (xs : List ℕ) → map freed (free p) ++ map freed xs ≡ map freed (free p ++ xs)
freed_append none xs = refl
freed_append (some p) xs = refl

pub record Told (s : Server) (handle : ℕ) (msgs : List Message) (r : Option (List Event × Server))
    : Type 0 where
  pub last : Server
  pub returns : r ≡ some (map freed (sent_data msgs), last)
  pub grown : (q : ℕ) → content last q ≡ content s q ++ errors s.handles s.contexts handle q msgs

module _ (callback : Call → Server → Server × Bool) (alloc : Server → ℕ) (handle : ℕ)
    (used : handle ≢ 0) where
  -- When the messages of a service that has gone are dropped, and none of them comes from another
  -- node, their data is freed, and each source that is still a service of this node gets one error
  -- for each of its messages, in order; nothing is sent for messages of the timer and of sockets,
  -- whose source is 0.
  pub drop_messages-Told :
      (msgs : List Message) (s : Server)
      → AreLocal s.harbor msgs
      → Told s handle msgs (drop_messages callback alloc handle msgs s)
  unfolding drop_messages
  drop_messages-Told [] s near = record {
    last = s;
    returns = refl;
    grown = λ q. sym (append-nil (content s q));
  }
  drop_messages-Told (msg ∷ msgs) s (near, others) =
      let next : Server = notify s handle msg.source in
      let (result, e) = send_error (alloc s) s handle msg.source used near in
      let n = notify-Notified s handle msg.source 0 in
      let near' : AreLocal next.harbor msgs = rw n.harbor others in
      let r = drop_messages-Told msgs next near' in
      record {
        last = r.last;
        returns = rw e (
            rw r.returns (ap (λ k. some (k, r.last)) (freed_append msg.data_ptr (sent_data msgs))));
        grown = λ q.
            let m = notify-Notified s handle msg.source q in
            let told : List Message =
              if reaches s.handles s.contexts q msg.source then error_message handle ∷ [] else [] in
            let rest : errors next.handles next.contexts handle q msgs
                ≡ errors s.handles s.contexts handle q msgs =
              ap (λ h. errors h next.contexts handle q msgs) m.handles
              ∙ ap (λ c. errors s.handles c handle q msgs) m.contexts in
            r.grown q
            ∙ ap (λ k. content next q ++ k) rest
            ∙ ap (λ k. k ++ errors s.handles s.contexts handle q msgs) m.grown
            ∙ append_assoc (content s q) told (errors s.handles s.contexts handle q msgs);
      }
