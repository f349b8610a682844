-- ===== src/Server/Send.antt =====
-- What `skynet_send` of src/sn_server.cpp does with a message.
use pskynet.Prelude.{
  ℕ, ◌%◌, ◌^◌, ◌≤◌, ◌<◌, ◌≡◌, ◌≢◌, refl, sym, ap, ◌∙◌, ◌⊎◌, inl, inr, arith, Bool, true, false, not,
  List, [], ◌∷◌, ◌++◌, length, length-take, take, take-append, take-all, Option, none, some,
  bit_and, bit_or, ◌==◌, Bool-cases, ==→≡, ≢→==, ==_refl,
}
use pskynet.Prelude.Bits.{bit_and_mask}
use pskynet.Message.{Message, handle_mask}
use pskynet.Handle.{find_context}
use pskynet.Mq.{push}
use pskynet.Mq.System.{System, send_to}
use pskynet.Server.{
  Context, Server, Filtered, Sent, ptype_tag_allocsession, ptype_tag_dontcopy, remote_message_size,
  set, shift_type, new_session, push_context, is_remote, context_push, copied, copied_bytes,
  filter_args, free, route, route_local, source_of, send,
}
use pskynet.Server.Sizes.{Unpacked, packed-Unpacked, new_session-Session}

-- Whether the sender wants a new session.
abbrev pub allocates : ℕ → Bool
allocates type = not (bit_and type ptype_tag_allocsession == 0)

-- The session of a message whose sender gave `session`.
abbrev pub HasSession : ℕ → ℕ → ℕ → Type 0
HasSession type session given =
    ((allocates type ≡ false) × (given ≡ session))
    ⊎ ((allocates type ≡ true) × (0 < given) × (given < 2 ^ 31))

-- There are as many bytes as the size says.
abbrev pub HasData : (ℕ → List ℕ) → Option ℕ → ℕ → Type 0
HasData memory none sz = Unit {0}
HasData memory (some p) sz = sz ≤ length (memory p)

-- What has been given and what has come have the same bytes, each in its memory.
abbrev pub SameData : (ℕ → List ℕ) → (ℕ → List ℕ) → Option ℕ → Option ℕ → ℕ → Type 0
SameData before after none came sz = came ≡ none
SameData before after (some p) came sz =
    (q : ℕ) × ((came ≡ some q) × (take sz (after q) ≡ take sz (before p)))

pub copied-SameData :
    (copy type : ℕ) (data_ptr : Option ℕ) (sz : ℕ) (memory : ℕ → List ℕ)
    → HasData memory data_ptr sz
    → SameData memory
        (copied_bytes copy type data_ptr sz memory)
        data_ptr
        (copied copy type data_ptr)
        sz
unfolding copied copied_bytes
copied-SameData copy type none sz memory h = refl
copied-SameData copy type (some p) sz memory h =
    elim (Bool-cases (bit_and type ptype_tag_dontcopy == 0)) [
      | inr f ↦ (p, (rw f, rw f))
      | inl t ↦
          let bytes : List ℕ = take sz (memory p) in
          let n : length bytes ≡ sz = omega (arith, length-take sz (memory p), h) in
          (
            copy,
            (
              rw t,
              rw t (
                  rw (==_refl copy) (
                    take-append sz bytes (0 ∷ []) (omega (arith, n))
                    ∙ take-all sz bytes (omega (arith, n)))),
            ),
          )
    ]

-- What `_filter_args` leaves alone.
record Prepared (copy : ℕ) (s : Server) (type session : ℕ) (data_ptr : Option ℕ) (sz : ℕ)
    (r : Option Filtered) : Type 0 where
  filtered : Filtered
  returns : r ≡ some filtered
  given : HasSession type session filtered.session
  payload : filtered.data_ptr ≡ copied copy type data_ptr
  word : filtered.sz ≡ bit_or sz (shift_type (bit_and type 0xff))
  memory : filtered.server.memory ≡ copied_bytes copy type data_ptr sz s.memory
  handles : filtered.server.handles ≡ s.handles
  system : filtered.server.system ≡ s.system
  harbor : filtered.server.harbor ≡ s.harbor
  remote : filtered.server.remote ≡ s.remote
  queues : (c : ℕ) → (filtered.server.contexts c).queue ≡ (s.contexts c).queue
  callbacks : (c : ℕ) → (filtered.server.contexts c).has_callback ≡ (s.contexts c).has_callback

queue-new_session : (c : Context) → (new_session c).1.queue ≡ c.queue
unfolding new_session
queue-new_session c = ground arith

has_callback-new_session : (c : Context) → (new_session c).1.has_callback ≡ c.has_callback
unfolding new_session
has_callback-new_session c = ground arith

filter_args-Prepared :
    (copy : ℕ) (s : Server) (ctx type session : ℕ) (data_ptr : Option ℕ) (sz : ℕ)
    → (allocates type ≡ true → session ≡ 0)
    → Prepared copy s type session data_ptr sz (filter_args copy s ctx type session data_ptr sz)
unfolding filter_args
filter_args-Prepared copy s ctx type session data_ptr sz fresh =
    elim (Bool-cases (bit_and type ptype_tag_allocsession == 0)) [
      | inl plain ↦ rw plain (record {
        filtered = record {
          session = session;
          data_ptr = copied copy type data_ptr;
          sz = bit_or sz (shift_type (bit_and type 0xff));
          server = record s { memory = copied_bytes copy type data_ptr sz s.memory };
        };
        returns = refl;
        given = inl (rw plain, refl);
        payload = refl;
        word = refl;
        memory = refl;
        handles = refl;
        system = refl;
        harbor = refl;
        remote = refl;
        queues = λ c. refl;
        callbacks = λ c. refl;
      })
      | inr alloc ↦
          let zero_ : session ≡ 0 = fresh (rw alloc) in
          let (allocated, c) = new_session (s.contexts ctx) in
          let new = new_session-Session (s.contexts ctx) in
          rw (alloc, zero_)
            (record {
              filtered = record {
                session = allocated;
                data_ptr = copied copy type data_ptr;
                sz = bit_or sz (shift_type (bit_and type 0xff));
                server = record s {
                  contexts = set s.contexts ctx c;
                  memory = copied_bytes copy type data_ptr sz s.memory;
                };
              };
              returns = refl;
              given = inr (rw alloc, new.positive, new.int);
              payload = refl;
              word = refl;
              memory = refl;
              handles = refl;
              system = refl;
              harbor = refl;
              remote = refl;
              queues = λ d. elim (Bool-cases (ctx == d)) [
                | inl same ↦ rw same (
                    queue-new_session (s.contexts ctx)
                    ∙ ap (λ k. (s.contexts k).queue) (==→≡ ctx d same))
                | inr differ ↦ rw differ
              ];
              callbacks = λ d. elim (Bool-cases (ctx == d)) [
                | inl same ↦ rw same (
                    has_callback-new_session (s.contexts ctx)
                    ∙ ap (λ k. (s.contexts k).has_callback) (==→≡ ctx d same))
                | inr differ ↦ rw differ
              ];
            })
    ]

-- A message stands at the end of one queue, which has work now, and the others are as they were.
pub record Queued (system : System) (queue source session type sz : ℕ) (data_ptr : Option ℕ)
    (next : System) : Type 0 where
  pub message : Message
  pub messages : (next.queues queue).messages ≡ (system.queues queue).messages ++ message ∷ []
  pub awake : (next.queues queue).in_global ≡ true
  pub others : (q : ℕ) → q ≢ queue → next.queues q ≡ system.queues q
  pub from : message.source ≡ source
  pub numbered : message.session ≡ session
  pub payload : message.data_ptr ≡ data_ptr
  pub unpacked : Unpacked type sz message.sz

pub send_to-Queued :
    (system : System) (queue : ℕ) (m : Message) (type sz : ℕ)
    → Unpacked type sz m.sz
    → Queued system queue m.source m.session type sz m.data_ptr (send_to system queue m)
unfolding send_to push
send_to-Queued system queue m type sz u = record {
  message = m;
  messages = rw (==_refl queue);
  awake = rw (==_refl queue);
  others =
      λ q apart. let other : (queue == q) ≡ false = ≢→== queue q (λ e. apart (sym e)) in rw other;
  from = refl;
  numbered = refl;
  payload = refl;
  unpacked = u;
}

-- The message is in the queue of its destination.
pub record Delivered (copy : ℕ) (s : Server) (ctx source ctx' type session : ℕ)
    (data_ptr : Option ℕ) (sz : ℕ) (r : Sent) : Type 0 where
  pub given : ℕ
  pub next : Server
  pub returns : r ≡ some (some given, [], next)
  pub has_session : HasSession type session given
  pub queued :
      Queued s.system
        (s.contexts ctx').queue
        (source_of s ctx source)
        given
        (bit_and type 0xff)
        sz
        (copied copy type data_ptr)
        next.system
  pub callbacks : (c : ℕ) → (next.contexts c).has_callback ≡ (s.contexts c).has_callback
  pub memory : next.memory ≡ copied_bytes copy type data_ptr sz s.memory

-- The harbor service has a remote message in its queue.
pub record Forwarded (copy rmsg : ℕ) (s : Server) (ctx source destination remote type session : ℕ)
    (data_ptr : Option ℕ) (sz : ℕ) (r : Sent) : Type 0 where
  pub given : ℕ
  pub next : Server
  pub returns : r ≡ some (some given, [], next)
  pub has_session : HasSession type session given
  pub queued :
      Queued s.system
        (s.contexts remote).queue
        (source_of s ctx source)
        given
        (bit_and type 0xff)
        remote_message_size
        (some rmsg)
        next.system
  pub destined : (next.remote_messages rmsg).handle ≡ destination
  pub payload : (next.remote_messages rmsg).message ≡ copied copy type data_ptr
  pub length : (next.remote_messages rmsg).sz ≡ sz
  pub same_data : SameData s.memory next.memory data_ptr (next.remote_messages rmsg).message sz

fits : (sz : ℕ) → sz < 2 ^ 24 → (bit_and sz handle_mask == sz) ≡ true
fits sz h =
    let low : bit_and sz handle_mask ≡ sz = bit_and_mask 24 sz ∙ omega arith in rw low (==_refl sz)

too_large : (sz : ℕ) → 2 ^ 24 ≤ sz → (bit_and sz handle_mask == sz) ≡ false
too_large sz h = ≢→== (bit_and sz handle_mask) sz (λ e. omega (arith, e, bit_and_mask 24 sz))

low_byte : (type : ℕ) → bit_and type 0xff ≡ type % 2 ^ 8
low_byte type = bit_and_mask 8 type

module _ (copy rmsg : ℕ) (s : Server) (ctx source destination type session : ℕ)
    (data_ptr : Option ℕ) (sz : ℕ) (fresh : allocates type ≡ true → session ≡ 0)
    (used : destination ≢ 0) where
  -- A message of less than 16M bytes and of a type below 128 for a service of this node, which the
  -- table has, is put at the end of the queue of this service, with its source, its session, its
  -- data or a copy of them, its type and its size; the queue has work then, and the other queues
  -- are as they were. The session is the sender's, or a new positive one when the sender asks for it.
  pub send-Delivered :
      (ctx' : ℕ)
      → sz < 2 ^ 24
      → type % 2 ^ 8 < 2 ^ 7
      → is_remote s.harbor destination ≡ false
      → find_context s.handles destination ≡ some ctx'
      → Delivered copy s ctx source ctx' type session data_ptr sz
          (send copy rmsg s ctx source destination type session data_ptr sz)
  unfolding send route route_local context_push push_context
  send-Delivered ctx' small kind near found =
      let p = filter_args-Prepared copy s ctx type session data_ptr sz fresh in
      let far : (destination == 0) ≡ false = ≢→== destination 0 used in
      let remote : is_remote p.filtered.server.harbor destination ≡ false = rw p.harbor near in
      let there : find_context p.filtered.server.handles destination ≡ some ctx' =
        rw p.handles found in
      let type_small : bit_and type 0xff < 2 ^ 7 = omega (arith, low_byte type) in
      let unpacked : Unpacked (bit_and type 0xff) sz p.filtered.sz =
        rw p.word (packed-Unpacked (bit_and type 0xff) sz type_small small) in
      let message : Message = record {
        source = source_of s ctx source;
        session = p.filtered.session;
        data_ptr = p.filtered.data_ptr;
        sz = p.filtered.sz;
      } in
      rw (fits sz small, p.returns)
        (rw (far, remote, there)
          (record {
            given = p.filtered.session;
            next = push_context p.filtered.server ctx' message;
            returns = refl;
            has_session = p.given;
            queued =
                rw (p.system, p.queues ctx', ← p.payload)
                  (send_to-Queued s.system (s.contexts ctx').queue message (bit_and type 0xff) sz
                    unpacked);
            callbacks = p.callbacks;
            memory = p.memory;
          }))

  -- A message for a service of this node that the table does not have is not sent: the result is -1,
  -- what would have been in the queue is freed, and no queue changes.
  pub send-unregistered :
      sz < 2 ^ 24
      → is_remote s.harbor destination ≡ false
      → find_context s.handles destination ≡ none
      → (next : Server) × (send copy rmsg s ctx source destination type session data_ptr sz
          ≡ some (none, free (copied copy type data_ptr), next))
        × (next.system ≡ s.system)
  unfolding send route route_local context_push
  send-unregistered small near missing =
      let p = filter_args-Prepared copy s ctx type session data_ptr sz fresh in
      let far : (destination == 0) ≡ false = ≢→== destination 0 used in
      let remote : is_remote p.filtered.server.harbor destination ≡ false = rw p.harbor near in
      let there : find_context p.filtered.server.handles destination ≡ none =
        rw p.handles missing in
      (
        p.filtered.server,
        rw (fits sz small, p.returns) (rw (far, remote, there, p.payload)),
        p.system,
      )
