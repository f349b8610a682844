-- ===== src/Server/Delivery.antt =====
-- From `skynet_send` to the callback of the receiver, through the queue of src/sn_mq.cpp.
use pskynet.Prelude.{
  ℕ, map, take, ◌%◌, ◌^◌, ◌<◌, ◌≡◌, ◌≢◌, refl, ap, ◌∙◌, Bool, true, false, [], ◌∷◌, ◌++◌, Option,
  some, bit_and,
}
use pskynet.Message.{Message}
use pskynet.Handle.{find_context}
use pskynet.Monitor.{Monitor}
use pskynet.Server.{Server, Sent, is_remote, copied, source_of, send}
use pskynet.Server.Send.{allocates, HasSession, HasData, SameData, copied-SameData, send-Delivered}
use pskynet.Server.Dispatch.{Call, call_of, dispatch_loop}
use pskynet.Server.Dispatch.Rounds.{calls, content, IsService, batch_alone, dispatch_loop-Served}

-- The message is sent, and the worker that takes the queue next calls the receiver with it.
pub record Received (callback : Call → Server → Server × Bool) (alloc : Server → ℕ) (copy : ℕ)
    (s : Server) (ctx source ctx' handle type given_session : ℕ) (given_data : Option ℕ)
    (given_sz : ℕ) (weight : Option ℕ) (m : Monitor) (r : Sent) : Type 0 where
  pub given : ℕ
  pub next : Server
  pub returns : r ≡ some (some given, [], next)
  pub has_session : HasSession type given_session given
  pub call : Call
  pub once :
      calls (dispatch_loop callback alloc weight (s.contexts ctx').queue ctx' handle next m).events
      ≡ call ∷ []
  pub receiver : call.ctx ≡ ctx'
  pub kind : call.type ≡ bit_and type 0xff
  pub numbered : call.session ≡ given
  pub from : call.source ≡ source_of s ctx source
  pub payload : call.data_ptr ≡ copied copy type given_data
  pub length : call.sz ≡ given_sz
  pub same_data : SameData s.memory next.memory given_data call.data_ptr given_sz

-- A message of less than 16M bytes and of a type below 128 goes to a service of this node whose queue
-- is empty and whose callback only adds to this queue and stays registered; it has the session 0 when
-- the sender asks for a new one, and its data has as many bytes as its size says. The worker that
-- takes the queue calls the service once, with the type, the source and the size that `skynet_send`
-- was given, the session or the new one, and the data, or a copy with the same bytes where the
-- sender keeps its own.
pub send-Received :
    (callback : Call → Server → Server × Bool) (alloc : Server → ℕ) (copy rmsg : ℕ) (s : Server)
    (ctx source destination type session : ℕ) (data_ptr : Option ℕ) (sz : ℕ) (ctx' handle : ℕ)
    (weight : Option ℕ) (m : Monitor)
    → (allocates type ≡ true → session ≡ 0)
    → destination ≢ 0
    → sz < 2 ^ 24
    → type % 2 ^ 8 < 2 ^ 7
    → is_remote s.harbor destination ≡ false
    → find_context s.handles destination ≡ some ctx'
    → content s (s.contexts ctx').queue ≡ []
    → (s.contexts ctx').has_callback ≡ true
    → IsService (s.contexts ctx').queue ctx' callback
    → HasData s.memory data_ptr sz
    → Received callback alloc copy s ctx source ctx' handle type session data_ptr sz weight m
        (send copy rmsg s ctx source destination type session data_ptr sz)
unfolding call_of
send-Received callback alloc copy rmsg s ctx source destination type session data_ptr sz ctx' handle
      weight m fresh used small kind near found idle has service bytes =
    let d =
      send-Delivered copy rmsg s ctx source destination type session data_ptr sz fresh used ctx'
        small kind near found in
    let msg : Message = d.queued.message in
    let waiting : content d.next (s.contexts ctx').queue ≡ msg ∷ [] =
      d.queued.messages ∙ ap (λ k. k ++ msg ∷ []) idle in
    let served =
      dispatch_loop-Served callback alloc (s.contexts ctx').queue ctx' handle service weight d.next
        m msg [] waiting (d.callbacks ctx' ∙ has) in
    record {
      given = d.given;
      next = d.next;
      returns = d.returns;
      has_session = d.has_session;
      call = call_of ctx' msg;
      once = served.all ∙ ap (λ k. map (call_of ctx') (take k (msg ∷ []))) (batch_alone weight);
      receiver = refl;
      kind = d.queued.unpacked.kind;
      numbered = d.queued.numbered;
      from = d.queued.from;
      payload = d.queued.payload;
      length = d.queued.unpacked.bytes;
      same_data =
          rw (d.memory, d.queued.payload) (copied-SameData copy type data_ptr sz s.memory bytes);
    }
