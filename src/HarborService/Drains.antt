-- ===== src/HarborService/Drains.antt =====
-- Messages of service-src/service_harbor.c that wait for the connection to their node.
use pskynet.Prelude.{
  ℕ, ◌/◌, ◌%◌, ◌^◌, ◌<◌, ◌≡◌, ◌≢◌, refl, sym, subst, ap, ◌∙◌, arith, true, false, List, [], ◌∷◌,
  ◌++◌, map, append_assoc, append-nil, Option, none, some, ◌>>=◌, ◌==◌, leb, ≢→==, ==_refl,
}
use pskynet.HarborService.{
  Header, HarborMsg, HarborMsgQueue, header, Slave, Harbor, written, started, Done, remote_max,
  push_queue, new_queue, pop_all,
}
use pskynet.HarborService.Slaves.{
  put_slave, send_msg, flush_queue, dispatch_slave, dispatch_queue, behind,
}
use pskynet.HarborService.Mainloop.{
  is_down, remote_header, queue_or_new, remote_send_handle, send_handshake, accept_from, open_slave,
  harbor_command,
}
use pskynet.HarborService.Ring.{
  IsQueue, waiting, push_queue_msg-Put, pop_all-waiting, new_queue-IsQueue,
}

-- The messages of a queue that may not be there yet.
abbrev pub Holds : Option HarborMsgQueue → List HarborMsg → Type 0
Holds none ms = ms ≡ []
Holds (some q) ms = IsQueue q × (waiting q ≡ ms)

pub push_queue-Holds :
    (o : Option HarborMsgQueue) (ms : List HarborMsg) (buffer : List ℕ) (hd : Header)
    → Holds o ms
    → Holds
        (some (push_queue (queue_or_new o) buffer hd))
        (ms ++ record { header = hd; buffer = buffer } ∷ [])
unfolding push_queue
push_queue-Holds none ms buffer hd h =
    let m : HarborMsg = record { header = hd; buffer = buffer } in
    let p = push_queue_msg-Put new_queue m new_queue-IsQueue.0 in
    (p.valid, p.messages ∙ ap (λ k. k ++ m ∷ []) (new_queue-IsQueue.1 ∙ sym h))
push_queue-Holds (some q) ms buffer hd h =
    let m : HarborMsg = record { header = hd; buffer = buffer } in
    let p = push_queue_msg-Put q m h.0 in (p.valid, p.messages ∙ ap (λ k. k ++ m ∷ []) h.1)

-- A slave that is not connected, with the messages that wait for it.
pub record Waits (h : Harbor) (id : ℕ) (ms : List HarborMsg) : Type 0 where
  pub other : id ≢ h.id
  pub apart : (h.slaves id).fd ≡ 0
  pub hope : is_down (h.slaves id).status ≡ false
  pub holds : Holds (h.slaves id).queue ms

-- A message for the node: source, low part of the destination, type, session and content.
pub record Request : Type 0 where
  pub source : ℕ
  pub destination : ℕ
  pub type : ℕ
  pub session : ℕ
  pub msg : List ℕ

abbrev pub queued : Request → HarborMsg
queued r = record { header = remote_header r.source r.destination r.type r.session; buffer = r.msg }

-- The messages are given to `remote_send_handle` one after another.
abbrev pub send_all : Harbor → List Request → Done
send_all h [] = some ([], h)
send_all h (r ∷ rs) = do
  (out, h') ← remote_send_handle h r.source r.destination r.type r.session r.msg
  (more, last) ← send_all h' rs
  some (out ++ more, last)

abbrev pub AreFor : ℕ → List Request → Type 0
AreFor id [] = Unit {0}
AreFor id (r ∷ rs) = (r.destination / 2 ^ 24 ≡ id) × AreFor id rs

pub record Kept (h : Harbor) (id : ℕ) (ms : List HarborMsg) (r : Done) : Type 0 where
  pub next : Harbor
  pub returns : r ≡ some ([], next)
  pub waits : Waits next id ms

remote_send_handle-Kept :
    (h : Harbor) (id : ℕ) (ms : List HarborMsg) (r : Request)
    → Waits h id ms
    → r.destination / 2 ^ 24 ≡ id
    → Kept h id
        (ms ++ queued r ∷ [])
        (remote_send_handle h r.source r.destination r.type r.session r.msg)
unfolding remote_send_handle
remote_send_handle-Kept h id ms r w at =
    let other : (id == h.id) ≡ false = ≢→== id h.id w.other in
    let none_ : ((h.slaves id).fd == 0) ≡ true = rw w.apart (==_refl 0) in
    let s : Slave = h.slaves id in
    let queue : HarborMsgQueue =
      push_queue (queue_or_new s.queue) r.msg
        (remote_header r.source r.destination r.type r.session) in
    let next : Harbor = put_slave h id (record s { queue = some queue }) in
    rw (at, other)
      (rw (none_, w.hope)
        (record {
          next = next;
          returns = refl;
          waits = record {
            other = w.other;
            apart = rw (==_refl id) w.apart;
            hope = rw (==_refl id) w.hope;
            holds = rw (==_refl id) (
                push_queue-Holds s.queue ms r.msg
                  (remote_header r.source r.destination r.type r.session) w.holds);
          };
        }))

send_all-Kept :
    (rs : List Request) (h : Harbor) (id : ℕ) (ms : List HarborMsg)
    → Waits h id ms
    → AreFor id rs
    → Kept h id (ms ++ map queued rs) (send_all h rs)
send_all-Kept [] h id ms w for_ = record {
  next = h;
  returns = refl;
  waits = subst (Waits h id) (sym (append-nil ms)) w;
}
send_all-Kept (r ∷ rs) h id ms w (here, for_) =
    let a = remote_send_handle-Kept h id ms r w here in
    let b = send_all-Kept rs a.next id (ms ++ queued r ∷ []) a.waits for_ in
    record {
      next = b.next;
      returns = rw a.returns (rw b.returns);
      waits = subst (Waits b.next id) (append_assoc ms (queued r ∷ []) (map queued rs)) b.waits;
    }

-- What the socket of a slave is given when the connection is accepted.
pub record Sends (h : Harbor) (fd id : ℕ) (ms : List HarborMsg) (r : Done) : Type 0 where
  pub next : Harbor
  pub returns : r ≡ some (started fd ∷ written fd (h.id % 2 ^ 8 ∷ []) ∷ map (send_msg fd) ms, next)
  pub connected : (next.slaves id).fd ≡ fd
  pub ready : (next.slaves id).status ≡ header
  pub empty : (next.slaves id).queue ≡ none
  pub others : (other : ℕ) → other ≢ id → next.slaves other ≡ h.slaves other

slaves-put_slave : (h : Harbor) (id : ℕ) (s : Slave) → (put_slave h id s).slaves id ≡ s
slaves-put_slave h id s = rw (==_refl id)

put_slave_others :
    (h : Harbor) (id : ℕ) (s t : Slave) (other : ℕ)
    → other ≢ id
    → (put_slave (put_slave h id s) id t).slaves other ≡ h.slaves other
put_slave_others h id s t other apart =
    let e : (id == other) ≡ false = ≢→== id other (λ k. apart (sym k)) in rw e

flush_queue-Sends :
    (h : Harbor) (fd id : ℕ) (o : Option HarborMsgQueue) (ms : List HarborMsg) (s : Slave)
    → s.fd ≡ fd
    → s.status ≡ header
    → s.queue ≡ o
    → Holds o ms
    → Sends h fd id ms (
        behind
          (started fd ∷ written fd (h.id % 2 ^ 8 ∷ []) ∷ [])
          (flush_queue (put_slave h id s) id s o))
unfolding flush_queue
flush_queue-Sends h fd id none ms s at ready queue holds = record {
  next = put_slave h id s;
  returns = rw holds;
  connected = rw (==_refl id) at;
  ready = rw (==_refl id) ready;
  empty = rw (==_refl id) queue;
  others =
      λ other apart. let e : (id == other) ≡ false = ≢→== id other (λ k. apart (sym k)) in rw e;
}
flush_queue-Sends h fd id (some q) ms s at ready queue (valid, messages) =
    let t : Slave = record s { queue = none } in
    record {
      next = put_slave (put_slave h id s) id t;
      returns =
          ap
            (λ k.
              some (
                started fd ∷ written fd (h.id % 2 ^ 8 ∷ []) ∷ k,
                put_slave (put_slave h id s) id t,
              ))
            (ap (λ f. map (send_msg f) (pop_all q).0) at
              ∙ ap (map (send_msg fd)) (pop_all-waiting q valid ∙ messages));
      connected = rw (==_refl id) at;
      ready = rw (==_refl id) ready;
      empty = rw (==_refl id);
      others = put_slave_others h id s t;
    }

-- Messages for another node that is not connected wait, whether they had been waiting or come now;
-- when the node's connection is accepted, they are written to its socket behind the node's
-- number, all of them and in order, and none is left.
pub accept_from-Sends :
    (h : Harbor) (fd id source : ℕ) (ms : List HarborMsg) (rs : List Request)
    → Waits h id ms
    → AreFor id rs
    → fd ≢ 0
    → 0 < id
    → id < remote_max
    → (next : Harbor) × (send_all h rs ≡ some ([], next))
      × Sends next fd id (ms ++ map queued rs) (harbor_command next (accept_from fd id) source)
unfolding harbor_command open_slave dispatch_queue dispatch_slave send_handshake
accept_from-Sends h fd id source ms rs w for_ open_ pos small =
    let k = send_all-Kept rs h id ms w for_ in
    let n : Harbor = k.next in
    let s : Slave = record (n.slaves id) { fd = fd; status = header } in
    let a : (fd == 0) ≡ false = ≢→== fd 0 open_ in
    let b : (id == 0) ≡ false = ground arith in
    let c : leb remote_max id ≡ false = ground arith in
    let d : ((n.slaves id).fd == 0) ≡ true = rw k.waits.apart (==_refl 0) in
    (
      n,
      k.returns,
      rw (a, b, c, d)
          (rw (slaves-put_slave n id s) (
            rw a (
              flush_queue-Sends n fd id (n.slaves id).queue (ms ++ map queued rs) s refl refl refl
                k.waits.holds))),
    )
