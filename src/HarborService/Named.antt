-- ===== src/HarborService/Named.antt =====
-- Messages to global names in service-src/service_harbor.c, before and after the name is known.
use pskynet.Prelude.{
  ℕ, ◌*◌, ◌/◌, ◌%◌, ◌^◌, ◌<◌, arith, ◌≡◌, ◌≢◌, refl, sym, subst, ap, ◌∙◌, true, false, List, [],
  ◌∷◌, ◌++◌, map, append_assoc, append-nil, Option, none, some, ◌>>=◌, bit_or, bit_and, ◌==◌,
  ==_refl, ≢→==,
}
use pskynet.Prelude.Bits.{bit_and_mask, bit_or_high, bit_or_low_digits}
use pskynet.Message.{handle_mask, handle_remote_shift}
use pskynet.HarborService.{
  Header, HarborMsg, HarborMsgQueue, KeyValue, Harbor, Effect, sent, Done, push_queue,
}
use pskynet.HarborService.Slaves.{ptype_text, send_msg, send_remote}
use pskynet.HarborService.Names.{hash_search, search_or_insert, write_node}
use pskynet.HarborService.Mainloop.{
  address_msg, dispatch_name_queue, update_name, queue_or_new, remote_send_name, remote_header,
}
use pskynet.HarborService.Ring.{pop_all-waiting}
use pskynet.HarborService.Drains.{Holds, push_queue-Holds}
use pskynet.HarborService.Lookup.{entry, search_or_insert-write_node}

-- The name has no handle yet, and these messages wait for it.
pub record WaitsForName (h : Harbor) (name : List ℕ) (ms : List HarborMsg) : Type 0 where
  pub no_handle : (search_or_insert h name).0.value ≡ 0
  pub holds : Holds (search_or_insert h name).0.queue ms

-- A message to the name: its source, type, session and content.
pub record ToName : Type 0 where
  pub source : ℕ
  pub type : ℕ
  pub session : ℕ
  pub msg : List ℕ

-- Its header has no low part of a destination.
abbrev pub unaddressed : ToName → HarborMsg
unaddressed r = record {
  header = record {
    source = r.source;
    destination = r.type * 2 ^ handle_remote_shift % 2 ^ 32;
    session = r.session;
  };
  buffer = r.msg;
}

-- The question for the handle that the service asks.
abbrev pub question : Harbor → List ℕ → Effect
question h name = sent 0 h.slave ptype_text 0 (81 ∷ 32 ∷ name)

pub record Asked (h : Harbor) (name : List ℕ) (ms : List HarborMsg) (r : Done) : Type 0 where
  pub next : Harbor
  pub returns : r ≡ some (question h name ∷ [], next)
  pub waits : WaitsForName next name ms
  pub slaves : next.slaves ≡ h.slaves
  pub slave : next.slave ≡ h.slave

remote_send_name-Asked :
    (h : Harbor) (name : List ℕ) (ms : List HarborMsg) (r : ToName)
    → WaitsForName h name ms
    → Asked h name
        (ms ++ unaddressed r ∷ [])
        (remote_send_name h r.source name r.type r.session r.msg)
unfolding remote_send_name write_node
remote_send_name-Asked h name ms r w =
    let e = entry h name (hash_search h name) refl in
    let (node, h') = search_or_insert h name in
    let hd : Header = (unaddressed r).header in
    let new : KeyValue = record node {
      queue = some (push_queue (queue_or_new node.queue) r.msg hd);
    } in
    let zero_ : (node.value == 0) ≡ true = rw w.no_handle (==_refl 0) in
    let again =
      search_or_insert-write_node h' name node new e.found
        (record { hashed = e.node.hashed; named = e.node.named }) in
    record {
      next = write_node h' new;
      returns = rw zero_;
      waits = record {
        no_handle = rw again w.no_handle;
        holds = rw again (push_queue-Holds node.queue ms r.msg hd w.holds);
      };
      slaves = e.slaves;
      slave = e.slave;
    }

-- Messages to the name, one after another.
abbrev pub ask_all : Harbor → List ℕ → List ToName → Done
ask_all h name [] = some ([], h)
ask_all h name (r ∷ rs) = do
  (out, h') ← remote_send_name h r.source name r.type r.session r.msg
  (more, last) ← ask_all h' name rs
  some (out ++ more, last)

pub record AskedAll (h : Harbor) (name : List ℕ) (ms : List HarborMsg) (rs : List ToName) (r : Done)
    : Type 0 where
  pub next : Harbor
  pub returns : r ≡ some (map (λ m. question h name) rs, next)
  pub waits : WaitsForName next name ms
  pub slaves : next.slaves ≡ h.slaves

ask_all-AskedAll :
    (rs : List ToName) (h : Harbor) (name : List ℕ) (ms : List HarborMsg)
    → WaitsForName h name ms
    → AskedAll h name (ms ++ map unaddressed rs) rs (ask_all h name rs)
ask_all-AskedAll [] h name ms w = record {
  next = h;
  returns = refl;
  waits = subst (WaitsForName h name) (sym (append-nil ms)) w;
  slaves = refl;
}
ask_all-AskedAll (r ∷ rs) h name ms w =
    let a = remote_send_name-Asked h name ms r w in
    let b = ask_all-AskedAll rs a.next name (ms ++ unaddressed r ∷ []) a.waits in
    let same : map (λ (m : ToName). question a.next name) rs ≡ map (λ m. question h name) rs =
      ap (λ k. map (λ (m : ToName). sent 0 k ptype_text 0 (81 ∷ 32 ∷ name)) rs) a.slave in
    record {
      next = b.next;
      returns = rw a.returns (rw b.returns (ap (λ k. some (question h name ∷ k, b.next)) same));
      waits =
          subst (WaitsForName b.next name)
            (append_assoc ms (unaddressed r ∷ []) (map unaddressed rs)) b.waits;
      slaves = b.slaves ∙ a.slaves;
    }

-- The name has the handle, and its messages have been written.
pub record Known (h : Harbor) (name : List ℕ) (handle : ℕ) (out : List Effect) (r : Done)
    : Type 0 where
  pub next : Harbor
  pub returns : r ≡ some (out, next)
  pub value : (search_or_insert next name).0.value ≡ handle
  pub empty : (search_or_insert next name).0.queue ≡ none
  pub slaves : next.slaves ≡ h.slaves

abbrev pub addressed : Harbor → ℕ → HarborMsg → Effect
addressed h handle m =
    send_msg (h.slaves (handle / 2 ^ handle_remote_shift)).fd (address_msg handle m)

waiting-Written :
    (h : Harbor) (handle : ℕ) (o : Option HarborMsgQueue) (ms : List HarborMsg)
    → Holds o ms
    → handle / 2 ^ handle_remote_shift ≢ 0
    → (h.slaves (handle / 2 ^ handle_remote_shift)).fd ≢ 0
    → ◌≡◌ {A = Done}
        (elim o [ none ↦ some ([], h) | some queue ↦ dispatch_name_queue h handle queue ])
        (some (map (addressed h handle) ms, h))
unfolding dispatch_name_queue
waiting-Written h handle none ms holds named open_ = rw holds
waiting-Written h handle (some q) ms (valid, messages) named open_ =
    let a : (handle / 2 ^ handle_remote_shift == 0) ≡ false =
      ≢→== (handle / 2 ^ handle_remote_shift) 0 named in
    let b : ((h.slaves (handle / 2 ^ handle_remote_shift)).fd == 0) ≡ false =
      ≢→== (h.slaves (handle / 2 ^ handle_remote_shift)).fd 0 open_ in
    rw (a, b) (ap (λ k. some (map (addressed h handle) k, h)) (pop_all-waiting q valid ∙ messages))

update_name-Known :
    (h : Harbor) (name : List ℕ) (handle : ℕ) (ms : List HarborMsg)
    → WaitsForName h name ms
    → handle / 2 ^ handle_remote_shift ≢ 0
    → (h.slaves (handle / 2 ^ handle_remote_shift)).fd ≢ 0
    → Known h name handle (map (addressed h handle) ms) (update_name h name handle)
unfolding update_name write_node
update_name-Known h name handle ms w named open_ =
    let e = entry h name (hash_search h name) refl in
    let (node, h') = search_or_insert h name in
    let new : KeyValue = record node { value = handle; queue = none } in
    let again =
      search_or_insert-write_node h' name node new e.found
        (record { hashed = e.node.hashed; named = e.node.named }) in
    record {
      next = write_node h' new;
      returns =
          waiting-Written (write_node h' new) handle node.queue ms w.holds named (rw e.slaves open_)
          ∙ ap
              (λ k. some (
                map (λ m. send_msg (k (handle / 2 ^ handle_remote_shift)).fd (address_msg handle m))
                    ms,
                write_node h' new,
              ))
              e.slaves;
      value = rw again;
      empty = rw again;
      slaves = e.slaves;
    }

-- What is written for the message when it is sent to the handle itself.
abbrev pub direct : ℕ → ℕ → ToName → Effect
direct fd handle r = send_remote fd r.msg (remote_header r.source handle r.type r.session)

abbrev pub HaveTypes : List ToName → Type 0
HaveTypes [] = Unit {0}
HaveTypes (r ∷ rs) = (r.type < 2 ^ 8) × HaveTypes rs

tag_order :
    (handle type : ℕ)
    → type < 2 ^ 8
    → bit_or (type * 2 ^ handle_remote_shift % 2 ^ 32) (bit_and handle handle_mask)
      ≡ bit_or (bit_and handle handle_mask) (type * 2 ^ handle_remote_shift % 2 ^ 32)
tag_order handle type h =
    let low : bit_and handle handle_mask ≡ handle % 2 ^ 24 = bit_and_mask 24 handle in
    let high : type * 2 ^ handle_remote_shift % 2 ^ 32 ≡ type * 2 ^ 24 = omega arith in
    rw (low, high)
      (bit_or_low_digits 24 type (handle % 2 ^ 24) (omega arith)
        ∙ sym (bit_or_high 24 type (handle % 2 ^ 24) (omega arith)))

addressed-direct :
    (h : Harbor) (handle : ℕ) (rs : List ToName)
    → HaveTypes rs
    → map (addressed h handle) (map unaddressed rs)
      ≡ map (direct (h.slaves (handle / 2 ^ handle_remote_shift)).fd handle) rs
addressed-direct h handle [] types = refl
addressed-direct h handle (r ∷ rs) (type, types) =
    rw (tag_order handle r.type type, addressed-direct h handle rs types)

-- Messages to a global name that has no handle wait, and the service asks for the handle at each
-- of them. When the name gets a handle of a connected node, they are written to its socket, all
-- of them and in order, just as if they had been sent to this handle, and from then on the
-- name has the handle and nothing waits for it.
pub update_name-Sends :
    (h : Harbor) (name : List ℕ) (handle : ℕ) (rs : List ToName)
    → WaitsForName h name []
    → HaveTypes rs
    → handle / 2 ^ handle_remote_shift ≢ 0
    → (h.slaves (handle / 2 ^ handle_remote_shift)).fd ≢ 0
    → (next : Harbor) × (ask_all h name rs ≡ some (map (λ m. question h name) rs, next))
      × Known next name handle
          (map (direct (h.slaves (handle / 2 ^ handle_remote_shift)).fd handle) rs)
          (update_name next name handle)
update_name-Sends h name handle rs w types named open_ =
    let a = ask_all-AskedAll rs h name [] w in
    let open' : (a.next.slaves (handle / 2 ^ handle_remote_shift)).fd ≢ 0 = rw a.slaves open_ in
    let k = update_name-Known a.next name handle (map unaddressed rs) a.waits named open' in
    let same : map (addressed a.next handle) (map unaddressed rs)
        ≡ map (direct (h.slaves (handle / 2 ^ handle_remote_shift)).fd handle) rs =
      addressed-direct a.next handle rs types
      ∙ ap (λ s. map (direct (s (handle / 2 ^ handle_remote_shift)).fd handle) rs) a.slaves in
    (
      a.next,
      a.returns,
      subst (λ out. Known a.next name handle out (update_name a.next name handle)) same k,
    )
