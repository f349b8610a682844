-- ===== src/HarborService/Opened.antt =====
-- Closed connections of service-src/service_harbor.c.
use pskynet.Prelude.{
  ℕ, zero, suc, ◌+◌, ◌-◌, ◌*◌, ◌^◌, ◌≡◌, ◌≢◌, refl, sym, ◌∙◌, Bool, true, false, not, List, [], ◌∷◌,
  ◌++◌, Option, none, some, ◌>>=◌, bit_or, ◌==◌, ltb, if◌then◌else◌, ==_refl, ≢→==, Bool-cases, inl,
  inr, length, take, drop,
}
use pskynet.Prelude.Bytes.{byte_at}
use pskynet.HarborService.{
  HarborMsgQueue, Status, wait, handshake, header, content, down, Slave, Harbor, Effect, Done,
}
use pskynet.HarborService.Slaves.{
  put_slave, close_harbor, flush_queue, dispatch_slave, dispatch_queue, behind,
  forward_local_message, content_step, header_step, handshake_step, status_step, feed,
  push_socket_data, harbor_id,
}

-- A slave without a socket has never had one.
abbrev pub IsOpened : Slave → Type 0
IsOpened s = s.fd ≡ 0 → s.status ≡ wait

abbrev pub AreOpened : Harbor → Type 0
AreOpened h = (i : ℕ) → IsOpened (h.slaves i)

pub data Keeps : Done → Type 0 where
  stopped : Keeps none
  keeps : {out : List Effect} {h : Harbor} → AreOpened h → Keeps (some (out, h))

pub put_slave-AreOpened :
    (h : Harbor) (id : ℕ) (s : Slave) → AreOpened h → IsOpened s → AreOpened (put_slave h id s)
put_slave-AreOpened h id s all one i = elim (Bool-cases (id == i)) [
  | inl t ↦ rw t one
  | inr f ↦ rw f (all i)
]

pub behind-Keeps : (out : List Effect) {r : Done} → Keeps r → Keeps (behind out r)
behind-Keeps out stopped = stopped
behind-Keeps out (keeps all) = keeps all

pub if-Keeps : (b : Bool) {x y : Done} → Keeps x → Keeps y → Keeps (if b then x else y)
if-Keeps true kx ky = kx
if-Keeps false kx ky = ky

bind-Keeps :
    (o : Option (List Effect)) {r : List Effect → Done}
    → ((out : List Effect) → Keeps (r out))
    → Keeps (o >>= r)
bind-Keeps none k = stopped
bind-Keeps (some out) k = k out

pub with_socket : (s : Slave) → s.fd ≢ 0 → IsOpened s
with_socket s apart e = elim (apart e) [ ]

close_harbor-AreOpened :
    (h : Harbor) (id : ℕ) → AreOpened h → (h.slaves id).fd ≢ 0 → AreOpened (close_harbor h id).1
unfolding close_harbor
close_harbor-AreOpened h id all apart =
    let s : Slave = record (h.slaves id) { status = down; queue = none } in
    put_slave-AreOpened h id s all (with_socket s apart)

-- And the slave has its socket.
pub data KeepsSocket (id : ℕ) : Done → Type 0 where
  stopped_before : KeepsSocket id none
  keeps_socket :
      {out : List Effect} {h : Harbor}
      → AreOpened h
      → (h.slaves id).fd ≢ 0
      → KeepsSocket id (some (out, h))

flush_queue-KeepsSocket :
    (h : Harbor) (id : ℕ) (s : Slave) (o : Option HarborMsgQueue)
    → AreOpened h
    → h.slaves id ≡ s
    → s.fd ≢ 0
    → KeepsSocket id (flush_queue h id s o)
unfolding flush_queue
flush_queue-KeepsSocket h id s none all same apart = keeps_socket all (rw same apart)
flush_queue-KeepsSocket h id s (some queue) all same apart =
    let t : Slave = record s { queue = none } in
    keeps_socket (put_slave-AreOpened h id t all (with_socket t apart)) (rw (==_refl id) apart)

pub dispatch_queue-KeepsSocket :
    (h : Harbor) (id : ℕ)
    → AreOpened h
    → (h.slaves id).fd ≢ 0
    → KeepsSocket id (dispatch_queue h id)
unfolding dispatch_queue dispatch_slave
dispatch_queue-KeepsSocket h id all apart =
    let e : ((h.slaves id).fd == 0) ≡ false = ≢→== (h.slaves id).fd 0 apart in
    rw e (flush_queue-KeepsSocket h id (h.slaves id) (h.slaves id).queue all refl apart)

-- The next round of the `for` keeps it.
abbrev Rounds : (Harbor → List ℕ → Done) → Type 0
Rounds again = (h : Harbor) (rest : List ℕ) → AreOpened h → Keeps (again h rest)

module _ (reachable : ℕ → Bool) (again : Harbor → List ℕ → Done) (rounds : Rounds again) where
  content_step-Keeps :
      (h : Harbor) (id : ℕ) (buffer : List ℕ)
      → AreOpened h
      → (h.slaves id).fd ≢ 0
      → Keeps (content_step reachable again h id buffer)
  unfolding content_step
  content_step-Keeps h id buffer all apart =
      let s : Slave = h.slaves id in
      let need = s.length - length s.recv_buffer in
      let rest = drop need buffer in
      let t : Slave = record s { length = 0; recv_buffer = []; status = header } in
      let u : Slave = record s { recv_buffer = s.recv_buffer ++ buffer } in
      let next = put_slave-AreOpened h id t all (with_socket t apart) in
      if-Keeps (ltb (length buffer) need)
        (keeps (put_slave-AreOpened h id u all (with_socket u apart)))
        (bind-Keeps (forward_local_message reachable h (s.recv_buffer ++ take need buffer)) (λ out.
          behind-Keeps out
            (if-Keeps (length rest == 0) (keeps next) (rounds (put_slave h id t) rest next))))

  header_step-Keeps :
      (h : Harbor) (id : ℕ) (buffer : List ℕ)
      → AreOpened h
      → (h.slaves id).fd ≢ 0
      → Keeps (header_step reachable again h id buffer)
  unfolding header_step
  header_step-Keeps h id buffer all apart =
      let s : Slave = h.slaves id in
      let need = 4 - length s.size in
      let rest = drop need buffer in
      let size = s.size ++ take need buffer in
      let n = bit_or (bit_or (byte_at size 1 * 2 ^ 16) (byte_at size 2 * 2 ^ 8)) (byte_at size 3) in
      let t : Slave = record s { size = []; recv_buffer = []; length = n; status = content } in
      let u : Slave = record s { size = s.size ++ buffer } in
      let next = put_slave-AreOpened h id t all (with_socket t apart) in
      let here : ((put_slave h id t).slaves id).fd ≢ 0 = rw (==_refl id) apart in
      if-Keeps (ltb (length buffer) need)
        (keeps (put_slave-AreOpened h id u all (with_socket u apart)))
        (if-Keeps (byte_at size 0 == 0)
          (if-Keeps (length rest == 0) (keeps next)
            (content_step-Keeps (put_slave h id t) id rest next here))
          (keeps (close_harbor-AreOpened h id all apart)))

  shaken-Keeps :
      (id : ℕ) (buffer : List ℕ) {r : Done}
      → KeepsSocket id r
      → Keeps (
          r >>= λ p.
          behind p.0 (
            if length buffer == 0 then again p.1 [] else header_step reachable again p.1 id buffer))
  shaken-Keeps id buffer stopped_before = stopped
  shaken-Keeps id buffer (keeps_socket {out} {h} all apart) =
      behind-Keeps out
        (if-Keeps (length buffer == 0) (rounds h [] all) (header_step-Keeps h id buffer all apart))

  handshake_step-Keeps :
      (h : Harbor) (id : ℕ) (buffer : List ℕ)
      → AreOpened h
      → (h.slaves id).fd ≢ 0
      → Keeps (handshake_step reachable again h id buffer)
  unfolding handshake_step
  handshake_step-Keeps h id [] all apart = stopped
  handshake_step-Keeps h id (remote_id ∷ buffer) all apart =
      let s : Slave = record (h.slaves id) { status = header } in
      let next = put_slave-AreOpened h id s all (with_socket s apart) in
      if-Keeps (not (remote_id == id)) (keeps (close_harbor-AreOpened h id all apart)) (
        shaken-Keeps id buffer
          (dispatch_queue-KeepsSocket (put_slave h id s) id next (rw (==_refl id) apart)))

  status_step-Keeps :
      (st : Status) (h : Harbor) (id : ℕ) (buffer : List ℕ)
      → (h.slaves id).status ≡ st
      → AreOpened h
      → Keeps (status_step reachable st again h id buffer)
  status_step-Keeps wait h id buffer e all = keeps all
  status_step-Keeps down h id buffer e all = keeps all
  status_step-Keeps handshake h id buffer e all =
      handshake_step-Keeps h id buffer all
        (λ z. let w : (h.slaves id).status ≡ wait = all id z in let b = sym e ∙ w in cc)
  status_step-Keeps header h id buffer e all =
      header_step-Keeps h id buffer all
        (λ z. let w : (h.slaves id).status ≡ wait = all id z in let b = sym e ∙ w in cc)
  status_step-Keeps content h id buffer e all =
      content_step-Keeps h id buffer all
        (λ z. let w : (h.slaves id).status ≡ wait = all id z in let b = sym e ∙ w in cc)

feed-Keeps :
    (reachable : ℕ → Bool) (fuel id : ℕ) (h : Harbor) (buffer : List ℕ)
    → AreOpened h
    → Keeps (feed reachable fuel id h buffer)
unfolding feed
feed-Keeps reachable zero id h buffer all = stopped
feed-Keeps reachable (suc fuel) id h buffer all =
    status_step-Keeps reachable (λ h' rest. feed reachable fuel id h' rest)
      (λ h' rest all'. feed-Keeps reachable fuel id h' rest all') (h.slaves id).status h id buffer
      refl all

pub push_socket_data-Keeps :
    (reachable : ℕ → Bool) (h : Harbor) (fd : ℕ) (buffer : List ℕ)
    → AreOpened h
    → Keeps (push_socket_data reachable h fd buffer)
unfolding push_socket_data
push_socket_data-Keeps reachable h fd buffer all =
    if-Keeps (harbor_id h fd == 0) (keeps all)
      (feed-Keeps reachable (length buffer + 2) (harbor_id h fd) h buffer all)
