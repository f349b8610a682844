-- ===== src/HarborService/Down.antt =====
-- Messages to nodes whose connection service-src/service_harbor.c has closed.
use pskynet.Prelude.{
  ℕ, ◌*◌, ◌%◌, ◌/◌, ◌^◌, ◌≡◌, ◌≢◌, refl, sym, subst, ◌∙◌, Bool, true, false, ◌||◌, List, [], ◌∷◌,
  Option, none, some, ◌==◌, leb, ==_refl, ≢→==, Bool-cases, inl, inr, length,
}
use pskynet.Message.{handle_remote_shift}
use pskynet.HarborService.{
  Header, HarborMsgQueue, KeyValue, wait, handshake, header, down, Slave, Harbor, Effect, started,
  Done, push_queue, global_name_length, remote_max,
}
use pskynet.HarborService.Slaves.{put_slave, send_remote, dispatch_queue}
use pskynet.HarborService.Names.{search_or_insert, write_node, hash_search}
use pskynet.HarborService.Mainloop.{
  Command, new_name, connect_to, accept_from, unknown, Input, socket_data, socket_closed,
  socket_connect, command, to_name, to_handle, is_down, is_handshake, remote_header, queue_or_new,
  join_queue, dispatch_name_queue, update_name, remote_send_handle, remote_send_name,
  send_handshake, open_slave, harbor_command, mainloop, new_harbor,
}
use pskynet.HarborService.Opened.{
  AreOpened, Keeps, stopped, keeps, put_slave-AreOpened, behind-Keeps, if-Keeps, with_socket,
  KeepsSocket, stopped_before, keeps_socket, dispatch_queue-KeepsSocket, push_socket_data-Keeps,
}

found-AreOpened :
    (h : Harbor) (name : List ℕ) (o : Option KeyValue)
    → hash_search h name ≡ o
    → AreOpened h
    → AreOpened (search_or_insert h name).1
unfolding search_or_insert
found-AreOpened h name none e all = rw (e, search_or_insert) all
found-AreOpened h name (some node) e all = rw (e, search_or_insert) all

search_or_insert-AreOpened :
    (h : Harbor) (name : List ℕ) → AreOpened h → AreOpened (search_or_insert h name).1
search_or_insert-AreOpened h name all = found-AreOpened h name (hash_search h name) refl all

write_node-AreOpened : (h : Harbor) (node : KeyValue) → AreOpened h → AreOpened (write_node h node)
unfolding write_node
write_node-AreOpened h node all = all

dispatch_name_queue-Keeps :
    (h : Harbor) (handle : ℕ) (queue : HarborMsgQueue)
    → AreOpened h
    → Keeps (dispatch_name_queue h handle queue)
unfolding dispatch_name_queue
dispatch_name_queue-Keeps h handle queue all =
    let id = handle / 2 ^ handle_remote_shift in
    let s : Slave = h.slaves id in
    if-Keeps (id == 0) stopped (
      if-Keeps (s.fd == 0)
        (if-Keeps (is_down s.status) (keeps all) (
          keeps (
            put_slave-AreOpened h id (record s { queue = some (join_queue s.queue queue) }) all
              (all id))))
        (keeps all))

waiting-Keeps :
    (h : Harbor) (handle : ℕ) (o : Option HarborMsgQueue)
    → AreOpened h
    → Keeps (elim o [ none ↦ some ([], h) | some queue ↦ dispatch_name_queue h handle queue ])
waiting-Keeps h handle none all = keeps all
waiting-Keeps h handle (some queue) all = dispatch_name_queue-Keeps h handle queue all

update_name-Keeps :
    (h : Harbor) (name : List ℕ) (handle : ℕ) → AreOpened h → Keeps (update_name h name handle)
unfolding update_name
update_name-Keeps h name handle all =
    let (node, h') = search_or_insert h name in
    let new : KeyValue = record node { value = handle; queue = none } in
    waiting-Keeps (write_node h' new) handle node.queue
      (write_node-AreOpened h' new (search_or_insert-AreOpened h name all))

remote_send_handle-Keeps :
    (h : Harbor) (source destination type session : ℕ) (msg : List ℕ)
    → AreOpened h
    → Keeps (remote_send_handle h source destination type session msg)
unfolding remote_send_handle
remote_send_handle-Keeps h source destination type session msg all =
    let id = destination / 2 ^ handle_remote_shift in
    let s : Slave = h.slaves id in
    let hd = remote_header source destination type session in
    if-Keeps (id == h.id) (keeps all) (
      if-Keeps (s.fd == 0 || is_handshake s.status)
        (if-Keeps (is_down s.status) (keeps all) (
          keeps (
            put_slave-AreOpened h id
              (record s { queue = some (push_queue (queue_or_new s.queue) msg hd) }) all (all id))))
        (keeps all))

remote_send_name-Keeps :
    (h : Harbor) (source : ℕ) (name : List ℕ) (type session : ℕ) (msg : List ℕ)
    → AreOpened h
    → Keeps (remote_send_name h source name type session msg)
unfolding remote_send_name
remote_send_name-Keeps h source name type session msg all =
    let (node, h') = search_or_insert h name in
    let all' : AreOpened h' = search_or_insert-AreOpened h name all in
    let hd : Header = record {
      source = source;
      destination = type * 2 ^ handle_remote_shift % 2 ^ 32;
      session = session;
    } in
    let new : KeyValue = record node {
      queue = some (push_queue (queue_or_new node.queue) msg hd);
    } in
    if-Keeps (node.value == 0) (keeps (write_node-AreOpened h' new all'))
      (remote_send_handle-Keeps h' source node.value type session msg all')

socket-Keeps : (id : ℕ) {r : Done} → KeepsSocket id r → Keeps r
socket-Keeps id stopped_before = stopped
socket-Keeps id (keeps_socket all apart) = keeps all

open_slave-Keeps :
    (h : Harbor) (fd id : ℕ) (begin_ : Slave → Slave) (last : Harbor → Done)
    → AreOpened h
    → ((s : Slave) → (begin_ s).fd ≡ s.fd)
    → ((h' : Harbor) → AreOpened h' → (h'.slaves id).fd ≢ 0 → Keeps (last h'))
    → Keeps (open_slave h fd id begin_ last)
unfolding open_slave
open_slave-Keeps h fd id begin_ last all same then_ =
    let s : Slave = record (h.slaves id) { fd = fd } in
    elim (Bool-cases (fd == 0)) [
      | inl t ↦ rw t (keeps all)
      | inr f ↦
          let apart : (begin_ s).fd ≢ 0 = λ e.
            let z : fd ≡ 0 = sym (same s) ∙ e in
            let t : (fd == 0) ≡ true = rw z (==_refl 0) in let b : true ≡ false = sym t ∙ f in cc in
          if-Keeps (fd == 0 || (id == 0 || leb remote_max id)) (keeps all) (
            if-Keeps ((h.slaves id).fd == 0)
              (behind-Keeps (started fd ∷ send_handshake (put_slave h id (begin_ s)) id ∷ []) (
                then_ (put_slave h id (begin_ s))
                  (put_slave-AreOpened h id (begin_ s) all (with_socket (begin_ s) apart))
                  (rw (==_refl id) apart)))
              (keeps all))
    ]

harbor_command-Keeps :
    (h : Harbor) (c : Command) (source : ℕ) → AreOpened h → Keeps (harbor_command h c source)
unfolding harbor_command
harbor_command-Keeps h (new_name name) source all =
    if-Keeps (length name == 0 || leb global_name_length (length name)) (keeps all)
      (update_name-Keeps h name source all)
harbor_command-Keeps h (connect_to fd id) source all =
    open_slave-Keeps h fd id (λ s. record s { status = handshake }) (λ h'. some ([], h')) all
      (λ s. refl) (λ h' all' apart. keeps all')
harbor_command-Keeps h (accept_from fd id) source all =
    open_slave-Keeps h fd id (λ s. record s { status = header }) (λ h'. dispatch_queue h' id) all
      (λ s. refl) (λ h' all' apart. socket-Keeps id (dispatch_queue-KeepsSocket h' id all' apart))
harbor_command-Keeps h unknown source all = keeps all

mainloop-Keeps :
    (reachable : ℕ → Bool) (down_text : ℕ → List ℕ) (h : Harbor) (i : Input)
    → AreOpened h
    → Keeps (mainloop reachable down_text h i)
unfolding mainloop
mainloop-Keeps reachable down_text h (socket_data fd buffer) all =
    push_socket_data-Keeps reachable h fd buffer all
mainloop-Keeps reachable down_text h (socket_closed fd) all = keeps all
mainloop-Keeps reachable down_text h socket_connect all = keeps all
mainloop-Keeps reachable down_text h (command c source) all = harbor_command-Keeps h c source all
mainloop-Keeps reachable down_text h (to_name source name type session msg) all =
    remote_send_name-Keeps h source name type session msg all
mainloop-Keeps reachable down_text h (to_handle source destination type session msg) all =
    remote_send_handle-Keeps h source destination type session msg all

-- The harbor after some messages, with the services that can be reached at each of them.
pub data Reached (down_text : ℕ → List ℕ) (start : Harbor) : Harbor → Type 0 where
  begun : Reached down_text start start
  after :
      {h next : Harbor} (reachable : ℕ → Bool) (i : Input) (out : List Effect)
      → Reached down_text start h
      → mainloop reachable down_text h i ≡ some (out, next)
      → Reached down_text start next

Keeps-some : (out : List Effect) (h : Harbor) → Keeps (some (out, h)) → AreOpened h
Keeps-some out h (keeps all) = all

Reached-AreOpened :
    (down_text : ℕ → List ℕ) (start h : Harbor)
    → AreOpened start
    → Reached down_text start h
    → AreOpened h
Reached-AreOpened down_text start h all begun = all
Reached-AreOpened down_text start next all (after {h} reachable i out r e) = Keeps-some out next (
    subst Keeps e
      (mainloop-Keeps reachable down_text h i (Reached-AreOpened down_text start h all r)))

new_harbor-AreOpened : (id slave : ℕ) → AreOpened (new_harbor id slave)
unfolding new_harbor
new_harbor-AreOpened id slave i e = refl

-- In every harbor that messages lead to, a node whose connection has been closed keeps the number
-- of its socket, and a message to it is written to this socket: no error is sent to the source.
pub remote_send_handle-closed :
    (down_text : ℕ → List ℕ) (id slave : ℕ) (h : Harbor) (source destination type session : ℕ)
    (msg : List ℕ)
    → Reached down_text (new_harbor id slave) h
    → (h.slaves (destination / 2 ^ 24)).status ≡ down
    → destination / 2 ^ 24 ≢ h.id
    → ((h.slaves (destination / 2 ^ 24)).fd ≢ 0)
      × (remote_send_handle h source destination type session msg
          ≡ some (
            send_remote
                  (h.slaves (destination / 2 ^ 24)).fd
                  msg
                  (remote_header source destination type session)
                ∷ [],
            h,
          ))
unfolding remote_send_handle
remote_send_handle-closed down_text id slave h source destination type session msg r gone other =
    let all =
      Reached-AreOpened down_text (new_harbor id slave) h (new_harbor-AreOpened id slave) r in
    let s : Slave = h.slaves (destination / 2 ^ 24) in
    let apart : s.fd ≢ 0 =
      λ z. let w : s.status ≡ wait = all (destination / 2 ^ 24) z in let b = sym gone ∙ w in cc in
    let a : (destination / 2 ^ 24 == h.id) ≡ false = ≢→== (destination / 2 ^ 24) h.id other in
    let b : (s.fd == 0) ≡ false = ≢→== s.fd 0 apart in (apart, rw a (rw (b, gone)))
