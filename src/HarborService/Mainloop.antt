-- ===== src/HarborService/Mainloop.antt =====
-- service-src/service_harbor.c: messages to other nodes, and the commands of the service.
use pskynet.Prelude.{
  ℕ, ◌*◌, ◌/◌, ◌%◌, ◌^◌, Bool, true, false, ◌||◌, List, [], ◌∷◌, map, Option, none, some, bit_and,
  bit_or, ◌==◌, leb, if◌then◌else◌, length,
}
use pskynet.Message.{handle_mask, handle_remote_shift}
use pskynet.HarborService.{
  Header, HarborMsg, HarborMsgQueue, Status, wait, handshake, header, content, down, Slave, Harbor,
  Effect, sent, written, started, logged, Done, remote_max, global_name_length, push_queue_msg,
  push_queue, new_queue, pop_all,
}
use pskynet.HarborService.Slaves.{
  ptype_error, ptype_text, ptype_tag_dontcopy, put_slave, report_harbor_down, send_remote, send_msg,
  dispatch_queue, push_socket_data, harbor_id, behind,
}
use pskynet.HarborService.Names.{search_or_insert, write_node}

abbrev pub is_down : Status → Bool
is_down down = true
is_down wait = false
is_down handshake = false
is_down header = false
is_down content = false

abbrev pub is_handshake : Status → Bool
is_handshake handshake = true
is_handshake wait = false
is_handshake header = false
is_handshake content = false
is_handshake down = false

abbrev pub push_all : HarborMsgQueue → List HarborMsg → HarborMsgQueue
push_all q [] = q
push_all q (m ∷ ms) = push_all (push_queue_msg q m) ms

-- The queue of a slave, behind which the messages of a name are put.
abbrev pub join_queue : Option HarborMsgQueue → HarborMsgQueue → HarborMsgQueue
join_queue none queue = queue
join_queue (some q) queue = push_all q (pop_all queue).0

-- A queued message of a name gets the rest of its destination.
abbrev pub address_msg : ℕ → HarborMsg → HarborMsg
address_msg handle m = record m {
  header = record m.header {
    destination = bit_or m.header.destination (bit_and handle handle_mask);
  };
}

-- `dispatch_name_queue` for a queue of a name with the handle; `none` is the failed assertion.
unfoldable pub dispatch_name_queue : Harbor → ℕ → HarborMsgQueue → Done
dispatch_name_queue h handle queue =
    let id = handle / 2 ^ handle_remote_shift in
    let s = h.slaves id in
    if id == 0
    then none
    else if s.fd == 0
    then (if is_down s.status
        then some (logged ∷ [], h)
        else some ([], put_slave h id (record s { queue = some (join_queue s.queue queue) })))
    else some (map (λ m. send_msg s.fd (address_msg handle m)) (pop_all queue).0, h)

unfoldable pub update_name : Harbor → List ℕ → ℕ → Done
update_name h name handle =
    let (node, h') = search_or_insert h name in
    let named : Harbor = write_node h' (record node { value = handle; queue = none }) in
    elim node.queue [
      | none ↦ some ([], named)
      | some queue ↦ dispatch_name_queue named handle queue
    ]

-- The header of a message to the handle.
abbrev pub remote_header : ℕ → ℕ → ℕ → ℕ → Header
remote_header source destination type session = record {
  source = source;
  destination = bit_or (bit_and destination handle_mask) (type * 2 ^ handle_remote_shift % 2 ^ 32);
  session = session;
}

abbrev pub queue_or_new : Option HarborMsgQueue → HarborMsgQueue
queue_or_new none = new_queue
queue_or_new (some q) = q

unfoldable pub remote_send_handle : Harbor → ℕ → ℕ → ℕ → ℕ → List ℕ → Done
remote_send_handle h source destination type session msg =
    let id = destination / 2 ^ handle_remote_shift in
    let s = h.slaves id in
    let hd = remote_header source destination type session in
    if id == h.id
    then some (sent source destination (bit_or type ptype_tag_dontcopy) session msg ∷ [], h)
    else if s.fd == 0 || is_handshake s.status
    then (if is_down s.status
        then some (sent destination source ptype_error 0 [] ∷ logged ∷ [], h)
        else some (
          [],
          put_slave h id (record s { queue = some (push_queue (queue_or_new s.queue) msg hd) }),
        ))
    else some (send_remote s.fd msg hd ∷ [], h)

-- The text "Q name" is two bytes and the name.
unfoldable pub remote_send_name : Harbor → ℕ → List ℕ → ℕ → ℕ → List ℕ → Done
remote_send_name h source name type session msg =
    let (node, h') = search_or_insert h name in
    let hd : Header = record {
      source = source;
      destination = type * 2 ^ handle_remote_shift % 2 ^ 32;
      session = session;
    } in
    let queue = push_queue (queue_or_new node.queue) msg hd in
    if node.value == 0
    then some (
      sent 0 h.slave ptype_text 0 (81 ∷ 32 ∷ name) ∷ [],
      write_node h' (record node { queue = some queue }),
    )
    else remote_send_handle h' source node.value type session msg

-- `handshake`
unfoldable pub send_handshake : Harbor → ℕ → Effect
send_handshake h id = written (h.slaves id).fd (h.id % 2 ^ 8 ∷ [])

-- A command: "N name", "S fd id" or "A fd id" with what `sscanf` reads, or another one.
pub data Command : Type 0 where
  new_name : List ℕ → Command
  connect_to : (fd id : ℕ) → Command
  accept_from : (fd id : ℕ) → Command
  unknown : Command

-- The commands S and A; the next one is what the case does last.
unfoldable pub open_slave : Harbor → ℕ → ℕ → (Slave → Slave) → (Harbor → Done) → Done
open_slave h fd id begin_ last =
    let s = h.slaves id in
    let opened : Harbor = put_slave h id (begin_ (record s { fd = fd })) in
    if fd == 0 || (id == 0 || leb remote_max id)
    then some (logged ∷ [], h)
    else if s.fd == 0
    then behind (started fd ∷ send_handshake opened id ∷ []) (last opened)
    else some (logged ∷ [], h)

-- `harbor_command`; a negative id is read as 0, which is refused as well.
unfoldable pub harbor_command : Harbor → Command → ℕ → Done
harbor_command h (new_name name) source =
    if length name == 0 || leb global_name_length (length name)
    then some (logged ∷ [], h)
    else update_name h name source
harbor_command h (connect_to fd id) source =
    open_slave h fd id (λ s. record s { status = handshake }) (λ h'. some ([], h'))
harbor_command h (accept_from fd id) source =
    open_slave h fd id (λ s. record s { status = header }) (λ h'. dispatch_queue h' id)
harbor_command h unknown source = some (logged ∷ [], h)

-- The messages of `mainloop`.
pub data Input : Type 0 where
  socket_data : (fd : ℕ) (buffer : List ℕ) → Input
  socket_closed : (fd : ℕ) → Input
  socket_connect : Input
  command : Command → (source : ℕ) → Input
  to_name : (source : ℕ) (name : List ℕ) (type session : ℕ) (msg : List ℕ) → Input
  to_handle : (source destination type session : ℕ) (msg : List ℕ) → Input

unfoldable pub mainloop : (ℕ → Bool) → (ℕ → List ℕ) → Harbor → Input → Done
mainloop reachable down_text h (socket_data fd buffer) = push_socket_data reachable h fd buffer
mainloop reachable down_text h (socket_closed fd) =
    let id = harbor_id h fd in
    some (if id == 0 then logged ∷ [] else report_harbor_down down_text h id, h)
mainloop reachable down_text h socket_connect = some ([], h)
mainloop reachable down_text h (command c source) = harbor_command h c source
mainloop reachable down_text h (to_name source name type session msg) =
    remote_send_name h source name type session msg
mainloop reachable down_text h (to_handle source destination type session msg) =
    remote_send_handle h source destination type session msg

-- `harbor_create` and `harbor_init`
unfoldable pub new_harbor : ℕ → ℕ → Harbor
new_harbor id slave = record {
  id = id;
  slave = slave;
  map_nodes = λ i. [];
  slaves =
      λ i. record { fd = 0; queue = none; status = wait; length = 0; size = []; recv_buffer = [] };
}
