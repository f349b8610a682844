-- ===== src/Server.antt =====
-- src/sn_server.cpp and src/sn_harbor.cpp: services and the sending of messages between them.
pub mod Sizes
pub mod Send
pub mod Dispatch
pub mod Delivery
pub mod Commands
pub mod Launch
mod Tests
use Prim.Native.String.{String}
use pskynet.Prelude.{
  ℕ, ◌+◌, ◌-◌, ◌*◌, ◌/◌, ◌%◌, ◌^◌, Bool, true, false, not, ◌&&◌, ◌||◌, List, [], ◌∷◌, ◌++◌, Option,
  none, some, ◌>>=◌, bit_and, bit_or, ◌==◌, ltb, leb, if◌then◌else◌, take,
}
use pskynet.Message.{Message, handle_mask, handle_remote_shift}
use pskynet.Handle.{HandleMgr, find_context, find_name}
use pskynet.Mq.System.{System, send_to}

-- The types of include/skynet.h that the code compares with.
abbrev pub ptype_client : ℕ
ptype_client = 3

abbrev pub ptype_system : ℕ
ptype_system = 4

abbrev pub ptype_harbor : ℕ
ptype_harbor = 5

abbrev pub ptype_error : ℕ
ptype_error = 7

abbrev pub ptype_tag_dontcopy : ℕ
ptype_tag_dontcopy = 0x10000

abbrev pub ptype_tag_allocsession : ℕ
ptype_tag_allocsession = 0x20000

-- The fields of `SNContext` that change; `queue` is the address of its message queue, and
-- `session_id` an int by its bit pattern.
pub record Context : Type 0 where
  pub handle : ℕ
  pub queue : ℕ
  pub session_id : ℕ
  pub has_callback : Bool
  pub endless : Bool

-- `name` is the field of 16 bytes in `remote_name`, without the zeros at its end.
pub record RemoteMessage : Type 0 where
  pub name : List ℕ
  pub handle : ℕ
  pub message : Option ℕ
  pub sz : ℕ

-- sizeof(remote_message)
abbrev pub remote_message_size : ℕ
remote_message_size = 40

-- A context is named by its address. `remote` and `harbor` are REMOTE and HARBOR of sn_harbor.cpp;
-- `remote_messages` is what stands at the addresses of remote messages, and `memory` has the bytes at
-- the addresses of messages' data. `deleted` has the message queues that do not exist any more.
pub record Server : Type 0 where
  pub handles : HandleMgr
  pub contexts : ℕ → Context
  pub system : System
  pub remote : Option ℕ
  pub harbor : ℕ
  pub monitor_exit : ℕ
  pub remote_messages : ℕ → RemoteMessage
  pub memory : ℕ → List ℕ
  pub deleted : List ℕ

abbrev pub set {ℓ} : {A : Type ℓ} → (ℕ → A) → ℕ → A → ℕ → A
set f k a j = if k == j then a else f j

-- A size_t has 64 bits. `type << HANDLE_REMOTE_SHIFT` is an int, which is extended by its sign.
unfoldable pub shift_type : ℕ → ℕ
shift_type type =
    let int : ℕ = type * 2 ^ handle_remote_shift % 2 ^ 32 in
    if ltb int (2 ^ 31) then int else int + (2 ^ 64 - 2 ^ 32)

-- `type` of `DispatchMessage`: an int again, by its bit pattern.
unfoldable pub type_of : ℕ → ℕ
type_of sz = sz / 2 ^ handle_remote_shift % 2 ^ 32

unfoldable pub size_of : ℕ → ℕ
size_of sz = bit_and sz handle_mask

-- `SNContext::NewSession`
unfoldable pub new_session : Context → ℕ × Context
new_session c =
    let session = (c.session_id + 1) % 2 ^ 32 in
    if leb (2 ^ 31) session || session == 0
    then (1, record c { session_id = 1 })
    else (session, record c { session_id = session })

-- `SNContext::Push` of a message
unfoldable pub push_context : Server → ℕ → Message → Server
push_context s ctx msg = record s { system = send_to s.system (s.contexts ctx).queue msg }

-- `skynet_harbor_init`
unfoldable pub harbor_init : ℕ → ℕ
harbor_init harbor = harbor * 2 ^ handle_remote_shift % 2 ^ 32

-- `skynet_harbor_message_isremote`
unfoldable pub is_remote : ℕ → ℕ → Bool
is_remote harbor handle =
    let h = handle / 2 ^ handle_remote_shift * 2 ^ handle_remote_shift in
    not (h == harbor) && not (h == 0)

-- `skynet_harbor_send`; `rmsg` is the address of the message. `none` is the failed assertion.
unfoldable pub harbor_send : Server → ℕ → RemoteMessage → ℕ → ℕ → Option Server
harbor_send s rmsg message source session =
    let type = type_of message.sz in
    let stored : Server = record s {
      remote_messages = set s.remote_messages rmsg (record message { sz = size_of message.sz });
    } in
    if type == ptype_system || type == ptype_harbor then none else do
      remote ← s.remote
      some (
          push_context stored remote (record {
            source = source;
            session = session;
            data_ptr = some rmsg;
            sz = bit_or remote_message_size (shift_type type);
          }))

-- `SNServer::ContextPush`; `none` is -1.
unfoldable pub context_push : Server → ℕ → Message → Option Server
context_push s handle msg = do ctx ← find_context s.handles handle; some (push_context s ctx msg)

-- What `_filter_args` leaves of the session, the data and the size.
pub record Filtered : Type 0 where
  pub session : ℕ
  pub data_ptr : Option ℕ
  pub sz : ℕ
  pub server : Server

-- The copy of the data.
unfoldable pub copied : ℕ → ℕ → Option ℕ → Option ℕ
copied copy type none = none
copied copy type (some p) = if bit_and type ptype_tag_dontcopy == 0 then some copy else some p

-- The bytes behind the `memcpy`; a 0 follows them.
unfoldable pub copied_bytes : ℕ → ℕ → Option ℕ → ℕ → (ℕ → List ℕ) → ℕ → List ℕ
copied_bytes copy type none sz memory = memory
copied_bytes copy type (some p) sz memory =
    if bit_and type ptype_tag_dontcopy == 0
    then set memory copy (take sz (memory p) ++ 0 ∷ [])
    else memory

-- `copy` is the address that `sn_malloc` gives for a copy. `none` is the failed assertion.
unfoldable pub filter_args : ℕ → Server → ℕ → ℕ → ℕ → Option ℕ → ℕ → Option Filtered
filter_args copy s ctx type session data_ptr sz =
    let (allocated, c) = new_session (s.contexts ctx) in
    let data' = copied copy type data_ptr in
    let bytes = copied_bytes copy type data_ptr sz s.memory in
    let sz' = bit_or sz (shift_type (bit_and type 0xff)) in
    if bit_and type ptype_tag_allocsession == 0
    then some (record {
      session = session;
      data_ptr = data';
      sz = sz';
      server = record s { memory = bytes };
    })
    else if session == 0
    then some (record {
      session = allocated;
      data_ptr = data';
      sz = sz';
      server = record s { contexts = set s.contexts ctx c; memory = bytes };
    })
    else none

-- The result, -1 as `none`; the data that was freed; the state.
abbrev pub Sent : Type 0
Sent = Option (Option ℕ × List ℕ × Server)

-- `sn_free`
abbrev pub free : Option ℕ → List ℕ
free none = []
free (some p) = p ∷ []

-- The end of `skynet_send` for a message to another node.
unfoldable pub route_remote : ℕ → Filtered → ℕ → ℕ → Sent
route_remote rmsg f source destination = do
  s ←
      harbor_send f.server rmsg
        (record { name = []; handle = destination; message = f.data_ptr; sz = f.sz }) source
        f.session
  some (some f.session, [], s)

unfoldable pub route_local : Filtered → Option Server → Sent
route_local f none = some (none, free f.data_ptr, f.server)
route_local f (some s) = some (some f.session, [], s)

-- The end of `skynet_send`, behind `_filter_args`.
unfoldable pub route : ℕ → Filtered → ℕ → ℕ → Sent
route rmsg f source destination =
    if destination == 0
    then some (some f.session, [], f.server)
    else if is_remote f.server.harbor destination
    then route_remote rmsg f source destination
    else route_local f (
        context_push f.server destination
          (record { source = source; session = f.session; data_ptr = f.data_ptr; sz = f.sz }))

-- `source` of `skynet_send`, where 0 is the context itself.
abbrev pub source_of : Server → ℕ → ℕ → ℕ
source_of s ctx source = if source == 0 then (s.contexts ctx).handle else source

-- `copy` and `rmsg` are the addresses that `sn_malloc` gives.
unfoldable pub send : ℕ → ℕ → Server → ℕ → ℕ → ℕ → ℕ → ℕ → Option ℕ → ℕ → Sent
send copy rmsg s ctx source destination type session data_ptr sz =
    if not (bit_and sz handle_mask == sz) then some (none, free data_ptr, s) else do
      f ← filter_args copy s ctx type session data_ptr sz
      route rmsg f (source_of s ctx source) destination

-- An address as `skynet_sendname` reads it: behind ':' a number, behind '.' a name of this node.
pub data Address : Type 0 where
  hex : ℕ → Address
  local : String → Address
  global : List ℕ → Address

-- `skynet_sendname`
unfoldable pub sendname : ℕ → ℕ → Server → ℕ → ℕ → Address → ℕ → ℕ → Option ℕ → ℕ → Sent
sendname copy rmsg s ctx source (hex des) type session data_ptr sz =
    send copy rmsg s ctx (source_of s ctx source) des type session data_ptr sz
sendname copy rmsg s ctx source (local name) type session data_ptr sz =
    let des = find_name s.handles name in
    let owned : List ℕ = if bit_and type ptype_tag_dontcopy == 0 then [] else free data_ptr in
    if des == 0
    then some (none, owned, s)
    else send copy rmsg s ctx (source_of s ctx source) des type session data_ptr sz
sendname copy rmsg s ctx source (global name) type session data_ptr sz = do
  f ← filter_args copy s ctx type session data_ptr sz
  s' ←
      harbor_send f.server rmsg
        (record { name = take 16 name; handle = 0; message = f.data_ptr; sz = f.sz })
        (source_of s ctx source) f.session
  some (some f.session, [], s')
