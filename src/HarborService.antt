-- ===== src/HarborService.antt =====
-- service-src/service_harbor.c: the service that carries messages between the nodes.
pub mod Slaves
pub mod Names
pub mod Mainloop
pub mod Ring
pub mod Wire
pub mod Feed
pub mod Pending
pub mod Rounds
pub mod Chunks
pub mod Carried
pub mod Drains
pub mod Opened
pub mod Down
pub mod Lookup
pub mod Named
mod Tests
use pskynet.Prelude.{
  ℕ, zero, suc, ◌+◌, ◌-◌, ◌*◌, ◌/◌, ◌%◌, ◌^◌, List, [], ◌∷◌, ◌++◌, Option, none, some, ◌>>=◌,
  bit_and, bit_or, ◌==◌, if◌then◌else◌, length, drop,
}
use pskynet.Prelude.Bytes.{byte_at}
use pskynet.Message.{handle_mask, handle_remote_shift}

-- HEADER_COOKIE_LENGTH, DEFAULT_QUEUE_SIZE, REMOTE_MAX and GLOBALNAME_LENGTH
abbrev pub header_cookie_length : ℕ
header_cookie_length = 12

abbrev pub default_queue_size : ℕ
default_queue_size = 1024

abbrev pub remote_max : ℕ
remote_max = 256

abbrev pub global_name_length : ℕ
global_name_length = 16

-- `remote_message_header`
pub record Header : Type 0 where
  pub source : ℕ
  pub destination : ℕ
  pub session : ℕ

-- A buffer is its bytes; `size` is their number.
pub record HarborMsg : Type 0 where
  pub header : Header
  pub buffer : List ℕ

pub record HarborMsgQueue : Type 0 where
  pub size : ℕ
  pub head : ℕ
  pub tail : ℕ
  pub slots : ℕ → HarborMsg

abbrev pub set {ℓ} : {A : Type ℓ} → (ℕ → A) → ℕ → A → ℕ → A
set f k a j = if k == j then a else f j

-- The bigger queue that takes the place of a full one.
unfoldable pub grow_queue : HarborMsgQueue → HarborMsgQueue
grow_queue q = record {
  size = q.size * 2;
  head = 0;
  tail = q.size - 1;
  slots = λ i. q.slots ((i + q.head) % q.size);
}

unfoldable pub put_slot : HarborMsgQueue → HarborMsg → HarborMsgQueue
put_slot q m = record q { slots = set q.slots q.tail m; tail = (q.tail + 1) % q.size }

unfoldable pub push_queue_msg : HarborMsgQueue → HarborMsg → HarborMsgQueue
push_queue_msg q m =
    if (q.tail + 1) % q.size == q.head then put_slot (grow_queue q) m else put_slot q m

unfoldable pub push_queue : HarborMsgQueue → List ℕ → Header → HarborMsgQueue
push_queue q buffer header = push_queue_msg q (record { header = header; buffer = buffer })

unfoldable pub pop_queue : HarborMsgQueue → Option (HarborMsg × HarborMsgQueue)
pop_queue q =
    if q.head == q.tail
    then none
    else some (q.slots q.head, record q { head = (q.head + 1) % q.size })

unfoldable pub new_queue : HarborMsgQueue
new_queue = record {
  size = default_queue_size;
  head = 0;
  tail = 0;
  slots = λ i. record { header = record { source = 0; destination = 0; session = 0 }; buffer = [] };
}

-- A loop that pops until the queue is empty, with `fuel` rounds left: the messages and the queue.
unfoldable pub drain : ℕ → HarborMsgQueue → List HarborMsg × HarborMsgQueue
drain zero q = ([], q)
drain (suc fuel) q = elim (pop_queue q) [
  | none ↦ ([], q)
  | some (m, rest) ↦ let (ms, last) = drain fuel rest in (m ∷ ms, last)
]

-- A queue has fewer messages than slots.
unfoldable pub pop_all : HarborMsgQueue → List HarborMsg × HarborMsgQueue
pop_all q = drain q.size q

-- `to_bigendian`
unfoldable pub to_bigendian : ℕ → List ℕ
to_bigendian n =
    bit_and (n / 2 ^ 24) 0xff
    ∷ bit_and (n / 2 ^ 16) 0xff
    ∷ bit_and (n / 2 ^ 8) 0xff
    ∷ bit_and n 0xff
    ∷ []

-- `header_to_message`
unfoldable pub header_to_message : Header → List ℕ
header_to_message h =
    to_bigendian h.source ++ (to_bigendian h.destination ++ to_bigendian h.session)

-- `from_bigendian` of the four bytes at `i`
unfoldable pub from_bigendian : List ℕ → ℕ → ℕ
from_bigendian bytes i =
    bit_or
      (bit_or (bit_or (byte_at bytes i * 2 ^ 24) (byte_at bytes (i + 1) * 2 ^ 16))
        (byte_at bytes (i + 2) * 2 ^ 8))
      (byte_at bytes (i + 3))

unfoldable pub message_to_header : List ℕ → Header
message_to_header bytes = record {
  source = from_bigendian bytes 0;
  destination = from_bigendian bytes 4;
  session = from_bigendian bytes 8;
}

pub data Status : Type 0 where
  wait : Status
  handshake : Status
  header : Status
  content : Status
  down : Status

-- `fd` is 0 for no socket. `size` has the bytes of the length that have come, and `recv_buffer` the
-- bytes of the content; the number of bytes that have come is `read`.
pub record Slave : Type 0 where
  pub fd : ℕ
  pub queue : Option HarborMsgQueue
  pub status : Status
  pub length : ℕ
  pub size : List ℕ
  pub recv_buffer : List ℕ

-- `name` has 16 bytes at most, without the zeros behind it.
pub record KeyValue : Type 0 where
  pub key : List ℕ
  pub hash : ℕ
  pub value : ℕ
  pub queue : Option HarborMsgQueue

pub record Harbor : Type 0 where
  pub id : ℕ
  pub slave : ℕ
  pub map_nodes : ℕ → List KeyValue
  pub slaves : ℕ → Slave

-- What the service asks of the rest of the program.
pub data Effect : Type 0 where
  sent : ℕ → ℕ → ℕ → ℕ → List ℕ → Effect  -- `skynet_send`: source, destination, type, session, data
  written : ℕ → List ℕ → Effect  -- `skynet_socket_send`
  started : ℕ → Effect  -- `skynet_socket_start`
  closed : ℕ → Effect  -- `skynet_socket_close`
  logged : Effect  -- `skynet_error`

-- `none` is a failed assertion, or an access outside an object.
abbrev pub Done : Type 0
Done = Option (List Effect × Harbor)
