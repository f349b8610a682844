-- ===== src/HarborService/Slaves.antt =====
-- service-src/service_harbor.c: the connections to the other nodes.
use pskynet.Prelude.{
  ℕ, zero, suc, ◌+◌, ◌-◌, ◌*◌, ◌/◌, ◌%◌, ◌^◌, Bool, not, List, [], ◌∷◌, ◌++◌, map, Option, none,
  some, ◌>>=◌, bit_and, bit_or, ◌==◌, ltb, if◌then◌else◌, length, take, drop,
}
use pskynet.Prelude.Bytes.{byte_at}
use pskynet.Message.{handle_mask, handle_remote_shift}
use pskynet.HarborService.{
  Header, HarborMsg, HarborMsgQueue, Status, wait, handshake, header, content, down, Slave, Harbor,
  Effect, sent, written, closed, logged, Done, set, remote_max, header_cookie_length, pop_all,
  to_bigendian, header_to_message, message_to_header,
}

-- PTYPE_ERROR, PTYPE_TEXT, PTYPE_TAG_DONTCOPY
abbrev pub ptype_error : ℕ
ptype_error = 7

abbrev pub ptype_text : ℕ
ptype_text = 0

abbrev pub ptype_tag_dontcopy : ℕ
ptype_tag_dontcopy = 0x10000

abbrev pub put_slave : Harbor → ℕ → Slave → Harbor
put_slave h id s = record h { slaves = set h.slaves id s }

unfoldable pub close_harbor : Harbor → ℕ → List Effect × Harbor
close_harbor h id =
    let s = h.slaves id in
    (
      if s.fd == 0 then [] else closed s.fd ∷ [],
      put_slave h id (record s { status = down; queue = none }),
    )

-- The text "D %d" is `down_text`, what `sprintf` writes.
unfoldable pub report_harbor_down : (ℕ → List ℕ) → Harbor → ℕ → List Effect
report_harbor_down down_text h id = sent 0 h.slave ptype_text 0 (down_text id) ∷ []

-- `send_remote`; the lengths are of 32 bits.
unfoldable pub send_remote : ℕ → List ℕ → Header → Effect
send_remote fd buffer cookie = written fd (
    to_bigendian ((length buffer + header_cookie_length) % 2 ^ 32)
    ++ (buffer ++ header_to_message cookie))

abbrev pub send_msg : ℕ → HarborMsg → Effect
send_msg fd m = send_remote fd m.buffer m.header

unfoldable pub flush_queue : Harbor → ℕ → Slave → Option HarborMsgQueue → Done
flush_queue h id s none = some ([], h)
flush_queue h id s (some queue) =
    some (map (send_msg s.fd) (pop_all queue).0, put_slave h id (record s { queue = none }))

-- `dispatch_queue` for the slave `s`
unfoldable pub dispatch_slave : Harbor → ℕ → Slave → Done
dispatch_slave h id s = if s.fd == 0 then none else flush_queue h id s s.queue

unfoldable pub dispatch_queue : Harbor → ℕ → Done
dispatch_queue h id = dispatch_slave h id (h.slaves id)

-- The destination of `forward_local_messsage`.
abbrev pub local_handle : Harbor → ℕ → ℕ
local_handle h destination =
    bit_or (bit_and destination handle_mask) (h.id * 2 ^ handle_remote_shift % 2 ^ 32)

abbrev pub behind : List Effect → Done → Done
behind out none = none
behind out (some (more, h)) = some (out ++ more, h)

-- The search for a socket from the slave `i` on; 0 is none.
unfoldable pub find_slave : ℕ → ℕ → Harbor → ℕ → ℕ
find_slave zero i h fd = 0
find_slave (suc count) i h fd =
    let rest = find_slave count (i + 1) h fd in if (h.slaves i).fd == fd then i else rest

-- `harbor_id`
unfoldable pub harbor_id : Harbor → ℕ → ℕ
harbor_id h fd = find_slave (remote_max - 1) 1 h fd

-- `reachable` says whether `skynet_send` to a handle succeeds.
module _ (reachable : ℕ → Bool) where
  unfoldable pub forward_header : Harbor → Header → List ℕ → List Effect
  forward_header h hd bytes =
      let type = bit_or (hd.destination / 2 ^ handle_remote_shift) ptype_tag_dontcopy in
      let destination = local_handle h hd.destination in
      sent hd.source destination type hd.session bytes
      ∷ (if reachable destination
          then []
          else sent destination hd.source ptype_error hd.session [] ∷ logged ∷ [])

  -- `forward_local_messsage`; with fewer than 12 bytes it reads in front of them.
  unfoldable pub forward_local_message : Harbor → List ℕ → Option (List Effect)
  forward_local_message h msg =
      let sz = length msg - header_cookie_length in
      if ltb (length msg) header_cookie_length
      then none
      else some (forward_header h (message_to_header (drop sz msg)) (take sz msg))

  -- The case STATUS_CONTENT; `again` is the next round of the `for`.
  unfoldable pub content_step : (Harbor → List ℕ → Done) → Harbor → ℕ → List ℕ → Done
  content_step again h id buffer =
      let s = h.slaves id in
      let need = s.length - length s.recv_buffer in
      let rest = drop need buffer in
      let whole = s.recv_buffer ++ take need buffer in
      let next : Harbor =
        put_slave h id (record s { length = 0; recv_buffer = []; status = header }) in
      if ltb (length buffer) need
      then some ([], put_slave h id (record s { recv_buffer = s.recv_buffer ++ buffer }))
      else do
        out ← forward_local_message h whole
        behind out (if length rest == 0 then some ([], next) else again next rest)

  -- The case STATUS_HEADER. What a closed slave has of a length is not read again.
  unfoldable pub header_step : (Harbor → List ℕ → Done) → Harbor → ℕ → List ℕ → Done
  header_step again h id buffer =
      let s = h.slaves id in
      let need = 4 - length s.size in
      let rest = drop need buffer in
      let size = s.size ++ take need buffer in
      let length' =
        bit_or (bit_or (byte_at size 1 * 2 ^ 16) (byte_at size 2 * 2 ^ 8)) (byte_at size 3) in
      let next : Harbor =
        put_slave h id
          (record s { size = []; recv_buffer = []; length = length'; status = content }) in
      if ltb (length buffer) need
      then some ([], put_slave h id (record s { size = s.size ++ buffer }))
      else if byte_at size 0 == 0
      then (if length rest == 0 then some ([], next) else content_step again next id rest)
      else (let (out, closed_) = close_harbor h id in some (logged ∷ out, closed_))

  -- The case STATUS_HANDSHAKE.
  unfoldable pub handshake_step : (Harbor → List ℕ → Done) → Harbor → ℕ → List ℕ → Done
  handshake_step again h id [] = none
  handshake_step again h id (remote_id ∷ buffer) =
      let s = h.slaves id in
      if not (remote_id == id)
      then (let (out, closed_) = close_harbor h id in some (logged ∷ out, closed_))
      else do
        (out, h') ← dispatch_queue (put_slave h id (record s { status = header })) id
        behind out (if length buffer == 0 then again h' [] else header_step again h' id buffer)

  -- A round of the `for`.
  abbrev pub status_step : Status → (Harbor → List ℕ → Done) → Harbor → ℕ → List ℕ → Done
  status_step handshake again h id buffer = handshake_step again h id buffer
  status_step header again h id buffer = header_step again h id buffer
  status_step content again h id buffer = content_step again h id buffer
  status_step wait again h id buffer = some ([], h)
  status_step down again h id buffer = some ([], h)

  -- The `for` of `push_socket_data` with `fuel` rounds left.
  unfoldable pub feed : ℕ → ℕ → Harbor → List ℕ → Done
  feed zero id h buffer = none
  feed (suc fuel) id h buffer =
      status_step (h.slaves id).status (λ h' rest. feed fuel id h' rest) h id buffer

  -- Each round but the first and the last takes a message of at least 4 bytes.
  unfoldable pub push_socket_data : Harbor → ℕ → List ℕ → Done
  push_socket_data h fd buffer =
      let id = harbor_id h fd in
      if id == 0 then some (logged ∷ [], h) else feed (length buffer + 2) id h buffer
