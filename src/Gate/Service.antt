-- ===== src/Gate/Service.antt =====
-- service-src/service_gate.c: the table of connections, what the socket layer reports about them and
-- what other services write to them.
pub mod Table
pub mod Invariant
pub mod Client
mod Tests
use pskynet.Prelude.{
  ℕ, zero, suc, ◌+◌, ◌-◌, ◌*◌, ◌^◌, Bool, true, false, List, [], ◌∷◌, ◌++◌, Option, none, some,
  ◌>>=◌, bit_or, ◌==◌, leb, if◌then◌else◌, length, take, drop,
}
use pskynet.Prelude.Bytes.{byte_at}
use pskynet.HashId.{HashId, init, set, unused, lookup, remove, insert, full}
use pskynet.Gate.Buffer.{MessagePool, empty, clear}
use pskynet.Gate.{
  Connection, Gate, Effect, sent, closed, logged, started, written, ptype_text, dispatch_message,
}

-- The fields of `gate` that change. `remote_name` has the names of the connections in `conn`.
pub record Service : Type 0 where
  pub listen_id : Option ℕ
  pub hash : HashId
  pub conn : ℕ → Connection
  pub remote_name : ℕ → List ℕ
  pub mp : MessagePool

-- `skynet_socket_message` by its type, of those that the gate gets; `name` is the text behind it.
pub data SocketMessage : Type 0 where
  bytes : (id : ℕ) (buffer : List ℕ) → SocketMessage
  connect : (id : ℕ) → SocketMessage
  close : (id : ℕ) → SocketMessage
  error : (id : ℕ) → SocketMessage
  accept : (id ud : ℕ) (name : List ℕ) → SocketMessage

-- The text of a report to the watchdog.
pub data Report : Type 0 where
  opened : (id : ℕ) (name : List ℕ) → Report
  gone : (id : ℕ) → Report

-- What the `memset` of a closed connection leaves.
abbrev pub no_connection : Connection
no_connection = record { id = unused; agent = 0; client = 0; buffer = empty }

-- `gate_init` with `max` connections, before it listens.
unfoldable pub new_service : ℕ → Service
new_service max = record {
  listen_id = none;
  hash = init max;
  conn = λ c. no_connection;
  remote_name = λ c. [];
  mp = record { pool = 0; freelist = 0 };
}

-- `none` is a failed assertion.
abbrev pub Handled : Type 0
Handled = Option (List Effect × Service)

-- The assertion is tested by `dispatch_socket_message`.
unfoldable pub on_accept : Service → ℕ → List ℕ → Handled
on_accept s ud name = if full s.hash then some (closed ud ∷ [], s) else do
  (c, left) ← insert s.hash ud
  some (
    started ud ∷ [],
    record s {
      hash = left;
      conn = set s.conn c (record (s.conn c) { id = ud });
      remote_name = set s.remote_name c (take 31 name);
    },
  )

abbrev pub is_listen : Option ℕ → ℕ → Bool
is_listen none id = false
is_listen (some l) id = l == id

-- `format` is what `vsnprintf` writes for a report.
module _ (format : Report → List ℕ) (g : Gate) where
  unfoldable pub report : Report → List Effect
  report r = if g.watchdog == 0 then [] else sent 0 g.watchdog ptype_text 0 (format r) ∷ []

  unfoldable pub on_connect : Service → ℕ → Handled
  on_connect s id = elim (lookup s.hash id) [
    | none ↦ some (logged ∷ closed id ∷ [], s)
    | some c ↦ some (report (opened id (s.remote_name c)), s)
  ]

  -- After `hashid_remove`, which leaves the table `left`.
  unfoldable pub close_found : Service → ℕ → HashId → Option ℕ → Handled
  close_found s id left none = some ([], record s { hash = left })
  close_found s id left (some c) = some (
    report (gone id),
    record s {
      hash = left;
      conn = set s.conn c no_connection;
      remote_name = set s.remote_name c [];
      mp = (clear (s.conn c).buffer s.mp).1;
    },
  )

  unfoldable pub on_close : Service → ℕ → Handled
  on_close s id = let (found, left) = remove s.hash id in close_found s id left found

-- `data_prefix` is what `snprintf` writes for the format "%d data ".
module _ (data_prefix : ℕ → List ℕ) (format : Report → List ℕ) (g : Gate) where
  unfoldable pub on_bytes : Service → ℕ → List ℕ → Handled
  on_bytes s id buffer = elim (lookup s.hash id) [
    | none ↦ some (logged ∷ closed id ∷ [], s)
    | some c ↦ do
      (out, c', mp') ← dispatch_message data_prefix g id (s.conn c) s.mp buffer
      some (out, record s { conn = set s.conn c c'; mp = mp' })
  ]

  unfoldable pub dispatch_socket_message : Service → SocketMessage → Handled
  dispatch_socket_message s (bytes id buffer) = on_bytes s id buffer
  dispatch_socket_message s (connect id) =
      if is_listen s.listen_id id then some ([], s) else on_connect format g s id
  dispatch_socket_message s (close id) = on_close format g s id
  dispatch_socket_message s (error id) = on_close format g s id
  dispatch_socket_message s (accept id ud name) =
      if is_listen s.listen_id id then on_accept s ud name else none

-- `uid` by its four bytes.
unfoldable pub client_id : List ℕ → ℕ
client_id idbuf =
    bit_or (bit_or (bit_or (byte_at idbuf 0) (byte_at idbuf 1 * 2 ^ 8)) (byte_at idbuf 2 * 2 ^ 16))
      (byte_at idbuf 3 * 2 ^ 24)

unfoldable pub write_client : Service → ℕ → List ℕ → List Effect × Bool
write_client s uid msg = elim (lookup s.hash uid) [
  | none ↦ (logged ∷ [], false)
  | some c ↦ (written uid msg ∷ [], true)
]

-- The branch of `_cb` for PTYPE_CLIENT: what it does, and whether it keeps the message.
unfoldable pub on_client : Service → List ℕ → List Effect × Bool
on_client s msg =
    if leb (length msg) 4
    then (logged ∷ [], false)
    else write_client s (client_id (drop (length msg - 4) msg)) (take (length msg - 4) msg)

-- `_forward_agent`
unfoldable pub forward_agent : Service → ℕ → ℕ → ℕ → Service
forward_agent s fd agentaddr clientaddr = elim (lookup s.hash fd) [
  | none ↦ s
  | some c ↦ record s {
    conn = set s.conn c (record (s.conn c) { agent = agentaddr; client = clientaddr });
  }
]

-- `gate_release`: the sockets that it closes, those of `n` places from `i` on.
unfoldable pub close_all : (ℕ → Connection) → ℕ → ℕ → List Effect
close_all conn i zero = []
close_all conn i (suc n) =
    let later = close_all conn (i + 1) n in
    if (conn i).id == unused then later else closed (conn i).id ∷ later

unfoldable pub release : Service → List Effect
release s =
    close_all s.conn 0 s.hash.cap ++ (elim s.listen_id [ none ↦ [] | some id ↦ closed id ∷ [] ])
