-- ===== src/Server/Commands.antt =====
-- The commands of src/sn_server.cpp for services, and the end of a service.
pub mod Exits
use Prim.Native.String.{String}
use pskynet.Prelude.{
  ℕ, zero, suc, ◌+◌, ◌*◌, ◌/◌, ◌%◌, ◌^◌, Bool, true, false, not, List, [], ◌∷◌, Option, none, some,
  ◌>>=◌, ◌==◌, ltb, leb, if◌then◌else◌,
}
use pskynet.Handle.{HandleMgr, find_context, find_name, name_handle, remove}
use pskynet.Mq.{queue_length}
use pskynet.Mq.System.{System, force_on}
use pskynet.Server.{
  Context, Server, Sent, Address, hex, local, global, set, new_session, is_remote, ptype_client,
  send,
}

-- What a command returns: NULL, a handle as ":%x", a number as "%d", or a text.
pub data Reply : Type 0 where
  null : Reply
  handle_text : ℕ → Reply
  number : ℕ → Reply
  text : String → Reply

-- `cmd_timeout`: the reply, the time of `skynet_timeout`, whose session is the reply, and the context.
unfoldable pub timeout : Context → ℕ → Reply × ℕ × Context
timeout c ti = let (session, c') = new_session c in (number session, ti, c')

abbrev pub name_reply : Option String → Reply
name_reply none = null
name_reply (some name) = text name

-- `cmd_reg` with no name, a local name, or another one.
unfoldable pub reg : Server → ℕ → Option Address → Reply × Server
reg s ctx none = (handle_text (s.contexts ctx).handle, s)
reg s ctx (some (local name)) =
    let (owned, handles) = name_handle s.handles (s.contexts ctx).handle name in
    (name_reply owned, record s { handles = handles })
reg s ctx (some (hex handle)) = (null, s)
reg s ctx (some (global name)) = (null, s)

-- `cmd_query`
unfoldable pub query : Server → Address → Reply
query s (local name) =
    let handle = find_name s.handles name in if handle == 0 then null else handle_text handle
query s (hex handle) = null
query s (global name) = null

-- `cmd_name` with its two words.
unfoldable pub name_service : Server → Address → Address → Reply × Server
name_service s (local name) (hex handle) =
    let (owned, handles) = name_handle s.handles handle name in
    if handle == 0 then (null, s) else (name_reply owned, record s { handles = handles })
name_service s (local name) other = (null, s)
name_service s (hex handle) other = (null, s)
name_service s (global name) other = (null, s)

-- `tohandle`
unfoldable pub to_handle : Server → Address → ℕ
to_handle s (hex handle) = handle
to_handle s (local name) = find_name s.handles name
to_handle s (global name) = 0

-- The part of `handle_exit` that takes the context out of the table. The address of a context gives
-- its own handle.
unfoldable pub remove_context : Server → ℕ → Server
remove_context s handle =
    let (found, handles) = remove (λ ctx. (s.contexts ctx).handle) s.handles handle in
    let rest : Server = record s { handles = handles } in
    elim found [
      | none ↦ rest
      | some ctx ↦ record rest { system = force_on s.system (s.contexts ctx).queue }
    ]

-- `handle_exit`; `rmsg` is an address for a message to another node. `none` is a failed assertion.
unfoldable pub handle_exit : ℕ → Server → ℕ → ℕ → Option Server
handle_exit rmsg s ctx handle =
    let target = if handle == 0 then (s.contexts ctx).handle else handle in
    if s.monitor_exit == 0 then some (remove_context s target) else do
      sent ← send 0 rmsg s ctx target s.monitor_exit ptype_client 0 none 0
      some (remove_context sent.2 target)

-- `cmd_kill`
unfoldable pub kill : ℕ → Server → ℕ → Address → Option Server
kill rmsg s ctx address =
    let handle = to_handle s address in
    if handle == 0 then some s else handle_exit rmsg s ctx handle

-- `cmd_endless`
unfoldable pub endless : Context → Reply × Context
endless c = if c.endless then (number 1, record c { endless = false }) else (null, c)

-- `SNServer::Endless`
unfoldable pub set_endless : Server → ℕ → Server
set_endless s handle = elim (find_context s.handles handle) [
  | none ↦ s
  | some ctx ↦ record s {
    contexts = set s.contexts ctx (record (s.contexts ctx) { endless = true });
  }
]

-- `cmd_monitor`
unfoldable pub monitor : Server → Option Address → Reply × Server
monitor s none = (if s.monitor_exit == 0 then null else handle_text s.monitor_exit, s)
monitor s (some address) = (null, record s { monitor_exit = to_handle s address })

-- `cmd_mqlen`
unfoldable pub mqlen : Server → ℕ → Reply
mqlen s ctx = number (queue_length (s.system.queues (s.contexts ctx).queue))

-- `skynet_queryname`
unfoldable pub query_name : Server → Address → ℕ
query_name s address = to_handle s address

-- `skynet_isremote`
unfoldable pub is_remote_of : Server → ℕ → Bool × ℕ
is_remote_of s handle = (is_remote s.harbor handle, handle / 2 ^ 24)
