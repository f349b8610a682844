-- ===== src/Gate.antt =====
-- service-src/service_gate.c: the gate service, which cuts the byte streams of its connections into
-- packages and sends each package to a broker, an agent or the watchdog.

pub mod Buffer
pub mod Reading
pub mod Framing
pub mod Stream
pub mod Packages
pub mod Chunks
pub mod Received
pub mod Stuck
pub mod Service
mod Tests
use pskynet.Prelude.{
  ℕ, zero, suc, ◌+◌, Bool, true, false, List, [], ◌∷◌, ◌++◌, Option, none, some, ◌>>=◌, bit_or,
  ◌==◌, leb, if◌then◌else◌, length,
}
use pskynet.Prelude.Words.{is_negative}
use pskynet.Gate.Buffer.{DataBuffer, MessagePool, read, read_header, push, reset, clear}

-- PTYPE_TEXT, PTYPE_TAG_DONTCOPY
abbrev pub ptype_text : ℕ
ptype_text = 0

abbrev pub ptype_tag_dontcopy : ℕ
ptype_tag_dontcopy = 0x10000

-- A `connection` without its `remote_name`.
pub record Connection : Type 0 where
  pub id : ℕ
  pub agent : ℕ
  pub client : ℕ
  pub buffer : DataBuffer

-- The fields of `gate` that the work on one connection reads.
pub record Gate : Type 0 where
  pub watchdog : ℕ
  pub broker : ℕ
  pub client_tag : ℕ
  pub header_size : ℕ

-- What the gate asks of the rest of the program.
pub data Effect : Type 0 where
  sent : ℕ → ℕ → ℕ → ℕ → List ℕ → Effect  -- `skynet_send`: source, destination, type, session, data
  closed : ℕ → Effect  -- `skynet_socket_close`
  logged : Effect  -- `skynet_error`
  started : ℕ → Effect  -- `skynet_socket_start`
  written : ℕ → List ℕ → Effect  -- `skynet_socket_send`

-- The connection and the pool change, and the gate acts.
abbrev pub Outcome : Type 0
Outcome = Option (List Effect × Connection × MessagePool)

-- `data_prefix` is what `snprintf` writes for the format "%d data ".
module _ (data_prefix : ℕ → List ℕ) (g : Gate) where
  unfoldable pub forward : Connection → MessagePool → ℕ → Outcome
  forward c mp size =
      if g.broker == 0
      then (if c.agent == 0
          then (if g.watchdog == 0 then some ([], c, mp) else do
            (temp, b, mp') ← read c.buffer mp size
            some (
              sent 0 g.watchdog (bit_or ptype_text ptype_tag_dontcopy) 0 (data_prefix c.id ++ temp)
                  ∷ [],
              record c { buffer = b },
              mp',
            ))
          else do
            (temp, b, mp') ← read c.buffer mp size
            some (
              sent c.client c.agent (bit_or g.client_tag ptype_tag_dontcopy) 0 temp ∷ [],
              record c { buffer = b },
              mp',
            ))
      else do
        (temp, b, mp') ← read c.buffer mp size
        some (
          sent 0 g.broker (bit_or g.client_tag ptype_tag_dontcopy) 0 temp ∷ [],
          record c { buffer = b },
          mp',
        )

  -- The `for` of `dispatch_message` after the header, which is `size`; the flag says whether it
  -- goes round again.
  unfoldable pub handle_size :
      ℕ → ℕ → Connection → MessagePool → Option (Bool × List Effect × Connection × MessagePool)
  handle_size id size c mp =
      if is_negative size
      then some (false, [], c, mp)
      else if size == 0
      then some (true, [], c, mp)
      else if leb 0x1000000 size
      then (let (b, mp') = clear c.buffer mp in
          some (false, closed id ∷ logged ∷ [], record c { buffer = b }, mp'))
      else do
        (out, c', mp') ← forward c mp size
        some (true, out, record c' { buffer = reset c'.buffer }, mp')

  -- One round of the `for`.
  unfoldable pub round :
      ℕ → Connection → MessagePool → Option (Bool × List Effect × Connection × MessagePool)
  round id c mp = do
    (size, b, mp') ← read_header c.buffer mp g.header_size
    handle_size id size (record c { buffer = b }) mp'

  -- The `for` with `fuel` rounds left.
  unfoldable pub dispatch_loop : ℕ → ℕ → Connection → MessagePool → Outcome
  dispatch_loop zero id c mp = none
  dispatch_loop (suc fuel) id c mp = elim (round id c mp) [
    | none ↦ none
    | some (false, out, c', mp') ↦ some (out, c', mp')
    | some (true, out, c', mp') ↦ do
      (more, last, mp'') ← dispatch_loop fuel id c' mp'
      some (out ++ more, last, mp'')
  ]

  -- Each round but the last reads a byte or forgets a header.
  unfoldable pub dispatch_message : ℕ → Connection → MessagePool → List ℕ → Outcome
  dispatch_message id c mp bytes =
      let (b, mp') = push c.buffer mp bytes in
      dispatch_loop (b.size + 2) id (record c { buffer = b }) mp'
