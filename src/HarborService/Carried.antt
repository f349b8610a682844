-- ===== src/HarborService/Carried.antt =====
-- A message from a service of one node to a service of another, over service-src/service_harbor.c on both sides.
use pskynet.Prelude.{ℕ, ◌≡◌, Bool, bit_or, List, [], ◌∷◌, some, if◌then◌else◌}
use pskynet.HarborService.{Harbor, Effect, sent, written, logged, Done}
use pskynet.HarborService.Slaves.{ptype_error, ptype_tag_dontcopy}
use pskynet.HarborService.Mainloop.{remote_header}
use pskynet.HarborService.Wire.{framed}
use pskynet.HarborService.Chunks.{Received}

-- The message as the peer gives it to its local service, and the error that goes back when the
-- service is not there.
abbrev pub delivery : (ℕ → Bool) → ℕ → ℕ → ℕ → ℕ → List ℕ → List Effect
delivery reachable source destination type session msg =
    sent source destination (bit_or type ptype_tag_dontcopy) session msg
    ∷ (if reachable destination
        then []
        else sent destination source ptype_error session [] ∷ logged ∷ [])

-- The bytes of the message on the wire.
abbrev pub wire : ℕ → ℕ → ℕ → ℕ → List ℕ → List ℕ
wire source destination type session msg =
    framed (record { cookie = remote_header source destination type session; body = msg })

-- What the node writes, and what the peer makes of the pieces that come.
pub record Carried (h peer : Harbor) (id : ℕ) (bytes : List ℕ) (out : List Effect) (r came : Done)
    : Type 0 where
  pub returns : r ≡ some (written (h.slaves peer.id).fd bytes ∷ [], h)
  pub arrives : Received peer id out came
