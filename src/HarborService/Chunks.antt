-- ===== src/HarborService/Chunks.antt =====
-- Messages that come from the socket of a node in pieces, in service-src/service_harbor.c.
use pskynet.Prelude.{ℕ, ◌≡◌, ◌≢◌, Bool, List, [], ◌∷◌, ◌++◌, some, ◌>>=◌}
use pskynet.HarborService.{Harbor, Effect, Done}
use pskynet.HarborService.Slaves.{push_socket_data}
use pskynet.HarborService.Pending.{InHeader, Pending}

-- What the socket layer gives, one piece after another.
abbrev pub push_pieces : (ℕ → Bool) → Harbor → ℕ → List (List ℕ) → Done
push_pieces reachable h fd [] = some ([], h)
push_pieces reachable h fd (c ∷ cs) = do
  (out, h') ← push_socket_data reachable h fd c
  (more, last) ← push_pieces reachable h' fd cs
  some (out ++ more, last)

-- All messages have been passed on, and the slave is between two messages.
pub record Received (h : Harbor) (id : ℕ) (out : List Effect) (r : Done) : Type 0 where
  pub next : Harbor
  pub returns : r ≡ some (out, next)
  pub number : next.id ≡ h.id
  pub ready : InHeader (next.slaves id) []
  pub fds : (i : ℕ) → (next.slaves i).fd ≡ (h.slaves i).fd
  pub others : (i : ℕ) → i ≢ id → next.slaves i ≡ h.slaves i
