-- ===== src/Gate/Service/Invariant.antt =====
-- What holds of the connections of service-src/service_gate.c whatever the socket layer reports.
use pskynet.Prelude.{
  ◌≤◌, ◌+◌, ◌^◌, ℕ, zero, suc, ◌≡◌, ◌≢◌, inl, inr, refl, sym, subst, ap, ◌∙◌, arith, List, none,
  some, ◌>>=◌, Bool-cases, Option-cases,
}
use pskynet.HashId.{init, set, unused, lookup, remove, full}
use pskynet.HashId.Removal.{remove-Forgotten}
use pskynet.HashId.Places.{set_cases, lookup-id}
use pskynet.HashId.Counts.{used}
use pskynet.Gate.{Gate, Outcome, dispatch_message}
use pskynet.Gate.Service.{
  Service, SocketMessage, Report, Handled, bytes, connect, close, error, accept, new_service,
  on_bytes, on_connect, on_close, close_found, on_accept, is_listen, dispatch_socket_message,
}
use pskynet.Gate.Service.Table.{IsService, IsFresh, on_accept-Accepted, on_close-Closed}

used_none : (n : ℕ) → used n (λ c. unused) ≡ 0
used_none zero = refl
used_none (suc n) = omega (arith, used_none n)

-- The table of a new gate is well formed.
pub new_service-IsService : (max : ℕ) → IsService (new_service max)
unfolding new_service init
new_service-IsService max = record {
  unique = λ c d same proper. absurd (proper refl);
  bounded = λ c h. refl;
  counted = sym (used_none max);
  found = λ c id proper at. absurd (proper (sym at));
  fresh = λ c free. (refl, refl, refl);
}

-- The ids of sockets are not -1, a socket is accepted once, and its id is so small that the sum with a
-- place in the table is an int.
abbrev pub IsProper : Service → SocketMessage → Type 0
IsProper s (bytes id buffer) = id ≢ unused
IsProper s (connect id) = Unit {0}
IsProper s (close id) = id ≢ unused
IsProper s (error id) = id ≢ unused
IsProper s (accept id ud name) =
    (ud ≢ unused) × ((ud + s.hash.cap ≤ 2 ^ 31) × (lookup s.hash ud ≡ none))

-- If the message is handled, the state is well formed afterwards.
abbrev pub Keeps : Handled → Type 0
Keeps none = Unit {0}
Keeps (some (out, next)) = IsService next

module _ (data_prefix : ℕ → List ℕ) (format : Report → List ℕ) (g : Gate) (s : Service)
    (ok : IsService s) where
  bytes_found :
      (id c : ℕ) (o : Outcome)
      → id ≢ unused
      → lookup s.hash id ≡ some c
      → Keeps (o >>= λ r. some (r.0, record s { conn = set s.conn c r.1; mp = r.2 }))
  bytes_found id c none proper here = tt
  bytes_found id c (some (out, c', mp')) proper here = record {
    unique = ok.unique;
    bounded = ok.bounded;
    counted = ok.counted;
    found = ok.found;
    fresh = λ d free. elim (set_cases s.conn c c' d) [
      | inl (at, x) ↦
          absurd (proper (sym (lookup-id s.hash id c here) ∙ sym (ap s.hash.id at) ∙ free))
      | inr (there, x) ↦ subst IsFresh (sym x) (ok.fresh d free)
    ];
  }

  bytes-Keeps :
      (id : ℕ) (buffer : List ℕ) → id ≢ unused → Keeps (on_bytes data_prefix format g s id buffer)
  unfolding on_bytes
  bytes-Keeps id buffer proper = elim (Option-cases (lookup s.hash id)) [
    | inl missing ↦ rw (missing, on_bytes) ok
    | inr (c, here) ↦
        rw (here, on_bytes)
          (bytes_found id c (dispatch_message data_prefix g id (s.conn c) s.mp buffer) proper here)
  ]

  close-Keeps : (id : ℕ) → id ≢ unused → Keeps (on_close format g s id)
  unfolding on_close close_found
  close-Keeps id proper = elim (Option-cases (lookup s.hash id)) [
    | inl missing ↦
        let r = remove-Forgotten s.hash id ok.unique proper in
        let none_found : (remove s.hash id).0 ≡ none = r.returns ∙ missing in
        elim r.change [
          | inl (e, same) ↦ rw (none_found, close_found, same) ok
          | inr f ↦ absurd (ground (arith, f.found))
        ]
    | inr (place, here) ↦
        let r = on_close-Closed s ok format g id place proper here in rw r.returns r.valid
  ]

  accept-Keeps :
      (ud : ℕ) (name : List ℕ)
      → ud ≢ unused
      → ud + s.hash.cap ≤ 2 ^ 31
      → lookup s.hash ud ≡ none
      → Keeps (on_accept s ud name)
  unfolding on_accept
  accept-Keeps ud name proper small missing = elim (Bool-cases (full s.hash)) [
    | inl no_room ↦ rw (no_room, on_accept) ok
    | inr room ↦
        let r = on_accept-Accepted s ok ud name proper small missing room in rw r.returns r.valid
  ]

  -- Whatever the socket layer reports, as long as ids are not -1, and a socket that is accepted is not
  -- one that the gate has already and has an id of at most 2^31 less the number of places, a message
  -- that is handled leaves the connections well formed: every id that is in use is found at its place,
  -- no two places have the same, the count is right, and a place without a connection has nothing of
  -- an earlier one.
  pub dispatch_socket_message-Keeps :
      (m : SocketMessage) → IsProper s m → Keeps (dispatch_socket_message data_prefix format g s m)
  unfolding dispatch_socket_message on_connect
  dispatch_socket_message-Keeps (bytes id buffer) proper = bytes-Keeps id buffer proper
  dispatch_socket_message-Keeps (connect id) proper = elim (Bool-cases (is_listen s.listen_id id)) [
    | inl listens ↦ rw listens ok
    | inr plain ↦ elim (Option-cases (lookup s.hash id)) [
      | inl missing ↦ rw (plain, missing, on_connect) ok
      | inr (c, here) ↦ rw (plain, here, on_connect) ok
    ]
  ]
  dispatch_socket_message-Keeps (close id) proper = close-Keeps id proper
  dispatch_socket_message-Keeps (error id) proper = close-Keeps id proper
  dispatch_socket_message-Keeps (accept id ud name) (proper, (small, missing)) =
      elim (Bool-cases (is_listen s.listen_id id)) [
        | inl listens ↦ rw listens (accept-Keeps ud name proper small missing)
        | inr plain ↦ rw plain tt
      ]
