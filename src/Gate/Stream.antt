-- ===== src/Gate/Stream.antt =====
-- `dispatch_message` of service-src/service_gate.c on the stream of a peer that sends packages.
use pskynet.Prelude.{
  ℕ, ◌^◌, ◌≤◌, ◌<◌, ◌≡◌, refl, ◌≢◌, inl, inr, true, false, List, [], ◌∷◌, ◌++◌, some, arith, bit_or,
  ◌==◌, leb, if◌then◌else◌, take, Bool-cases, ==→≡,
}
use pskynet.Prelude.Words.{minus_one, is_negative}
use pskynet.Gate.Buffer.{read, DataBuffer, MessagePool, check_body, reset}
use pskynet.Gate.Reading.{content, HasRead}
use pskynet.Gate.{
  Connection, Gate, Effect, sent, ptype_text, ptype_tag_dontcopy, forward, handle_size,
}

pub check_body-waits :
    (db : DataBuffer) → db.header < 2 ^ 24 → db.size < db.header → check_body db ≡ minus_one
unfolding check_body
check_body-waits db h short = ground arith

pub check_body-whole :
    (db : DataBuffer) → db.header < 2 ^ 24 → db.header ≤ db.size → check_body db ≡ db.header
unfolding check_body
check_body-whole db h enough = ground arith

module _ (data_prefix : ℕ → List ℕ) (g : Gate) (in_use socket id agent client : ℕ) where
  abbrev pub conn : DataBuffer → Connection
  conn b = record { id = id; agent = agent; client = client; buffer = b }

  -- What the gate sends for a package.
  abbrev pub delivery : List ℕ → List Effect
  delivery p =
      if g.broker == 0
      then (if agent == 0
          then sent 0 g.watchdog (bit_or ptype_text ptype_tag_dontcopy) 0 (data_prefix id ++ p) ∷ []
          else sent client agent (bit_or g.client_tag ptype_tag_dontcopy) 0 p ∷ [])
      else sent 0 g.broker (bit_or g.client_tag ptype_tag_dontcopy) 0 p ∷ []

  abbrev pub deliveries : List (List ℕ) → List Effect
  deliveries [] = []
  deliveries (p ∷ ps) = delivery p ++ deliveries ps

  -- Somebody takes the packages.
  abbrev pub IsServed : Type 0
  IsServed = g.broker ≡ 0 → agent ≡ 0 → g.watchdog ≢ 0

  module _ (served : IsServed) where
    forward-delivery :
        (size : ℕ) (b : DataBuffer) (mp : MessagePool)
        → (r : HasRead in_use size b (read b mp size))
        → forward data_prefix g (conn b) mp size
          ≡ some (delivery (take size (content b)), conn r.last, r.pool)
    unfolding forward
    forward-delivery size b mp r = elim (Bool-cases (g.broker == 0)) [
      | inr broker ↦ rw (broker, r.returns)
      | inl no_broker ↦ elim (Bool-cases (agent == 0)) [
        | inr agent_ ↦ rw (no_broker, agent_, r.returns)
        | inl no_agent ↦ elim (Bool-cases (g.watchdog == 0)) [
          | inr watchdog ↦ rw (no_broker, no_agent, watchdog, r.returns)
          | inl no_watchdog ↦ absurd (
              served (==→≡ g.broker 0 no_broker) (==→≡ agent 0 no_agent)
                (==→≡ g.watchdog 0 no_watchdog))
        ]
      ]
    ]

    pub handle_size-delivery :
        (size : ℕ) (b : DataBuffer) (mp : MessagePool)
        → (r : HasRead in_use size b (read b mp size)) → 0 < size
        → size < 2 ^ 24
        → handle_size data_prefix g socket size (conn b) mp
          ≡ some (true, delivery (take size (content b)), conn (reset r.last), r.pool)
    unfolding handle_size
    handle_size-delivery size b mp r pos small =
        let positive : is_negative size ≡ false = ground arith in
        let some_bytes : (size == 0) ≡ false = ground arith in
        let in_limit : leb 0x1000000 size ≡ false = ground arith in
        rw (positive, some_bytes, in_limit, forward-delivery size b mp r)

  pub handle_size-waits :
      (b : DataBuffer) (mp : MessagePool)
      → handle_size data_prefix g socket minus_one (conn b) mp ≡ some (false, [], conn b, mp)
  unfolding handle_size
  handle_size-waits b mp = refl
