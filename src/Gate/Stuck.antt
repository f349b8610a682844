-- ===== src/Gate/Stuck.antt =====
-- Streams that the gate of service-src/service_gate.c does not cut into the peer's packages.
use pskynet.Prelude.{
  ◌∙◌, sym, ◌++◌, append-nil, append_assoc, ℕ, zero, suc, ◌+◌, ◌^◌, ◌≤◌, ◌<◌, ◌≡◌, refl, true,
  false, List, [], ◌∷◌, some, arith, ◌==◌, leb, ltb, length, length-append,
}
use pskynet.Prelude.Words.{is_negative}
use pskynet.Gate.Buffer.{MessagePool, check_body, read_header, push, reset}
use pskynet.Prelude.Bytes.{flat}
use pskynet.Gate.{
  Connection, Gate, Outcome, round, handle_size, forward, dispatch_loop, dispatch_message,
}
use pskynet.Gate.Received.{receive_all}

module _ (data_prefix : ℕ → List ℕ) (g : Gate) (socket : ℕ) where
  negative-round :
      (c : Connection) (mp : MessagePool)
      → is_negative c.buffer.header ≡ true
      → round data_prefix g socket c mp ≡ some (false, [], c, mp)
  unfolding round read_header check_body handle_size
  negative-round c mp negative =
      let e : (c.buffer.header == 0) ≡ false = ground arith in rw (e, negative) (rw negative)

  negative-loop :
      (fuel : ℕ) (c : Connection) (mp : MessagePool)
      → is_negative c.buffer.header ≡ true
      → 0 < fuel
      → dispatch_loop data_prefix g fuel socket c mp ≡ some ([], c, mp)
  unfolding dispatch_loop
  negative-loop zero c mp negative h = absurd (omega arith)
  negative-loop (suc fuel) c mp negative h = rw (negative-round c mp negative, dispatch_loop)

  negative-message :
      (c : Connection) (mp : MessagePool) (bytes : List ℕ)
      → is_negative c.buffer.header ≡ true
      → dispatch_message data_prefix g socket c mp bytes
        ≡ some ([], record c { buffer = (push c.buffer mp bytes).0 }, (push c.buffer mp bytes).1)
  unfolding dispatch_message push
  negative-message c mp bytes negative =
      let (b, mp') = push c.buffer mp bytes in
      negative-loop (b.size + 2) (record c { buffer = b }) mp' negative (omega arith)

  -- What the gate has done with all that came.
  pub record Hoarded (c : Connection) (chunks : List (List ℕ)) (r : Outcome) : Type 0 where
    pub last : Connection
    pub pool : MessagePool
    pub returns : r ≡ some ([], last, pool)
    pub messages : last.buffer.messages ≡ c.buffer.messages ++ chunks
    pub size : last.buffer.size ≡ c.buffer.size + length (flat chunks)
    pub negative : is_negative last.buffer.header ≡ true

  -- Once a header of four bytes has its top bit set, and as long as the size of the buffer is an int,
  -- the gate does nothing more with the connection: it sends nothing, does not close the socket, and
  -- keeps every chunk that comes, with its bytes and in order.
  pub receive_all-Hoarded :
      (chunks : List (List ℕ)) (c : Connection) (mp : MessagePool)
      → is_negative c.buffer.header ≡ true
      → c.buffer.size + length (flat chunks) < 2 ^ 31
      → Hoarded c chunks (receive_all data_prefix g socket chunks c mp)
  unfolding push
  receive_all-Hoarded [] c mp negative int = record {
    last = c;
    pool = mp;
    returns = refl;
    messages = sym (append-nil c.buffer.messages);
    size = omega arith;
    negative = negative;
  }
  receive_all-Hoarded (chunk ∷ chunks) c mp negative int =
      let (b, mp') = push c.buffer mp chunk in
      let rest =
        receive_all-Hoarded chunks (record c { buffer = b }) mp' negative
          (omega (arith, int, length-append chunk (flat chunks))) in
      record {
        last = rest.last;
        pool = rest.pool;
        returns = rw (negative-message c mp chunk negative) (rw rest.returns);
        messages = rest.messages ∙ append_assoc c.buffer.messages (chunk ∷ []) chunks;
        size = omega (arith, rest.size, length-append chunk (flat chunks));
        negative = rest.negative;
      }

  -- Without a broker, an agent and a watchdog a package of an allowed size that has arrived stays in
  -- the buffer while its header is forgotten, so that the next round reads it as a header.
  pub unserved-round :
      (c : Connection) (mp : MessagePool)
      → g.broker ≡ 0
      → c.agent ≡ 0
      → g.watchdog ≡ 0
      → 0 < c.buffer.header
      → c.buffer.header < 2 ^ 24
      → c.buffer.header ≤ c.buffer.size
      → round data_prefix g socket c mp ≡ some (true, [], record c { buffer = reset c.buffer }, mp)
  unfolding round read_header check_body handle_size forward
  unserved-round c mp no_broker no_agent no_watchdog pos small whole =
      let known : (c.buffer.header == 0) ≡ false = ground arith in
      let positive : is_negative c.buffer.header ≡ false = ground arith in
      let complete : ltb c.buffer.size c.buffer.header ≡ false = ground arith in
      let in_limit : leb 0x1000000 c.buffer.header ≡ false = ground arith in
      rw (known, positive, complete)
        (rw (positive, known, in_limit, no_broker, no_agent, no_watchdog))
