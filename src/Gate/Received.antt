-- ===== src/Gate/Received.antt =====
-- A whole stream through the gate of service-src/service_gate.c, however it is cut into chunks.
use pskynet.Prelude.{
  ℕ, ◌+◌, ◌≡◌, refl, sym, ap, ◌∙◌, List, [], ◌∷◌, ◌++◌, some, ◌>>=◌, arith, length, subst,
  append_assoc, append-nil,
}
use pskynet.Prelude.Filter.{All}
use pskynet.Gate.Buffer.{DataBuffer, MessagePool, push}
use pskynet.Prelude.Bytes.{flat}
use pskynet.Gate.Reading.{content, IsBuffer, HasPushed, push-HasPushed}
use pskynet.Gate.Framing.{encode_all, IsHeaderSize}
use pskynet.Gate.{Connection, Gate, Effect, Outcome, dispatch_message}
use pskynet.Gate.Stream.{conn, deliveries, delivery, IsServed}
use pskynet.Gate.Packages.{IsPackage, Expects, at_header, in_body}
use pskynet.Gate.Chunks.{loop-Done, encode_all-short, header_size_pos}

-- One call of `dispatch_message` for each chunk.
abbrev pub receive_all :
    (ℕ → List ℕ) → Gate → ℕ → List (List ℕ) → Connection → MessagePool → Outcome
receive_all data_prefix g socket [] c mp = some ([], c, mp)
receive_all data_prefix g socket (chunk ∷ chunks) c mp = do
  (out, c', mp') ← dispatch_message data_prefix g socket c mp chunk
  (more, last, mp'') ← receive_all data_prefix g socket chunks c' mp'
  some (out ++ more, last, mp'')

All-right : (P : List ℕ → Type 0) (xs ys : List (List ℕ)) → All P (xs ++ ys) → All P ys
All-right P [] ys h = h
All-right P (x ∷ xs) ys h = All-right P xs ys h.1

module _ (data_prefix : ℕ → List ℕ) (g : Gate) (in_use socket id agent client : ℕ)
    (served : IsServed data_prefix g in_use socket id agent client)
    (sized : IsHeaderSize g.header_size) where
  abbrev at : DataBuffer → Connection
  at b = conn data_prefix g in_use socket id agent client b

  abbrev sends : List (List ℕ) → List Effect
  sends ps = deliveries data_prefix g in_use socket id agent client ps

  sends-append : (ps qs : List (List ℕ)) → sends (ps ++ qs) ≡ sends ps ++ sends qs
  sends-append [] qs = refl
  sends-append (p ∷ ps) qs =
      ap (λ xs. delivery data_prefix g in_use socket id agent client p ++ xs) (sends-append ps qs)
      ∙ sym (
          append_assoc (delivery data_prefix g in_use socket id agent client p) (sends ps)
            (sends qs))

  -- Every package was sent, in order, and nothing is left in the buffer.
  pub record Received (ps : List (List ℕ)) (r : Outcome) : Type 0 where
    pub last : DataBuffer
    pub pool : MessagePool
    pub returns : r ≡ some (sends ps, at last, pool)
    pub header : last.header ≡ 0
    pub empty : content last ≡ []
    pub valid : IsBuffer in_use last pool

  finished :
      (b : DataBuffer) (mp : MessagePool) (ps : List (List ℕ))
      → IsBuffer in_use b mp
      → Expects g.header_size b [] ps
      → ps ≡ []
      → Received ps (some ([], at b, mp))
  finished b mp ps ok (at_header e stream) nothing = rw nothing (record {
    last = b;
    pool = mp;
    returns = refl;
    header = e;
    empty = sym (append-nil (content b)) ∙ stream ∙ ap (encode_all g.header_size) nothing;
    valid = ok;
  })
  finished b mp ps ok (in_body p later shape e stream) nothing =
      absurd (omega (arith, ap length (sym shape ∙ nothing)))

  -- A push extends what is there by what was still to come.
  push-Expects :
      (b : DataBuffer) (mp : MessagePool) (chunk more : List ℕ) (ps : List (List ℕ))
      (r : DataBuffer × MessagePool)
      → HasPushed in_use b chunk r
      → Expects g.header_size b (chunk ++ more) ps
      → Expects g.header_size r.0 more ps
  push-Expects b mp chunk more ps r pushed state =
      let moved : content r.0 ++ more ≡ content b ++ (chunk ++ more) =
        ap (λ xs. xs ++ more) pushed.grown ∙ append_assoc (content b) chunk more in
      elim state [
        | at_header e stream ↦ at_header (pushed.header ∙ e) (moved ∙ stream)
        | in_body p later shape e stream ↦
            in_body p later shape (pushed.header ∙ e) (moved ∙ stream)
      ]

  chunks-Received :
      (chunks : List (List ℕ)) (b : DataBuffer) (mp : MessagePool) (ps : List (List ℕ))
      → IsBuffer in_use b mp
      → Expects g.header_size b (flat chunks) ps
      → (flat chunks ≡ [] → ps ≡ [])
      → All (IsPackage g.header_size) ps
      → Received ps (receive_all data_prefix g socket chunks (at b) mp)
  unfolding dispatch_message
  chunks-Received [] b mp ps ok state ended good = finished b mp ps ok state (ended refl)
  chunks-Received (chunk ∷ chunks) b mp ps ok state ended good =
      let pushed = push-HasPushed in_use b mp chunk ok in
      let r : DataBuffer × MessagePool = push b mp chunk in
      let d =
        loop-Done data_prefix g in_use socket id agent client served sized (r.0.size + 2) r.0 r.1 ps
          (flat chunks) pushed.valid (push-Expects b mp chunk (flat chunks) ps r pushed state) good
          (omega arith) in
      let rest = chunks-Received chunks d.last d.pool d.left d.valid d.state d.ended (
        All-right (IsPackage g.header_size) d.done d.left
          (subst (All (IsPackage g.header_size)) d.all good)) in
      let sent : sends ps ≡ sends d.done ++ sends d.left =
        ap sends d.all ∙ sends-append d.done d.left in
      record {
        last = rest.last;
        pool = rest.pool;
        returns =
            rw (d.returns, rest.returns)
              (ap (λ out. some (out, at rest.last, rest.pool)) (sym sent));
        header = rest.header;
        empty = rest.empty;
        valid = rest.valid;
      }

  -- A fresh buffer, a peer that sends packages of an allowed size, and somebody who takes them: in
  -- whatever chunks the bytes come, the gate sends every package whole and in order, the buffer is
  -- empty at the end, and the messages it used are back in the pool.
  pub receive_all-Received :
      (chunks ps : List (List ℕ)) (b : DataBuffer) (mp : MessagePool)
      → IsBuffer in_use b mp
      → b.header ≡ 0
      → content b ≡ []
      → All (IsPackage g.header_size) ps
      → flat chunks ≡ encode_all g.header_size ps
      → Received ps (receive_all data_prefix g socket chunks (at b) mp)
  receive_all-Received chunks ps b mp ok e nothing good stream =
      chunks-Received chunks b mp ps ok
        (at_header e (ap (λ xs. xs ++ flat chunks) nothing ∙ stream))
        (λ end. encode_all-short data_prefix g in_use socket id agent client served sized ps (
          omega (
            arith,
            ap length stream,
            ap length end,
            header_size_pos data_prefix g in_use socket id agent client served sized,
          )))
        good
