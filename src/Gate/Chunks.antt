-- ===== src/Gate/Chunks.antt =====
-- Chunk after chunk of a stream through `dispatch_message` of service-src/service_gate.c.
use pskynet.Prelude.{
  ℕ, zero, suc, ◌≤◌, ◌<◌, ◌≡◌, refl, sym, ap, ◌∙◌, inl, inr, true, false, List, [], ◌∷◌, ◌++◌, some,
  arith, ◌==◌, ltb, length, take, drop, subst, length-append, length-drop, append_assoc, Bool-cases,
  ltb→lt, le→ltb_false, lt→ltb,
}
use pskynet.Prelude.Filter.{All}
use pskynet.Prelude.Bytes.{take-prefix, drop-prefix}
use pskynet.Gate.Buffer.{DataBuffer, MessagePool, header_of, check_body, read_header, read}
use pskynet.Gate.Reading.{content, IsBuffer, HasRead, read-HasRead}
use pskynet.Gate.Framing.{
  header_bytes, encode, encode_all, IsHeaderSize, length-header_bytes, header_of-header_bytes,
}
use pskynet.Gate.{Connection, Gate, Outcome, round, dispatch_loop}
use pskynet.Gate.Stream.{conn, IsServed, handle_size-waits}
use pskynet.Gate.Packages.{IsPackage, Expects, at_header, in_body, Done, stops, body-Done}

module _ (data_prefix : ℕ → List ℕ) (g : Gate) (in_use socket id agent client : ℕ)
    (served : IsServed data_prefix g in_use socket id agent client)
    (sized : IsHeaderSize g.header_size) where
  abbrev at : DataBuffer → Connection
  at b = conn data_prefix g in_use socket id agent client b

  abbrev loop : ℕ → DataBuffer → MessagePool → Outcome
  loop fuel b mp = dispatch_loop data_prefix g fuel socket (at b) mp

  abbrev IsDone : List (List ℕ) → List ℕ → Outcome → Type 0
  IsDone ps more r = Done data_prefix g in_use socket id agent client served sized ps more r

  reads_header :
      (b : DataBuffer) (mp : MessagePool) (n : ℕ)
      (r : HasRead in_use g.header_size b (read b mp g.header_size))
      → b.header ≡ 0
      → g.header_size ≤ b.size
      → header_of g.header_size (take g.header_size (content b)) ≡ n
      → let k : DataBuffer = record r.last { header = n } in
        read_header b mp g.header_size ≡ some (check_body k, k, r.pool)
  unfolding read_header
  reads_header b mp n r e enough value =
      let zero_header : (b.header == 0) ≡ true = ground arith in
      rw (zero_header, le→ltb_false b.size g.header_size enough, r.returns, value)

  knows_header :
      (k : DataBuffer) (mp : MessagePool)
      → 0 < k.header
      → read_header k mp g.header_size ≡ some (check_body k, k, mp)
  unfolding read_header
  knows_header k mp pos = let e : (k.header == 0) ≡ false = ground arith in rw e

  -- With the header in the buffer the round goes on like one that knows the header.
  same_round :
      (fuel : ℕ) (b k : DataBuffer) (mp pool : MessagePool)
      → read_header b mp g.header_size ≡ some (check_body k, k, pool)
      → 0 < k.header
      → loop (suc fuel) b mp ≡ loop (suc fuel) k pool
  unfolding dispatch_loop round
  same_round fuel b k mp pool e pos =
      let same : round data_prefix g socket (at b) mp ≡ round data_prefix g socket (at k) pool =
        rw (round, e, knows_header k pool pos) in
      rw (dispatch_loop, same)

  header-waits :
      (b : DataBuffer) (mp : MessagePool)
      → b.header ≡ 0
      → b.size < g.header_size
      → round data_prefix g socket (at b) mp ≡ some (false, [], at b, mp)
  unfolding round read_header
  header-waits b mp e short =
      let zero_header : (b.header == 0) ≡ true = ground arith in
      rw (zero_header, lt→ltb b.size g.header_size short)
        (handle_size-waits data_prefix g in_use socket id agent client b mp)

  pub encode_all-short :
      (ps : List (List ℕ)) → length (encode_all g.header_size ps) < g.header_size → ps ≡ []
  encode_all-short [] h = refl
  encode_all-short (p ∷ ps) h = absurd (
      omega (
        arith,
        length-header_bytes g.header_size (length p) sized,
        length-append (header_bytes g.header_size (length p)) p,
        length-append (encode g.header_size p) (encode_all g.header_size ps),
      ))

  abbrev ArePackages : List (List ℕ) → Type 0
  ArePackages ps = All (IsPackage g.header_size) ps

  pub header_size_pos : 0 < g.header_size
  header_size_pos = elim sized [ inl e ↦ omega arith | inr e ↦ omega arith ]

  -- The header that a buffer with enough bytes has in front.
  record HasHeader (b : DataBuffer) (more p : List ℕ) (later : List (List ℕ)) : Type 0 where
    value : header_of g.header_size (take g.header_size (content b)) ≡ length p
    behind : drop g.header_size (content b) ++ more ≡ p ++ encode_all g.header_size later

  stream-HasHeader :
      (b : DataBuffer) (more p : List ℕ) (later : List (List ℕ))
      → content b ++ more ≡ encode_all g.header_size (p ∷ later)
      → g.header_size ≤ length (content b)
      → IsPackage g.header_size p
      → HasHeader b more p later
  stream-HasHeader b more p later stream enough good =
      let front : List ℕ = header_bytes g.header_size (length p) in
      let e : length front ≡ g.header_size = length-header_bytes g.header_size (length p) sized in
      let split : content b ++ more ≡ front ++ (p ++ encode_all g.header_size later) =
        stream ∙ append_assoc front p (encode_all g.header_size later) in
      let taken : take g.header_size (content b) ≡ front =
        ap (λ n. take n (content b)) (sym e)
        ∙ take-prefix (content b) more front (p ++ encode_all g.header_size later) split
            (omega arith) in
      record {
        value = rw taken (header_of-header_bytes g.header_size (length p) sized good.1);
        behind =
            ap (λ n. drop n (content b) ++ more) (sym e)
            ∙ drop-prefix (content b) more front (p ++ encode_all g.header_size later) split
                (omega arith);
      }

  -- The loop ends with all packages sent whose last byte is there.
  pub loop-Done :
      (fuel : ℕ) (b : DataBuffer) (mp : MessagePool) (ps : List (List ℕ)) (more : List ℕ)
      → IsBuffer in_use b mp
      → Expects g.header_size b more ps
      → ArePackages ps
      → b.size < fuel
      → IsDone ps more (loop fuel b mp)
  loop-Done zero b mp ps more ok state good h = absurd (omega arith)
  loop-Done (suc fuel) b mp ps more ok (in_body p later shape e stream) good h =
      let goods = subst ArePackages shape good in
      rw shape (
        body-Done data_prefix g in_use socket id agent client served sized fuel b mp p later more ok
          e stream goods.0
          (λ b' mp' ok' e' s' fewer.
            loop-Done fuel b' mp' later more ok' (at_header e' s') goods.1 (omega arith)))
  loop-Done (suc fuel) b mp [] more ok (at_header e stream) good h =
      let nothing : length (content b) ≡ 0 =
        omega (arith, ap length stream, length-append (content b) more) in
      stops data_prefix g in_use socket id agent client served sized fuel b b mp mp [] more
        (header-waits b mp e (omega (arith, header_size_pos, ok.counted))) ok (at_header e stream)
        (λ _. refl)
  loop-Done (suc fuel) b mp (p ∷ later) more ok (at_header e stream) good h =
      elim (Bool-cases (ltb b.size g.header_size)) [
        | inl less ↦
            let short = ltb→lt b.size g.header_size less in
            stops data_prefix g in_use socket id agent client served sized fuel b b mp mp
              (p ∷ later) more (header-waits b mp e short) ok (at_header e stream)
              (λ nothing. encode_all-short (p ∷ later) (
                omega (
                  arith,
                  ok.counted,
                  ap length stream,
                  length-append (content b) more,
                  ap length nothing,
                )))
        | inr enough ↦
            let whole : g.header_size ≤ b.size = ground arith in
            let r = read-HasRead in_use g.header_size b mp ok header_size_pos whole in
            let front = stream-HasHeader b more p later stream (omega (arith, ok.counted)) good.0 in
            let k : DataBuffer = record r.last { header = length p } in
            let fewer : k.size ≤ b.size = omega (
              arith,
              r.valid.counted,
              ok.counted,
              ap length r.rest,
              length-drop g.header_size (content b),
            ) in
            subst (IsDone (p ∷ later) more)
              (sym (
                same_round fuel b k mp r.pool (reads_header b mp (length p) r e whole front.value)
                  good.0.0))
              (body-Done data_prefix g in_use socket id agent client served sized fuel k r.pool p
                later more
                (record {
                  in_head = r.valid.in_head;
                  counted = r.valid.counted;
                  pooled = r.valid.pooled;
                })
                refl (ap (λ xs. xs ++ more) r.rest ∙ front.behind) good.0
                (λ b' mp' ok' e' s' less.
                  loop-Done fuel b' mp' later more ok' (at_header e' s') good.1 (omega arith)))
      ]
