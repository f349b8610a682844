-- ===== src/Gate/Packages.antt =====
-- The packages that the gate of service-src/service_gate.c cuts out of the chunks of a stream.
use pskynet.Prelude.{
  ℕ, suc, ◌^◌, ◌≤◌, ◌<◌, ◌≡◌, refl, ap, ◌∙◌, ◌≢◌, inl, inr, true, false, List, [], ◌∷◌, ◌++◌, some,
  arith, ◌==◌, ltb, length, take, drop, length-append, length-drop, Bool-cases, ltb→lt,
}
use pskynet.Prelude.Bytes.{take-prefix, drop-prefix}
use pskynet.Gate.Buffer.{DataBuffer, MessagePool, check_body, read_header, reset, read}
use pskynet.Gate.Reading.{content, IsBuffer, HasRead, read-HasRead}
use pskynet.Gate.Framing.{encode_all, size_limit, IsHeaderSize}
use pskynet.Gate.{Connection, Gate, Effect, Outcome, round, dispatch_loop}
use pskynet.Gate.Stream.{
  conn, deliveries, delivery, IsServed, check_body-waits, check_body-whole, handle_size-delivery,
  handle_size-waits,
}

abbrev pub IsPackage : ℕ → List ℕ → Type 0
IsPackage header_size p = (0 < length p) × (length p < size_limit header_size)

size_limit_le : (header_size : ℕ) → IsHeaderSize header_size → size_limit header_size ≤ 2 ^ 24
size_limit_le n (inl e) = rw e (omega arith)
size_limit_le n (inr e) = rw e (omega arith)

-- What the gate waits for when the packages `ps` are not cut out yet and `more` is still to come.
pub data Expects (header_size : ℕ) (b : DataBuffer) (more : List ℕ) (ps : List (List ℕ))
    : Type 0 where
  at_header :
      b.header ≡ 0 → content b ++ more ≡ encode_all header_size ps → Expects header_size b more ps
  in_body :
      (p : List ℕ) (later : List (List ℕ))
      → ps ≡ p ∷ later
      → b.header ≡ length p
      → content b ++ more ≡ p ++ encode_all header_size later
      → Expects header_size b more ps

-- The stream cannot end inside a package.
cut_short :
    (header_size in_use : ℕ) (b : DataBuffer) (mp : MessagePool) (p : List ℕ)
    (later : List (List ℕ)) (more : List ℕ)
    → IsBuffer in_use b mp
    → b.header ≡ length p
    → content b ++ more ≡ p ++ encode_all header_size later
    → b.size < b.header
    → more ≢ []
cut_short header_size in_use b mp p later more ok e stream short nothing = omega (
  arith,
  ok.counted,
  ap length stream,
  ap length nothing,
  length-append (content b) more,
  length-append p (encode_all header_size later),
)

module _ (data_prefix : ℕ → List ℕ) (g : Gate) (in_use socket id agent client : ℕ)
    (served : IsServed data_prefix g in_use socket id agent client)
    (sized : IsHeaderSize g.header_size) where
  abbrev at : DataBuffer → Connection
  at b = conn data_prefix g in_use socket id agent client b

  abbrev sends : List (List ℕ) → List Effect
  sends ps = deliveries data_prefix g in_use socket id agent client ps

  -- The gate has sent some of the packages and waits for the others.
  pub record Done (ps : List (List ℕ)) (more : List ℕ) (r : Outcome) : Type 0 where
    pub done : List (List ℕ)
    pub left : List (List ℕ)
    pub all : ps ≡ done ++ left
    pub last : DataBuffer
    pub pool : MessagePool
    pub returns : r ≡ some (sends done, at last, pool)
    pub valid : IsBuffer in_use last pool
    pub state : Expects g.header_size last more left
    pub ended : more ≡ [] → left ≡ []

  -- A round that ends the loop.
  pub stops :
      (fuel : ℕ) (b last : DataBuffer) (mp pool : MessagePool) (ps : List (List ℕ)) (more : List ℕ)
      → round data_prefix g socket (at b) mp ≡ some (false, [], at last, pool)
      → IsBuffer in_use last pool
      → Expects g.header_size last more ps
      → (more ≡ [] → ps ≡ [])
      → Done ps more (dispatch_loop data_prefix g (suc fuel) socket (at b) mp)
  unfolding dispatch_loop
  stops fuel b last mp pool ps more e ok state ended = record {
    done = [];
    left = ps;
    all = refl;
    last = last;
    pool = pool;
    returns = rw (e, dispatch_loop);
    valid = ok;
    state = state;
    ended = ended;
  }

  -- A round that sends a package.
  goes_on :
      (fuel : ℕ) (b next : DataBuffer) (mp pool : MessagePool) (p : List ℕ) (ps : List (List ℕ))
      (more : List ℕ)
      → round data_prefix g socket (at b) mp
        ≡ some (true, delivery data_prefix g in_use socket id agent client p, at next, pool)
      → Done ps more (dispatch_loop data_prefix g fuel socket (at next) pool)
      → Done (p ∷ ps) more (dispatch_loop data_prefix g (suc fuel) socket (at b) mp)
  unfolding dispatch_loop
  goes_on fuel b next mp pool p ps more e rest = record {
    done = p ∷ rest.done;
    left = rest.left;
    all = ap (λ qs. p ∷ qs) rest.all;
    last = rest.last;
    pool = rest.pool;
    returns = rw (e, dispatch_loop) (rw rest.returns);
    valid = rest.valid;
    state = rest.state;
    ended = rest.ended;
  }

  -- A known header is not read again.
  known :
      (b : DataBuffer) (mp : MessagePool)
      → (b.header == 0) ≡ false
      → read_header b mp g.header_size ≡ some (check_body b, b, mp)
  unfolding read_header
  known b mp e = rw e

  round-waits :
      (b : DataBuffer) (mp : MessagePool)
      → 0 < b.header
      → b.header < 2 ^ 24
      → b.size < b.header
      → round data_prefix g socket (at b) mp ≡ some (false, [], at b, mp)
  unfolding round
  round-waits b mp pos small short =
      let e : (b.header == 0) ≡ false = ground arith in
      rw (round, known b mp e, check_body-waits b small short)
        (handle_size-waits data_prefix g in_use socket id agent client b mp)

  round-sends :
      (b : DataBuffer) (mp : MessagePool) (r : HasRead in_use b.header b (read b mp b.header))
      → 0 < b.header
      → b.header < 2 ^ 24
      → b.header ≤ b.size
      → round data_prefix g socket (at b) mp
        ≡ some (
          true,
          delivery data_prefix g in_use socket id agent client (take b.header (content b)),
          at (reset r.last),
          r.pool,
        )
  unfolding round reset
  round-sends b mp r pos small enough =
      let e : (b.header == 0) ≡ false = ground arith in
      rw (round, known b mp e, check_body-whole b small enough)
        (handle_size-delivery data_prefix g in_use socket id agent client served b.header b mp r pos
          small)

  -- A buffer where the header of the next package is known.
  pub body-Done :
      (fuel : ℕ) (b : DataBuffer) (mp : MessagePool) (p : List ℕ) (later : List (List ℕ))
      (more : List ℕ)
      → IsBuffer in_use b mp
      → b.header ≡ length p
      → content b ++ more ≡ p ++ encode_all g.header_size later
      → IsPackage g.header_size p
      → ((b' : DataBuffer) (mp' : MessagePool)
          → IsBuffer in_use b' mp'
          → b'.header ≡ 0
          → content b' ++ more ≡ encode_all g.header_size later
          → b'.size < b.size
          → Done later more (dispatch_loop data_prefix g fuel socket (at b') mp'))
      → Done (p ∷ later) more (dispatch_loop data_prefix g (suc fuel) socket (at b) mp)
  unfolding reset
  body-Done fuel b mp p later more ok e stream good next =
      let limit = size_limit_le g.header_size sized in
      let pos : 0 < b.header = omega (arith, good.0) in
      let small : b.header < 2 ^ 24 = omega (arith, good.1) in
      elim (Bool-cases (ltb b.size b.header)) [
        | inl less ↦
            let short = ltb→lt b.size b.header less in
            stops fuel b b mp mp (p ∷ later) more (round-waits b mp pos small short) ok
              (in_body p later refl e stream)
              (λ nothing.
                absurd (cut_short g.header_size in_use b mp p later more ok e stream short nothing))
        | inr enough ↦
            let whole : b.header ≤ b.size = ground arith in
            let r = read-HasRead in_use b.header b mp ok pos whole in
            let fits : length p ≤ length (content b) = omega (arith, ok.counted) in
            let front : take b.header (content b) ≡ p =
              ap (λ n. take n (content b)) e
              ∙ take-prefix (content b) more p (encode_all g.header_size later) stream fits in
            let rest : content r.last ++ more ≡ encode_all g.header_size later =
              ap (λ xs. xs ++ more) (r.rest ∙ ap (λ n. drop n (content b)) e)
              ∙ drop-prefix (content b) more p (encode_all g.header_size later) stream fits in
            let fewer : r.last.size < b.size = omega (
              arith,
              r.valid.counted,
              ok.counted,
              ap length r.rest,
              length-drop b.header (content b),
            ) in
            goes_on fuel b (reset r.last) mp r.pool p later more
              (round-sends b mp r pos small whole
                ∙ ap
                    (λ q. some (
                      true,
                      delivery data_prefix g in_use socket id agent client q,
                      at (reset r.last),
                      r.pool,
                    ))
                    front)
              (next (reset r.last) r.pool
                (record {
                  in_head = r.valid.in_head;
                  counted = r.valid.counted;
                  pooled = r.valid.pooled;
                })
                refl rest fewer)
      ]
