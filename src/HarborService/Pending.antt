-- ===== src/HarborService/Pending.antt =====
-- How much of a message has come from a socket, in service-src/service_harbor.c.
use pskynet.Prelude.{
  ℕ, ◌+◌, ◌-◌, ◌%◌, ◌^◌, ◌≤◌, ◌<◌, ◌≡◌, ◌≢◌, refl, sym, ap, ◌∙◌, inl, inr, arith, Bool, false, List,
  [], ◌∷◌, ◌++◌, append_assoc, some, ◌==◌, ==_refl, ==→≡, ≢→==, Bool-cases, length, take, drop,
}
use pskynet.Prelude.Bytes.{take-prefix, drop-prefix}
use pskynet.HarborService.{
  header, content, Slave, Harbor, Done, to_bigendian, header_to_message, header_cookie_length,
}
use pskynet.HarborService.Slaves.{put_slave, behind, forward_header}
use pskynet.HarborService.Wire.{Package, IsPackage, stream}
use pskynet.HarborService.Feed.{forwards, forwards_lem}

-- The bytes `c` complete the part `a`, of which the bytes `got` have come.
pub record Filled (got c later a b : List ℕ) : Type 0 where
  pub whole : got ++ take (length a - length got) c ≡ a
  pub left : drop (length a - length got) c ++ later ≡ b

pub fill :
    (got c later a b : List ℕ)
    → got ++ (c ++ later) ≡ a ++ b
    → length got ≤ length a
    → length a ≤ length got + length c
    → Filled got c later a b
fill [] c later a b e some_ enough =
    let zero_ : length a - 0 ≡ length a = omega arith in
    record {
      whole = rw zero_ (take-prefix c later a b e (omega arith));
      left = rw zero_ (drop-prefix c later a b e (omega arith));
    }
fill (x ∷ got) c later [] b e some_ enough = absurd (omega arith)
fill (x ∷ got) c later (y ∷ a) b e some_ enough =
    let rest : got ++ (c ++ later) ≡ a ++ b = cc in
    let same : x ≡ y = cc in
    let k = fill got c later a b rest (omega arith) (omega arith) in
    let less : length (y ∷ a) - length (x ∷ got) ≡ length a - length got = omega arith in
    record { whole = rw less (rw k.whole (ap (λ z. z ∷ a) same)); left = rw less k.left }

-- Between two messages, or in a length: the bytes of it that have come.
pub record InHeader (s : Slave) (got : List ℕ) : Type 0 where
  pub at : s.status ≡ header
  pub bytes : s.size ≡ got
  pub short : length got < 4

-- In a content.
pub record InContent (s : Slave) (p : Package) (got : List ℕ) : Type 0 where
  pub at : s.status ≡ content
  pub nothing : s.size ≡ []
  pub size : s.length ≡ length p.body + header_cookie_length
  pub bytes : s.recv_buffer ≡ got
  pub short : length got < length p.body + header_cookie_length

-- The slave has the bytes `got` of the first of the messages that are still to come.
pub data Pending (s : Slave) : List Package → List ℕ → Type 0 where
  in_header : {ps : List Package} {got : List ℕ} → InHeader s got → Pending s ps got
  in_content :
      {ps : List Package} {got : List ℕ} (p : Package)
      → InContent s p got
      → Pending s (p ∷ ps) (to_bigendian (length p.body + header_cookie_length) ++ got)

pub stream_content :
    (p : Package) (ps : List Package)
    → IsPackage p
    → stream (p ∷ ps)
      ≡ to_bigendian (length p.body + header_cookie_length)
        ++ ((p.body ++ header_to_message p.cookie) ++ stream ps)
stream_content p ps ok =
    let n : (length p.body + header_cookie_length) % 2 ^ 32 ≡ length p.body + header_cookie_length =
      omega (arith, ok.small) in
    rw n (
      append_assoc (to_bigendian (length p.body + header_cookie_length))
        (p.body ++ header_to_message p.cookie) (stream ps))

pub same_front : (a b c : List ℕ) → a ++ b ≡ a ++ c → b ≡ c
same_front [] b c e = e
same_front (x ∷ a) b c e = same_front a b c (cc (e))

pub first_package :
    (ps : List Package)
    → 0 < length (stream ps)
    → (p : Package) × ((rest : List Package) × (ps ≡ p ∷ rest))
first_package [] h = absurd (omega (arith, h))
first_package (p ∷ ps) h = (p, (ps, refl))

module _ (reachable : ℕ → Bool) (id : ℕ) where
  -- The first messages are complete and have been passed on; `later` are bytes that come later.
  pub record Took (h : Harbor) (ps : List Package) (later : List ℕ) (r : Done) : Type 0 where
    pub passed : List Package
    pub left : List Package
    pub split : ps ≡ passed ++ left
    pub next : Harbor
    pub returns : r ≡ some (forwards reachable h passed, next)
    pub number : next.id ≡ h.id
    pub fds : (i : ℕ) → (next.slaves i).fd ≡ (h.slaves i).fd
    pub others : (i : ℕ) → i ≢ id → next.slaves i ≡ h.slaves i
    pub got : List ℕ
    pub pending : Pending (next.slaves id) left got
    pub to_come : got ++ later ≡ stream left

  -- The slave is changed, but not its socket.
  pub stays :
      (h : Harbor) (s : Slave) (ps : List Package) (later got : List ℕ)
      → s.fd ≡ (h.slaves id).fd
      → Pending s ps got
      → got ++ later ≡ stream ps
      → Took h ps later (some ([], put_slave h id s))
  stays h s ps later got fd pending e = record {
    passed = [];
    left = ps;
    split = refl;
    next = put_slave h id s;
    returns = refl;
    number = refl;
    fds = λ i. elim (Bool-cases (id == i)) [
      | inl t ↦ rw t (fd ∙ ap (λ k. (h.slaves k).fd) (==→≡ id i t))
      | inr f ↦ rw f
    ];
    others = λ i apart. let f : (id == i) ≡ false = ≢→== id i (λ k. apart (sym k)) in rw f;
    got = got;
    pending = rw (==_refl id) pending;
    to_come = e;
  }

  -- What comes behind the change of the slave.
  pub behind_change :
      (h : Harbor) (s : Slave) (ps : List Package) (later : List ℕ) (r : Done)
      → s.fd ≡ (h.slaves id).fd
      → Took (put_slave h id s) ps later r
      → Took h ps later r
  behind_change h s ps later r fd t = record {
    passed = t.passed;
    left = t.left;
    split = t.split;
    next = t.next;
    returns = t.returns ∙ ap (λ k. some (k, t.next)) (forwards_lem reachable t.passed h id s);
    number = t.number;
    fds = λ i. t.fds i ∙ elim (Bool-cases (id == i)) [
      | inl k ↦ rw k (fd ∙ ap (λ k. (h.slaves k).fd) (==→≡ id i k))
      | inr f ↦ rw f
    ];
    others = λ i apart.
        let f : (id == i) ≡ false = ≢→== id i (λ k. apart (sym k)) in t.others i apart ∙ rw f;
    got = t.got;
    pending = t.pending;
    to_come = t.to_come;
  }

  pub behind-Took :
      (h : Harbor) (p : Package) (ps : List Package) (later : List ℕ) (r : Done)
      → Took h ps later r
      → Took h (p ∷ ps) later (behind (forward_header reachable h p.cookie p.body) r)
  behind-Took h p ps later r t = record {
    passed = p ∷ t.passed;
    left = t.left;
    split = ap (λ k. p ∷ k) t.split;
    next = t.next;
    returns = rw t.returns;
    number = t.number;
    fds = t.fds;
    others = t.others;
    got = t.got;
    pending = t.pending;
    to_come = t.to_come;
  }
