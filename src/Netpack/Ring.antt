-- ===== src/Netpack/Ring.antt =====
-- The ring of packages of lualib-src/lua-netpack.c as a queue.
use pskynet.Prelude.{
  ℕ, zero, suc, ◌+◌, ◌-◌, ◌%◌, ◌≤◌, ◌<◌, ◌≡◌, refl, sym, subst, ap, ap₂, ◌∙◌, ◌≢◌, inl, inr, true,
  false, List, [], ◌∷◌, ◌++◌, none, some, arith, ◌==◌, ltb, leb, if◌then◌else◌, Bool-cases, length,
  ==→≡, ==_false, ≢→==, ==_refl,
}
use pskynet.Prelude.Wrap.{wrap_low, wrap_high, wrap_cases}
use pskynet.Netpack.{
  NetPack, Queue, set, queue_size, expand_queue, advance, push_data, get_queue, pop, entries, clear,
}

-- How many packages wait.
abbrev pub count : Queue → ℕ
count q = if leb q.head q.tail then q.tail - q.head else q.tail + q.cap - q.head

-- The packages that wait, oldest first.
abbrev pub packs : Queue → List NetPack
packs q = entries q q.head (count q)

pub record IsQueue (q : Queue) : Type 0 where
  pub some_room : 0 < q.cap
  pub head : q.head < q.cap
  pub tail : q.tail < q.cap

pub entries-ext :
    (q r : Queue) (i j n : ℕ)
    → ((k : ℕ) → k < n → q.queue ((i + k) % q.cap) ≡ r.queue ((j + k) % r.cap))
    → entries q i n ≡ entries r j n
unfolding entries
entries-ext q r i j zero h = refl
entries-ext q r i j (suc n) h =
    let here : q.queue (i % q.cap) ≡ r.queue (j % r.cap) =
      let e : i + 0 ≡ i = omega arith in
      let f : j + 0 ≡ j = omega arith in
      subst (λ a. q.queue (a % q.cap) ≡ r.queue (j % r.cap)) e
        (subst (λ b. q.queue ((i + 0) % q.cap) ≡ r.queue (b % r.cap)) f (h 0 (omega arith))) in
    let rest = entries-ext q r (i + 1) (j + 1) n (λ k p.
      let e : i + suc k ≡ i + 1 + k = omega arith in
      let f : j + suc k ≡ j + 1 + k = omega arith in
      subst (λ a. q.queue (a % q.cap) ≡ r.queue ((j + 1 + k) % r.cap)) e
        (subst (λ b. q.queue ((i + suc k) % q.cap) ≡ r.queue (b % r.cap)) f
          (h (suc k) (omega arith)))) in
    ap₂ (λ x xs. x ∷ xs) here rest

entries-last :
    (q : Queue) (i n : ℕ) → entries q i (suc n) ≡ entries q i n ++ q.queue ((i + n) % q.cap) ∷ []
unfolding entries
entries-last q i zero = let e : i ≡ i + 0 = omega arith in ap (λ k. q.queue (k % q.cap) ∷ []) e
entries-last q i (suc n) =
    let e : i + 1 + n ≡ i + suc n = omega arith in
    ap (λ xs. q.queue (i % q.cap) ∷ xs)
      (entries-last q (i + 1) n ∙ ap (λ k. entries q (i + 1) n ++ q.queue (k % q.cap) ∷ []) e)

pub record Queued (q : Queue) (np : NetPack) (r : Queue) : Type 0 where
  pub valid : IsQueue r
  pub packages : packs r ≡ packs q ++ np ∷ []
  pub hash : r.hash ≡ q.hash

module _ (q : Queue) (fd : ℕ) (buffer : List ℕ) (ok : IsQueue q) where
  abbrev np : NetPack
  np = record { id = fd; buffer = buffer }

  -- The queue with the package stored, before the test for a full ring.
  abbrev stored : Queue
  stored = record q { queue = set q.queue q.tail np; tail = advance q.tail q.cap }

  count_lt : count q < q.cap
  count_lt = ground (arith, ok.head, ok.tail)

  last_slot : (q.head + count q) % q.cap ≡ q.tail
  last_slot = elim (Bool-cases (leb q.head q.tail)) [
    | inl below ↦ rw below (
        let e : q.head + (q.tail - q.head) ≡ q.tail = ground arith in
        rw e (wrap_low q.tail q.cap ok.tail))
    | inr above ↦ rw above (
        let big : q.cap ≤ q.head + (q.tail + q.cap - q.head) = ground (arith, ok.head, ok.tail) in
        let small : q.head + (q.tail + q.cap - q.head) < q.cap + q.cap =
          ground (arith, ok.head, ok.tail) in
        wrap_high (q.head + (q.tail + q.cap - q.head)) q.cap big small ∙ ground (arith, ok.head))
  ]

  old_slot : (k : ℕ) → k < count q → (q.head + k) % q.cap ≢ q.tail
  old_slot k h same = elim (wrap_cases (q.head + k) q.cap (omega (arith, count_lt, ok.head))) [
    | inl (low, e) ↦ ground (arith, ok.head, ok.tail, e)
    | inr (high, e) ↦ ground (arith, ok.head, ok.tail, e)
  ]

  stored-entries : entries stored q.head (suc (count q)) ≡ packs q ++ np ∷ []
  stored-entries =
      let old : entries stored q.head (count q) ≡ packs q =
        entries-ext stored q q.head q.head (count q) (λ k h.
          let other : (q.tail == (q.head + k) % q.cap) ≡ false =
            ≢→== q.tail ((q.head + k) % q.cap) (λ e. old_slot k h (sym e)) in
          rw other) in
      let new : stored.queue ((q.head + count q) % q.cap) ≡ np = rw (last_slot, ==_refl q.tail) in
      entries-last stored q.head (count q) ∙ ap₂ (λ xs x. xs ++ x ∷ []) old new

  advance_lt : advance q.tail q.cap < q.cap
  unfolding advance
  advance_lt = ground (arith, ok.tail)

  stored_count : q.head ≢ advance q.tail q.cap → count stored ≡ suc (count q)
  unfolding advance
  stored_count h = ground (arith, ok.head, ok.tail, ok.some_room)

  full_count : q.head ≡ advance q.tail q.cap → q.cap ≡ suc (count q)
  unfolding advance
  full_count h = ground (arith, ok.head, ok.tail, ok.some_room)

  -- Storing a package moves the tail on, or fills the ring, which then grows.
  pub push_data-Queued : Queued q np (push_data (some q) fd buffer)
  unfolding push_data get_queue expand_queue
  push_data-Queued = elim (Bool-cases (q.head == advance q.tail q.cap)) [
    | inr room ↦
        let more : count stored ≡ suc (count q) =
          stored_count (==_false q.head (advance q.tail q.cap) room) in
        rw room (record {
          valid = record { some_room = ok.some_room; head = ok.head; tail = advance_lt };
          packages = ap (entries stored q.head) more ∙ stored-entries;
          hash = refl;
        })
    | inl full ↦
        let all : q.cap ≡ suc (count q) = full_count (==→≡ q.head (advance q.tail q.cap) full) in
        let waiting : count (expand_queue stored) ≡ q.cap = ground arith in
        let moved : entries (expand_queue stored) 0 q.cap ≡ entries stored q.head q.cap =
          entries-ext (expand_queue stored) stored 0 q.head q.cap (λ k h.
            let same : (0 + k) % (q.cap + queue_size) ≡ k =
              wrap_low (0 + k) (q.cap + queue_size) (omega arith) ∙ omega arith in
            ap (λ j. stored.queue ((q.head + j) % q.cap)) same) in
        rw full (record {
          valid = record { some_room = omega arith; head = omega arith; tail = omega arith };
          packages =
              ap (entries (expand_queue stored) 0) waiting
              ∙ moved
              ∙ ap (entries stored q.head) all
              ∙ stored-entries;
          hash = refl;
        })
  ]

-- What `lpop` gives.
pub record Dequeued (q : Queue) (np : NetPack) (rest : List NetPack) : Type 0 where
  pub next : Queue
  pub returns : pop (some q) ≡ (some np, some next)
  pub valid : IsQueue next
  pub packages : packs next ≡ rest
  pub hash : next.hash ≡ q.hash

entries_nil : (q : Queue) (i n : ℕ) → entries q i n ≡ [] → n ≡ 0
unfolding entries
entries_nil q i zero h = refl
entries_nil q i (suc n) h = absurd (omega (arith, ap length h))

record HasFirst (q : Queue) (i n : ℕ) (np : NetPack) (rest : List NetPack) : Type 0 where
  fewer : ℕ
  size : n ≡ suc fewer
  first : q.queue (i % q.cap) ≡ np
  others : entries q (i + 1) fewer ≡ rest

entries_cons :
    (q : Queue) (i n : ℕ) (np : NetPack) (rest : List NetPack)
    → entries q i n ≡ np ∷ rest
    → HasFirst q i n np rest
unfolding entries
entries_cons q i zero np rest h = absurd (omega (arith, ap length h))
entries_cons q i (suc n) np rest h = record { fewer = n; size = refl; first = cc; others = cc }

module _ (q : Queue) (ok : IsQueue q) where
  count_zero : count q ≡ 0 → q.head ≡ q.tail
  count_zero h = ground (arith, ok.head, ok.tail)

  pub pop-empty : packs q ≡ [] → pop (some q) ≡ (none, some q)
  unfolding pop
  pop-empty h =
      let e : q.head ≡ q.tail = count_zero (entries_nil q q.head (count q) h) in
      let same : (q.head == q.tail) ≡ true = ground arith in rw same

  abbrev next_head : ℕ
  next_head = if leb q.cap (q.head + 1) then 0 else q.head + 1

  next_slot : (k : ℕ) → k < q.cap → (next_head + k) % q.cap ≡ (q.head + 1 + k) % q.cap
  next_slot k h = elim (Bool-cases (leb q.cap (q.head + 1))) [
    | inr below ↦ rw below
    | inl over ↦
        let e : q.head + 1 ≡ q.cap = ground (arith, ok.head) in
        let low : (0 + k) % q.cap ≡ k = wrap_low (0 + k) q.cap (omega arith) ∙ omega arith in
        let high : (q.cap + k) % q.cap ≡ k =
          wrap_high (q.cap + k) q.cap (omega arith) (omega arith) ∙ omega arith in
        rw (over, e) (low ∙ sym high)
  ]

  -- `lpop` takes the oldest package.
  pub pop-Dequeued : (np : NetPack) (rest : List NetPack) → packs q ≡ np ∷ rest → Dequeued q np rest
  unfolding pop
  pop-Dequeued np rest h =
      let first = entries_cons q q.head (count q) np rest h in
      let next : Queue = record q { head = next_head } in
      let differ : (q.head == q.tail) ≡ false = ground (arith, first.size, ok.head, ok.tail) in
      let waiting : count next ≡ first.fewer = ground (arith, first.size, ok.head, ok.tail) in
      let small : count q ≤ q.cap = ground (arith, ok.head, ok.tail) in
      let front : q.queue q.head ≡ np =
        ap q.queue (sym (wrap_low q.head q.cap ok.head)) ∙ first.first in
      record {
        next = next;
        returns = rw differ (ap (λ x. (some x, some next)) front);
        valid = record {
          some_room = ok.some_room;
          head = ground (arith, ok.some_room);
          tail = ok.tail;
        };
        packages =
            ap (entries next next_head) waiting
            ∙ entries-ext next q next_head (q.head + 1) first.fewer
                (λ k p. ap q.queue (next_slot k (omega (arith, first.size))))
            ∙ first.others;
        hash = refl;
      }

  -- `lclear` frees what waits, and nothing waits afterwards.
  pub clear_lem : ((clear q).0 ≡ packs q) × (packs (clear q).1 ≡ []) × IsQueue (clear q).1
  unfolding clear entries
  clear_lem =
      let freed : (if ltb q.tail q.head then q.tail + q.cap else q.tail) - q.head ≡ count q =
        ground (arith, ok.head, ok.tail) in
      (
        ap (entries q q.head) freed,
        refl,
        record { some_room = ok.some_room; head = ok.some_room; tail = ok.some_room },
      )
