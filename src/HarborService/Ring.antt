-- ===== src/HarborService/Ring.antt =====
-- The ring of messages of service-src/service_harbor.c as a queue.
use pskynet.Prelude.{
  ℕ, zero, suc, ◌+◌, ◌-◌, ◌*◌, ◌%◌, ◌≤◌, ◌<◌, ◌≡◌, ◌≢◌, refl, sym, subst, ap, ap₂, ◌∙◌, ◌⊎◌, inl,
  inr, false, List, [], ◌∷◌, ◌++◌, none, some, arith, ◌==◌, leb, if◌then◌else◌, Bool-cases, length,
  ==→≡, ==_false, ≢→==, ==_refl,
}
use pskynet.Prelude.Wrap.{wrap_low, wrap_high, wrap_cases}
use pskynet.HarborService.{
  HarborMsg, HarborMsgQueue, grow_queue, put_slot, push_queue_msg, pop_queue, new_queue, drain,
  pop_all,
}

-- `n` messages from `i` on.
abbrev pub items : HarborMsgQueue → ℕ → ℕ → List HarborMsg
items q i zero = []
items q i (suc n) = q.slots (i % q.size) ∷ items q (i + 1) n

abbrev pub count : HarborMsgQueue → ℕ
count q = if leb q.head q.tail then q.tail - q.head else q.tail + q.size - q.head

-- The messages that wait, oldest first.
abbrev pub waiting : HarborMsgQueue → List HarborMsg
waiting q = items q q.head (count q)

pub record IsQueue (q : HarborMsgQueue) : Type 0 where
  pub some_room : 0 < q.size
  pub head : q.head < q.size
  pub tail : q.tail < q.size

items-ext :
    (q r : HarborMsgQueue) (i j n : ℕ)
    → ((k : ℕ) → k < n → q.slots ((i + k) % q.size) ≡ r.slots ((j + k) % r.size))
    → items q i n ≡ items r j n
items-ext q r i j zero h = refl
items-ext q r i j (suc n) h =
    let at : (k a b : ℕ)
        → k < suc n
        → i + k ≡ a
        → j + k ≡ b
        → q.slots (a % q.size) ≡ r.slots (b % r.size) =
      λ k a b p e f.
        subst (λ c. q.slots (c % q.size) ≡ r.slots (b % r.size)) e
          (subst (λ c. q.slots ((i + k) % q.size) ≡ r.slots (c % r.size)) f (h k p)) in
    ap₂ (λ x xs. x ∷ xs) (at 0 i j (omega arith) (omega arith) (omega arith))
      (items-ext q r (i + 1) (j + 1) n
        (λ k p. at (suc k) (i + 1 + k) (j + 1 + k) (omega arith) (omega arith) (omega arith)))

items-last :
    (q : HarborMsgQueue) (i n : ℕ)
    → items q i (suc n) ≡ items q i n ++ q.slots ((i + n) % q.size) ∷ []
items-last q i zero = let e : i ≡ i + 0 = omega arith in ap (λ k. q.slots (k % q.size) ∷ []) e
items-last q i (suc n) =
    let e : i + 1 + n ≡ i + suc n = omega arith in
    ap (λ xs. q.slots (i % q.size) ∷ xs)
      (items-last q (i + 1) n ∙ ap (λ k. items q (i + 1) n ++ q.slots (k % q.size) ∷ []) e)

-- The message is the last one in the queue.
pub record Put (q : HarborMsgQueue) (m : HarborMsg) (r : HarborMsgQueue) : Type 0 where
  pub valid : IsQueue r
  pub messages : waiting r ≡ waiting q ++ m ∷ []

next_tail :
    (q : HarborMsgQueue)
    → IsQueue q
    → (((q.tail + 1) % q.size ≡ q.tail + 1) × (q.tail + 1 < q.size))
      ⊎ (((q.tail + 1) % q.size ≡ 0) × (q.tail + 1 ≡ q.size))
next_tail q ok = elim (wrap_cases (q.tail + 1) q.size (omega (arith, ok.tail, ok.some_room))) [
  | inl (low, e) ↦ inl (e, low)
  | inr (high, e) ↦ inr (omega (arith, e, ok.tail), omega (arith, ok.tail))
]

module _ (q : HarborMsgQueue) (m : HarborMsg) (ok : IsQueue q) where
  count_lt : count q < q.size
  count_lt = ground (arith, ok.head, ok.tail)

  last_slot : (q.head + count q) % q.size ≡ q.tail
  last_slot = elim (Bool-cases (leb q.head q.tail)) [
    | inl below ↦ rw below (
        let e : q.head + (q.tail - q.head) ≡ q.tail = ground arith in
        rw e (wrap_low q.tail q.size ok.tail))
    | inr above ↦ rw above (
        let big : q.size ≤ q.head + (q.tail + q.size - q.head) = ground (arith, ok.head, ok.tail) in
        let small : q.head + (q.tail + q.size - q.head) < q.size + q.size =
          ground (arith, ok.head, ok.tail) in
        wrap_high (q.head + (q.tail + q.size - q.head)) q.size big small ∙ ground (arith, ok.head))
  ]

  old_slot : (k : ℕ) → k < count q → (q.head + k) % q.size ≢ q.tail
  old_slot k h same = elim (wrap_cases (q.head + k) q.size (omega (arith, count_lt, ok.head))) [
    | inl (low, e) ↦ ground (arith, ok.head, ok.tail, e)
    | inr (high, e) ↦ ground (arith, ok.head, ok.tail, e)
  ]

  stored : items (put_slot q m) q.head (suc (count q)) ≡ waiting q ++ m ∷ []
  unfolding put_slot
  stored =
      let old : items (put_slot q m) q.head (count q) ≡ waiting q =
        items-ext (put_slot q m) q q.head q.head (count q) (λ k h.
          let other : (q.tail == (q.head + k) % q.size) ≡ false =
            ≢→== q.tail ((q.head + k) % q.size) (λ e. old_slot k h (sym e)) in
          rw other) in
      let new : (put_slot q m).slots ((q.head + count q) % q.size) ≡ m =
        rw (last_slot, ==_refl q.tail) in
      items-last (put_slot q m) q.head (count q) ∙ ap₂ (λ xs x. xs ++ x ∷ []) old new

  put_slot-Put : (q.tail + 1) % q.size ≢ q.head → Put q m (put_slot q m)
  unfolding put_slot
  put_slot-Put room =
      let more : count (put_slot q m) ≡ suc (count q) = elim (next_tail q ok) [
        | inl (e, low) ↦
            let apart : q.tail + 1 ≢ q.head = λ k. room (e ∙ k) in
            rw e (ground (arith, ok.head, ok.tail))
        | inr (e, top) ↦
            let apart : 0 ≢ q.head = λ k. room (e ∙ k) in rw e (ground (arith, ok.head, ok.tail))
      ] in
      record {
        valid = record {
          some_room = ok.some_room;
          head = ok.head;
          tail = elim (next_tail q ok) [
            | inl (e, low) ↦ rw e low
            | inr (e, top) ↦ rw e ok.some_room
          ];
        };
        messages = ap (items (put_slot q m) q.head) more ∙ stored;
      }

  grow_queue-IsQueue : IsQueue (grow_queue q)
  unfolding grow_queue
  grow_queue-IsQueue = record {
    some_room = omega (arith, ok.some_room);
    head = omega (arith, ok.some_room);
    tail = omega (arith, ok.some_room);
  }

  grown : (q.tail + 1) % q.size ≡ q.head → waiting (grow_queue q) ≡ waiting q
  unfolding grow_queue
  grown full =
      let all : count q ≡ q.size - 1 = elim (next_tail q ok) [
        | inl (e, low) ↦ let at : q.head ≡ q.tail + 1 = sym full ∙ e in ground (arith, ok.head)
        | inr (e, top) ↦ let at : q.head ≡ 0 = sym full ∙ e in ground (arith, ok.head)
      ] in
      let moved : count (grow_queue q) ≡ q.size - 1 = ground arith in
      ap (items (grow_queue q) 0) moved
      ∙ items-ext (grow_queue q) q 0 q.head (q.size - 1) (λ k h.
        let same : (0 + k) % (q.size * 2) ≡ k =
          wrap_low (0 + k) (q.size * 2) (omega arith) ∙ omega arith in
        let e : k + q.head ≡ q.head + k = omega arith in
        ap (λ i. q.slots ((i + q.head) % q.size)) same ∙ ap (λ i. q.slots (i % q.size)) e)
      ∙ ap (items q q.head) (sym all)

  grow_queue-room : ((grow_queue q).tail + 1) % (grow_queue q).size ≢ (grow_queue q).head
  unfolding grow_queue
  grow_queue-room e =
      let same : (q.size - 1 + 1) % (q.size * 2) ≡ q.size - 1 + 1 =
        wrap_low (q.size - 1 + 1) (q.size * 2) (omega (arith, ok.some_room)) in
      omega (arith, same, e)

-- A message is put behind the others, whether the ring has room, wraps round or grows.
pub push_queue_msg-Put :
    (q : HarborMsgQueue) (m : HarborMsg) → IsQueue q → Put q m (push_queue_msg q m)
unfolding push_queue_msg
push_queue_msg-Put q m ok = elim (Bool-cases ((q.tail + 1) % q.size == q.head)) [
  | inr room ↦ rw room (put_slot-Put q m ok (==_false ((q.tail + 1) % q.size) q.head room))
  | inl full ↦
      let p = put_slot-Put (grow_queue q) m (grow_queue-IsQueue q m ok) (grow_queue-room q m ok) in
      rw full (record {
        valid = p.valid;
        messages =
            p.messages
            ∙ ap (λ k. k ++ m ∷ []) (grown q m ok (==→≡ ((q.tail + 1) % q.size) q.head full));
      })
]

next_head :
    (q : HarborMsgQueue)
    → IsQueue q
    → (((q.head + 1) % q.size ≡ q.head + 1) × (q.head + 1 < q.size))
      ⊎ (((q.head + 1) % q.size ≡ 0) × (q.head + 1 ≡ q.size))
next_head q ok = elim (wrap_cases (q.head + 1) q.size (omega (arith, ok.head, ok.some_room))) [
  | inl (low, e) ↦ inl (e, low)
  | inr (high, e) ↦ inr (omega (arith, e, ok.head), omega (arith, ok.head))
]

shift :
    (q : HarborMsgQueue) (j : ℕ)
    → IsQueue q
    → j < q.size
    → ((q.head + 1) % q.size + j) % q.size ≡ (q.head + 1 + j) % q.size
shift q j ok h = elim (next_head q ok) [
  | inl (e, below) ↦ rw e
  | inr (e, top) ↦
      let low : (0 + j) % q.size ≡ j = wrap_low (0 + j) q.size (omega arith) ∙ omega arith in
      let high : (q.size + j) % q.size ≡ j =
        wrap_high (q.size + j) q.size (omega arith) (omega arith) ∙ omega arith in
      rw (e, top) (low ∙ sym high)
]

-- The oldest message is taken.
pub record Got (q : HarborMsgQueue) (m : HarborMsg) (ms : List HarborMsg) : Type 0 where
  pub next : HarborMsgQueue
  pub returns : pop_queue q ≡ some (m, next)
  pub valid : IsQueue next
  pub messages : waiting next ≡ ms

pub waiting_pos :
    (q : HarborMsgQueue) (m : HarborMsg) (ms : List HarborMsg)
    → IsQueue q
    → waiting q ≡ m ∷ ms
    → 0 < count q
waiting_pos q m ms ok h = elim (Bool-cases (count q == 0)) [
  | inr some_ ↦ ground arith
  | inl none_ ↦
      let e : count q ≡ 0 = ==→≡ (count q) 0 none_ in
      let nil : [] ≡ m ∷ ms = ap (items q q.head) (sym e) ∙ h in
      absurd (omega (arith, ap length nil))
]

pub pop_queue-nil : (q : HarborMsgQueue) → IsQueue q → waiting q ≡ [] → pop_queue q ≡ none
unfolding pop_queue
pop_queue-nil q ok h = elim (Bool-cases (q.head == q.tail)) [
  | inl same ↦ rw same
  | inr differ ↦
      let e : count q ≡ suc (count q - 1) = ground (arith, ok.head, ok.tail) in
      absurd (omega (arith, ap length (ap (items q q.head) (sym e) ∙ h)))
]

pub pop_queue-Got :
    (q : HarborMsgQueue) (m : HarborMsg) (ms : List HarborMsg)
    → IsQueue q
    → waiting q ≡ m ∷ ms
    → Got q m ms
unfolding pop_queue
pop_queue-Got q m ms ok h =
    let pos = waiting_pos q m ms ok h in
    let k : ℕ = count q - 1 in
    let n : count q ≡ suc k = omega (arith, pos) in
    let shape : q.slots (q.head % q.size) ∷ items q (q.head + 1) k ≡ m ∷ ms =
      ap (items q q.head) (sym n) ∙ h in
    let low : q.head % q.size ≡ q.head = wrap_low q.head q.size ok.head in
    let differ : (q.head == q.tail) ≡ false = ground (arith, ok.head, ok.tail) in
    let next : HarborMsgQueue = record q { head = (q.head + 1) % q.size } in
    let first : q.slots q.head ≡ m = ap q.slots (sym low) ∙ cc in
    let wrapped = next_head q ok in
    let fewer : count next ≡ k = elim wrapped [
      | inl (e, below) ↦ rw e (ground (arith, ok.head, ok.tail, n))
      | inr (e, top) ↦ rw e (ground (arith, ok.head, ok.tail, n))
    ] in
    record {
      next = next;
      returns = rw differ (ap (λ x. some (x, next)) first);
      valid = record {
        some_room = ok.some_room;
        head = elim wrapped [ inl (e, below) ↦ rw e below | inr (e, top) ↦ rw e ok.some_room ];
        tail = ok.tail;
      };
      messages =
          ap (items next next.head) fewer
          ∙ items-ext next q next.head (q.head + 1) k
              (λ j p. ap q.slots (shift q j ok (omega (arith, n, count_lt q m ok))))
          ∙ cc;
    }

-- All messages are popped, oldest first.
pub drain_lem :
    (fuel : ℕ) (q : HarborMsgQueue) (ms : List HarborMsg)
    → IsQueue q
    → waiting q ≡ ms
    → length ms < fuel
    → (drain fuel q).0 ≡ ms
unfolding drain
drain_lem zero q ms ok h fits = absurd (omega arith)
drain_lem (suc fuel) q [] ok h fits = rw (pop_queue-nil q ok h, drain)
drain_lem (suc fuel) q (m ∷ ms) ok h fits =
    let g = pop_queue-Got q m ms ok h in
    rw (g.returns, drain)
      (ap (λ k. m ∷ k) (drain_lem fuel g.next ms g.valid g.messages (omega arith)))

length-items : (q : HarborMsgQueue) (i n : ℕ) → length (items q i n) ≡ n
length-items q i zero = refl
length-items q i (suc n) = omega (arith, length-items q (i + 1) n)

pub pop_all-waiting : (q : HarborMsgQueue) → IsQueue q → (pop_all q).0 ≡ waiting q
unfolding pop_all
pop_all-waiting q ok =
    drain_lem q.size q (waiting q) ok refl
      (omega (arith, length-items q q.head (count q), count_lt q (q.slots 0) ok))

pub new_queue-IsQueue : IsQueue new_queue × (waiting new_queue ≡ [])
unfolding new_queue
new_queue-IsQueue =
    (record { some_room = omega arith; head = omega arith; tail = omega arith }, refl)
