-- ===== src/HashId/Lookup.antt =====
-- What `hashid_lookup` of service-src/hashid.h finds after an insertion or a removal.
use pskynet.Prelude.{
  ◌^◌, ℕ, zero, suc, ◌+◌, ◌-◌, ◌*◌, ◌/◌, ◌%◌, ◌<◌, ◌≤◌, ltb, leb, ltb→lt, ◌≡◌, refl, sym, ap, ◌∙◌,
  ◌≢◌, ◌⊎◌, inl, inr, false, List, [], ◌∷◌, Option, some, arith, bit_and, ◌==◌, Bool-cases, ==_refl,
  ==→≡, ==_false, ≢→==,
}
use pskynet.HashId.{unused, HashId, set, lookup_chain, lookup, free_node, insert}

-- Changing a node between two ids that are not looked for does not matter.
pub lookup_chain-set :
    (ids : ℕ → ℕ) (c new other : ℕ) (cs : List ℕ)
    → ids c ≢ other
    → new ≢ other
    → lookup_chain (set ids c new) other cs ≡ lookup_chain ids other cs
unfolding lookup_chain
lookup_chain-set ids c new other [] p q = refl
lookup_chain-set ids c new other (d ∷ cs) p q = elim (Bool-cases (c == d)) [
  | inl same ↦
      let e : c ≡ d = ==→≡ c d same in
      let old : (ids d == other) ≡ false = ≢→== (ids d) other (λ k. p (ap ids e ∙ k)) in
      rw (same, ≢→== new other q, old) (lookup_chain-set ids c new other cs p q)
  | inr apart ↦ rw (apart, lookup_chain-set ids c new other cs p q)
]

shifted : (m n j : ℕ) → j < n → (m * n + j) % n ≡ j
shifted m n j h = grind arith

split_mod : (a n : ℕ) → 0 < n → a / n * n + a % n ≡ a
split_mod a n h = grind arith

-- Every node is tried in one of the first rounds.
round_of : (n id j : ℕ) → j < n → (k : ℕ) × (k < n) × ((k + id) % n ≡ j)
round_of n id j h =
    let low : id % n < n = grind arith in
    let split = split_mod id n (omega arith) in
    elim (Bool-cases (ltb j (id % n))) [
      | inl less ↦
          let short = ltb→lt j (id % n) less in
          let sum : j + n - id % n + id ≡ (id / n + 1) * n + j = grind arith in
          (j + n - id % n, omega arith, rw sum (shifted (id / n + 1) n j h))
      | inr more ↦
          let enough : id % n ≤ j = ground arith in
          let sum : j - id % n + id ≡ id / n * n + j = omega arith in
          (j - id % n, omega arith, rw sum (shifted (id / n) n j h))
    ]

free_after :
    (fuel i : ℕ) (hi : HashId) (id : ℕ)
    → (hi.id ((i + id) % hi.cap) == unused) ≡ false
    → ((k : ℕ) → k < fuel → hi.id ((i + 1 + k + id) % hi.cap) ≢ unused)
    → (k : ℕ) → k < suc fuel
    → hi.id ((i + k + id) % hi.cap) ≢ unused
free_after fuel i hi id used rest zero h =
    let e : i + 0 + id ≡ i + id = omega arith in
    rw e (==_false (hi.id ((i + id) % hi.cap)) unused used)
free_after fuel i hi id used rest (suc k) h =
    let e : i + suc k + id ≡ i + 1 + k + id = omega arith in rw e (rest k (omega arith))

mod_lt : (a n : ℕ) → 0 < n → a % n < n
mod_lt a n h = grind arith

-- The search ends at a free node, or every node that it tried is used.
free_node-cases :
    (fuel i : ℕ) (hi : HashId) (id : ℕ)
    → 0 < hi.cap
    → i + fuel + id ≤ 2 ^ 31
    → ((c : ℕ) × (free_node fuel i hi id ≡ some c) × (hi.id c ≡ unused) × (c < hi.cap))
      ⊎ ((k : ℕ) → k < fuel → hi.id ((i + k + id) % hi.cap) ≢ unused)
unfolding free_node
free_node-cases zero i hi id room small = inr (λ k h. absurd (omega arith))
free_node-cases (suc fuel) i hi id room small =
    let fits : leb (2 ^ 31) (i + id) ≡ false = ground (arith, small) in
    elim (Bool-cases (hi.id ((i + id) % hi.cap) == unused)) [
      | inl free ↦ inl (
        (i + id) % hi.cap,
        rw (fits, free, free_node),
        ==→≡ (hi.id ((i + id) % hi.cap)) unused free,
        mod_lt (i + id) hi.cap room,
      )
      | inr used ↦ elim (free_node-cases fuel (i + 1) hi id room (omega (arith, small))) [
        | inl (c, e, free, below) ↦ inl (c, rw (fits, used, free_node) e, free, below)
        | inr rest ↦ inr (λ k h. free_after fuel i hi id used rest k h)
      ]
    ]

-- What an insertion into a table with a free node gives.
pub record Inserted (hi : HashId) (id : ℕ) (r : Option (ℕ × HashId)) : Type 0 where
  pub node : ℕ
  pub next : HashId
  pub returns : r ≡ some (node, next)
  pub was_free : hi.id node ≡ unused
  pub below : node < hi.cap
  pub ids : next.id ≡ set hi.id node id
  pub one_more : next.count ≡ hi.count + 1
  pub cap : next.cap ≡ hi.cap
  pub found : lookup next id ≡ some node
  pub others : (other : ℕ) → other ≢ id → other ≢ unused → lookup next other ≡ lookup hi other

lookup-other :
    (hi : HashId) (c id other : ℕ)
    → hi.id c ≡ unused
    → other ≢ id
    → other ≢ unused
    → let h = bit_and id hi.hashmod in
      lookup_chain (set hi.id c id) other (set hi.hash h (c ∷ hi.hash h) (bit_and other hi.hashmod))
      ≡ lookup hi other
unfolding lookup lookup_chain
lookup-other hi c id other free differ used =
    let same : (cs : List ℕ)
        → lookup_chain (set hi.id c id) other cs ≡ lookup_chain hi.id other cs =
      λ cs. lookup_chain-set hi.id c id other cs (λ e. used (sym e ∙ free)) (λ e. differ (sym e)) in
    elim (Bool-cases (bit_and id hi.hashmod == bit_and other hi.hashmod)) [
      | inl here ↦
          let e : bit_and id hi.hashmod ≡ bit_and other hi.hashmod =
            ==→≡ (bit_and id hi.hashmod) (bit_and other hi.hashmod) here in
          let other_id : (id == other) ≡ false = ≢→== id other (λ k. differ (sym k)) in
          rw (here, ==_refl c, other_id)
            (same (hi.hash (bit_and id hi.hashmod))
              ∙ ap (λ h. lookup_chain hi.id other (hi.hash h)) e)
      | inr there ↦ rw there (same (hi.hash (bit_and other hi.hashmod)))
    ]

-- When a node below the capacity is free and the int sums do not overflow, `hashid_insert` takes a free
-- node; the id is then found at that node, and every other id where it was.
pub insert-Inserted :
    (hi : HashId) (id j : ℕ)
    → id ≢ unused
    → id + hi.cap ≤ 2 ^ 31
    → j < hi.cap
    → hi.id j ≡ unused
    → Inserted hi id (insert hi id)
unfolding insert lookup lookup_chain
insert-Inserted hi id j proper small below free =
    elim (free_node-cases hi.cap 0 hi id (omega arith) (omega (arith, small))) [
      | inr all_used ↦
          let (k, before, e) = round_of hi.cap id j below in
          let plain : 0 + k + id ≡ k + id = omega arith in
          let at : hi.id ((0 + k + id) % hi.cap) ≡ unused =
            ap (λ n. hi.id (n % hi.cap)) plain ∙ ap hi.id e ∙ free in
          absurd (all_used k before at)
      | inl (c, e, was_free, below_cap) ↦
          let h : ℕ = bit_and id hi.hashmod in
          rw e (record {
            node = c;
            next = record hi {
              count = hi.count + 1;
              id = set hi.id c id;
              hash = set hi.hash h (c ∷ hi.hash h);
            };
            returns = refl;
            was_free = was_free;
            below = below_cap;
            ids = refl;
            one_more = refl;
            cap = refl;
            found = rw (==_refl h, ==_refl c, ==_refl id);
            others = λ other differ used. lookup-other hi c id other was_free differ used;
          })
    ]
