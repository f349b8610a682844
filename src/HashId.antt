-- ===== src/HashId.antt =====
-- service-src/hashid.h: the table that maps the socket ids of a gate's connections to their places.
pub mod Lookup
pub mod Removal
pub mod Counts
pub mod Places
mod Tests
use pskynet.Prelude.{
  ℕ, zero, suc, ◌+◌, ◌-◌, ◌*◌, ◌%◌, ◌^◌, Bool, true, false, List, [], ◌∷◌, Option, none, some,
  ◌>>=◌, bit_and, ◌==◌, ltb, leb, if◌then◌else◌,
}

-- The `id` of a node that is not used, -1, by its bit pattern; every other id is
-- a socket's, from 0 to 2^31 - 1.
abbrev pub unused : ℕ
unused = 2 ^ 32 - 1

-- A node is its index in the array; a chain of `next` pointers is the list of its nodes.
pub record HashId : Type 0 where
  pub hashmod : ℕ
  pub cap : ℕ
  pub count : ℕ
  pub id : ℕ → ℕ
  pub hash : ℕ → List ℕ

-- The `while` of `hashid_init` with `fuel` rounds left.
unfoldable pub grow_cap : ℕ → ℕ → ℕ → ℕ
grow_cap zero max hashcap = hashcap
grow_cap (suc fuel) max hashcap =
    let more = grow_cap fuel max (hashcap * 2) in if ltb hashcap max then more else hashcap

-- A capacity that doubles from 16 passes `max` within `max` rounds.
unfoldable pub init : ℕ → HashId
init max = record {
  hashmod = grow_cap max max 16 - 1;
  cap = max;
  count = 0;
  id = λ c. unused;
  hash = λ h. [];
}

abbrev pub set {ℓ} : {A : Type ℓ} → (ℕ → A) → ℕ → A → ℕ → A
set f k a j = if k == j then a else f j

-- The `while` of `hashid_lookup`; `none` is -1.
unfoldable pub lookup_chain : (ℕ → ℕ) → ℕ → List ℕ → Option ℕ
lookup_chain ids id [] = none
lookup_chain ids id (c ∷ cs) =
    let rest = lookup_chain ids id cs in if ids c == id then some c else rest

unfoldable pub lookup : HashId → ℕ → Option ℕ
lookup hi id = lookup_chain hi.id id (hi.hash (bit_and id hi.hashmod))

-- The search of `hashid_remove`: the node and the chain without it.
unfoldable pub unlink : (ℕ → ℕ) → ℕ → List ℕ → Option (ℕ × List ℕ)
unlink ids id [] = none
unlink ids id (c ∷ cs) =
    let rest = unlink ids id cs in
    if ids c == id then some (c, cs) else do (found, left) ← rest; some (found, c ∷ left)

unfoldable pub remove : HashId → ℕ → Option ℕ × HashId
remove hi id =
    let h = bit_and id hi.hashmod in
    elim (unlink hi.id id (hi.hash h)) [
      | none ↦ (none, hi)
      | some (c, left) ↦ (
        some c,
        record hi { count = hi.count - 1; id = set hi.id c unused; hash = set hi.hash h left },
      )
    ]

-- The `for` of `hashid_insert` from the round `i`. An int `i + id` that overflows is `none`, as is the
-- failed assertion.
unfoldable pub free_node : ℕ → ℕ → HashId → ℕ → Option ℕ
free_node zero i hi id = none
free_node (suc fuel) i hi id =
    let index = (i + id) % hi.cap in
    let rest = free_node fuel (i + 1) hi id in
    if leb (2 ^ 31) (i + id) then none else if hi.id index == unused then some index else rest

-- `none` is the failed assertion.
unfoldable pub insert : HashId → ℕ → Option (ℕ × HashId)
insert hi id = do
  c ← free_node hi.cap 0 hi id
  let h = bit_and id hi.hashmod
  some (
    c,
    record hi { count = hi.count + 1; id = set hi.id c id; hash = set hi.hash h (c ∷ hi.hash h) },
  )

unfoldable pub full : HashId → Bool
full hi = hi.count == hi.cap
