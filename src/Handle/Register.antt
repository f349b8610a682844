-- ===== src/Handle/Register.antt =====
-- `SNHandleMgr::Register` of src/sn_handle.cpp.
use pskynet.Prelude.{
  ℕ, zero, suc, ◌+◌, ◌*◌, ◌/◌, ◌%◌, ◌^◌, ◌≤◌, ◌<◌, ◌≡◌, refl, ap, ◌∙◌, ◌≢◌, ◌⊎◌, inl, inr, List,
  Option, none, some, arith, bit_and, bit_or, length, Option-cases, ≢→==,
}
use pskynet.Prelude.Bits.{bit_and_mask, bit_or_high}
use pskynet.Prelude.Assoc.{
  lookup, insert, erase, nat_eq, lookup-insert_self, lookup-insert_ne, lookup-erase_ne,
  length-erase_lt, length-insert_fresh,
}
use pskynet.Message.{handle_mask}
use pskynet.Handle.{Context, HandleMgr, create, register_loop, register, find_context}

-- The table of the node `node`.
pub record IsTable (node : ℕ) (m : HandleMgr) : Type 0 where
  pub small_node : node < 256
  pub node_bits : m.harbor ≡ node * 2 ^ 24
  pub index : m.handle_index ≤ 2 ^ 24

-- The handle that is tried in round `i`.
abbrev pub candidate : HandleMgr → ℕ → ℕ
candidate m i = (m.handle_index + i) % 2 ^ 24

tried :
    (m : HandleMgr) (i : ℕ) → bit_and ((m.handle_index + i) % 2 ^ 32) handle_mask ≡ candidate m i
tried m i = omega (arith, bit_and_mask 24 ((m.handle_index + i) % 2 ^ 32))

-- Distinct keys that are all in the map are no more than its entries.
taken_le :
    (g : ℕ → ℕ) (f : ℕ) (es : List (ℕ × Context))
    → ((i j : ℕ) → i < f → j < f → g i ≡ g j → i ≡ j)
    → ((i : ℕ) → i < f → (v : Context) × (lookup (g i) es ≡ some v))
    → f ≤ length es
taken_le g zero es inj taken = omega arith
taken_le g (suc f) es inj taken =
    let last = taken f (omega arith) in
    let smaller = length-erase_lt (g f) es last.1 in
    let rest =
      taken_le g f (erase (g f) es) (λ i j p q. inj i j (omega arith) (omega arith))
        (λ i p.
          let (v, e) = taken i (omega arith) in
          let apart : g f ≢ g i = λ same. omega (arith, inj f i (omega arith) (omega arith) same) in
          (v, lookup-erase_ne (g f) (g i) es (≢→== (g f) (g i) apart) ∙ e)) in
    omega (arith, smaller, rest)

-- What a call of `Register` gives.
pub record Registered (m : HandleMgr) (ctx : Context) (r : Option (ℕ × HandleMgr)) : Type 0 where
  pub low : ℕ
  pub next : HandleMgr
  pub returns : r ≡ some (m.harbor + low, next)
  pub in_range : low < 2 ^ 24
  pub fresh : lookup low m.slots ≡ none
  pub slots : next.slots ≡ insert low ctx m.slots
  pub harbor : next.harbor ≡ m.harbor
  pub index : next.handle_index ≡ low + 1
  pub names : next.name_map ≡ m.name_map

module _ (node : ℕ) (m : HandleMgr) (table : IsTable node m) (ctx : Context) where
  joined : (i : ℕ) → bit_or (candidate m i) m.harbor ≡ m.harbor + candidate m i
  joined i = rw table.node_bits (bit_or_high 24 node (candidate m i) (omega arith))

  abbrev after : ℕ → HandleMgr
  after i = record m {
    slots = insert (candidate m i) ctx m.slots;
    handle_index = candidate m i + 1;
  }

  hit :
      (fuel i : ℕ)
      → lookup (candidate m i) m.slots ≡ none
      → Registered m ctx (register_loop (suc fuel) i m ctx)
  unfolding register_loop
  hit fuel i free = record {
    low = candidate m i;
    next = after i;
    returns =
        rw (tried m i, free, register_loop)
          (rw (tried m i) (ap (λ h. some (h, after i)) (joined i)));
    in_range = omega arith;
    fresh = free;
    slots = refl;
    harbor = refl;
    index = refl;
    names = refl;
  }

  miss :
      (fuel i : ℕ) (v : Context)
      → lookup (candidate m i) m.slots ≡ some v
      → Registered m ctx (register_loop fuel (i + 1) m ctx)
      → Registered m ctx (register_loop (suc fuel) i m ctx)
  unfolding register_loop
  miss fuel i v used r = record {
    low = r.low;
    next = r.next;
    returns = rw (tried m i, used, register_loop) r.returns;
    in_range = r.in_range;
    fresh = r.fresh;
    slots = r.slots;
    harbor = r.harbor;
    index = r.index;
    names = r.names;
  }

  -- The loop either ends well or has found every candidate taken.
  abbrev Taken : ℕ → ℕ → Type 0
  Taken i fuel =
      (k : ℕ) → k < fuel → (v : Context) × (lookup (candidate m (i + k)) m.slots ≡ some v)

  used_before :
      (fuel i : ℕ) (v : Context)
      → lookup (candidate m i) m.slots ≡ some v
      → Taken (i + 1) fuel
      → Taken i (suc fuel)
  used_before fuel i v used rest zero h = let e : i + 0 ≡ i = omega arith in (v, rw e used)
  used_before fuel i v used rest (suc k) h =
      let e : i + suc k ≡ i + 1 + k = omega arith in rw e (rest k (omega arith))

  search_ends : (fuel i : ℕ) → Registered m ctx (register_loop fuel i m ctx) ⊎ Taken i fuel
  search_ends zero i = inr (λ k h. absurd (omega arith))
  search_ends (suc fuel) i = elim (Option-cases (lookup (candidate m i) m.slots)) [
    | inl free ↦ inl (hit fuel i free)
    | inr (v, used) ↦ elim (search_ends fuel (i + 1)) [
      | inl r ↦ inl (miss fuel i v used r)
      | inr taken ↦ inr (λ k h. used_before fuel i v used taken k h)
    ]
  ]

  -- While fewer than 2 ^ 24 handles are in use, `Register` ends. It returns the node's bits with a
  -- number that was free, which now has the context; the search goes on behind it next time.
  pub register-Registered : length m.slots < 2 ^ 24 → Registered m ctx (register m ctx)
  unfolding register
  register-Registered room = elim (search_ends (length m.slots + 1) 0) [
    | inl r ↦ r
    | inr taken ↦ absurd (
        omega (
          arith,
          taken_le (λ k. candidate m (0 + k)) (length m.slots + 1) m.slots apart taken,
          room,
        ))
  ]
    where
      apart :
          (i j : ℕ)
          → i < length m.slots + 1
          → j < length m.slots + 1
          → candidate m (0 + i) ≡ candidate m (0 + j)
          → i ≡ j
      apart i j p q e = omega (arith, room)

-- What a caller of `Register` relies on.
pub record Hands (node : ℕ) (m : HandleMgr) (ctx : Context) (r : Option (ℕ × HandleMgr))
    : Type 0 where
  pub handle : ℕ
  pub next : HandleMgr
  pub returns : r ≡ some (handle, next)
  pub word : handle < 2 ^ 32
  pub of_node : handle / 2 ^ 24 ≡ node
  pub unused : find_context m handle ≡ none
  pub found : find_context next handle ≡ some ctx
  pub others : (h : ℕ) → h % 2 ^ 24 ≢ handle % 2 ^ 24 → find_context next h ≡ find_context m h
  pub table : IsTable node next
  pub grows : length next.slots ≡ length m.slots + 1
  pub names : next.name_map ≡ m.name_map

-- While fewer than 2 ^ 24 handles are in use, `Register` ends; it hands out an unused 32-bit handle
-- of the node, under which `FindContext` finds the context from then on, and affects neither another
-- handle nor a name.
pub register-Hands :
    (node : ℕ) (m : HandleMgr) (ctx : Context)
    → IsTable node m
    → length m.slots < 2 ^ 24
    → Hands node m ctx (register m ctx)
unfolding find_context
register-Hands node m ctx table room = record {
  handle = m.harbor + low;
  next = r.next;
  returns = r.returns;
  word = omega (arith, table.node_bits, table.small_node, r.in_range);
  of_node = omega (arith, table.node_bits, r.in_range);
  unused = rw low_bits r.fresh;
  found = rw (low_bits, r.slots) (lookup-insert_self low ctx m.slots);
  others = others;
  table = record {
    small_node = table.small_node;
    node_bits = r.harbor ∙ table.node_bits;
    index = omega (arith, r.index, r.in_range);
  };
  grows = rw r.slots (length-insert_fresh low ctx m.slots r.fresh);
  names = r.names;
}
  where
    r : Registered m ctx (register m ctx)
    r = register-Registered node m table ctx room

    low : ℕ
    low = r.low

    low_bits : bit_and (m.harbor + low) handle_mask ≡ low
    low_bits = omega (arith, bit_and_mask 24 (m.harbor + low), table.node_bits, r.in_range)

    others :
        (h : ℕ)
        → h % 2 ^ 24 ≢ (m.harbor + low) % 2 ^ 24
        → lookup (bit_and h handle_mask) r.next.slots ≡ lookup (bit_and h handle_mask) m.slots
    others h ne = rw r.slots (
        lookup-insert_ne low (bit_and h handle_mask) ctx m.slots (
          ≢→== low (bit_and h handle_mask)
            (omega (arith, bit_and_mask 24 h, table.node_bits, r.in_range, ne))))

-- A new table is one of its node.
pub create-IsTable : (node : ℕ) → node < 256 → IsTable node (create node)
unfolding create
create-IsTable node small = record {
  small_node = small;
  node_bits = omega (arith, bit_and_mask 8 node);
  index = omega arith;
}

-- The table after the number 0 has been given out.
abbrev pub wrapped : HandleMgr → Context → HandleMgr
wrapped m ctx = record m { slots = insert 0 ctx m.slots; handle_index = 1 }

invalid_loop :
    (m : HandleMgr) (ctx : Context) (fuel : ℕ)
    → m.harbor ≡ 0
    → m.handle_index ≡ 2 ^ 24
    → lookup 0 m.slots ≡ none
    → register_loop (suc fuel) 0 m ctx ≡ some (0, wrapped m ctx)
unfolding register_loop
invalid_loop m ctx fuel h i free =
    let zero_bits : bit_and ((m.handle_index + 0) % 2 ^ 32) handle_mask ≡ 0 = rw i refl in
    rw (zero_bits, free, register_loop) (rw (zero_bits, h) refl)

-- After the handle 0xffffff has been given out, the next one on the node 0 is 0, which is
-- INVALID_HANDLE, if the number 0 is free.
pub register_invalid :
    (m : HandleMgr) (ctx : Context)
    → m.harbor ≡ 0
    → m.handle_index ≡ 2 ^ 24
    → lookup 0 m.slots ≡ none
    → (register m ctx ≡ some (0, wrapped m ctx)) × (find_context (wrapped m ctx) 0 ≡ some ctx)
unfolding register find_context
register_invalid m ctx h i free =
    let e : length m.slots + 1 ≡ suc (length m.slots) = omega arith in
    rw e (invalid_loop m ctx (length m.slots) h i free, lookup-insert_self 0 ctx m.slots)
