-- ===== src/Seri/RoundTrip.antt =====
-- `_luaseri_pack` and then `_luaseri_unpack` of lualib-src/lua-seri.c.
use pskynet.Prelude.{
  ℕ, zero, suc, ◌+◌, ◌*◌, ◌≤◌, ◌≡◌, refl, sym, ap, ◌∙◌, inl, inr, List, [], ◌∷◌, ◌++◌, map, arith,
  length, length-append, append-nil, Bool-cases, some,
}
use pskynet.Prelude.Filter.{All}
use pskynet.Prelude.Result.{ok}
use pskynet.Seri.{
  Value, Values, Pairs, nil, boolean, integer, real, pointer, string, table, unsupported, finish,
  element, close, entry, count, is_array_key,
}
use pskynet.Seri.Blocks.{WriteBlock, IsWriteBlock, content, init, init-IsWriteBlock, seri-content}
use pskynet.Seri.Write.{pack_one, pack_from, pack}
use pskynet.Seri.Format.{
  value_bytes, values_bytes, pairs_bytes, array_head, normal, IsPackable, ArePackable,
  ArePackablePairs,
}
use pskynet.Seri.Numbers.{integer-HasForm, string-HasText, array_head-HasSize}
use pskynet.Seri.Packed.{Packed, pack_one-Packed, then_}
use pskynet.Seri.Read.{unpack_one, unpack_loop, unpack, enough}
use pskynet.Seri.Unpacked.{cost, costs, pair_costs, unpack_one-value_bytes}

-- A value is written in a byte at least.
record HasHead (bytes : List ℕ) : Type 0 where
  head : ℕ
  tail : List ℕ
  written : bytes ≡ head ∷ tail

value_bytes-HasHead : (v : Value) (depth : ℕ) → IsPackable depth v → HasHead (value_bytes v)
unfolding value_bytes
value_bytes-HasHead nil depth h = record { head = _; tail = _; written = refl }
value_bytes-HasHead (boolean b) depth h = record { head = _; tail = _; written = refl }
value_bytes-HasHead (real v) depth h = record { head = _; tail = _; written = refl }
value_bytes-HasHead (pointer v) depth h = record { head = _; tail = _; written = refl }
value_bytes-HasHead (integer v) depth h = record {
  head = _;
  tail = _;
  written = (integer-HasForm v h.1).written;
}
value_bytes-HasHead (string str) depth h = record {
  head = _;
  tail = _;
  written = (string-HasText str h.1).written;
}
value_bytes-HasHead (table vs ps) depth h =
    let size = array_head-HasSize (count vs) h.1 in
    record {
      head = _;
      tail = _;
      written = ap (λ b. b ++ (values_bytes vs ++ pairs_bytes (count vs) ps)) size.written;
    }
value_bytes-HasHead unsupported depth h = absurd h

length_pos : (bytes : List ℕ) → HasHead bytes → 1 ≤ length bytes
length_pos bytes h = omega (arith, ap length h.written)

-- The fuel that a value needs is below three times the bytes that it takes.
mutual
  unfolding value_bytes values_bytes pairs_bytes

  cost_le : (v : Value) (depth : ℕ) → IsPackable depth v → cost v + 1 ≤ 3 * length (value_bytes v)
  cost_le nil depth h = omega (arith, length_pos _ (value_bytes-HasHead nil depth h))
  cost_le (boolean b) depth h =
      omega (arith, length_pos _ (value_bytes-HasHead (boolean b) depth h))
  cost_le (integer v) depth h =
      omega (arith, length_pos _ (value_bytes-HasHead (integer v) depth h))
  cost_le (real v) depth h = omega (arith, length_pos _ (value_bytes-HasHead (real v) depth h))
  cost_le (pointer v) depth h =
      omega (arith, length_pos _ (value_bytes-HasHead (pointer v) depth h))
  cost_le (string str) depth h =
      omega (arith, length_pos _ (value_bytes-HasHead (string str) depth h))
  cost_le (table vs ps) depth h =
      let size = array_head-HasSize (count vs) h.1 in
      omega (
        arith,
        ap length size.written,
        length-append (array_head (count vs)) (values_bytes vs ++ pairs_bytes (count vs) ps),
        length-append (values_bytes vs) (pairs_bytes (count vs) ps),
        costs_le vs (depth + 1) h.2,
        pair_costs_le (count vs) ps (depth + 1) h.3,
      )
  cost_le unsupported depth h = absurd h

  costs_le :
      (vs : Values) (depth : ℕ) → ArePackable depth vs → costs vs ≤ 3 * length (values_bytes vs)
  costs_le finish depth h = omega arith
  costs_le (element v vs) depth h = omega (
    arith,
    cost_le v depth h.0,
    costs_le vs depth h.1,
    length-append (value_bytes v) (values_bytes vs),
  )

  pair_costs_le :
      (size : ℕ) (ps : Pairs) (depth : ℕ)
      → ArePackablePairs depth size ps
      → pair_costs size ps + 1 ≤ 3 * length (pairs_bytes size ps)
  pair_costs_le size close depth h = omega arith
  pair_costs_le size (entry k v ps) depth h = elim (Bool-cases (is_array_key size k)) [
    | inl skipped ↦ rw skipped (pair_costs_le size ps depth h.1)
    | inr kept ↦
        let pair = h.0 kept in
        rw kept (
          omega (
            arith,
            cost_le k depth pair.0,
            cost_le v depth pair.2,
            pair_costs_le size ps depth h.1,
            length-append (value_bytes k) (value_bytes v ++ pairs_bytes size ps),
            length-append (value_bytes v) (pairs_bytes size ps),
          ))
  ]

abbrev all_bytes : List Value → List ℕ
all_bytes [] = []
all_bytes (v ∷ vs) = value_bytes v ++ all_bytes vs

pack_from-Packed :
    (vs : List Value) (wb : WriteBlock)
    → IsWriteBlock wb
    → All (IsPackable 0) vs
    → Packed wb (all_bytes vs) (pack_from vs wb)
unfolding pack_from
pack_from-Packed [] wb good h = record {
  last = wb;
  returns = refl;
  pushed = record { grown = sym (append-nil (content wb)); valid = good };
}
pack_from-Packed (v ∷ vs) wb good h =
    then_ wb (value_bytes v) (all_bytes vs) (pack_one v wb 0) (λ mid. pack_from vs mid)
      (pack_one-Packed v wb 0 good h.0) (λ mid mid_good. pack_from-Packed vs mid mid_good h.1)

unpack_loop-all_bytes :
    (vs : List Value) (n : ℕ)
    → All (IsPackable 0) vs
    → length (all_bytes vs) ≤ n
    → unpack_loop n (all_bytes vs) ≡ ok (map normal vs)
unfolding unpack_loop
unpack_loop-all_bytes [] n h fits = refl
unpack_loop-all_bytes (v ∷ vs) zero h fits = absurd (
    omega (
      arith,
      length-append (value_bytes v) (all_bytes vs),
      length_pos _ (value_bytes-HasHead v 0 h.0),
    ))
unpack_loop-all_bytes (v ∷ vs) (suc n) h fits =
    let front = value_bytes-HasHead v 0 h.0 in
    let total = length-append (value_bytes v) (all_bytes vs) in
    let stream : value_bytes v ++ all_bytes vs ≡ front.head ∷ (front.tail ++ all_bytes vs) =
      ap (λ b. b ++ all_bytes vs) front.written in
    let first : unpack_one (enough (front.head ∷ (front.tail ++ all_bytes vs)))
          (front.head ∷ (front.tail ++ all_bytes vs))
        ≡ ok (normal v, all_bytes vs) =
      ap (unpack_one (enough (front.head ∷ (front.tail ++ all_bytes vs)))) (sym stream)
      ∙ unpack_one-value_bytes v (enough (front.head ∷ (front.tail ++ all_bytes vs))) 0
          (all_bytes vs) h.0 (omega (arith, cost_le v 0 h.0, total, ap length stream)) in
    ap (unpack_loop (suc n)) stream
    ∙ rw first (rw (unpack_loop-all_bytes vs n h.1 (omega (arith, total, length_pos _ front))))

-- What packing and unpacking a list of values give.
pub record RoundTrip (vs : List Value) : Type 0 where
  pub bytes : List ℕ
  pub packed : pack vs ≡ ok (some bytes)
  pub unpacked : unpack bytes ≡ ok (map normal vs)

-- Values without functions and the like, not nested too deep, with sizes that are ints, are packed,
-- and the bytes are unpacked to the same values; a table comes back as its array and the pairs that
-- are not in it.
pub pack-RoundTrip : (vs : List Value) → All (IsPackable 0) vs → RoundTrip vs
unfolding pack unpack init
pack-RoundTrip vs h =
    let p = pack_from-Packed vs init init-IsWriteBlock h in
    record {
      bytes = all_bytes vs;
      packed =
          rw p.returns
            (ap (λ r. ok r) (seri-content p.last p.pushed.valid ∙ ap some (p.pushed.grown)));
      unpacked = unpack_loop-all_bytes vs (length (all_bytes vs)) h (omega arith);
    }
