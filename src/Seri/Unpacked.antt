-- ===== src/Seri/Unpacked.antt =====
-- The unpacking half of lualib-src/lua-seri.c reads the format back.
use pskynet.Prelude.{
  ℕ, zero, suc, ◌+◌, ◌^◌, ◌≤◌, ◌<◌, ◌≡◌, refl, ap, ◌∙◌, ◌≢◌, inl, inr, true, false, List, [], ◌∷◌,
  ◌++◌, arith, ◌==◌, if◌then◌else◌, length, append_assoc, Bool-cases,
}
use pskynet.Prelude.Bytes.{le_bytes}
use pskynet.Prelude.Words.{is_negative}
use pskynet.Prelude.Result.{ok}
use pskynet.Seri.{
  Value, Values, Pairs, nil, boolean, integer, real, pointer, string, table, unsupported, finish,
  element, close, entry, combine_type, count, is_array_key,
}
use pskynet.Seri.Format.{
  value_bytes, values_bytes, pairs_bytes, array_head, normal, normal_values, normal_pairs,
  IsPackable, ArePackable, ArePackablePairs,
}
use pskynet.Seri.Numbers.{
  combine_type-HasFields, rb_read-append, get_buffer-append, get_number-le_bytes, integer-HasForm,
  string-HasText, array_head-HasSize,
}
use pskynet.Seri.Read.{
  push_value, table_size, is_nil, unpack_one, unpack_table, unpack_array, unpack_hash,
}

-- The fuel that a value needs.
abbrev mutual
  pub cost : Value → ℕ
  cost nil = 1
  cost (boolean b) = 1
  cost (integer v) = 1
  cost (real v) = 1
  cost (pointer v) = 1
  cost (string str) = 1
  cost (table vs ps) = 2 + (costs vs + pair_costs (count vs) ps)
  cost unsupported = 0

  pub costs : Values → ℕ
  costs finish = 0
  costs (element v vs) = 1 + (cost v + costs vs)

  pub pair_costs : ℕ → Pairs → ℕ
  pair_costs size close = 2
  pair_costs size (entry k v ps) =
      if is_array_key size k
      then pair_costs size ps
      else 1 + (cost k + (cost v + pair_costs size ps))

one_type :
    (n t c : ℕ) (bytes rest : List ℕ)
    → t < 8
    → c < 32
    → unpack_one (suc n) (combine_type t c ∷ (bytes ++ rest))
      ≡ push_value (unpack_table n) t c (bytes ++ rest)
unfolding unpack_one
one_type n t c bytes rest ht hc =
    let fields = combine_type-HasFields t c ht hc in
    rw (rb_read-append (combine_type t c ∷ []) (bytes ++ rest) 1 refl, fields.type, fields.cookie)

is_nil-nil : is_nil nil ≡ true
unfolding is_nil
is_nil-nil = refl

is_nil-normal : (k : Value) → k ≢ nil → is_nil (normal k) ≡ false
unfolding normal is_nil
is_nil-normal nil h = absurd (h refl)
is_nil-normal (boolean b) h = refl
is_nil-normal (integer v) h = refl
is_nil-normal (real v) h = refl
is_nil-normal (pointer v) h = refl
is_nil-normal (string str) h = refl
is_nil-normal (table vs ps) h = refl
is_nil-normal unsupported h = refl

count-normal_values : (vs : Values) → count (normal_values vs) ≡ count vs
unfolding normal_values
count-normal_values finish = refl
count-normal_values (element v vs) = ap suc (count-normal_values vs)

one_string :
    (n : ℕ) (str rest : List ℕ)
    → length str < 2 ^ 31
    → unpack_one (suc n) (value_bytes (string str) ++ rest) ≡ ok (string str, rest)
unfolding value_bytes push_value
one_string n str rest h =
    let t = string-HasText str h in
    elim t.kind [
      | inl (type, cookie, bytes, short) ↦ rw (
        t.written,
        type,
        cookie,
        bytes,
        one_type n 4 (length str) str rest (omega arith) short,
        get_buffer-append str rest h,
      )
      | inr (type, small, reads) ↦
          rw (t.written, type, one_type n 5 t.cookie t.bytes rest (omega arith) small) (reads rest)
    ]

one_integer :
    (n v : ℕ) (rest : List ℕ)
    → v < 2 ^ 64
    → unpack_one (suc n) (value_bytes (integer v) ++ rest) ≡ ok (integer v, rest)
unfolding value_bytes push_value
one_integer n v rest h =
    let form = integer-HasForm v h in
    let no_real : (form.cookie == 8) ≡ false = ground (arith, form.small) in
    rw (
      form.written,
      one_type n 2 form.cookie form.bytes rest (omega arith) (omega (arith, form.small)),
      no_real,
      form.reads rest,
    )

cost_pos : (v : Value) (depth : ℕ) → IsPackable depth v → 0 < cost v
cost_pos nil depth h = omega arith
cost_pos (boolean b) depth h = omega arith
cost_pos (integer v) depth h = omega arith
cost_pos (real v) depth h = omega arith
cost_pos (pointer v) depth h = omega arith
cost_pos (string str) depth h = omega arith
cost_pos (table vs ps) depth h = omega arith
cost_pos unsupported depth h = absurd h

pair_costs_two : (size : ℕ) (ps : Pairs) → 2 ≤ pair_costs size ps
pair_costs_two size close = omega arith
pair_costs_two size (entry k v ps) = ground (arith, pair_costs_two size ps)

module _ (size : ℕ) (k v : Value) (ps : Pairs) {n : ℕ} where
  skipped_cost :
      is_array_key size k ≡ true → pair_costs size (entry k v ps) ≤ n → pair_costs size ps ≤ n
  skipped_cost e h = rw e at h

  kept_cost :
      is_array_key size k ≡ false
      → pair_costs size (entry k v ps) ≤ n
      → 1 + (cost k + (cost v + pair_costs size ps)) ≤ n
  kept_cost e h = rw e at h

mutual
  unfolding unpack_table unpack_array unpack_hash value_bytes values_bytes pairs_bytes normal
      normal_values normal_pairs push_value combine_type

  pub unpack_one-value_bytes :
      (v : Value) (n depth : ℕ) (rest : List ℕ)
      → IsPackable depth v
      → cost v ≤ n
      → unpack_one n (value_bytes v ++ rest) ≡ ok (normal v, rest)
  unpack_one-value_bytes v zero depth rest h enough = absurd (omega (arith, cost_pos v depth h))
  unpack_one-value_bytes nil (suc n) depth rest h enough =
      one_type n 0 0 [] rest (omega arith) (omega arith)
  unpack_one-value_bytes (boolean true) (suc n) depth rest h enough =
      one_type n 1 1 [] rest (omega arith) (omega arith)
  unpack_one-value_bytes (boolean false) (suc n) depth rest h enough =
      one_type n 1 0 [] rest (omega arith) (omega arith)
  unpack_one-value_bytes (integer v) (suc n) depth rest h enough = one_integer n v rest h.1
  unpack_one-value_bytes (real v) (suc n) depth rest h enough =
      one_type n 2 8 (le_bytes 8 v) rest (omega arith) (omega arith)
      ∙ rw (get_number-le_bytes 8 v rest h.1)
  unpack_one-value_bytes (pointer v) (suc n) depth rest h enough =
      one_type n 3 0 (le_bytes 8 v) rest (omega arith) (omega arith)
      ∙ rw (get_number-le_bytes 8 v rest h.1)
  unpack_one-value_bytes (string str) (suc n) depth rest h enough = one_string n str rest h.1
  unpack_one-value_bytes (table vs ps) (suc n) depth rest h enough =
      let size = array_head-HasSize (count vs) h.1 in
      let inner : List ℕ = values_bytes vs ++ pairs_bytes (count vs) ps in
      let split : (array_head (count vs) ++ inner) ++ rest
          ≡ combine_type 6 size.cookie ∷ (size.bytes ++ (inner ++ rest)) =
        rw size.written
          (ap (λ k. combine_type 6 size.cookie ∷ k) (append_assoc size.bytes inner rest)) in
      ap (unpack_one (suc n)) split
      ∙ one_type n 6 size.cookie size.bytes (inner ++ rest) (omega arith) size.small
      ∙ unpack_table-value_bytes vs ps n depth rest size.cookie (size.bytes ++ (inner ++ rest)) h
          (size.reads (inner ++ rest)) (omega arith)
  unpack_one-value_bytes unsupported (suc n) depth rest h enough = absurd h

  unpack_table-value_bytes :
      (vs : Values) (ps : Pairs) (n depth : ℕ) (rest : List ℕ) (cookie : ℕ) (rb : List ℕ)
      → IsPackable depth (table vs ps)
      → table_size cookie rb ≡ ok (count vs, (values_bytes vs ++ pairs_bytes (count vs) ps) ++ rest)
      → 1 + (costs vs + pair_costs (count vs) ps) ≤ n
      → unpack_table n cookie rb ≡ ok (table (normal_values vs) (normal_pairs (count vs) ps), rest)
  unpack_table-value_bytes vs ps zero depth rest cookie rb h size enough = absurd (omega arith)
  unpack_table-value_bytes vs ps (suc n) depth rest cookie rb h size enough =
      let positive : is_negative (count vs) ≡ false = ground arith in
      rw (size, positive, append_assoc (values_bytes vs) (pairs_bytes (count vs) ps) rest)
        (rw
          (unpack_array-values_bytes vs n (depth + 1) (pairs_bytes (count vs) ps ++ rest) h.2
            (omega arith))
          (rw (unpack_hash-pairs_bytes (count vs) ps n (depth + 1) rest h.3 (omega arith))))

  unpack_array-values_bytes :
      (vs : Values) (n depth : ℕ) (rest : List ℕ)
      → ArePackable depth vs
      → costs vs ≤ n
      → unpack_array n (count vs) (values_bytes vs ++ rest) ≡ ok (normal_values vs, rest)
  unpack_array-values_bytes finish n depth rest h enough = refl
  unpack_array-values_bytes (element v vs) zero depth rest h enough = absurd (omega arith)
  unpack_array-values_bytes (element v vs) (suc n) depth rest h enough = rw (
    append_assoc (value_bytes v) (values_bytes vs) rest,
    unpack_one-value_bytes v n depth (values_bytes vs ++ rest) h.0 (omega arith),
    unpack_array-values_bytes vs n depth rest h.1 (omega arith),
  )

  unpack_hash-pairs_bytes :
      (size : ℕ) (ps : Pairs) (n depth : ℕ) (rest : List ℕ)
      → ArePackablePairs depth size ps
      → pair_costs size ps ≤ n
      → unpack_hash n (pairs_bytes size ps ++ rest) ≡ ok (normal_pairs size ps, rest)
  unpack_hash-pairs_bytes size close (suc (suc n)) depth rest h enough =
      let last : unpack_one (suc n) (0 ∷ rest) ≡ ok (nil, rest) =
        one_type n 0 0 [] rest (omega arith) (omega arith) in
      rw last (rw is_nil-nil)
  unpack_hash-pairs_bytes size close zero depth rest h enough = absurd (omega arith)
  unpack_hash-pairs_bytes size close (suc zero) depth rest h enough = absurd (omega arith)
  unpack_hash-pairs_bytes size (entry k v ps) zero depth rest h enough =
      absurd (omega (arith, pair_costs_two size (entry k v ps)))
  unpack_hash-pairs_bytes size (entry k v ps) (suc n) depth rest h enough =
      elim (Bool-cases (is_array_key size k)) [
        | inl skipped ↦
            let cheap : pair_costs size ps ≤ suc n = skipped_cost size k v ps skipped enough in
            rw skipped (unpack_hash-pairs_bytes size ps (suc n) depth rest h.1 cheap)
        | inr kept ↦
            let pair = h.0 kept in
            let cheap : 1 + (cost k + (cost v + pair_costs size ps)) ≤ suc n =
              kept_cost size k v ps kept enough in
            let more : List ℕ = pairs_bytes size ps ++ rest in
            let split : (value_bytes k ++ (value_bytes v ++ pairs_bytes size ps)) ++ rest
                ≡ value_bytes k ++ (value_bytes v ++ more) =
              append_assoc (value_bytes k) (value_bytes v ++ pairs_bytes size ps) rest
              ∙ ap (λ b. value_bytes k ++ b)
                  (append_assoc (value_bytes v) (pairs_bytes size ps) rest) in
            rw
              (
                kept,
                split,
                unpack_one-value_bytes k n depth (value_bytes v ++ more) pair.0 (omega arith),
              )
              (rw (
                is_nil-normal k pair.1,
                unpack_one-value_bytes v n depth more pair.2 (omega arith),
                unpack_hash-pairs_bytes size ps n depth rest h.1 (omega arith),
              ))
      ]
