-- ===== src/Seri/Packed.antt =====
-- The packing half of lualib-src/lua-seri.c writes the format.
use pskynet.Prelude.{
  ℕ, ◌+◌, ◌%◌, ◌^◌, ◌≤◌, ◌<◌, ◌≡◌, refl, sym, ap, ◌∙◌, inl, inr, Bool, true, false, not, List, [],
  ◌∷◌, ◌++◌, arith, ◌==◌, ltb, leb, if◌then◌else◌, length, append_assoc, append-nil, Bool-cases,
  le→ltb_false,
}
use pskynet.Prelude.Bytes.{le_bytes}
use pskynet.Prelude.Words.{as_int, is_negative}
use pskynet.Prelude.Result.{Result, ok, ◌>>=◌}
use pskynet.Seri.{
  Value, Values, Pairs, nil, boolean, integer, real, pointer, string, table, unsupported, finish,
  element, close, entry, combine_type, sign_extend, count, is_array_key, max_depth,
}
use pskynet.Seri.Blocks.{WriteBlock, IsWriteBlock, Pushed, content, push, push-Pushed}
use pskynet.Seri.Write.{
  Error, tagged, wb_nil, wb_boolean, wb_integer, wb_real, wb_pointer, wb_string, wb_array_size,
  pack_one, wb_table_array, wb_table_hash, checked,
}
use pskynet.Seri.Format.{
  integer_bytes, string_bytes, array_head, value_bytes, values_bytes, pairs_bytes, IsPackable,
  ArePackable, ArePackablePairs,
}

Pushed-append :
    (wb mid last : WriteBlock) (xs ys : List ℕ)
    → Pushed wb xs mid
    → Pushed mid ys last
    → Pushed wb (xs ++ ys) last
Pushed-append wb mid last xs ys p q = record {
  grown = q.grown ∙ ap (λ k. k ++ ys) p.grown ∙ append_assoc (content wb) xs ys;
  valid = q.valid;
}

Pushed-if :
    (b : Bool) (wb r r' : WriteBlock) (xs ys : List ℕ)
    → Pushed wb xs r
    → Pushed wb ys r'
    → Pushed wb (if b then xs else ys) (if b then r else r')
Pushed-if true wb r r' xs ys p q = p
Pushed-if false wb r r' xs ys p q = q

module _ (wb : WriteBlock) (good : IsWriteBlock wb) where
  tagged-Pushed :
      (type cookie : ℕ) (bytes : List ℕ)
      → Pushed wb (combine_type type cookie ∷ bytes) (tagged wb type cookie bytes)
  tagged-Pushed type cookie bytes =
      let tag = push-Pushed wb (combine_type type cookie ∷ []) good in
      Pushed-append wb (push wb (combine_type type cookie ∷ [])) (tagged wb type cookie bytes)
        (combine_type type cookie ∷ []) bytes tag
        (push-Pushed (push wb (combine_type type cookie ∷ [])) bytes tag.valid)

  wb_integer-Pushed : (v : ℕ) → Pushed wb (integer_bytes v) (wb_integer wb v)
  unfolding wb_integer integer_bytes
  wb_integer-Pushed v = Pushed-if (v == 0) wb _ _ _ _ (push-Pushed wb _ good) (
      Pushed-if (not (v == sign_extend (as_int v))) wb _ _ _ _ (tagged-Pushed _ _ _) (
        Pushed-if (leb (2 ^ 63) v) wb _ _ _ _ (tagged-Pushed _ _ _) (
          Pushed-if (ltb v 0x100) wb _ _ _ _ (tagged-Pushed _ _ _)
            (Pushed-if (ltb v 0x10000) wb _ _ _ _ (tagged-Pushed _ _ _) (tagged-Pushed _ _ _)))))

  wb_pointer-Pushed : (v : ℕ) → Pushed wb (value_bytes (pointer v)) (wb_pointer wb v)
  unfolding wb_pointer value_bytes
  wb_pointer-Pushed v =
      let tag = push-Pushed wb _ good in
      Pushed-append wb (push wb _) _ _ (le_bytes 8 v) tag
        (push-Pushed (push wb _) (le_bytes 8 v) tag.valid)

  short_text :
      (n : ℕ) (str : List ℕ)
      → let tag = push wb (combine_type 4 n ∷ []) in
        Pushed wb (combine_type 4 n ∷ str) (if ltb 0 (length str) then push tag str else tag)
  short_text n [] = push-Pushed wb (combine_type 4 n ∷ []) good
  short_text n (x ∷ xs) =
      let some_bytes : ltb 0 (length (x ∷ xs)) ≡ true = ground arith in
      rw some_bytes (tagged-Pushed 4 n (x ∷ xs))

  long_text :
      (cookie : ℕ) (size str : List ℕ)
      → Pushed wb (combine_type 5 cookie ∷ (size ++ str)) (push (tagged wb 5 cookie size) str)
  long_text cookie size str =
      let tag = tagged-Pushed 5 cookie size in
      Pushed-append wb (tagged wb 5 cookie size) _ (combine_type 5 cookie ∷ size) str tag
        (push-Pushed (tagged wb 5 cookie size) str tag.valid)

  wb_string-Pushed :
      (str : List ℕ) → length str < 2 ^ 31 → Pushed wb (string_bytes str) (wb_string wb str)
  unfolding wb_string string_bytes
  wb_string-Pushed str h =
      let len : as_int (length str) ≡ length str = omega arith in
      let positive : is_negative (length str) ≡ false = ground arith in
      elim (Bool-cases (ltb (length str) 32)) [
        | inl short ↦ rw (len, positive, short) (short_text (length str) str)
        | inr more ↦ elim (Bool-cases (ltb (length str) 0x10000)) [
          | inl word ↦
              let low : length str % 2 ^ 16 ≡ length str = ground arith in
              rw (len, positive, more, word, low) (long_text 2 (le_bytes 2 (length str)) str)
          | inr dword ↦ rw (len, positive, more, dword) (long_text 4 (le_bytes 4 (length str)) str)
        ]
      ]

wb_array_size-Pushed :
    (wb : WriteBlock) (size : ℕ)
    → IsWriteBlock wb
    → Pushed wb (array_head size) (wb_array_size wb size)
unfolding wb_array_size array_head
wb_array_size-Pushed wb size good =
    let tag : WriteBlock = push wb (combine_type 6 31 ∷ []) in
    let p = push-Pushed wb (combine_type 6 31 ∷ []) good in
    Pushed-if (leb 31 size) wb (wb_integer tag size) (push wb (combine_type 6 size ∷ []))
      (combine_type 6 31 ∷ integer_bytes size) (combine_type 6 size ∷ [])
      (Pushed-append wb tag (wb_integer tag size) (combine_type 6 31 ∷ []) (integer_bytes size) p
        (wb_integer-Pushed tag p.valid size))
      (push-Pushed wb (combine_type 6 size ∷ []) good)

-- A step of the packing succeeds and writes the bytes.
pub record Packed (wb : WriteBlock) (bytes : List ℕ) (r : Result Error WriteBlock) : Type 0 where
  pub last : WriteBlock
  pub returns : r ≡ ok last
  pub pushed : Pushed wb bytes last

at_depth :
    (wb : WriteBlock) (bytes : List ℕ) (depth : ℕ) (r : Result Error WriteBlock)
    → depth ≤ max_depth
    → Packed wb bytes r
    → Packed wb bytes (checked depth r)
at_depth wb bytes depth r h p = rw (le→ltb_false max_depth depth h) p

leaf :
    (wb last : WriteBlock) (bytes : List ℕ) (depth : ℕ)
    → depth ≤ max_depth
    → Pushed wb bytes last
    → Packed wb bytes (checked depth (ok last))
leaf wb last bytes depth h p =
    at_depth wb bytes depth (ok last) h (record { last = last; returns = refl; pushed = p })

-- One step after another.
pub then_ :
    (wb : WriteBlock) (xs ys : List ℕ) (r : Result Error WriteBlock)
    (f : WriteBlock → Result Error WriteBlock)
    → Packed wb xs r
    → ((mid : WriteBlock) → IsWriteBlock mid → Packed mid ys (f mid))
    → Packed wb (xs ++ ys) (r >>= f)
then_ wb xs ys r f p next =
    let q = next p.last p.pushed.valid in
    rw p.returns (record {
      last = q.last;
      returns = q.returns;
      pushed = Pushed-append wb p.last q.last xs ys p.pushed q.pushed;
    })

mutual
  unfolding pack_one wb_table_array wb_table_hash value_bytes values_bytes pairs_bytes wb_nil
      wb_boolean wb_real

  pub pack_one-Packed :
      (v : Value) (wb : WriteBlock) (depth : ℕ)
      → IsWriteBlock wb
      → IsPackable depth v
      → Packed wb (value_bytes v) (pack_one v wb depth)
  pack_one-Packed nil wb depth good h = leaf wb _ _ depth h (push-Pushed wb _ good)
  pack_one-Packed (boolean b) wb depth good h = leaf wb _ _ depth h (push-Pushed wb _ good)
  pack_one-Packed (integer v) wb depth good h = leaf wb _ _ depth h.0 (wb_integer-Pushed wb good v)
  pack_one-Packed (real v) wb depth good h = leaf wb _ _ depth h.0 (tagged-Pushed wb good _ _ _)
  pack_one-Packed (pointer v) wb depth good h = leaf wb _ _ depth h.0 (wb_pointer-Pushed wb good v)
  pack_one-Packed (string str) wb depth good h =
      leaf wb _ _ depth h.0 (wb_string-Pushed wb good str h.1)
  pack_one-Packed (table vs ps) wb depth good h =
      let head : Packed wb (array_head (count vs)) (ok (wb_array_size wb (count vs))) = record {
        last = wb_array_size wb (count vs);
        returns = refl;
        pushed = wb_array_size-Pushed wb (count vs) good;
      } in
      at_depth wb _ depth _ h.0 (
        then_ wb (array_head (count vs)) _ (ok (wb_array_size wb (count vs))) _ head
          (λ mid mid_good.
            then_ mid (values_bytes vs) (pairs_bytes (count vs) ps)
              (wb_table_array vs mid (depth + 1)) _
              (wb_table_array-Packed vs mid (depth + 1) mid_good h.2)
              (λ array array_good.
                wb_table_hash-Packed (count vs) ps array (depth + 1) array_good h.3)))
  pack_one-Packed unsupported wb depth good h = absurd h

  wb_table_array-Packed :
      (vs : Values) (wb : WriteBlock) (depth : ℕ)
      → IsWriteBlock wb
      → ArePackable depth vs
      → Packed wb (values_bytes vs) (wb_table_array vs wb depth)
  wb_table_array-Packed finish wb depth good h = record {
    last = wb;
    returns = refl;
    pushed = record { grown = sym (append-nil (content wb)); valid = good };
  }
  wb_table_array-Packed (element v vs) wb depth good h =
      then_ wb (value_bytes v) (values_bytes vs) (pack_one v wb depth) _
        (pack_one-Packed v wb depth good h.0)
        (λ mid mid_good. wb_table_array-Packed vs mid depth mid_good h.1)

  wb_table_hash-Packed :
      (size : ℕ) (ps : Pairs) (wb : WriteBlock) (depth : ℕ)
      → IsWriteBlock wb
      → ArePackablePairs depth size ps
      → Packed wb (pairs_bytes size ps) (wb_table_hash size ps wb depth)
  wb_table_hash-Packed size close wb depth good h = record {
    last = wb_nil wb;
    returns = refl;
    pushed = push-Pushed wb _ good;
  }
  wb_table_hash-Packed size (entry k v ps) wb depth good h =
      elim (Bool-cases (is_array_key size k)) [
        | inl skipped ↦ rw skipped (wb_table_hash-Packed size ps wb depth good h.1)
        | inr kept ↦
            let pair = h.0 kept in
            rw kept (
              then_ wb (value_bytes k) (value_bytes v ++ pairs_bytes size ps) (pack_one k wb depth)
                _ (pack_one-Packed k wb depth good pair.0)
                (λ mid mid_good.
                  then_ mid (value_bytes v) (pairs_bytes size ps) (pack_one v mid depth) _
                    (pack_one-Packed v mid depth mid_good pair.2)
                    (λ next next_good. wb_table_hash-Packed size ps next depth next_good h.1)))
      ]
