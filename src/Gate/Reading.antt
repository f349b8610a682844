-- ===== src/Gate/Reading.antt =====
-- Reading from the buffer of service-src/databuffer.h.
use pskynet.Prelude.{
  ℕ, ◌+◌, ◌-◌, ◌*◌, ◌≤◌, ◌<◌, ◌≡◌, refl, sym, ap, ◌∙◌, inl, inr, List, [], ◌∷◌, ◌++◌, Option, some,
  arith, ◌==◌, ltb, length, take, drop, length-append, length-drop, take-append, drop-append,
  take-append_of_le, drop-append_of_le, drop-drop, take-all, append-nil, Bool-cases, ltb→lt, ==→≡,
  le→ltb_false, ==_false,
}
use pskynet.Prelude.Bytes.{flat, flat-append}
use pskynet.Gate.Buffer.{
  DataBuffer, MessagePool, message_pool, return_message, read_loop, read, take_message, push,
  clear_loop, clear,
}

-- The bytes that nobody has read yet.
abbrev pub content : DataBuffer → List ℕ
content db = drop db.offset (flat db.messages)

abbrev head_length : List (List ℕ) → ℕ
head_length [] = 0
head_length (m ∷ ms) = length m

-- `in_use` counts the messages that the other buffers have taken from the pool.
pub record IsBuffer (in_use : ℕ) (db : DataBuffer) (mp : MessagePool) : Type 0 where
  pub in_head : db.offset ≤ head_length db.messages
  pub counted : db.size ≡ length (content db)
  pub pooled : mp.freelist + length db.messages + in_use ≡ mp.pool * message_pool

-- What reading `sz` bytes gives.
pub record HasRead (in_use sz : ℕ) (db : DataBuffer)
    (r : Option (List ℕ × DataBuffer × MessagePool)) : Type 0 where
  pub last : DataBuffer
  pub pool : MessagePool
  pub returns : r ≡ some (take sz (content db), last, pool)
  pub rest : content last ≡ drop sz (content db)
  pub header : last.header ≡ db.header
  pub valid : IsBuffer in_use last pool

module _ (in_use header : ℕ) where
  abbrev at : ℕ → ℕ → List (List ℕ) → DataBuffer
  at offset size ms = record { header = header; offset = offset; size = size; messages = ms }

  -- In the loop `size` is already what will be left.
  read_loop-HasRead :
      (ms : List (List ℕ)) (offset size sz : ℕ) (mp : MessagePool)
      → offset ≤ head_length ms
      → size + sz ≡ length (drop offset (flat ms))
      → mp.freelist + length ms + in_use ≡ mp.pool * message_pool
      → 0 < sz
      → HasRead in_use sz (at offset size ms) (read_loop ms (at offset size ms) mp sz)
  unfolding read_loop return_message
  read_loop-HasRead [] offset size sz mp in_head counted pooled some_left =
      let none_left : length (drop offset (flat [])) ≡ 0 - offset = length-drop offset [] in
      absurd (omega arith)
  read_loop-HasRead (m ∷ ms) offset size sz mp in_head counted pooled some_left =
      let bsz : ℕ = length m - offset in
      let stream : List ℕ = m ++ flat ms in
      let unread : length (drop offset m) ≡ bsz = length-drop offset m in
      let split : drop offset stream ≡ drop offset m ++ flat ms =
        drop-append offset m (flat ms) in_head in
      let joined : length (drop offset stream) ≡ bsz + length (flat ms) =
        ap length split
        ∙ length-append (drop offset m) (flat ms)
        ∙ ap (λ k. k + length (flat ms)) unread in
      let counts : size + sz ≡ bsz + length (flat ms) = counted ∙ joined in
      elim (Bool-cases (ltb sz (length m - offset))) [
        | inl less ↦
            let smaller = ltb→lt sz bsz less in
            let left : length (drop (offset + sz) stream) ≡ length stream - (offset + sz) =
              length-drop (offset + sz) stream in
            let before : length (drop offset stream) ≡ length stream - offset =
              length-drop offset stream in
            rw (less, read_loop)
              (record {
                last = at (offset + sz) size (m ∷ ms);
                pool = mp;
                returns = rw (split, take-append sz (drop offset m) (flat ms) (omega arith));
                rest = sym (drop-drop sz offset stream);
                header = refl;
                valid = record { in_head = omega arith; counted = omega arith; pooled = pooled };
              })
        | inr more ↦ elim (Bool-cases (length m - offset == sz)) [
          | inl same ↦
              let e : sz ≡ bsz = sym (==→≡ bsz sz same) in
              let short : length (drop offset m) ≤ sz = omega arith in
              let none_over : sz - length (drop offset m) ≡ 0 = omega arith in
              rw (more, same, read_loop)
                (record {
                  last = at 0 size ms;
                  pool = record mp { freelist = mp.freelist + 1 };
                  returns = rw (split, take-append sz (drop offset m) (flat ms) (omega arith));
                  rest =
                      rw (split, drop-append_of_le sz (drop offset m) (flat ms) short, none_over);
                  header = refl;
                  valid = record {
                    in_head = omega arith;
                    counted = omega arith;
                    pooled = omega arith;
                  };
                })
          | inr differ ↦
              let over = ==_false bsz sz differ in
              let past : bsz ≤ sz = ground arith in
              let next : MessagePool = record mp { freelist = mp.freelist + 1 } in
              let r =
                read_loop-HasRead ms 0 size (sz - bsz) next (omega arith) (omega arith)
                  (omega arith) (omega arith) in
              let short : length (drop offset m) ≤ sz = omega arith in
              let bytes : take bsz (drop offset m) ++ take (sz - bsz) (flat ms)
                  ≡ take sz (drop offset stream) =
                rw (
                  split,
                  take-append_of_le sz (drop offset m) (flat ms) short,
                  unread,
                  take-all bsz (drop offset m) (omega arith),
                ) in
              let later : drop (sz - bsz) (flat ms) ≡ drop sz (drop offset stream) =
                rw (split, drop-append_of_le sz (drop offset m) (flat ms) short, unread) in
              rw (more, differ, read_loop)
                (rw r.returns (record {
                  last = r.last;
                  pool = r.pool;
                  returns = ap (λ b. some (b, r.last, r.pool)) bytes;
                  rest = r.rest ∙ later;
                  header = r.header;
                  valid = r.valid;
                }))
        ]
      ]

-- When the buffer has the bytes, `databuffer_read` returns the first `sz` of them and leaves the
-- others, and the buffer and the pool stay sound.
pub read-HasRead :
    (in_use sz : ℕ) (db : DataBuffer) (mp : MessagePool)
    → IsBuffer in_use db mp
    → 0 < sz
    → sz ≤ db.size
    → HasRead in_use sz db (read db mp sz)
unfolding read
read-HasRead in_use sz db mp ok some_left enough =
    let r =
      read_loop-HasRead in_use db.header db.messages db.offset (db.size - sz) sz mp ok.in_head
        (omega arith) ok.pooled some_left in
    rw (le→ltb_false db.size sz enough) (record {
      last = r.last;
      pool = r.pool;
      returns = r.returns;
      rest = r.rest;
      header = r.header;
      valid = r.valid;
    })

offset_le : (ms : List (List ℕ)) (offset : ℕ) → offset ≤ head_length ms → offset ≤ length (flat ms)
offset_le [] offset h = h
offset_le (m ∷ ms) offset h = omega (arith, length-append m (flat ms))

head_length-append : (ms : List (List ℕ)) (m : List ℕ) → head_length ms ≤ head_length (ms ++ m ∷ [])
head_length-append [] m = omega arith
head_length-append (x ∷ ms) m = omega arith

-- What a push does to the bytes that wait.
pub record HasPushed (in_use : ℕ) (db : DataBuffer) (bytes : List ℕ) (r : DataBuffer × MessagePool)
    : Type 0 where
  pub grown : content r.0 ≡ content db ++ bytes
  pub header : r.0.header ≡ db.header
  pub valid : IsBuffer in_use r.0 r.1

pub push-HasPushed :
    (in_use : ℕ) (db : DataBuffer) (mp : MessagePool) (bytes : List ℕ)
    → IsBuffer in_use db mp
    → HasPushed in_use db bytes (push db mp bytes)
unfolding push take_message
push-HasPushed in_use db mp bytes ok =
    let grown : drop db.offset (flat (db.messages ++ bytes ∷ [])) ≡ content db ++ bytes =
      rw (flat-append db.messages (bytes ∷ []), append-nil bytes)
        (drop-append db.offset (flat db.messages) bytes
          (offset_le db.messages db.offset ok.in_head)) in
    let longer = ap length grown ∙ length-append (content db) bytes in
    record {
      grown = grown;
      header = refl;
      valid = record {
        in_head = omega (arith, ok.in_head, head_length-append db.messages bytes);
        counted = omega (arith, ok.counted, longer);
        pooled = ground (arith, ok.pooled, length-append db.messages (bytes ∷ []));
      };
    }

clear_loop-IsBuffer :
    (in_use : ℕ) (ms : List (List ℕ)) (db : DataBuffer) (mp : MessagePool)
    → mp.freelist + length ms + in_use ≡ mp.pool * message_pool
    → IsBuffer in_use (clear_loop ms db mp).0 (clear_loop ms db mp).1
unfolding clear_loop return_message
clear_loop-IsBuffer in_use [] db mp h = record { in_head = omega arith; counted = refl; pooled = h }
clear_loop-IsBuffer in_use (m ∷ ms) db mp h =
    clear_loop-IsBuffer in_use ms (record db { messages = ms })
      (record mp { freelist = mp.freelist + 1 }) (omega arith)

-- Clearing gives all messages back to the pool.
pub clear-IsBuffer :
    (in_use : ℕ) (db : DataBuffer) (mp : MessagePool)
    → IsBuffer in_use db mp
    → IsBuffer in_use (clear db mp).0 (clear db mp).1
unfolding clear
clear-IsBuffer in_use db mp ok = clear_loop-IsBuffer in_use db.messages db mp ok.pooled
