-- ===== src/Seri/Blocks.antt =====
-- The chain of blocks that a stream is written into: `struct write_block` of lualib-src/lua-seri.c.
use pskynet.Prelude.{
  ℕ, zero, suc, ◌+◌, ◌-◌, ◌≤◌, ◌<◌, ◌≡◌, refl, sym, ap, ◌∙◌, inl, inr, true, false, List, [], ◌∷◌,
  ◌++◌, Option, none, some, ◌>>=◌, arith, ◌==◌, leb, if◌then◌else◌, length, take, drop,
  length-append, length-take, length-drop, take-append-drop, append_assoc, append-nil, take-all,
  Bool-cases, ==→≡,
}
use pskynet.Prelude.Bytes.{flat, flat-append}
use pskynet.Prelude.Filter.{All, All-append}

-- BLOCK_SIZE
abbrev pub block_size : ℕ
block_size = 128

-- The blocks before the current one, what is written of that one (`ptr` bytes), and `len`, an int:
-- the model agrees with it for streams of less than 2^31 bytes.
pub record WriteBlock : Type 0 where
  pub blocks : List (List ℕ)
  pub current : List ℕ
  pub len : ℕ

-- `wb_init`
unfoldable pub init : WriteBlock
init = record { blocks = []; current = []; len = 0 }

unfoldable pub new_block : WriteBlock → WriteBlock
new_block wb = record wb { blocks = wb.blocks ++ wb.current ∷ []; current = [] }

unfoldable pub fill : WriteBlock → List ℕ → WriteBlock
fill wb bytes = record wb { current = wb.current ++ bytes; len = wb.len + length bytes }

-- `wb_push` from the second test on, with `fuel` jumps to `_again` left.
unfoldable pub push_loop : ℕ → WriteBlock → List ℕ → WriteBlock
push_loop zero wb bytes = wb
push_loop (suc fuel) wb bytes =
    let copy = block_size - length wb.current in
    let again = push_loop fuel (new_block (fill wb (take copy bytes))) (drop copy bytes) in
    if leb (length wb.current + length bytes) block_size then fill wb bytes else again

-- `wb_push`; each jump copies a byte at least.
unfoldable pub push : WriteBlock → List ℕ → WriteBlock
push wb bytes =
    push_loop (length bytes + 1) (if length wb.current == block_size then new_block wb else wb)
      bytes

-- The loop of `seri` over the blocks; `none` is a read through NULL.
unfoldable pub collect : List (List ℕ) → ℕ → Option (List ℕ)
collect [] len = if len == 0 then some [] else none
collect (b ∷ bs) len =
    let rest = collect bs (len - block_size) in
    if len == 0
    then some []
    else if leb block_size len
    then (do bytes ← rest; some (take block_size b ++ bytes))
    else some (take len b)

-- `seri`
unfoldable pub seri : WriteBlock → Option (List ℕ)
seri wb = collect (wb.blocks ++ wb.current ∷ []) wb.len

-- What is written so far.
abbrev pub content : WriteBlock → List ℕ
content wb = flat wb.blocks ++ wb.current

pub record IsWriteBlock (wb : WriteBlock) : Type 0 where
  pub whole : All (λ b. length b ≡ block_size) wb.blocks
  pub room : length wb.current ≤ block_size
  pub counted : wb.len ≡ length (content wb)

pub record Pushed (wb : WriteBlock) (bytes : List ℕ) (r : WriteBlock) : Type 0 where
  pub grown : content r ≡ content wb ++ bytes
  pub valid : IsWriteBlock r

pub init-IsWriteBlock : IsWriteBlock init
unfolding init
init-IsWriteBlock = record { whole = tt; room = omega arith; counted = refl }

content-new_block : (wb : WriteBlock) → content (new_block wb) ≡ content wb
unfolding new_block
content-new_block wb =
    append-nil (flat (wb.blocks ++ wb.current ∷ []))
    ∙ flat-append wb.blocks (wb.current ∷ [])
    ∙ ap (λ k. flat wb.blocks ++ k) (append-nil wb.current)

new_block-IsWriteBlock :
    (wb : WriteBlock)
    → IsWriteBlock wb
    → length wb.current ≡ block_size
    → IsWriteBlock (new_block wb)
unfolding new_block
new_block-IsWriteBlock wb ok full = record {
  whole = All-append (λ b. length b ≡ block_size) wb.blocks (wb.current ∷ []) ok.whole (full, tt);
  room = omega arith;
  counted = ok.counted ∙ ap length (sym (content-new_block wb));
}

fill-Pushed :
    (wb : WriteBlock) (bytes : List ℕ)
    → IsWriteBlock wb
    → length wb.current + length bytes ≤ block_size
    → Pushed wb bytes (fill wb bytes)
unfolding fill
fill-Pushed wb bytes ok fits =
    let grown : flat wb.blocks ++ (wb.current ++ bytes) ≡ content wb ++ bytes =
      sym (append_assoc (flat wb.blocks) wb.current bytes) in
    record {
      grown = grown;
      valid = record {
        whole = ok.whole;
        room = omega (arith, length-append wb.current bytes);
        counted = omega (arith, ok.counted, ap length grown, length-append (content wb) bytes);
      };
    }

push_loop-Pushed :
    (fuel : ℕ) (wb : WriteBlock) (bytes : List ℕ)
    → IsWriteBlock wb
    → length wb.current < block_size
    → length bytes < fuel
    → Pushed wb bytes (push_loop fuel wb bytes)
unfolding push_loop new_block
push_loop-Pushed zero wb bytes ok open_ h = absurd (omega arith)
push_loop-Pushed (suc fuel) wb bytes ok open_ h =
    elim (Bool-cases (leb (length wb.current + length bytes) block_size)) [
      | inl fits ↦ rw fits (fill-Pushed wb bytes ok (ground arith))
      | inr over ↦
          let copy : ℕ = block_size - length wb.current in
          let more : block_size < length wb.current + length bytes = ground arith in
          let taken : length (take copy bytes) ≡ copy = omega (arith, length-take copy bytes) in
          let first = fill-Pushed wb (take copy bytes) ok (omega arith) in
          let full : length (wb.current ++ take copy bytes) ≡ block_size =
            omega (arith, length-append wb.current (take copy bytes)) in
          let next : WriteBlock = new_block (fill wb (take copy bytes)) in
          let r =
            push_loop-Pushed fuel next (drop copy bytes)
              (new_block-IsWriteBlock (fill wb (take copy bytes)) first.valid (unfold fill in full))
              (omega arith) (omega (arith, length-drop copy bytes)) in
          rw over (record {
            grown =
                r.grown
                ∙ ap (λ k. k ++ drop copy bytes)
                    (content-new_block (fill wb (take copy bytes)) ∙ first.grown)
                ∙ append_assoc (content wb) (take copy bytes) (drop copy bytes)
                ∙ ap (λ k. content wb ++ k) (take-append-drop copy bytes);
            valid = r.valid;
          })
    ]

-- `wb_push` appends the bytes to what is written, across as many blocks as they need.
pub push-Pushed :
    (wb : WriteBlock) (bytes : List ℕ) → IsWriteBlock wb → Pushed wb bytes (push wb bytes)
unfolding push new_block
push-Pushed wb bytes ok = elim (Bool-cases (length wb.current == block_size)) [
  | inl full ↦
      let e : length wb.current ≡ block_size = ==→≡ (length wb.current) block_size full in
      let r =
        push_loop-Pushed (length bytes + 1) (new_block wb) bytes (new_block-IsWriteBlock wb ok e)
          (omega arith) (omega arith) in
      rw full
        (record { grown = r.grown ∙ ap (λ k. k ++ bytes) (content-new_block wb); valid = r.valid })
  | inr room ↦
      rw room
        (push_loop-Pushed (length bytes + 1) wb bytes ok (ground (arith, ok.room)) (omega arith))
]

collect-flat :
    (bs : List (List ℕ)) (last : List ℕ)
    → All (λ b. length b ≡ block_size) bs
    → length last ≤ block_size
    → collect (bs ++ last ∷ []) (length (flat bs ++ last)) ≡ some (flat bs ++ last)
unfolding collect
collect-flat [] [] h fits = refl
collect-flat [] (x ∷ xs) h fits = elim (Bool-cases (leb block_size (length (x ∷ xs)))) [
  | inl full ↦
      let e : length (x ∷ xs) - block_size ≡ 0 = omega arith in
      let some_left : (length (x ∷ xs) == 0) ≡ false = ground arith in
      let front : take block_size (x ∷ xs) ≡ x ∷ xs = take-all block_size (x ∷ xs) fits in
      rw (some_left, full, e) (ap some (append-nil (take block_size (x ∷ xs)) ∙ front))
  | inr partial ↦
      let some_left : (length (x ∷ xs) == 0) ≡ false = ground arith in
      rw (some_left, partial) (ap some (take-all (length (x ∷ xs)) (x ∷ xs) (omega arith)))
]
collect-flat (b ∷ bs) last h fits =
    let joined : flat (b ∷ bs) ++ last ≡ b ++ (flat bs ++ last) = append_assoc b (flat bs) last in
    let total : length (flat (b ∷ bs) ++ last) ≡ block_size + length (flat bs ++ last) =
      omega (arith, ap length joined, length-append b (flat bs ++ last), h.0) in
    let some_left : (block_size + length (flat bs ++ last) == 0) ≡ false = ground arith in
    let whole : leb block_size (block_size + length (flat bs ++ last)) ≡ true = ground arith in
    let rest : block_size + length (flat bs ++ last) - block_size ≡ length (flat bs ++ last) =
      omega arith in
    let front : take block_size b ≡ b = take-all block_size b (omega (arith, h.0)) in
    rw (total, some_left, whole, rest, collect-flat bs last h.1 fits, front) (ap some (sym joined))

-- `seri` gives what is written.
pub seri-content : (wb : WriteBlock) → IsWriteBlock wb → seri wb ≡ some (content wb)
unfolding seri
seri-content wb ok = rw ok.counted (collect-flat wb.blocks wb.current ok.whole ok.room)
