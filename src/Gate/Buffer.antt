-- ===== src/Gate/Buffer.antt =====
-- service-src/databuffer.h: the bytes that a connection has received and that nobody has read yet.
use pskynet.Prelude.{
  ℕ, ◌+◌, ◌-◌, ◌*◌, ◌^◌, List, [], ◌∷◌, ◌++◌, Option, none, some, ◌>>=◌, bit_or, ◌==◌, ltb,
  if◌then◌else◌, length, take, drop,
}
use pskynet.Prelude.Bytes.{byte_at}
use pskynet.Prelude.Words.{is_negative, minus_one}

-- MESSAGEPOOL
abbrev pub message_pool : ℕ
message_pool = 1023

-- `messages` is the list from `head` to `tail`; the length of one is its `size`. An int that can be
-- negative, as `header` can, is given by its bit pattern of 32 bits.
-- `size` is an int: the model agrees with it while a buffer has less than 2^31 bytes.
pub record DataBuffer : Type 0 where
  pub header : ℕ
  pub offset : ℕ
  pub size : ℕ
  pub messages : List (List ℕ)

-- How many blocks of messages there are, and how many messages are free.
pub record MessagePool : Type 0 where
  pub pool : ℕ
  pub freelist : ℕ

-- `_return_message` where `ms` is what follows the head.
unfoldable pub return_message : List (List ℕ) → DataBuffer → MessagePool → DataBuffer × MessagePool
return_message ms db mp = (record db { messages = ms }, record mp { freelist = mp.freelist + 1 })

-- The `for` of `databuffer_read` where `db` still has the messages; `none` is a read through NULL.
-- The offset never passes the end of the head, so that `bsz` is not negative.
unfoldable pub read_loop :
    List (List ℕ) → DataBuffer → MessagePool → ℕ → Option (List ℕ × DataBuffer × MessagePool)
unfolding return_message
read_loop [] db mp sz = none
read_loop (m ∷ ms) db mp sz =
    let bsz = length m - db.offset in
    let (popped, mp') = return_message ms db mp in
    let next : DataBuffer = record popped { offset = 0 } in
    let rest = read_loop ms next mp' (sz - bsz) in
    if ltb sz bsz
    then some
        (take sz (drop db.offset m), record db { offset = db.offset + sz; messages = m ∷ ms }, mp)
    else if bsz == sz
    then some (take sz (drop db.offset m), next, mp')
    else do (bytes, last, pool) ← rest; some (take bsz (drop db.offset m) ++ bytes, last, pool)

-- `databuffer_read`; a failed assertion is `none` too.
unfoldable pub read : DataBuffer → MessagePool → ℕ → Option (List ℕ × DataBuffer × MessagePool)
read db mp sz =
    if ltb db.size sz then none else read_loop db.messages (record db { size = db.size - sz }) mp sz

-- A message for `databuffer_push`; the pool grows by a block when no message is free.
unfoldable pub take_message : MessagePool → MessagePool
take_message mp =
    if mp.freelist == 0
    then record { pool = mp.pool + 1; freelist = message_pool - 1 }
    else record mp { freelist = mp.freelist - 1 }

unfoldable pub push : DataBuffer → MessagePool → List ℕ → DataBuffer × MessagePool
push db mp bytes = (
  record db { size = db.size + length bytes; messages = db.messages ++ bytes ∷ [] },
  take_message mp,
)

-- The big-endian number that `databuffer_readheader` reads.
unfoldable pub header_of : ℕ → List ℕ → ℕ
header_of header_size plen =
    if header_size == 2
    then bit_or (byte_at plen 0 * 2 ^ 8) (byte_at plen 1)
    else bit_or
        (bit_or (bit_or (byte_at plen 0 * 2 ^ 24) (byte_at plen 1 * 2 ^ 16))
          (byte_at plen 2 * 2 ^ 8))
        (byte_at plen 3)

-- `databuffer_readheader` after the first `if`.
unfoldable pub check_body : DataBuffer → ℕ
check_body db =
    if is_negative db.header
    then db.header
    else if ltb db.size db.header
    then minus_one
    else db.header

unfoldable pub read_header : DataBuffer → MessagePool → ℕ → Option (ℕ × DataBuffer × MessagePool)
read_header db mp header_size =
    if db.header == 0
    then (if ltb db.size header_size then some (minus_one, db, mp) else do
      (plen, db', mp') ← read db mp header_size
      let known : DataBuffer = record db' { header = header_of header_size plen }
      some (check_body known, known, mp'))
    else some (check_body db, db, mp)

unfoldable pub reset : DataBuffer → DataBuffer
reset db = record db { header = 0 }

abbrev pub empty : DataBuffer
empty = record { header = 0; offset = 0; size = 0; messages = [] }

-- `databuffer_clear` over the messages that are left.
unfoldable pub clear_loop : List (List ℕ) → DataBuffer → MessagePool → DataBuffer × MessagePool
clear_loop [] db mp = (empty, mp)
clear_loop (m ∷ ms) db mp = let (db', mp') = return_message ms db mp in clear_loop ms db' mp'

unfoldable pub clear : DataBuffer → MessagePool → DataBuffer × MessagePool
clear db mp = clear_loop db.messages db mp
