-- ===== src/Cluster/Words.antt =====
-- The integers, the header and the buffer in the messages of lualib-src/lua-cluster.c.
use pskynet.Prelude.{
  ℕ, ◌+◌, ◌*◌, ◌/◌, ◌%◌, ◌^◌, ◌≤◌, ◌<◌, ◌≡◌, refl, ◌∙◌, not, ◌&&◌, true, false, List, ◌++◌, arith,
  bit_and, bit_or, leb, length, le→ltb_false,
}
use pskynet.Prelude.Bits.{bit_and_mask, bit_or_high}
use pskynet.Prelude.Words.{as_int, is_negative}
use pskynet.Gate.Framing.{header_bytes}
use pskynet.Cluster.{
  returned, raised, too_long, fill_uint32, fill_header, unpack_uint32, buffer, temp_length,
}

pub length-fill_uint32 : (n : ℕ) → length (fill_uint32 n) ≡ 4
unfolding fill_uint32
length-fill_uint32 n = refl

low_byte : (n : ℕ) → bit_and n 0xff ≡ n % 2 ^ 8
low_byte n = bit_and_mask 8 n

joined_bytes :
    (a b c d : ℕ)
    → a < 2 ^ 8
    → b < 2 ^ 8
    → c < 2 ^ 8
    → bit_or (bit_or (bit_or a (b * 2 ^ 8)) (c * 2 ^ 16)) (d * 2 ^ 24)
      ≡ d * 2 ^ 24 + (c * 2 ^ 16 + (b * 2 ^ 8 + a))
joined_bytes a b c d ha hb hc =
    rw (bit_or_high 8 b a ha, bit_or_high 16 c (b * 2 ^ 8 + a) (omega arith))
      (bit_or_high 24 d (c * 2 ^ 16 + (b * 2 ^ 8 + a)) (omega arith))

pub unpack_uint32-fill_uint32 :
    (n : ℕ) (rest : List ℕ) → n < 2 ^ 32 → unpack_uint32 (fill_uint32 n ++ rest) ≡ n
unfolding unpack_uint32 fill_uint32
unpack_uint32-fill_uint32 n rest h =
    rw (low_byte n, low_byte (n / 2 ^ 8), low_byte (n / 2 ^ 16), low_byte (n / 2 ^ 24))
      (joined_bytes (n % 2 ^ 8) (n / 2 ^ 8 % 2 ^ 8) (n / 2 ^ 16 % 2 ^ 8) (n / 2 ^ 24 % 2 ^ 8)
          (omega arith) (omega arith) (omega arith)
        ∙ omega arith)

-- A size that fits is written as the header of a package.
pub fill_header-fits :
    (size : ℕ) → size < 0x10000 → fill_header size ≡ returned (header_bytes 2 size)
unfolding fill_header
fill_header-fits size h =
    let e : as_int (size % 2 ^ 64) ≡ size = omega arith in
    let fits : (not (is_negative size) && leb 0x10000 size) ≡ false = ground arith in
    rw (e, fits, low_byte (size / 2 ^ 8), low_byte size) (ground arith)

pub fill_header-too_long :
    (size : ℕ) → 0x10000 ≤ size → size < 2 ^ 31 → fill_header size ≡ raised true too_long
unfolding fill_header
fill_header-too_long size h small =
    let e : as_int (size % 2 ^ 64) ≡ size = omega arith in
    let long : (not (is_negative size) && leb 0x10000 size) ≡ true = ground arith in rw (e, long)

pub buffer-fits : (bytes : List ℕ) → length bytes ≤ temp_length → buffer bytes ≡ returned bytes
buffer-fits bytes h = rw (le→ltb_false temp_length (length bytes) h)
