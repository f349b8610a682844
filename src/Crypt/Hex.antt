-- ===== src/Crypt/Hex.antt =====
-- The round trip of lualib-src/lua-crypt.c's hexadecimal texts, and where it fails.
use pskynet.Prelude.{
  ℕ, ◌+◌, ◌*◌, ◌/◌, ◌%◌, ◌^◌, ◌<◌, ◌≡◌, refl, ◌∙◌, arith, false, List, [], ◌∷◌, none, some, bit_and,
  bit_or, ltb, length,
}
use pskynet.Prelude.Bits.{bit_and_low, bit_and_mask, bit_or_low_digits}
use pskynet.Crypt.{hex, to_hex, hex_value, join_digits, digits_loop, from_hex}

abbrev pub AreBytes : List ℕ → Type 0
AreBytes [] = Unit {0}
AreBytes (b ∷ text) = (b < 2 ^ 8) × AreBytes text

hex_value-hex : (n : ℕ) → n < 16 → hex_value (hex n) ≡ n
unfolding hex_value hex
hex_value-hex n h = ground arith

join_digits-byte : (b : ℕ) → b < 2 ^ 8 → join_digits (b / 2 ^ 4) (bit_and b 0xf) ≡ some b
unfolding join_digits
join_digits-byte b h =
    let low : bit_and b 0xf ≡ b % 2 ^ 4 = bit_and_mask 4 b in
    let both : bit_or (b / 2 ^ 4 * 2 ^ 4) (b % 2 ^ 4) ≡ b / 2 ^ 4 * 2 ^ 4 + b % 2 ^ 4 =
      bit_or_low_digits 4 (b / 2 ^ 4) (b % 2 ^ 4) (omega arith) in
    let first : ltb 16 (b / 2 ^ 4) ≡ false = ground arith in
    let second : ltb 16 (b % 2 ^ 4) ≡ false = ground arith in
    let whole : (b / 2 ^ 4 * 2 ^ 4 + b % 2 ^ 4) % 2 ^ 8 ≡ b = omega arith in
    rw (low, first, second, both, whole)

digits_loop-to_hex : (text : List ℕ) → AreBytes text → digits_loop (to_hex text) ≡ some text
unfolding digits_loop to_hex
digits_loop-to_hex [] ok = refl
digits_loop-to_hex (b ∷ text) ok =
    let low : bit_and b 0xf ≡ b % 2 ^ 4 = bit_and_mask 4 b in
    let x = hex_value-hex (b / 2 ^ 4) (omega (arith, ok.0)) in
    let y = hex_value-hex (bit_and b 0xf) (omega (arith, low)) in
    rw (x, y, join_digits-byte b ok.0, digits_loop-to_hex text ok.1)

length-to_hex : (text : List ℕ) → length (to_hex text) ≡ 2 * length text
unfolding to_hex
length-to_hex [] = refl
length-to_hex (b ∷ text) = omega (arith, length-to_hex text)

bit_and_two : (n : ℕ) → bit_and (2 * n) 2 ≡ n % 2 * 2
bit_and_two n =
    let half : 2 * n / 2 ≡ n = omega arith in
    bit_and_low (2 * n) 2 ∙ rw (half, bit_and_mask 1 n) (omega arith)

-- The text that `hexencode` writes for an even number of bytes is read back.
pub from_hex-to_hex :
    (text : List ℕ) → AreBytes text → length text % 2 ≡ 0 → from_hex (to_hex text) ≡ some text
unfolding from_hex
from_hex-to_hex text ok even =
    rw (length-to_hex text, bit_and_two (length text), even) (digits_loop-to_hex text ok)

-- The text that `hexencode` writes for an odd number of bytes is refused by `hexdecode`.
pub from_hex-odd : (text : List ℕ) → length text % 2 ≡ 1 → from_hex (to_hex text) ≡ none
unfolding from_hex
from_hex-odd text odd = rw (length-to_hex text, bit_and_two (length text), odd)
