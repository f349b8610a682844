-- ===== src/Crypt.antt =====
-- lualib-src/lua-crypt.c: the hexadecimal texts of `hexencode` and `hexdecode`.
pub mod Hex
mod Tests
use pskynet.Prelude.{
  ℕ, ◌+◌, ◌-◌, ◌*◌, ◌/◌, ◌%◌, ◌^◌, Bool, List, [], ◌∷◌, Option, none, some, ◌>>=◌, bit_and, bit_or,
  ◌==◌, leb, ltb, if◌then◌else◌, length,
}

-- The table `hex`.
unfoldable pub hex : ℕ → ℕ
hex n = if ltb n 10 then 48 + n else 87 + n

-- `ltohex`
unfoldable pub to_hex : List ℕ → List ℕ
to_hex [] = []
to_hex (b ∷ text) = hex (b / 2 ^ 4) ∷ hex (bit_and b 0xf) ∷ to_hex text

-- The macro HEX, whose result is put into 8 bits.
unfoldable pub hex_value : ℕ → ℕ
hex_value c = if ltb c 48 then (c + 169) % 256 else if leb c 57 then c - 48 else (c + 169) % 256

unfoldable pub join_digits : ℕ → ℕ → Option ℕ
join_digits hi low =
    if ltb 16 hi then none else if ltb 16 low then none else some (bit_or (hi * 2 ^ 4) low % 2 ^ 8)

-- The `for` of `lfromhex`; behind the text stands a zero.
unfoldable pub digits_loop : List ℕ → Option (List ℕ)
digits_loop [] = some []
digits_loop (a ∷ []) = do b ← join_digits (hex_value a) (hex_value 0); some (b ∷ [])
digits_loop (a ∷ c ∷ text) =
    let rest = digits_loop text in
    do b ← join_digits (hex_value a) (hex_value c); bs ← rest; some (b ∷ bs)

-- `lfromhex`; `none` is an error.
unfoldable pub from_hex : List ℕ → Option (List ℕ)
from_hex text = if bit_and (length text) 2 == 0 then digits_loop text else none
