-- ===== src/Crypt/Tests.antt =====
-- Hexadecimal texts of lualib-src/lua-crypt.c at concrete inputs.
use pskynet.Prelude.{◌≡◌, refl, [], ◌∷◌, none, some, arith}
use pskynet.Crypt.{to_hex, from_hex, hex_value, digits_loop, join_digits}
use pskynet.Crypt.Hex.{from_hex-to_hex, from_hex-odd}

from_hex-to_hex_example : from_hex (to_hex (171 ∷ 9 ∷ [])) ≡ some (171 ∷ 9 ∷ [])
from_hex-to_hex_example = from_hex-to_hex (171 ∷ 9 ∷ []) (omega arith, (omega arith, tt)) refl

from_hex-odd_example : from_hex (to_hex (171 ∷ [])) ≡ none
from_hex-odd_example = from_hex-odd (171 ∷ []) refl

-- The letter g is taken for a digit with the value 16.
letter_test : from_hex (103 ∷ 48 ∷ 48 ∷ 48 ∷ []) ≡ some (0 ∷ 0 ∷ [])
unfolding from_hex digits_loop join_digits hex_value
letter_test = refl
