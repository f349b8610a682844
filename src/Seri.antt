-- ===== src/Seri.antt =====
-- lualib-src/lua-seri.c: Lua values as a stream of bytes.
pub mod Blocks
pub mod Write
pub mod Format
pub mod Packed
pub mod Read
pub mod Numbers
pub mod Unpacked
pub mod RoundTrip
pub mod Ends
mod Tests
use pskynet.Prelude.{
  ℕ, zero, suc, ◌+◌, ◌-◌, ◌*◌, ◌%◌, ◌^◌, ◌≤◌, Bool, true, false, ◌&&◌, List, bit_or, ltb, leb,
  if◌then◌else◌,
}

-- A Lua value as the code sees it. An integer, a double and a pointer are given by their 64 bits;
-- `unsupported` is a function, a thread or a full userdata. A table has the elements 1 to
-- `lua_rawlen` and all pairs that `lua_next` goes through, the elements among them.
mutual
  pub data Value : Type 0 where
    nil : Value
    boolean : Bool → Value
    integer : ℕ → Value
    real : ℕ → Value
    pointer : ℕ → Value
    string : List ℕ → Value
    table : Values → Pairs → Value
    unsupported : Value

  pub data Values : Type 0 where
    finish : Values
    element : Value → Values → Values

  pub data Pairs : Type 0 where
    close : Pairs
    entry : Value → Value → Pairs → Pairs

abbrev pub type_nil : ℕ
type_nil = 0

abbrev pub type_boolean : ℕ
type_boolean = 1

abbrev pub type_number : ℕ
type_number = 2

abbrev pub type_userdata : ℕ
type_userdata = 3

abbrev pub type_short_string : ℕ
type_short_string = 4

abbrev pub type_long_string : ℕ
type_long_string = 5

abbrev pub type_table : ℕ
type_table = 6

abbrev pub number_zero : ℕ
number_zero = 0

abbrev pub number_byte : ℕ
number_byte = 1

abbrev pub number_word : ℕ
number_word = 2

abbrev pub number_dword : ℕ
number_dword = 4

abbrev pub number_qword : ℕ
number_qword = 6

abbrev pub number_real : ℕ
number_real = 8

abbrev pub max_cookie : ℕ
max_cookie = 32

abbrev pub max_depth : ℕ
max_depth = 32

-- COMBINE_TYPE, stored in a byte.
unfoldable pub combine_type : ℕ → ℕ → ℕ
combine_type t v = bit_or t (v * 2 ^ 3) % 256

-- An int32_t, given by its bits, as the bits of a lua_Integer.
abbrev pub sign_extend : ℕ → ℕ
sign_extend n = if ltb n (2 ^ 31) then n else n + (2 ^ 64 - 2 ^ 32)

abbrev pub count : Values → ℕ
count finish = 0
count (element v vs) = suc (count vs)

-- A key that the array part has already: an integer from 1 to the array's size.
abbrev pub is_array_key : ℕ → Value → Bool
is_array_key size (integer x) = (ltb 0 x && ltb x (2 ^ 63)) && leb x size
is_array_key size _ = false
