-- ===== src/Seri/Read.antt =====
-- The unpacking half of lualib-src/lua-seri.c. Memory is little-endian.
use pskynet.Prelude.{
  ℕ, zero, suc, ◌+◌, ◌-◌, ◌*◌, ◌/◌, ◌^◌, Bool, true, false, not, ◌||◌, List, [], ◌∷◌, bit_and, ◌==◌,
  ltb, if◌then◌else◌, length, take, drop,
}
use pskynet.Prelude.Bytes.{byte_at, le_value}
use pskynet.Prelude.Words.{as_int, is_negative}
use pskynet.Prelude.Result.{Result, ok, err, ◌>>=◌}
use pskynet.Seri.{
  Value, Values, Pairs, nil, boolean, integer, real, pointer, string, table, finish, element, close,
  entry, type_nil, type_boolean, type_number, type_userdata, type_short_string, type_long_string,
  type_table, number_zero, number_byte, number_word, number_dword, number_qword, number_real,
  max_cookie, sign_extend,
}

-- Lua refuses a text of a negative size; `stuck` means that the fuel ran out.
pub data Error : Type 0 where
  invalid_stream negative_size stuck : Error

-- What is left of the stream: `len` bytes from `ptr` on.
abbrev pub ReadBlock : Type 0
ReadBlock = List ℕ

abbrev pub Reading {ℓ} : Type ℓ → Type ℓ
Reading A = Result Error (A × ReadBlock)

-- `rb_read`, where the callers raise the error for NULL.
unfoldable pub rb_read : ReadBlock → ℕ → Reading (List ℕ)
rb_read rb sz = if ltb (length rb) sz then err invalid_stream else ok (take sz rb, drop sz rb)

-- `len` is an int.
unfoldable pub get_buffer : ReadBlock → ℕ → Reading (List ℕ)
get_buffer rb len = if is_negative len then err negative_size else rb_read rb len

unfoldable pub get_number : ReadBlock → ℕ → Reading ℕ
get_number rb sz = do (bytes, rb') ← rb_read rb sz; ok (le_value bytes, rb')

-- The bits of the lua_Integer.
unfoldable pub get_integer : ℕ → ReadBlock → Reading ℕ
get_integer cookie rb =
    if cookie == number_zero
    then ok (0, rb)
    else if cookie == number_byte
    then get_number rb 1
    else if cookie == number_word
    then get_number rb 2
    else if cookie == number_dword
    then (do (n, rb') ← get_number rb 4; ok (sign_extend n, rb'))
    else if cookie == number_qword
    then get_number rb 8
    else err invalid_stream

-- The size at the head of `unpack_table`, an int.
unfoldable pub table_size : ℕ → ReadBlock → Reading ℕ
table_size cookie rb =
    if cookie == max_cookie - 1
    then (do
      (t, rb') ← rb_read rb 1
      let kind = byte_at t 0
      let number = do (n, rb'') ← get_integer (kind / 2 ^ 3) rb'; ok (as_int n, rb'')
      let bad = not (bit_and kind 7 == type_number) || (kind / 2 ^ 3 == number_real)
      if bad then err invalid_stream else number)
    else ok (cookie, rb)

unfoldable pub long_string : ℕ → ReadBlock → Reading Value
long_string cookie rb =
    if cookie == 2
    then (do (n, rb') ← get_number rb 2; (str, rb'') ← get_buffer rb' n; ok (string str, rb''))
    else if not (cookie == 4)
    then err invalid_stream
    else do (n, rb') ← get_number rb 4; (str, rb'') ← get_buffer rb' n; ok (string str, rb'')

-- `push_value` for a type and a cookie; `unpack_table` is the call of that name.
unfoldable pub push_value : (ℕ → ReadBlock → Reading Value) → ℕ → ℕ → ReadBlock → Reading Value
push_value unpack_table type cookie rb =
    if type == type_nil
    then ok (nil, rb)
    else if type == type_boolean
    then ok (boolean (not (cookie == 0)), rb)
    else if type == type_number
    then (if cookie == number_real
        then (do (n, rb') ← get_number rb 8; ok (real n, rb'))
        else do (n, rb') ← get_integer cookie rb; ok (integer n, rb'))
    else if type == type_userdata
    then (do (n, rb') ← get_number rb 8; ok (pointer n, rb'))
    else if type == type_short_string
    then (do (str, rb') ← get_buffer rb cookie; ok (string str, rb'))
    else if type == type_long_string
    then long_string cookie rb
    else if type == type_table
    then unpack_table cookie rb
    else err invalid_stream

unfoldable pub is_nil : Value → Bool
is_nil nil = true
is_nil _ = false

-- `unpack_one` and `unpack_table` with its two loops, each on fuel. The C stack and the Lua stack,
-- whose limits the source does not check, are taken to be deep enough for tables in tables. The
-- table that is built is given by its array and by the pairs that are set in it.
unfoldable mutual
  pub unpack_one : ℕ → ReadBlock → Reading Value
  unpack_one zero rb = err stuck
  unpack_one (suc n) rb = do
    (t, rb') ← rb_read rb 1
    push_value (λ cookie left. unpack_table n cookie left) (bit_and (byte_at t 0) 7)
        (byte_at t 0 / 2 ^ 3) rb'

  pub unpack_table : ℕ → ℕ → ReadBlock → Reading Value
  unpack_table zero cookie rb = err stuck
  unpack_table (suc n) cookie rb = do
    (size, rb') ← table_size cookie rb
    (vs, rb'') ← unpack_array n (if is_negative size then 0 else size) rb'
    (ps, rb''') ← unpack_hash n rb''
    ok (table vs ps, rb''')

  pub unpack_array : ℕ → ℕ → ReadBlock → Reading Values
  unpack_array n zero rb = ok (finish, rb)
  unpack_array zero (suc size) rb = err stuck
  unpack_array (suc n) (suc size) rb = do
    (v, rb') ← unpack_one n rb
    (vs, rb'') ← unpack_array n size rb'
    ok (element v vs, rb'')

  pub unpack_hash : ℕ → ReadBlock → Reading Pairs
  unpack_hash zero rb = err stuck
  unpack_hash (suc n) rb = do
    (k, rb') ← unpack_one n rb
    let pair = do
      (v, rb'') ← unpack_one n rb'
      (ps, rb''') ← unpack_hash n rb''
      ok (entry k v ps, rb''')
    if is_nil k then ok (close, rb') else pair

-- Every second call or so takes a byte.
abbrev pub enough : ReadBlock → ℕ
enough rb = 3 * length rb + 3

unfoldable pub unpack_loop : ℕ → ReadBlock → Result Error (List Value)
unpack_loop n [] = ok []
unpack_loop zero (b ∷ rb) = err stuck
unpack_loop (suc n) (b ∷ rb) = do
  (v, rb') ← unpack_one (enough (b ∷ rb)) (b ∷ rb)
  vs ← unpack_loop n rb'
  ok (v ∷ vs)

-- `_luaseri_unpack`; each value takes a byte at least.
unfoldable pub unpack : ReadBlock → Result Error (List Value)
unpack rb = unpack_loop (length rb) rb
