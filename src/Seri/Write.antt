-- ===== src/Seri/Write.antt =====
-- The packing half of lualib-src/lua-seri.c. Memory is little-endian.
use pskynet.Prelude.{
  ℕ, ◌+◌, ◌-◌, ◌%◌, ◌^◌, Bool, not, ◌&&◌, ◌||◌, List, [], ◌∷◌, Option, ◌==◌, ltb, leb,
  if◌then◌else◌, length,
}
use pskynet.Prelude.Bytes.{le_bytes}
use pskynet.Prelude.Words.{as_int, is_negative}
use pskynet.Prelude.Result.{Result, ok, err, ◌>>=◌}
use pskynet.Seri.{
  Value, Values, Pairs, nil, boolean, integer, real, pointer, string, table, unsupported, finish,
  element, close, entry, type_nil, type_boolean, type_number, type_userdata, type_short_string,
  type_long_string, type_table, number_zero, number_byte, number_word, number_dword, number_qword,
  number_real, max_cookie, max_depth, combine_type, sign_extend, count, is_array_key,
}
use pskynet.Seri.Blocks.{WriteBlock, init, push, seri}

pub data Error : Type 0 where
  too_deep unsupported_type : Error

unfoldable pub wb_nil : WriteBlock → WriteBlock
wb_nil wb = push wb (type_nil ∷ [])

unfoldable pub wb_boolean : WriteBlock → Bool → WriteBlock
wb_boolean wb b = push wb (combine_type type_boolean (if b then 1 else 0) ∷ [])

-- The type byte and the value after it.
abbrev pub tagged : WriteBlock → ℕ → ℕ → List ℕ → WriteBlock
tagged wb type cookie bytes = push (push wb (combine_type type cookie ∷ [])) bytes

-- `v` has the 64 bits of a lua_Integer.
unfoldable pub wb_integer : WriteBlock → ℕ → WriteBlock
wb_integer wb v =
    if v == 0
    then push wb (combine_type type_number number_zero ∷ [])
    else if not (v == sign_extend (as_int v))
    then tagged wb type_number number_qword (le_bytes 8 v)
    else if leb (2 ^ 63) v
    then tagged wb type_number number_dword (le_bytes 4 (as_int v))
    else if ltb v 0x100
    then tagged wb type_number number_byte (v % 2 ^ 8 ∷ [])
    else if ltb v 0x10000
    then tagged wb type_number number_word (le_bytes 2 (v % 2 ^ 16))
    else tagged wb type_number number_dword (le_bytes 4 (as_int v))

unfoldable pub wb_real : WriteBlock → ℕ → WriteBlock
wb_real wb v = tagged wb type_number number_real (le_bytes 8 v)

unfoldable pub wb_pointer : WriteBlock → ℕ → WriteBlock
wb_pointer wb v = push (push wb (type_userdata ∷ [])) (le_bytes 8 v)

-- `len` is an int.
unfoldable pub wb_string : WriteBlock → List ℕ → WriteBlock
wb_string wb str =
    let len = as_int (length str) in
    if is_negative len || ltb len max_cookie
    then (let tag = push wb (combine_type type_short_string len ∷ []) in
        if not (is_negative len) && ltb 0 len then push tag str else tag)
    else if ltb len 0x10000
    then push (tagged wb type_long_string 2 (le_bytes 2 (len % 2 ^ 16))) str
    else push (tagged wb type_long_string 4 (le_bytes 4 len)) str

-- The head of a table in `wb_table_array`; a table has fewer than 2^31 elements.
unfoldable pub wb_array_size : WriteBlock → ℕ → WriteBlock
wb_array_size wb size =
    if leb (max_cookie - 1) size
    then wb_integer (push wb (combine_type type_table (max_cookie - 1) ∷ [])) size
    else push wb (combine_type type_table size ∷ [])

-- The test at the head of `pack_one`.
abbrev pub checked : ℕ → Result Error WriteBlock → Result Error WriteBlock
checked depth r = if ltb max_depth depth then err too_deep else r

-- `pack_one`, with `wb_table` in the case of a table, the loop of `wb_table_array`, and that of
-- `wb_table_hash` with its last nil.
unfoldable mutual
  pub pack_one : Value → WriteBlock → ℕ → Result Error WriteBlock
  pack_one nil wb depth = checked depth (ok (wb_nil wb))
  pack_one (boolean b) wb depth = checked depth (ok (wb_boolean wb b))
  pack_one (integer v) wb depth = checked depth (ok (wb_integer wb v))
  pack_one (real v) wb depth = checked depth (ok (wb_real wb v))
  pack_one (pointer v) wb depth = checked depth (ok (wb_pointer wb v))
  pack_one (string str) wb depth = checked depth (ok (wb_string wb str))
  pack_one (table vs ps) wb depth = checked depth (do
    array ← wb_table_array vs (wb_array_size wb (count vs)) (depth + 1)
    wb_table_hash (count vs) ps array (depth + 1))
  pack_one unsupported wb depth = checked depth (err unsupported_type)

  pub wb_table_array : Values → WriteBlock → ℕ → Result Error WriteBlock
  wb_table_array finish wb depth = ok wb
  wb_table_array (element v vs) wb depth = do wb' ← pack_one v wb depth; wb_table_array vs wb' depth

  pub wb_table_hash : ℕ → Pairs → WriteBlock → ℕ → Result Error WriteBlock
  wb_table_hash size close wb depth = ok (wb_nil wb)
  wb_table_hash size (entry k v ps) wb depth =
      if is_array_key size k then wb_table_hash size ps wb depth else do
        wb' ← pack_one k wb depth
        wb'' ← pack_one v wb' depth
        wb_table_hash size ps wb'' depth

-- `pack_from`
unfoldable pub pack_from : List Value → WriteBlock → Result Error WriteBlock
pack_from [] wb = ok wb
pack_from (v ∷ vs) wb = do wb' ← pack_one v wb 0; pack_from vs wb'

-- `_luaseri_pack`; the result of `seri` is `none` at a read through NULL.
unfoldable pub pack : List Value → Result Error (Option (List ℕ))
pack vs = do wb ← pack_from vs init; ok (seri wb)
