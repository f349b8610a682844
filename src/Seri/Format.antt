-- ===== src/Seri/Format.antt =====
-- The byte format of lualib-src/lua-seri.c, and the values that have one.
use pskynet.Prelude.{
  ℕ, ◌+◌, ◌-◌, ◌%◌, ◌^◌, ◌≤◌, ◌<◌, ◌≡◌, ◌≢◌, false, not, List, [], ◌∷◌, ◌++◌, ◌==◌, ltb, leb,
  if◌then◌else◌, length,
}
use pskynet.Prelude.Bytes.{le_bytes}
use pskynet.Prelude.Words.{as_int}
use pskynet.Seri.{
  Value, Values, Pairs, nil, boolean, integer, real, pointer, string, table, unsupported, finish,
  element, close, entry, type_nil, type_boolean, type_number, type_userdata, type_short_string,
  type_long_string, type_table, number_zero, number_byte, number_word, number_dword, number_qword,
  number_real, max_cookie, max_depth, combine_type, sign_extend, count, is_array_key,
}

-- An integer in the shortest form that holds it.
unfoldable pub integer_bytes : ℕ → List ℕ
integer_bytes v =
    if v == 0
    then combine_type type_number number_zero ∷ []
    else if not (v == sign_extend (as_int v))
    then combine_type type_number number_qword ∷ le_bytes 8 v
    else if leb (2 ^ 63) v
    then combine_type type_number number_dword ∷ le_bytes 4 (as_int v)
    else if ltb v 0x100
    then combine_type type_number number_byte ∷ (v % 2 ^ 8) ∷ []
    else if ltb v 0x10000
    then combine_type type_number number_word ∷ le_bytes 2 (v % 2 ^ 16)
    else combine_type type_number number_dword ∷ le_bytes 4 (as_int v)

unfoldable pub string_bytes : List ℕ → List ℕ
string_bytes str =
    let len = length str in
    if ltb len max_cookie
    then combine_type type_short_string len ∷ str
    else if ltb len 0x10000
    then combine_type type_long_string 2 ∷ (le_bytes 2 len ++ str)
    else combine_type type_long_string 4 ∷ (le_bytes 4 len ++ str)

unfoldable pub array_head : ℕ → List ℕ
array_head size =
    if leb (max_cookie - 1) size
    then combine_type type_table (max_cookie - 1) ∷ integer_bytes size
    else combine_type type_table size ∷ []

unfoldable mutual
  pub value_bytes : Value → List ℕ
  value_bytes nil = type_nil ∷ []
  value_bytes (boolean b) = combine_type type_boolean (if b then 1 else 0) ∷ []
  value_bytes (integer v) = integer_bytes v
  value_bytes (real v) = combine_type type_number number_real ∷ le_bytes 8 v
  value_bytes (pointer v) = type_userdata ∷ le_bytes 8 v
  value_bytes (string str) = string_bytes str
  value_bytes (table vs ps) =
      array_head (count vs) ++ (values_bytes vs ++ pairs_bytes (count vs) ps)
  value_bytes unsupported = []

  pub values_bytes : Values → List ℕ
  values_bytes finish = []
  values_bytes (element v vs) = value_bytes v ++ values_bytes vs

  pub pairs_bytes : ℕ → Pairs → List ℕ
  pairs_bytes size close = type_nil ∷ []
  pairs_bytes size (entry k v ps) =
      if is_array_key size k
      then pairs_bytes size ps
      else value_bytes k ++ (value_bytes v ++ pairs_bytes size ps)

-- The value as it is unpacked: the pairs of a table leave out the elements of its array.
unfoldable mutual
  pub normal : Value → Value
  normal (table vs ps) = table (normal_values vs) (normal_pairs (count vs) ps)
  normal nil = nil
  normal (boolean b) = boolean b
  normal (integer v) = integer v
  normal (real v) = real v
  normal (pointer v) = pointer v
  normal (string str) = string str
  normal unsupported = unsupported

  pub normal_values : Values → Values
  normal_values finish = finish
  normal_values (element v vs) = element (normal v) (normal_values vs)

  pub normal_pairs : ℕ → Pairs → Pairs
  normal_pairs size close = close
  normal_pairs size (entry k v ps) =
      if is_array_key size k
      then normal_pairs size ps
      else entry (normal k) (normal v) (normal_pairs size ps)

-- A value that can be packed at a depth: no function or the like in it, not nested too deep, numbers
-- of 64 bits, texts and arrays whose size is an int, and no nil for a key.
abbrev mutual
  pub IsPackable : ℕ → Value → Type 0
  IsPackable depth nil = depth ≤ max_depth
  IsPackable depth (boolean b) = depth ≤ max_depth
  IsPackable depth (integer v) = (depth ≤ max_depth) × (v < 2 ^ 64)
  IsPackable depth (real v) = (depth ≤ max_depth) × (v < 2 ^ 64)
  IsPackable depth (pointer v) = (depth ≤ max_depth) × (v < 2 ^ 64)
  IsPackable depth (string str) = (depth ≤ max_depth) × (length str < 2 ^ 31)
  IsPackable depth (table vs ps) =
      (depth ≤ max_depth)
      × (count vs < 2 ^ 31)
      × ArePackable (depth + 1) vs
      × ArePackablePairs (depth + 1) (count vs) ps
  IsPackable depth unsupported = ⊥

  pub ArePackable : ℕ → Values → Type 0
  ArePackable depth finish = Unit {0}
  ArePackable depth (element v vs) = IsPackable depth v × ArePackable depth vs

  pub ArePackablePairs : ℕ → ℕ → Pairs → Type 0
  ArePackablePairs depth size close = Unit {0}
  ArePackablePairs depth size (entry k v ps) =
      (is_array_key size k ≡ false → IsPackable depth k × (k ≢ nil) × IsPackable depth v)
      × ArePackablePairs depth size ps
