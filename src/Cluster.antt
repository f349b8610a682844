-- ===== src/Cluster.antt =====
-- lualib-src/lua-cluster.c: the requests and responses that the nodes of a cluster exchange.
pub mod Words
pub mod Request
pub mod Response
mod Tests
use pskynet.Prelude.{
  ℕ, ◌+◌, ◌*◌, ◌/◌, ◌%◌, ◌^◌, Bool, true, false, not, ◌&&◌, ◌||◌, List, [], ◌∷◌, ◌++◌, Option, none,
  some, bit_and, bit_or, ◌==◌, ltb, leb, if◌then◌else◌, length, take, drop,
}
use pskynet.Prelude.Bytes.{byte_at}
use pskynet.Prelude.Words.{as_int, is_negative}

pub data Error : Type 0 where
  too_long invalid_message invalid_session bad_name : Error

-- How a function ends. An error says whether it has freed the message before; `overrun` is a copy
-- past the end of the buffer on the stack.
pub data Outcome {ℓ} (A : Type ℓ) : Type ℓ where
  returned : A → Outcome A
  raised : Bool → Error → Outcome A
  overrun : Outcome A

infixl 5 ◌>>=◌
abbrev pub ◌>>=◌ {ℓ κ} : {A : Type ℓ} {B : Type κ} → Outcome A → (A → Outcome B) → Outcome B
returned a >>= f = f a
raised freed e >>= f = raised freed e
overrun >>= f = overrun

-- TEMP_LENGTH
abbrev pub temp_length : ℕ
temp_length = 0x10007

unfoldable pub fill_uint32 : ℕ → List ℕ
fill_uint32 n =
    bit_and n 0xff
    ∷ bit_and (n / 2 ^ 8) 0xff
    ∷ bit_and (n / 2 ^ 16) 0xff
    ∷ bit_and (n / 2 ^ 24) 0xff
    ∷ []

-- The size comes as a size_t and is converted to an int.
unfoldable pub fill_header : ℕ → Outcome (List ℕ)
fill_header size =
    let sz = as_int (size % 2 ^ 64) in
    if not (is_negative sz) && leb 0x10000 sz
    then raised true too_long
    else returned (bit_and (sz / 2 ^ 8) 0xff ∷ bit_and sz 0xff ∷ [])

-- The string that is pushed from the buffer.
abbrev pub buffer : List ℕ → Outcome (List ℕ)
buffer bytes = if ltb temp_length (length bytes) then overrun else returned bytes

-- The first argument; `other` is a value that is no number and gives no string.
pub data Address : Type 0 where
  number : ℕ → Address
  name : List ℕ → Address
  other : Address

-- `msg` has the `sz` bytes of the message.
unfoldable pub packreq_number : ℕ → ℕ → List ℕ → Outcome (List ℕ)
packreq_number addr session msg = do
  header ← fill_header (length msg + 9)
  buffer (header ++ 0 ∷ (fill_uint32 (as_int addr) ++ (fill_uint32 session ++ msg)))

unfoldable pub packreq_string : List ℕ → ℕ → List ℕ → Outcome (List ℕ)
packreq_string text session msg =
    let namelen = length text in
    if ltb namelen 1 || ltb 255 namelen then raised true bad_name else do
      header ← fill_header (length msg + 5 + namelen)
      buffer (header ++ namelen ∷ (text ++ (fill_uint32 session ++ msg)))

unfoldable pub packreq : Address → ℕ → List ℕ → Outcome (List ℕ)
packreq (number addr) session msg = packreq_number addr session msg
packreq (name text) session msg = packreq_string text session msg
packreq other session msg = raised true bad_name

-- `++session`, and 1 in place of a negative number.
unfoldable pub next_session : ℕ → ℕ
next_session session = let next = as_int (session + 1) in if is_negative next then 1 else next

-- `lpackrequest`; the message is freed in the end.
unfoldable pub pack_request : Address → ℕ → Option (List ℕ) → Outcome (List ℕ × ℕ)
pack_request addr session none = raised false invalid_message
pack_request addr session (some msg) =
    if (session == 0) || is_negative session
    then raised false invalid_session
    else do request ← packreq addr session msg; returned (request, next_session session)

unfoldable pub unpack_uint32 : List ℕ → ℕ
unpack_uint32 buf =
    bit_or (bit_or (bit_or (byte_at buf 0) (byte_at buf 1 * 2 ^ 8)) (byte_at buf 2 * 2 ^ 16))
      (byte_at buf 3 * 2 ^ 24)

unfoldable pub unpackreq_number : List ℕ → Outcome (Address × ℕ × List ℕ)
unpackreq_number buf =
    if ltb (length buf) 9
    then raised false invalid_message
    else returned (number (unpack_uint32 (drop 1 buf)), unpack_uint32 (drop 5 buf), drop 9 buf)

unfoldable pub unpackreq_string : List ℕ → Outcome (Address × ℕ × List ℕ)
unpackreq_string buf =
    let namesz = byte_at buf 0 in
    if ltb (length buf) (namesz + 5)
    then raised false invalid_message
    else returned (
      name (take namesz (drop 1 buf)),
      unpack_uint32 (drop (namesz + 1) buf),
      drop (namesz + 5) buf,
    )

-- `lunpackrequest`
unfoldable pub unpack_request : List ℕ → Outcome (Address × ℕ × List ℕ)
unpack_request msg = if byte_at msg 0 == 0 then unpackreq_number msg else unpackreq_string msg

-- The third argument of `lpackresponse`: a string, or a userdata with its size.
pub data Body : Type 0 where
  text : List ℕ → Body
  userdata : List ℕ → Body

abbrev pub body_bytes : Body → List ℕ
body_bytes (text msg) = take 0x1000 msg
body_bytes (userdata msg) = msg

-- `lpackresponse`
unfoldable pub pack_response : ℕ → Bool → Body → Outcome (List ℕ)
pack_response session ok body =
    let msg = body_bytes body in
    do
      header ← fill_header (length msg + 5)
      buffer (header ++ (fill_uint32 (as_int session) ++ (if ok then 1 else 0) ∷ msg))

-- `lunpackresponse`; `none` when it returns nothing.
unfoldable pub unpack_response : List ℕ → Option (ℕ × Bool × List ℕ)
unpack_response buf =
    if ltb (length buf) 5
    then none
    else some (unpack_uint32 buf, not (byte_at buf 4 == 0), drop 5 buf)
