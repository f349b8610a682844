-- ===== src/Cluster/Request.antt =====
-- `lpackrequest` and `lunpackrequest` of lualib-src/lua-cluster.c.
use pskynet.Prelude.{
  ℕ, suc, ◌+◌, ◌%◌, ◌^◌, ◌≤◌, ◌<◌, ◌≡◌, sym, ap, ◌∙◌, true, false, not, ◌&&◌, ◌||◌, List, [], ◌∷◌,
  ◌++◌, some, arith, ◌==◌, ltb, leb, length, take, drop, length-append, drop-drop, le→ltb_false,
  lt→ltb,
}
use pskynet.Prelude.Bytes.{take-append_self, drop-append_self}
use pskynet.Prelude.Words.{as_int, is_negative}
use pskynet.Gate.Framing.{encode}
use pskynet.Cluster.{
  returned, raised, overrun, too_long, fill_uint32, fill_header, Address, number, name, other,
  packreq, packreq_number, packreq_string, next_session, pack_request, unpackreq_number,
  unpackreq_string, unpack_request, temp_length,
}
use pskynet.Cluster.Words.{
  unpack_uint32-fill_uint32, fill_header-fits, fill_header-too_long, buffer-fits,
}

-- What the packed request has behind its header.
abbrev pub request_body : Address → ℕ → List ℕ → List ℕ
request_body (number addr) session msg = 0 ∷ (fill_uint32 addr ++ (fill_uint32 session ++ msg))
request_body (name text) session msg = length text ∷ (text ++ (fill_uint32 session ++ msg))
request_body other session msg = []

-- An address that a request can carry.
abbrev pub IsAddress : Address → Type 0
IsAddress (number addr) = addr < 2 ^ 32
IsAddress (name text) = (0 < length text) × (length text < 256)
IsAddress other = ⊥

length-words :
    (a b : ℕ) (msg : List ℕ) → length (fill_uint32 a ++ (fill_uint32 b ++ msg)) ≡ length msg + 8
unfolding fill_uint32
length-words a b msg = omega arith

length-word : (a : ℕ) (msg : List ℕ) → length (fill_uint32 a ++ msg) ≡ length msg + 4
unfolding fill_uint32
length-word a msg = omega arith

packreq-body :
    (addr : Address) (session : ℕ) (msg : List ℕ)
    → IsAddress addr
    → length (request_body addr session msg) < 0x10000
    → packreq addr session msg ≡ returned (encode 2 (request_body addr session msg))
unfolding packreq packreq_number packreq_string
packreq-body (number addr) session msg ok fits =
    let e : as_int addr ≡ addr = omega arith in
    let size : length msg + 9 ≡ length (request_body (number addr) session msg) =
      omega (arith, length-words addr session msg) in
    rw (e, size, fill_header-fits (length (request_body (number addr) session msg)) fits)
      (buffer-fits (encode 2 (request_body (number addr) session msg)) (omega arith))
packreq-body (name text) session msg ok fits =
    let good : (ltb (length text) 1 || ltb 255 (length text)) ≡ false = ground arith in
    let size : length msg + 5 + length text ≡ length (request_body (name text) session msg) =
      omega (arith, length-word session msg, length-append text (fill_uint32 session ++ msg)) in
    rw (good, size, fill_header-fits (length (request_body (name text) session msg)) fits)
      (buffer-fits (encode 2 (request_body (name text) session msg)) (omega arith))
packreq-body other session msg ok fits = absurd ok

unpack-body :
    (addr : Address) (session : ℕ) (msg : List ℕ)
    → IsAddress addr
    → session < 2 ^ 32
    → unpack_request (request_body addr session msg) ≡ returned (addr, session, msg)
unfolding unpack_request unpackreq_number unpackreq_string fill_uint32
unpack-body (number addr) session msg ok small =
    let long : ltb (length (request_body (number addr) session msg)) 9 ≡ false =
      le→ltb_false (length (request_body (number addr) session msg)) 9
        (omega (arith, length-words addr session msg)) in
    rw (
      long,
      unpack_uint32-fill_uint32 addr (fill_uint32 session ++ msg) ok,
      unpack_uint32-fill_uint32 session msg small,
    )
unpack-body (name text) session msg ok small =
    let n : ℕ = length text in
    let rest : List ℕ = fill_uint32 session ++ msg in
    let named : (n == 0) ≡ false = ground arith in
    let size : length (text ++ rest) ≡ n + (length msg + 4) =
      length-append text rest ∙ ap (λ k. n + k) (length-word session msg) in
    let long : ltb (suc (length (text ++ rest))) (n + 5) ≡ false =
      le→ltb_false (suc (length (text ++ rest))) (n + 5) (omega arith) in
    let front : take n (text ++ rest) ≡ text = take-append_self text rest in
    let one : n + 1 ≡ suc n = omega arith in
    let five : n + 5 ≡ suc n + 4 = omega arith in
    let after : drop (n + 1) (n ∷ (text ++ rest)) ≡ rest =
      ap (λ k. drop k (n ∷ (text ++ rest))) one ∙ drop-append_self text rest in
    let behind : drop (n + 5) (n ∷ (text ++ rest)) ≡ msg =
      ap (λ k. drop k (n ∷ (text ++ rest))) five
      ∙ sym (drop-drop 4 (suc n) (n ∷ (text ++ rest)))
      ∙ ap (drop 4) (drop-append_self text rest) in
    rw (named, long, front, after, behind, unpack_uint32-fill_uint32 session msg small)
unpack-body other session msg ok small = absurd ok

-- The session after the last one that an int can have is 1.
abbrev pub IsSession : ℕ → Type 0
IsSession session = (0 < session) × (session < 2 ^ 31)

pub next_session-IsSession : (session : ℕ) → IsSession session → IsSession (next_session session)
unfolding next_session
next_session-IsSession session h =
    let e : as_int (session + 1) ≡ session + 1 = omega arith in rw e (ground arith)

-- What packing and unpacking a request give.
pub record RoundTrip (addr : Address) (session : ℕ) (msg : List ℕ) : Type 0 where
  pub packed :
      pack_request addr session (some msg)
      ≡ returned (encode 2 (request_body addr session msg), next_session session)
  pub unpacked : unpack_request (request_body addr session msg) ≡ returned (addr, session, msg)
  pub next : IsSession (next_session session)

-- A request with a positive session and a proper address that is not too long is packed as one
-- package of the network, whose content unpacks to the same address, session and message; the next
-- session is positive too.
pub pack_request-RoundTrip :
    (addr : Address) (session : ℕ) (msg : List ℕ)
    → IsAddress addr
    → IsSession session
    → length (request_body addr session msg) < 0x10000
    → RoundTrip addr session msg
unfolding pack_request
pack_request-RoundTrip addr session msg ok good fits =
    let positive : ((session == 0) || is_negative session) ≡ false = ground arith in
    record {
      packed = rw (positive, packreq-body addr session msg ok fits);
      unpacked = unpack-body addr session msg ok (omega arith);
      next = next_session-IsSession session good;
    }

too_long_body :
    (addr : Address) (session : ℕ) (msg : List ℕ)
    → IsAddress addr
    → 0x10000 ≤ length (request_body addr session msg)
    → length (request_body addr session msg) < 2 ^ 31
    → packreq addr session msg ≡ raised true too_long
unfolding packreq packreq_number packreq_string
too_long_body (number addr) session msg ok long small =
    let size : length msg + 9 ≡ length (request_body (number addr) session msg) =
      omega (arith, length-words addr session msg) in
    rw (size, fill_header-too_long (length (request_body (number addr) session msg)) long small)
too_long_body (name text) session msg ok long small =
    let good : (ltb (length text) 1 || ltb 255 (length text)) ≡ false = ground arith in
    let size : length msg + 5 + length text ≡ length (request_body (name text) session msg) =
      omega (arith, length-word session msg, length-append text (fill_uint32 session ++ msg)) in
    rw (good, size, fill_header-too_long (length (request_body (name text) session msg)) long small)
too_long_body other session msg ok long small = absurd ok

-- A proper request that is too long for a package, but has less than 2^31 bytes, is refused, and its
-- message is freed.
pub pack_request-too_long :
    (addr : Address) (session : ℕ) (msg : List ℕ)
    → IsAddress addr
    → IsSession session
    → 0x10000 ≤ length (request_body addr session msg)
    → length (request_body addr session msg) < 2 ^ 31
    → pack_request addr session (some msg) ≡ raised true too_long
unfolding pack_request
pack_request-too_long addr session msg ok good long small =
    let positive : ((session == 0) || is_negative session) ≡ false = ground arith in
    rw (positive, too_long_body addr session msg ok long small)

-- A message of a size that is negative as an int passes the check and is copied past the end of the
-- buffer.
pub pack_request-overrun :
    (addr session : ℕ) (msg : List ℕ)
    → IsSession session
    → 2 ^ 31 ≤ length msg + 9
    → length msg + 9 < 2 ^ 32
    → pack_request (number addr) session (some msg) ≡ overrun
unfolding pack_request packreq packreq_number fill_header
pack_request-overrun addr session msg good large small =
    let positive : ((session == 0) || is_negative session) ≡ false = ground arith in
    let e : as_int ((length msg + 9) % 2 ^ 64) ≡ length msg + 9 = omega arith in
    let passes : (not (is_negative (length msg + 9)) && leb 0x10000 (length msg + 9)) ≡ false =
      ground arith in
    let past : ltb temp_length
          (suc (suc (suc (length (fill_uint32 (as_int addr) ++ (fill_uint32 session ++ msg))))))
        ≡ true =
      lt→ltb temp_length
        (suc (suc (suc (length (fill_uint32 (as_int addr) ++ (fill_uint32 session ++ msg))))))
        (omega (arith, length-words (as_int addr) session msg)) in
    rw (positive, e) (rw passes (rw past))
