-- ===== src/Cluster/Response.antt =====
-- `lpackresponse` and `lunpackresponse` of lualib-src/lua-cluster.c.
use pskynet.Prelude.{
  ℕ, ◌+◌, ◌^◌, ◌<◌, ◌≡◌, Bool, false, not, List, ◌∷◌, ◌++◌, some, arith, ◌==◌, ltb, if◌then◌else◌,
  length, le→ltb_false,
}
use pskynet.Prelude.Words.{as_int}
use pskynet.Gate.Framing.{encode}
use pskynet.Cluster.{returned, fill_uint32, Body, body_bytes, pack_response, unpack_response}
use pskynet.Cluster.Words.{unpack_uint32-fill_uint32, fill_header-fits, buffer-fits}

abbrev pub response_body : ℕ → Bool → Body → List ℕ
response_body session ok body = fill_uint32 session ++ (if ok then 1 else 0) ∷ body_bytes body

length-response :
    (session : ℕ) (ok : Bool) (body : Body)
    → length (response_body session ok body) ≡ length (body_bytes body) + 5
unfolding fill_uint32
length-response session ok body = omega arith

pub record RoundTrip (session : ℕ) (ok : Bool) (body : Body) : Type 0 where
  pub packed : pack_response session ok body ≡ returned (encode 2 (response_body session ok body))
  pub unpacked :
      unpack_response (response_body session ok body) ≡ some (session, ok, body_bytes body)

pack-body :
    (session : ℕ) (ok : Bool) (body : Body)
    → session < 2 ^ 32
    → length (response_body session ok body) < 0x10000
    → pack_response session ok body ≡ returned (encode 2 (response_body session ok body))
unfolding pack_response
pack-body session ok body small fits =
    let e : as_int session ≡ session = omega arith in
    let size : length (body_bytes body) + 5 ≡ length (response_body session ok body) =
      omega (arith, length-response session ok body) in
    rw (e, size, fill_header-fits (length (response_body session ok body)) fits)
      (buffer-fits (encode 2 (response_body session ok body)) (omega arith))

unpack-body :
    (session : ℕ) (ok : Bool) (body : Body)
    → session < 2 ^ 32
    → unpack_response (response_body session ok body) ≡ some (session, ok, body_bytes body)
unfolding unpack_response fill_uint32
unpack-body session ok body small =
    let long : ltb (length (response_body session ok body)) 5 ≡ false =
      le→ltb_false (length (response_body session ok body)) 5
        (omega (arith, length-response session ok body)) in
    let flag : not ((if ok then 1 else 0) == 0) ≡ ok = ground arith in
    rw (
      long,
      flag,
      unpack_uint32-fill_uint32 session ((if ok then 1 else 0) ∷ body_bytes body) small,
    )

-- A response that is not too long is packed as one package of the network, whose content unpacks to
-- the same session, flag and message; of a text the first 4096 bytes are sent.
pub pack_response-RoundTrip :
    (session : ℕ) (ok : Bool) (body : Body)
    → session < 2 ^ 32
    → length (response_body session ok body) < 0x10000
    → RoundTrip session ok body
pack_response-RoundTrip session ok body small fits = record {
  packed = pack-body session ok body small fits;
  unpacked = unpack-body session ok body small;
}
