-- ===== src/HarborService/Wire.antt =====
-- The bytes that service-src/service_harbor.c writes for a message, and their reading.
use pskynet.Prelude.{
  ℕ, ◌+◌, ◌*◌, ◌/◌, ◌%◌, ◌^◌, ◌≤◌, ◌<◌, ◌≡◌, ◌≢◌, refl, ap, ◌∙◌, arith, bit_and, bit_or, List, [],
  ◌∷◌, ◌++◌, length, length-append,
}
use pskynet.Prelude.Bits.{bit_and_mask, bit_or_low_digits, four_bytes}
use pskynet.Prelude.Bytes.{byte_at}
use pskynet.HarborService.{
  Header, to_bigendian, header_to_message, from_bigendian, message_to_header, header_cookie_length,
}

-- The fields of a header have 32 bits.
pub record IsHeader (h : Header) : Type 0 where
  pub source : h.source < 2 ^ 32
  pub destination : h.destination < 2 ^ 32
  pub session : h.session < 2 ^ 32

bytes_value :
    (n : ℕ)
    → n < 2 ^ 32
    → bit_or
        (bit_or
          (bit_or (bit_and (n / 2 ^ 24) 0xff * 2 ^ 24) (bit_and (n / 2 ^ 16) 0xff * 2 ^ 16))
          (bit_and (n / 2 ^ 8) 0xff * 2 ^ 8))
        (bit_and n 0xff)
      ≡ n
bytes_value n h =
    let a : bit_and (n / 2 ^ 24) 0xff ≡ n / 2 ^ 24 % 2 ^ 8 = bit_and_mask 8 (n / 2 ^ 24) in
    let b : bit_and (n / 2 ^ 16) 0xff ≡ n / 2 ^ 16 % 2 ^ 8 = bit_and_mask 8 (n / 2 ^ 16) in
    let c : bit_and (n / 2 ^ 8) 0xff ≡ n / 2 ^ 8 % 2 ^ 8 = bit_and_mask 8 (n / 2 ^ 8) in
    let d : bit_and n 0xff ≡ n % 2 ^ 8 = bit_and_mask 8 n in
    rw (a, b, c, d)
      (four_bytes (n / 2 ^ 24 % 2 ^ 8) (n / 2 ^ 16 % 2 ^ 8) (n / 2 ^ 8 % 2 ^ 8) (n % 2 ^ 8)
          (omega arith) (omega arith) (omega arith)
        ∙ omega arith)

-- A header is read as it was written.
pub message_to_header-header_to_message :
    (h : Header) → IsHeader h → message_to_header (header_to_message h) ≡ h
unfolding message_to_header header_to_message from_bigendian to_bigendian
message_to_header-header_to_message h ok =
    ap
      (λ n. record {
        source = n;
        destination = from_bigendian (header_to_message h) 4;
        session = from_bigendian (header_to_message h) 8;
      })
      (bytes_value h.source ok.source)
    ∙ ap
        (λ n. record {
          source = h.source;
          destination = n;
          session = from_bigendian (header_to_message h) 8;
        })
        (bytes_value h.destination ok.destination)
    ∙ ap (λ n. record { source = h.source; destination = h.destination; session = n })
        (bytes_value h.session ok.session)

-- The four bytes of a length below 2^24, as the reader puts them together.
pub record Length (n : ℕ) (bytes : List ℕ) : Type 0 where
  pub first : byte_at bytes 0 ≡ 0
  pub value :
      bit_or (bit_or (byte_at bytes 1 * 2 ^ 16) (byte_at bytes 2 * 2 ^ 8)) (byte_at bytes 3) ≡ n
  pub four : length bytes ≡ 4

pub to_bigendian-Length : (n : ℕ) → n < 2 ^ 24 → Length n (to_bigendian n)
unfolding to_bigendian
to_bigendian-Length n h =
    let a : bit_and (n / 2 ^ 24) 0xff ≡ 0 = bit_and_mask 8 (n / 2 ^ 24) ∙ omega arith in
    let b : bit_and (n / 2 ^ 16) 0xff ≡ n / 2 ^ 16 % 2 ^ 8 = bit_and_mask 8 (n / 2 ^ 16) in
    let c : bit_and (n / 2 ^ 8) 0xff ≡ n / 2 ^ 8 % 2 ^ 8 = bit_and_mask 8 (n / 2 ^ 8) in
    let d : bit_and n 0xff ≡ n % 2 ^ 8 = bit_and_mask 8 n in
    let high : bit_or (n / 2 ^ 16 % 2 ^ 8 * 2 ^ 16) (n / 2 ^ 8 % 2 ^ 8 * 2 ^ 8)
        ≡ (n / 2 ^ 16 % 2 ^ 8 * 2 ^ 8 + n / 2 ^ 8 % 2 ^ 8) * 2 ^ 8 =
      bit_or_low_digits 16 (n / 2 ^ 16 % 2 ^ 8) (n / 2 ^ 8 % 2 ^ 8 * 2 ^ 8) (omega arith)
      ∙ omega arith in
    record {
      first = a;
      value =
          rw (b, c, d, high)
            (bit_or_low_digits 8 (n / 2 ^ 16 % 2 ^ 8 * 2 ^ 8 + n / 2 ^ 8 % 2 ^ 8) (n % 2 ^ 8)
                (omega arith)
              ∙ omega arith);
      four = refl;
    }

-- A message on the wire: its header and its content.
pub record Package : Type 0 where
  pub cookie : Header
  pub body : List ℕ

pub record IsPackage (p : Package) : Type 0 where
  pub cookie_ok : IsHeader p.cookie
  pub small : length p.body + header_cookie_length < 2 ^ 24

-- What `send_remote` writes for it.
abbrev pub framed : Package → List ℕ
framed p =
    to_bigendian ((length p.body + header_cookie_length) % 2 ^ 32)
    ++ (p.body ++ header_to_message p.cookie)

abbrev pub ArePackages : List Package → Type 0
ArePackages [] = Unit {0}
ArePackages (p ∷ ps) = IsPackage p × ArePackages ps

abbrev pub stream : List Package → List ℕ
stream [] = []
stream (p ∷ ps) = framed p ++ stream ps

pub length-body :
    (p : Package)
    → length (p.body ++ header_to_message p.cookie) ≡ length p.body + header_cookie_length
unfolding header_to_message to_bigendian
length-body p = length-append p.body (header_to_message p.cookie)

pub stream_more : (p : Package) (rest : List ℕ) → length (framed p ++ rest) ≢ 0
unfolding to_bigendian
stream_more p rest e = omega (arith, e)

pub length-stream : (ps : List Package) → length ps ≤ length (stream ps)
unfolding to_bigendian
length-stream [] = omega arith
length-stream (p ∷ ps) =
    let rest : List ℕ = p.body ++ header_to_message p.cookie in
    omega (arith, length-stream ps, length-append rest (stream ps))
