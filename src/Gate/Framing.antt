-- ===== src/Gate/Framing.antt =====
-- The length in front of a package, as `databuffer_readheader` of service-src/databuffer.h reads it.
use pskynet.Prelude.{
  ℕ, ◌/◌, ◌%◌, ◌^◌, ◌<◌, ◌≡◌, ◌∙◌, ◌⊎◌, inl, inr, List, [], ◌∷◌, ◌++◌, arith, ◌==◌, if◌then◌else◌,
  length,
}
use pskynet.Prelude.Bits.{bit_or_low_digits, four_bytes}
use pskynet.Gate.Buffer.{header_of}

-- The header that a peer writes for a package of `n` bytes.
abbrev pub header_bytes : ℕ → ℕ → List ℕ
header_bytes header_size n =
    if header_size == 2
    then n / 2 ^ 8 ∷ n % 2 ^ 8 ∷ []
    else n / 2 ^ 24 ∷ n / 2 ^ 16 % 2 ^ 8 ∷ n / 2 ^ 8 % 2 ^ 8 ∷ n % 2 ^ 8 ∷ []

abbrev pub encode : ℕ → List ℕ → List ℕ
encode header_size p = header_bytes header_size (length p) ++ p

abbrev pub encode_all : ℕ → List (List ℕ) → List ℕ
encode_all header_size [] = []
encode_all header_size (p ∷ ps) = encode header_size p ++ encode_all header_size ps

-- The sizes that the gate takes: below 2^16 with two bytes, and below 16M with four.
abbrev pub size_limit : ℕ → ℕ
size_limit header_size = if header_size == 2 then 2 ^ 16 else 2 ^ 24

abbrev pub IsHeaderSize : ℕ → Type 0
IsHeaderSize header_size = (header_size ≡ 2) ⊎ (header_size ≡ 4)

pub length-header_bytes :
    (header_size n : ℕ)
    → IsHeaderSize header_size
    → length (header_bytes header_size n) ≡ header_size
length-header_bytes header_size n (inl e) = rw e
length-header_bytes header_size n (inr e) = rw e

-- The header that a peer writes is read back.
pub header_of-header_bytes :
    (header_size n : ℕ)
    → IsHeaderSize header_size
    → n < size_limit header_size
    → header_of header_size (header_bytes header_size n) ≡ n
unfolding header_of
header_of-header_bytes header_size n (inl e) h =
    rw e (bit_or_low_digits 8 (n / 2 ^ 8) (n % 2 ^ 8) (omega arith) ∙ omega arith)
header_of-header_bytes header_size n (inr e) h = rw e (
    four_bytes (n / 2 ^ 24) (n / 2 ^ 16 % 2 ^ 8) (n / 2 ^ 8 % 2 ^ 8) (n % 2 ^ 8) (omega arith)
      (omega arith) (omega arith)
    ∙ omega arith)
