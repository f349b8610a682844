-- ===== src/Seri/Numbers.antt =====
-- Numbers, sizes and texts of lualib-src/lua-seri.c are read back.
use pskynet.Prelude.{
  ℕ, ◌+◌, ◌*◌, ◌/◌, ◌%◌, ◌^◌, ◌<◌, ◌≡◌, refl, sym, ap, ◌∙◌, inl, inr, false, List, [], ◌∷◌, ◌++◌,
  arith, bit_and, bit_or, ◌==◌, ltb, leb, ◌⊎◌, append_assoc, length, length-append, Bool-cases,
  le→ltb_false, ==→≡,
}
use pskynet.Prelude.Bits.{bit_and_mask, bit_or_high}
use pskynet.Prelude.Bytes.{
  le_bytes, length-le_bytes, le_value-le_bytes, take-append_self, drop-append_self,
}
use pskynet.Prelude.Words.{as_int, is_negative}
use pskynet.Prelude.Result.{ok}
use pskynet.Seri.{combine_type, sign_extend, string}
use pskynet.Seri.Format.{integer_bytes, string_bytes, array_head}
use pskynet.Seri.Read.{rb_read, get_buffer, get_number, get_integer, table_size, long_string}

pub record HasFields (t c : ℕ) : Type 0 where
  pub type : bit_and (combine_type t c) 7 ≡ t
  pub cookie : combine_type t c / 2 ^ 3 ≡ c

pub combine_type-HasFields : (t c : ℕ) → t < 8 → c < 32 → HasFields t c
unfolding combine_type
combine_type-HasFields t c ht hc =
    let e : bit_or t (c * 2 ^ 3) % 256 ≡ c * 2 ^ 3 + t =
      ap (λ n. n % 256) (bit_or_high 3 c t ht) ∙ omega arith in
    record {
      type = rw e (bit_and_mask 3 (c * 2 ^ 3 + t) ∙ omega arith);
      cookie = rw e (omega arith);
    }

pub rb_read-append :
    (xs rest : List ℕ) (n : ℕ) → length xs ≡ n → rb_read (xs ++ rest) n ≡ ok (xs, rest)
unfolding rb_read
rb_read-append xs rest n e =
    let long : ltb (length (xs ++ rest)) (length xs) ≡ false =
      le→ltb_false (length (xs ++ rest)) (length xs) (omega (arith, length-append xs rest)) in
    rw (← e) (rw (long, take-append_self xs rest, drop-append_self xs rest))

pub get_buffer-append :
    (xs rest : List ℕ) → length xs < 2 ^ 31 → get_buffer (xs ++ rest) (length xs) ≡ ok (xs, rest)
unfolding get_buffer
get_buffer-append xs rest h =
    let positive : is_negative (length xs) ≡ false = ground arith in
    rw positive (rb_read-append xs rest (length xs) refl)

pub get_number-le_bytes :
    (w v : ℕ) (rest : List ℕ) → v < 256 ^ w → get_number (le_bytes w v ++ rest) w ≡ ok (v, rest)
unfolding get_number
get_number-le_bytes w v rest h =
    rw (rb_read-append (le_bytes w v) rest w (length-le_bytes w v), le_value-le_bytes w v h)

-- The cookie and the bytes behind it that stand for an integer.
pub record HasForm (v : ℕ) : Type 0 where
  pub cookie : ℕ
  pub bytes : List ℕ
  pub written : integer_bytes v ≡ combine_type 2 cookie ∷ bytes
  pub small : cookie < 8
  pub reads : (rest : List ℕ) → get_integer cookie (bytes ++ rest) ≡ ok (v, rest)

pub integer-HasForm : (v : ℕ) → v < 2 ^ 64 → HasForm v
unfolding integer_bytes get_integer
integer-HasForm v h = elim (Bool-cases (v == 0)) [
  | inl zero ↦ record {
    cookie = 0;
    bytes = [];
    written = rw zero;
    small = omega arith;
    reads = λ rest. ap (λ n. ok (n, rest)) (sym (==→≡ v 0 zero));
  }
  | inr some_ ↦ elim (Bool-cases (v == sign_extend (as_int v))) [
    | inr wide ↦ record {
      cookie = 6;
      bytes = le_bytes 8 v;
      written = rw (some_, wide);
      small = omega arith;
      reads = λ rest. get_number-le_bytes 8 v rest h;
    }
    | inl word ↦
        let same : sign_extend (as_int v) ≡ v = sym (==→≡ v (sign_extend (as_int v)) word) in
        let dword : (rest : List ℕ) → get_integer 4 (le_bytes 4 (as_int v) ++ rest) ≡ ok (v, rest) =
          λ rest.
            rw (get_number-le_bytes 4 (as_int v) rest (omega arith))
              (ap (λ n. ok (n, rest)) same) in
        elim (Bool-cases (leb (2 ^ 63) v)) [
          | inl negative ↦ record {
            cookie = 4;
            bytes = le_bytes 4 (as_int v);
            written = rw (some_, word, negative);
            small = omega arith;
            reads = dword;
          }
          | inr positive ↦ elim (Bool-cases (ltb v 0x100)) [
            | inl byte ↦ record {
              cookie = 1;
              bytes = le_bytes 1 v;
              written = rw (some_, word, positive, byte);
              small = omega arith;
              reads = λ rest. get_number-le_bytes 1 v rest (ground arith);
            }
            | inr more ↦ elim (Bool-cases (ltb v 0x10000)) [
              | inl two ↦
                  let low : v % 2 ^ 16 ≡ v = ground arith in
                  record {
                    cookie = 2;
                    bytes = le_bytes 2 v;
                    written = rw (some_, word, positive, more, two, low);
                    small = omega arith;
                    reads = λ rest. get_number-le_bytes 2 v rest (ground arith);
                  }
              | inr four ↦ record {
                cookie = 4;
                bytes = le_bytes 4 (as_int v);
                written = rw (some_, word, positive, more, four);
                small = omega arith;
                reads = dword;
              }
            ]
          ]
        ]
  ]
]

-- The cookie of a text's type, and how the text is read.
pub record HasText (str : List ℕ) : Type 0 where
  pub type : ℕ
  pub cookie : ℕ
  pub bytes : List ℕ
  pub written : string_bytes str ≡ combine_type type cookie ∷ bytes
  pub kind :
      ((type ≡ 4) × (cookie ≡ length str) × (bytes ≡ str) × (length str < 32))
      ⊎ ((type ≡ 5)
          × (cookie < 32)
          × ((rest : List ℕ) → long_string cookie (bytes ++ rest) ≡ ok (string str, rest)))

pub string-HasText : (str : List ℕ) → length str < 2 ^ 31 → HasText str
unfolding string_bytes long_string
string-HasText str h = elim (Bool-cases (ltb (length str) 32)) [
  | inl short ↦ record {
    type = 4;
    cookie = length str;
    bytes = str;
    written = rw short;
    kind = inl (refl, refl, refl, ground arith);
  }
  | inr more ↦ elim (Bool-cases (ltb (length str) 0x10000)) [
    | inl word ↦ record {
      type = 5;
      cookie = 2;
      bytes = le_bytes 2 (length str) ++ str;
      written = rw (more, word);
      kind = inr (
        refl,
        omega arith,
        λ rest.
            let split = append_assoc (le_bytes 2 (length str)) str rest in
            rw (
              get_number-le_bytes 2 (length str) (str ++ rest) (ground arith),
              get_buffer-append str rest h,
            ),
      );
    }
    | inr dword ↦ record {
      type = 5;
      cookie = 4;
      bytes = le_bytes 4 (length str) ++ str;
      written = rw (more, dword);
      kind = inr (
        refl,
        omega arith,
        λ rest. rw (
          get_number-le_bytes 4 (length str) (str ++ rest) (omega arith),
          get_buffer-append str rest h,
        ),
      );
    }
  ]
]

-- The cookie of a table and the bytes behind it give the size of the array back.
pub record HasSize (size : ℕ) : Type 0 where
  pub cookie : ℕ
  pub bytes : List ℕ
  pub written : array_head size ≡ combine_type 6 cookie ∷ bytes
  pub small : cookie < 32
  pub reads : (rest : List ℕ) → table_size cookie (bytes ++ rest) ≡ ok (size, rest)

pub array_head-HasSize : (size : ℕ) → size < 2 ^ 31 → HasSize size
unfolding array_head table_size
array_head-HasSize size h = elim (Bool-cases (leb 31 size)) [
  | inr less ↦
      let small : (size == 31) ≡ false = ground arith in
      record {
        cookie = size;
        bytes = [];
        written = rw less;
        small = ground arith;
        reads = λ rest. rw small;
      }
  | inl large ↦
      let form = integer-HasForm size (omega arith) in
      let fields = combine_type-HasFields 2 form.cookie (omega arith) (omega (arith, form.small)) in
      let no_real : (form.cookie == 8) ≡ false = ground (arith, form.small) in
      let same : as_int size ≡ size = omega arith in
      record {
        cookie = 31;
        bytes = combine_type 2 form.cookie ∷ form.bytes;
        written = rw (large, form.written);
        small = omega arith;
        reads = λ rest. rw (
          rb_read-append (combine_type 2 form.cookie ∷ []) (form.bytes ++ rest) 1 refl,
          fields.type,
          fields.cookie,
          no_real,
          form.reads rest,
          same,
        );
      }
]
