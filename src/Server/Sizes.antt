-- ===== src/Server/Sizes.antt =====
-- How src/sn_server.cpp packs a type above a size, and its sessions.
use pskynet.Prelude.{
  ℕ, ◌+◌, ◌-◌, ◌*◌, ◌%◌, ◌^◌, ◌≤◌, ◌<◌, ◌≡◌, refl, ◌∙◌, inl, inr, arith, true, false, bit_or, ◌==◌,
  ltb, leb, ◌||◌, Bool-cases,
}
use pskynet.Prelude.Bits.{bit_and_mask, bit_or_high}
use pskynet.Server.{Context, shift_type, type_of, size_of, new_session}

shift_type_low : (type : ℕ) → type < 2 ^ 7 → shift_type type ≡ type * 2 ^ 24
unfolding shift_type
shift_type_low type h =
    let e : type * 2 ^ 24 % 2 ^ 32 ≡ type * 2 ^ 24 = omega arith in
    let below : ltb (type * 2 ^ 24) (2 ^ 31) ≡ true = ground arith in rw (e, below)

pub packed :
    (type sz : ℕ) → type < 2 ^ 7 → sz < 2 ^ 24 → bit_or sz (shift_type type) ≡ type * 2 ^ 24 + sz
packed type sz h k = rw (shift_type_low type h) (bit_or_high 24 type sz k)

-- The type and the size come out as they went in.
pub record Unpacked (type sz word : ℕ) : Type 0 where
  pub kind : type_of word ≡ type
  pub bytes : size_of word ≡ sz

pub packed-Unpacked :
    (type sz : ℕ) → type < 2 ^ 7 → sz < 2 ^ 24 → Unpacked type sz (bit_or sz (shift_type type))
unfolding type_of size_of
packed-Unpacked type sz h k =
    let e = packed type sz h k in
    record {
      kind = rw e (omega arith);
      bytes = rw e (bit_and_mask 24 (type * 2 ^ 24 + sz) ∙ omega arith);
    }

-- A type of 128 or more arrives as a negative number.
pub packed_negative :
    (type sz : ℕ)
    → 2 ^ 7 ≤ type
    → type < 2 ^ 8
    → sz < 2 ^ 24
    → type_of (bit_or sz (shift_type type)) ≡ 2 ^ 32 - (2 ^ 8 - type)
unfolding type_of shift_type
packed_negative type sz h k small =
    let e : type * 2 ^ 24 % 2 ^ 32 ≡ type * 2 ^ 24 = omega arith in
    let above : ltb (type * 2 ^ 24) (2 ^ 31) ≡ false = ground arith in
    let high : type * 2 ^ 24 + (2 ^ 64 - 2 ^ 32) ≡ (type + (2 ^ 40 - 2 ^ 8)) * 2 ^ 24 =
      omega arith in
    rw (e, above, high, bit_or_high 24 (type + (2 ^ 40 - 2 ^ 8)) sz small) (omega arith)

-- Sessions are positive ints, and the context remembers the last one.
pub record Session (c : Context) (r : ℕ × Context) : Type 0 where
  pub positive : 0 < r.0
  pub int : r.0 < 2 ^ 31
  pub remembered : r.1.session_id ≡ r.0

pub new_session-Session : (c : Context) → Session c (new_session c)
unfolding new_session
new_session-Session c =
    let n : ℕ = (c.session_id + 1) % 2 ^ 32 in
    elim (Bool-cases (leb (2 ^ 31) n || n == 0)) [
      | inl over ↦ rw over (record { positive = omega arith; int = omega arith; remembered = refl })
      | inr plain ↦
          let low : n < 2 ^ 31 = ground arith in
          let some_ : 0 < n = ground arith in
          rw plain (record { positive = some_; int = low; remembered = refl })
    ]
