-- ===== src/Prelude/Bits.antt =====
-- Masks: `x & (2^k - 1)` is a remainder, and `x | (2^k - 1)` forgets the low `k` digits.
use Prim.Native.Nat.{
  ℕ, zero, suc, ◌+◌, ◌-◌, ◌*◌, ◌/◌, ◌%◌, ◌^◌, ◌≤◌, ◌<◌, min, max, bit_and, bit_or, digits, bitwise,
  bit_and-bitwise, bit_or-bitwise,
}
use mathlib.Core.Path.{◌≡◌, refl, sym, ◌∙◌}
use native.Mathlib.Nat.{pow-suc, one-le-pow}
use native.Mathlib.Omega.{arith}

-- The native operations recur on a count of digits; these equations drop that count.
module _ (z : ℕ → ℕ) (f : ℕ → ℕ → ℕ) where
  digits_count : (n m a b : ℕ) → a ≤ n → a ≤ m → digits z f n a b ≡ digits z f m a b
  digits_count zero zero a b p q = refl
  digits_count zero (suc m) zero b p q = refl
  digits_count zero (suc m) (suc a) b p q = absurd (omega arith)
  digits_count (suc n) zero zero b p q = refl
  digits_count (suc n) zero (suc a) b p q = absurd (omega arith)
  digits_count (suc n) (suc m) zero b p q = refl
  digits_count (suc n) (suc m) (suc a) b p q =
      rw (digits_count n m (suc a / 2) (b / 2) (omega arith) (omega arith))

  bitwise_low :
      (a b : ℕ)
      → bitwise z f (suc a) b ≡ bitwise z f (suc a / 2) (b / 2) * 2 + f (suc a % 2) (b % 2)
  bitwise_low a b =
      omega (arith, digits_count a (suc a / 2) (suc a / 2) (b / 2) (omega arith) (omega arith))

pub bit_and_low : (a b : ℕ) → bit_and a b ≡ bit_and (a / 2) (b / 2) * 2 + min (a % 2) (b % 2)
bit_and_low zero b = simp bit_and-bitwise (omega arith)
bit_and_low (suc a) b = simp bit_and-bitwise (bitwise_low (λ y. 0) min a b)

bit_or_low : (a b : ℕ) → bit_or a b ≡ bit_or (a / 2) (b / 2) * 2 + max (a % 2) (b % 2)
bit_or_low zero b = simp bit_or-bitwise (omega arith)
bit_or_low (suc a) b = simp bit_or-bitwise (bitwise_low (λ y. y) max a b)

half_mod : (p a : ℕ) → 0 < p → a / 2 % p * 2 + a % 2 ≡ a % (2 * p)
half_mod p a h = grind arith

half_div : (p a : ℕ) → 0 < p → a / 2 / p ≡ a / (2 * p)
half_div p a h = grind arith

bit_and-zero_count : (n a : ℕ) → a ≤ n → bit_and a 0 ≡ 0
bit_and-zero_count n zero h = refl
bit_and-zero_count zero (suc a) h = absurd (omega arith)
bit_and-zero_count (suc n) (suc a) h =
    omega (arith, bit_and_low (suc a) 0, bit_and-zero_count n (suc a / 2) (omega arith))

bit_or-zero_count : (n a : ℕ) → a ≤ n → bit_or a 0 ≡ a
bit_or-zero_count n zero h = refl
bit_or-zero_count zero (suc a) h = absurd (omega arith)
bit_or-zero_count (suc n) (suc a) h =
    omega (arith, bit_or_low (suc a) 0, bit_or-zero_count n (suc a / 2) (omega arith))

bit_and_ones :
    (p a : ℕ) → 0 < p → bit_and (a / 2) (p - 1) ≡ a / 2 % p → bit_and a (2 * p - 1) ≡ a % (2 * p)
bit_and_ones p a h e =
    let half : (2 * p - 1) / 2 ≡ p - 1 = omega arith in
    let odd : (2 * p - 1) % 2 ≡ 1 = omega arith in
    rw (bit_and_low a (2 * p - 1), half, odd, e) (omega (arith, half_mod p a h))

bit_or_ones :
    (p a : ℕ)
    → 0 < p
    → bit_or (a / 2) (p - 1) ≡ a / 2 / p * p + (p - 1)
    → bit_or a (2 * p - 1) ≡ a / (2 * p) * (2 * p) + (2 * p - 1)
bit_or_ones p a h e =
    let half : (2 * p - 1) / 2 ≡ p - 1 = omega arith in
    let odd : (2 * p - 1) % 2 ≡ 1 = omega arith in
    rw (bit_or_low a (2 * p - 1), half, odd, e, half_div p a h) (omega arith)

-- A mask of `k` ones keeps the remainder by `2 ^ k`.
pub bit_and_mask : (k a : ℕ) → bit_and a (2 ^ k - 1) ≡ a % 2 ^ k
bit_and_mask zero a = omega (arith, bit_and-zero_count a a (omega arith))
bit_and_mask (suc k) a =
    let double : 2 ^ suc k ≡ 2 * 2 ^ k = omega (arith, pow-suc 2 k) in
    rw double (bit_and_ones (2 ^ k) a (omega (arith, one-le-pow k 2)) (bit_and_mask k (a / 2)))

-- Setting the `k` low digits keeps the quotient by `2 ^ k`.
pub bit_or_mask : (k a : ℕ) → bit_or a (2 ^ k - 1) ≡ a / 2 ^ k * 2 ^ k + (2 ^ k - 1)
bit_or_mask zero a = omega (arith, bit_or-zero_count a a (omega arith))
bit_or_mask (suc k) a =
    let double : 2 ^ suc k ≡ 2 * 2 ^ k = omega (arith, pow-suc 2 k) in
    rw double (bit_or_ones (2 ^ k) a (omega (arith, one-le-pow k 2)) (bit_or_mask k (a / 2)))

-- `|` of a number below `2 ^ k` and a multiple of `2 ^ k` is their sum.
pub bit_or_high : (k q r : ℕ) → r < 2 ^ k → bit_or r (q * 2 ^ k) ≡ q * 2 ^ k + r
bit_or_high zero q r h = let e : r ≡ 0 = omega arith in rw (e, bit_or-bitwise) (omega arith)
bit_or_high (suc k) q r h =
    let double : 2 ^ suc k ≡ 2 * 2 ^ k = omega (arith, pow-suc 2 k) in
    let half : q * 2 ^ suc k / 2 ≡ q * 2 ^ k = rw double (omega arith) in
    let even : q * 2 ^ suc k % 2 ≡ 0 = rw double (omega arith) in
    rw (bit_or_low r (q * 2 ^ suc k), half, even, bit_or_high k q (r / 2) (omega arith), double)
      (omega arith)

zero-bit_or : (b : ℕ) → bit_or 0 b ≡ b
zero-bit_or b = bit_or-bitwise 0 b

bit_or_comm_count : (n a b : ℕ) → a ≤ n → b ≤ n → bit_or a b ≡ bit_or b a
bit_or_comm_count zero a b p q =
    let e : a ≡ 0 = omega arith in let f : b ≡ 0 = omega arith in rw (e, f)
bit_or_comm_count (suc n) zero b p q = zero-bit_or b ∙ sym (bit_or-zero_count b b (omega arith))
bit_or_comm_count (suc n) (suc a) zero p q =
    bit_or-zero_count (suc a) (suc a) (omega arith) ∙ sym (zero-bit_or (suc a))
bit_or_comm_count (suc n) (suc a) (suc b) p q = omega (
  arith,
  bit_or_low (suc a) (suc b),
  bit_or_low (suc b) (suc a),
  bit_or_comm_count n (suc a / 2) (suc b / 2) (omega arith) (omega arith),
)

-- The same with the multiple first.
pub bit_or_low_digits : (k q r : ℕ) → r < 2 ^ k → bit_or (q * 2 ^ k) r ≡ q * 2 ^ k + r
bit_or_low_digits k q r h =
    bit_or_comm_count (q * 2 ^ k + r) (q * 2 ^ k) r (omega arith) (omega arith)
    ∙ bit_or_high k q r h

-- Four bytes, the highest first.
pub four_bytes :
    (a b c d : ℕ)
    → b < 2 ^ 8
    → c < 2 ^ 8
    → d < 2 ^ 8
    → bit_or (bit_or (bit_or (a * 2 ^ 24) (b * 2 ^ 16)) (c * 2 ^ 8)) d
      ≡ a * 2 ^ 24 + b * 2 ^ 16 + c * 2 ^ 8 + d
four_bytes a b c d hb hc hd =
    let first : bit_or (a * 2 ^ 24) (b * 2 ^ 16) ≡ (a * 2 ^ 8 + b) * 2 ^ 16 =
      bit_or_low_digits 24 a (b * 2 ^ 16) (omega arith) ∙ omega arith in
    let second : bit_or ((a * 2 ^ 8 + b) * 2 ^ 16) (c * 2 ^ 8)
        ≡ ((a * 2 ^ 8 + b) * 2 ^ 8 + c) * 2 ^ 8 =
      bit_or_low_digits 16 (a * 2 ^ 8 + b) (c * 2 ^ 8) (omega arith) ∙ omega arith in
    rw (first, second) (bit_or_low_digits 8 ((a * 2 ^ 8 + b) * 2 ^ 8 + c) d hd ∙ omega arith)
