-- ===== src/Prelude/Bytes.antt =====
-- Byte strings: reading a byte, splitting off a first part, and little-endian numbers.
use Prim.Native.Nat.{ℕ, zero, suc, ◌+◌, ◌*◌, ◌/◌, ◌%◌, ◌^◌, ◌≤◌, ◌<◌}
use mathlib.Core.Path.{◌≡◌, refl, sym, ap, ◌∙◌}
use mathlib.Core.List.{List, [], ◌∷◌, ◌++◌, append_assoc}
use mathlib.Core.Option.{none, some}
use native.Mathlib.Nat.{pow-suc}
use native.Mathlib.Omega.{arith}
use pskynet.Prelude.Lists.{
  length, get_elem?, take, drop, take-append, drop-append, take-all, drop-all,
}

-- What stands behind the end is 0, as behind a C string.
abbrev pub byte_at : List ℕ → ℕ → ℕ
byte_at bs i = elim (get_elem? bs i) [ none ↦ 0 | some b ↦ b ]

-- The chunks of a stream, joined.
abbrev pub flat : List (List ℕ) → List ℕ
flat [] = []
flat (m ∷ ms) = m ++ flat ms

pub flat-append : (xs ys : List (List ℕ)) → flat (xs ++ ys) ≡ flat xs ++ flat ys
flat-append [] ys = refl
flat-append (x ∷ xs) ys = rw (flat-append xs ys, append_assoc)

-- A prefix of a stream that is at least as long as its first part has that part in front.
pub take-prefix :
    (xs ys a b : List ℕ) → xs ++ ys ≡ a ++ b → length a ≤ length xs → take (length a) xs ≡ a
take-prefix xs ys a b e h =
    sym (take-append (length a) xs ys h)
    ∙ ap (take (length a)) e
    ∙ take-append (length a) a b (omega arith)
    ∙ take-all (length a) a (omega arith)

pub drop-prefix :
    (xs ys a b : List ℕ) → xs ++ ys ≡ a ++ b → length a ≤ length xs → drop (length a) xs ++ ys ≡ b
drop-prefix xs ys a b e h =
    let cut : drop (length a) (a ++ b) ≡ drop (length a) a ++ b =
      drop-append (length a) a b (omega arith) in
    let nothing : drop (length a) a ≡ [] = drop-all (length a) a (omega arith) in
    sym (drop-append (length a) xs ys h) ∙ ap (drop (length a)) e ∙ cut ∙ ap (λ k. k ++ b) nothing

pub take-append_self : (a b : List ℕ) → take (length a) (a ++ b) ≡ a
take-append_self a b =
    take-append (length a) a b (omega arith) ∙ take-all (length a) a (omega arith)

pub drop-append_self : (a b : List ℕ) → drop (length a) (a ++ b) ≡ b
drop-append_self a b =
    drop-append (length a) a b (omega arith)
    ∙ ap (λ k. k ++ b) (drop-all (length a) a (omega arith))

-- The memory of an unsigned integer of `w` bytes, and the integer in such memory.
abbrev pub le_bytes : ℕ → ℕ → List ℕ
le_bytes zero n = []
le_bytes (suc w) n = n % 256 ∷ le_bytes w (n / 256)

abbrev pub le_value : List ℕ → ℕ
le_value [] = 0
le_value (b ∷ bs) = b + 256 * le_value bs

pub length-le_bytes : (w n : ℕ) → length (le_bytes w n) ≡ w
length-le_bytes zero n = refl
length-le_bytes (suc w) n = ap suc (length-le_bytes w (n / 256))

pub le_value-le_bytes : (w n : ℕ) → n < 256 ^ w → le_value (le_bytes w n) ≡ n
le_value-le_bytes zero n h = omega arith
le_value-le_bytes (suc w) n h =
    let fits : n / 256 < 256 ^ w = omega (arith, pow-suc 256 w) in
    omega (arith, le_value-le_bytes w (n / 256) fits)
