-- ===== src/Timer/Place.antt =====
-- Where `add_node` puts a node, by quotients; how one tick changes it.
use pskynet.Prelude.{ℕ, ◌/◌, ◌%◌, ◌^◌, ◌≡◌, arith, bit_or, ◌==◌, if◌then◌else◌}
use pskynet.Prelude.Bits.{bit_and_mask, bit_or_mask}
use pskynet.Timer.Wheel.{Slot, near_slot, level_slot, place, find_level}

same_block_8 : (x y : ℕ) → (bit_or x 255 == bit_or y 255) ≡ (x / 2 ^ 8 == y / 2 ^ 8)
same_block_8 x y = ground (arith, bit_or_mask 8 x, bit_or_mask 8 y)

same_block_14 : (x y : ℕ) → (bit_or x 0x3fff == bit_or y 0x3fff) ≡ (x / 2 ^ 14 == y / 2 ^ 14)
same_block_14 x y = ground (arith, bit_or_mask 14 x, bit_or_mask 14 y)

same_block_20 : (x y : ℕ) → (bit_or x 0xfffff == bit_or y 0xfffff) ≡ (x / 2 ^ 20 == y / 2 ^ 20)
same_block_20 x y = ground (arith, bit_or_mask 20 x, bit_or_mask 20 y)

same_block_26 : (x y : ℕ) → (bit_or x 0x3ffffff == bit_or y 0x3ffffff) ≡ (x / 2 ^ 26 == y / 2 ^ 26)
same_block_26 x y = ground (arith, bit_or_mask 26 x, bit_or_mask 26 y)

-- `place` with the masks read as quotients.
abbrev pub block_place : ℕ → ℕ → Slot
block_place t e =
    if e / 2 ^ 8 == t / 2 ^ 8
    then near_slot (e % 2 ^ 8)
    else if e / 2 ^ 14 == t / 2 ^ 14
    then level_slot 0 (e / 2 ^ 8 % 2 ^ 6)
    else if e / 2 ^ 20 == t / 2 ^ 20
    then level_slot 1 (e / 2 ^ 14 % 2 ^ 6)
    else if e / 2 ^ 26 == t / 2 ^ 26
    then level_slot 2 (e / 2 ^ 20 % 2 ^ 6)
    else level_slot 3 (e / 2 ^ 26 % 2 ^ 6)

pub place-block_place : (t e : ℕ) → place t e ≡ block_place t e
unfolding place find_level
place-block_place t e = ground (
  arith,
  same_block_8 e t,
  same_block_14 e t,
  same_block_20 e t,
  same_block_26 e t,
  bit_and_mask 8 e,
  bit_and_mask 6 (e / 2 ^ 8),
  bit_and_mask 6 (e / 2 ^ 14),
  bit_and_mask 6 (e / 2 ^ 20),
  bit_and_mask 6 (e / 2 ^ 26),
)
