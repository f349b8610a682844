-- ===== src/Timer/Tick.antt =====
-- How the list of a pending node changes when the time goes from `t` to `ct`: nodes stay where
-- they are, but for one list whose nodes go to lower lists that are empty.
use pskynet.Prelude.{ℕ, ◌+◌, ◌/◌, ◌%◌, ◌^◌, ◌≤◌, ◌<◌, ◌≡◌, ◌≢◌, ◌⊎◌, Bool, true, false, arith, ltb}
use pskynet.Timer.Wheel.{Slot, near_slot, level_slot, slot_eq}
use pskynet.Timer.Place.{block_place}

-- A node for the time `e` that has not been due before the time `t`.
abbrev pub Ahead : ℕ → ℕ → Type 0
Ahead t e = (t ≤ e) ⊎ (e / 2 ^ 26 ≢ t / 2 ^ 26)

-- The lists below level `i`.
abbrev pub lower : ℕ → Slot → Bool
lower i (near_slot k) = true
lower i (level_slot k j) = ltb k i

-- What the move of the list `t[i][j]` means for a node that goes from the list `p` to `q`.
pub record Moves (i j : ℕ) (p q : Slot) : Type 0 where
  pub down : slot_eq p (level_slot i j) ≡ true → lower i q ≡ true
  pub kept : slot_eq p (level_slot i j) ≡ false → q ≡ p
  pub clear : lower i p ≡ false

module _ (t e : ℕ) (ht : t < 2 ^ 32) (he : e < 2 ^ 32) (a : Ahead t e) (ne : e ≢ t) where
  pub stays : (t + 1) % 2 ^ 8 ≢ 0 → block_place (t + 1) e ≡ block_place t e
  stays h = ground arith

  pub cascade_0 :
      (t + 1) % 2 ^ 8 ≡ 0
      → (t + 1) / 2 ^ 8 % 2 ^ 6 ≢ 0
      → Moves 0 ((t + 1) / 2 ^ 8 % 2 ^ 6) (block_place t e) (block_place (t + 1) e)
  cascade_0 h k = record {
    down = λ p. ground arith;
    kept = λ p. ground arith;
    clear = ground arith;
  }

  pub cascade_1 :
      (t + 1) % 2 ^ 8 ≡ 0
      → (t + 1) / 2 ^ 8 % 2 ^ 6 ≡ 0
      → (t + 1) / 2 ^ 14 % 2 ^ 6 ≢ 0
      → Moves 1 ((t + 1) / 2 ^ 14 % 2 ^ 6) (block_place t e) (block_place (t + 1) e)
  cascade_1 h k l = record {
    down = λ p. ground arith;
    kept = λ p. ground arith;
    clear = ground arith;
  }

  pub cascade_2 :
      (t + 1) % 2 ^ 14 ≡ 0
      → (t + 1) / 2 ^ 14 % 2 ^ 6 ≡ 0
      → (t + 1) / 2 ^ 20 % 2 ^ 6 ≢ 0
      → Moves 2 ((t + 1) / 2 ^ 20 % 2 ^ 6) (block_place t e) (block_place (t + 1) e)
  cascade_2 h k l = record {
    down = λ p. ground arith;
    kept = λ p. ground arith;
    clear = ground arith;
  }

  pub cascade_3 :
      (t + 1) % 2 ^ 20 ≡ 0
      → (t + 1) / 2 ^ 20 % 2 ^ 6 ≡ 0
      → (t + 1) / 2 ^ 26 % 2 ^ 6 ≢ 0
      → t + 1 < 2 ^ 32
      → Moves 3 ((t + 1) / 2 ^ 26 % 2 ^ 6) (block_place t e) (block_place (t + 1) e)
  cascade_3 h k l w = record {
    down = λ p. ground arith;
    kept = λ p. ground arith;
    clear = ground arith;
  }

  pub cascade_wrap : t + 1 ≡ 2 ^ 32 → Moves 3 0 (block_place t e) (block_place 0 e)
  cascade_wrap h = record {
    down = λ p. ground arith;
    kept = λ p. ground arith;
    clear = ground arith;
  }
