-- ===== src/Prelude/Wrap.antt =====
-- Indexes that wrap round in a ring.
use Prim.Native.Nat.{ℕ, ◌+◌, ◌-◌, ◌%◌, ◌<◌, ◌≤◌}
use mathlib.Core.Path.{◌≡◌}
use mathlib.Core.Logic.{◌⊎◌, inl, inr}
use native.Mathlib.Omega.{arith}
use pskynet.Prelude.Tests.{ltb, Bool-cases}

pub wrap_low : (x n : ℕ) → x < n → x % n ≡ x
wrap_low x n h = grind arith

pub wrap_high : (x n : ℕ) → n ≤ x → x < n + n → x % n ≡ x - n
wrap_high x n h k = grind arith

pub wrap_cases : (x n : ℕ) → x < n + n → ((x < n) × (x % n ≡ x)) ⊎ ((n ≤ x) × (x % n ≡ x - n))
wrap_cases x n h = elim (Bool-cases (ltb x n)) [
  | inl low ↦ inl (ground arith, wrap_low x n (ground arith))
  | inr high ↦ inr (ground arith, wrap_high x n (ground arith) h)
]
