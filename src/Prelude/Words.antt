-- ===== src/Prelude/Words.antt =====
-- C integers of 32 bits. An int that can be negative is given by its bit pattern.
use Prim.Native.Nat.{ℕ, ◌-◌, ◌^◌, ◌%◌}
use mathlib.Core.Bool.{Bool}
use pskynet.Prelude.Tests.{leb}

-- The conversion of a larger unsigned number to an int, or to a uint32_t.
abbrev pub as_int : ℕ → ℕ
as_int n = n % 2 ^ 32

abbrev pub is_negative : ℕ → Bool
is_negative n = leb (2 ^ 31) n

-- The bit pattern of -1.
abbrev pub minus_one : ℕ
minus_one = 2 ^ 32 - 1
