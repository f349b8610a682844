-- ===== src/Seri/Tests.antt =====
-- Values packed and unpacked.
use pskynet.Prelude.{ℕ, zero, suc, ◌≢◌, true, List, [], ◌∷◌, arith}
use pskynet.Prelude.Result.{err}
use pskynet.Seri.{
  Value, nil, boolean, integer, string, table, finish, element, close, entry, combine_type,
}
use pskynet.Seri.Blocks
use pskynet.Seri.Blocks.{init-IsWriteBlock, push-Pushed}
use pskynet.Seri.Read.{stuck, unpack}
use pskynet.Seri.RoundTrip.{RoundTrip, pack-RoundTrip}
use pskynet.Seri.Ends.{unpack-Finishes}

-- { true, 300, name = "ab" }, with its array elements among the pairs.
abbrev sample : Value
sample = table (element (boolean true) (element (integer 300) finish)) (
    entry (integer 1) (boolean true)
      (entry (integer 2) (integer 300) (entry (string (110 ∷ [])) (string (97 ∷ 98 ∷ [])) close)))

pack-RoundTrip_example : RoundTrip (sample ∷ nil ∷ [])
pack-RoundTrip_example = pack-RoundTrip (sample ∷ nil ∷ []) (
  (
    omega arith,
    omega arith,
    (omega arith, ((omega arith, omega arith), tt)),
    (
      λ e. cc,
      (λ e. cc, (λ e. ((omega arith, omega arith), λ k. cc, (omega arith, omega arith)), tt)),
    ),
  ),
  (omega arith, tt),
)

-- A text that is cut off.
unpack-Finishes_example : unpack (combine_type 4 9 ∷ 1 ∷ []) ≢ err stuck
unpack-Finishes_example = unpack-Finishes (combine_type 4 9 ∷ 1 ∷ [])

-- 130 bytes need a second block.
abbrev repeat : ℕ → List ℕ
repeat zero = []
repeat (suc n) = 7 ∷ repeat n

push-Pushed_example : Blocks.Pushed Blocks.init (repeat 130) (Blocks.push Blocks.init (repeat 130))
push-Pushed_example = push-Pushed Blocks.init (repeat 130) init-IsWriteBlock
