-- ===== src/HashId/Counts.antt =====
-- How many nodes of service-src/hashid.h are used.
use pskynet.Prelude.{
  ℕ, zero, suc, ◌+◌, ◌≤◌, ◌<◌, ◌≡◌, ◌≢◌, inl, inr, refl, ap, arith, ◌==◌, false, if◌then◌else◌,
  Bool-cases, ==→≡, ==_false, ≢→==,
}
use pskynet.HashId.{unused, set}

abbrev pub mark : ℕ → ℕ
mark id = if id == unused then 0 else 1

-- The used nodes below `n`.
abbrev pub used : ℕ → (ℕ → ℕ) → ℕ
used zero ids = 0
used (suc n) ids = used n ids + mark (ids n)

pub used-set_above : (n c new : ℕ) (ids : ℕ → ℕ) → n ≤ c → used n (set ids c new) ≡ used n ids
used-set_above zero c new ids h = refl
used-set_above (suc n) c new ids h =
    let other : (c == n) ≡ false = ≢→== c n (λ e. omega arith) in
    rw other (ap (λ k. k + mark (ids n)) (used-set_above n c new ids (omega arith)))

-- What the change of one node does to the count.
pub used-set :
    (n c new : ℕ) (ids : ℕ → ℕ)
    → c < n
    → used n (set ids c new) + mark (ids c) ≡ used n ids + mark new
used-set zero c new ids h = absurd (omega arith)
used-set (suc n) c new ids h = elim (Bool-cases (c == n)) [
  | inl same ↦
      let e : c ≡ n = ==→≡ c n same in
      let here : mark (ids c) ≡ mark (ids n) = ap (λ k. mark (ids k)) e in
      let before : used n (set ids c new) ≡ used n ids = used-set_above n c new ids (omega arith) in
      rw same (omega (arith, here, before))
  | inr differ ↦
      let apart : c ≢ n = ==_false c n differ in
      let ih = used-set n c new ids (omega (arith, apart)) in rw differ (omega (arith, ih))
]

-- A count below the capacity leaves a node free.
pub free_place : (n : ℕ) (ids : ℕ → ℕ) → used n ids < n → (j : ℕ) × (j < n) × (ids j ≡ unused)
free_place zero ids h = absurd (omega arith)
free_place (suc n) ids h = elim (Bool-cases (ids n == unused)) [
  | inl free ↦ (n, omega arith, ==→≡ (ids n) unused free)
  | inr taken ↦
      let one : mark (ids n) ≡ 1 = rw taken in
      let (j, below, free) = free_place n ids (omega (arith, one)) in (j, omega arith, free)
]

pub used_le : (n : ℕ) (ids : ℕ → ℕ) → used n ids ≤ n
used_le zero ids = omega arith
used_le (suc n) ids = elim (Bool-cases (ids n == unused)) [
  | inl free ↦ rw free (omega (arith, used_le n ids))
  | inr taken ↦ rw taken (omega (arith, used_le n ids))
]
