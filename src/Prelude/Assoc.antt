-- ===== src/Prelude/Assoc.antt =====
-- Maps as association lists, over keys with a Boolean equality.
use Prim.Native.Nat.{ℕ, ◌+◌, ◌≤◌, ◌<◌}
use Prim.Native.String.{String}
use text.Mathlib.Text.{◌==◌ as str_eq}
use text.Mathlib.TextEquality.{eq_iff}
use mathlib.Core.Path.{◌≡◌, refl}
use mathlib.Core.Logic.{inl, inr}
use mathlib.Core.Bool.{Bool, true, false}
use mathlib.Core.Option.{Option, none, some}
use mathlib.Core.List.{List, [], ◌∷◌}
use native.Mathlib.Omega.{arith}
use pskynet.Prelude.Tests.{◌==◌, if◌then◌else◌, Bool-cases}
use pskynet.Prelude.Lists.{length}

pub record Eq {ℓ} (K : Type ℓ) : Type ℓ where
  pub eqb : K → K → Bool
  pub eqb→≡ : (a b : K) → eqb a b ≡ true → a ≡ b
  pub eqb_refl : (a : K) → eqb a a ≡ true

pub nat_eqb→≡ : (a b : ℕ) → (a == b) ≡ true → a ≡ b
nat_eqb→≡ a b h = ground arith

pub nat_eqb_refl : (a : ℕ) → (a == a) ≡ true
nat_eqb_refl a = ground arith

instance abbrev pub nat_eq : Eq ℕ
nat_eq = record { eqb = ◌==◌; eqb→≡ = nat_eqb→≡; eqb_refl = nat_eqb_refl }

pub string_eqb→≡ : (a b : String) → str_eq a b ≡ true → a ≡ b
string_eqb→≡ a b h = (eq_iff a b).0 h

pub string_eqb_refl : (a : String) → str_eq a a ≡ true
string_eqb_refl a = (eq_iff a a).1 refl

instance abbrev pub string_eq : Eq String
string_eq = record { eqb = str_eq; eqb→≡ = string_eqb→≡; eqb_refl = string_eqb_refl }

module _ {ℓ κ} {K : Type ℓ} {V : Type κ} ⦃e : Eq K⦄ where
  open e use {eqb, eqb→≡, eqb_refl}

  unfoldable pub lookup : K → List (K × V) → Option V
  lookup k [] = none
  lookup k ((j, v) ∷ m) = if eqb j k then some v else lookup k m

  unfoldable pub insert : K → V → List (K × V) → List (K × V)
  insert k v [] = (k, v) ∷ []
  insert k v ((j, w) ∷ m) = if eqb j k then (k, v) ∷ m else (j, w) ∷ insert k v m

  unfoldable pub erase : K → List (K × V) → List (K × V)
  erase k [] = []
  erase k ((j, w) ∷ m) = if eqb j k then erase k m else (j, w) ∷ erase k m

  pub lookup-insert_self : (k : K) (v : V) (m : List (K × V)) → lookup k (insert k v m) ≡ some v
  unfolding lookup insert
  lookup-insert_self k v [] = rw (eqb_refl k)
  lookup-insert_self k v ((j, w) ∷ m) = elim (Bool-cases (eqb j k)) [
    | inl t ↦ rw (t, eqb_refl k)
    | inr f ↦ rw (f, f) (lookup-insert_self k v m)
  ]

  pub lookup-insert_ne :
      (k j : K) (v : V) (m : List (K × V)) → eqb k j ≡ false → lookup j (insert k v m) ≡ lookup j m
  unfolding lookup insert
  lookup-insert_ne k j v [] h = rw h
  lookup-insert_ne k j v ((i, w) ∷ m) h = elim (Bool-cases (eqb i k)) [
    | inl t ↦ rw (t, h, eqb→≡ i k t, h)
    | inr f ↦ rw (f, lookup-insert_ne k j v m h)
  ]

  pub lookup-erase_self : (k : K) (m : List (K × V)) → lookup k (erase k m) ≡ none
  unfolding lookup erase
  lookup-erase_self k [] = refl
  lookup-erase_self k ((j, w) ∷ m) = elim (Bool-cases (eqb j k)) [
    | inl t ↦ rw t (lookup-erase_self k m)
    | inr f ↦ rw (f, f) (lookup-erase_self k m)
  ]

  pub lookup-erase_ne :
      (k j : K) (m : List (K × V)) → eqb k j ≡ false → lookup j (erase k m) ≡ lookup j m
  unfolding lookup erase
  lookup-erase_ne k j [] h = refl
  lookup-erase_ne k j ((i, w) ∷ m) h = elim (Bool-cases (eqb i k)) [
    | inl t ↦ rw (t, eqb→≡ i k t, h) (lookup-erase_ne k j m h)
    | inr f ↦ rw (f, lookup-erase_ne k j m h)
  ]

  pub length-erase_le : (k : K) (m : List (K × V)) → length (erase k m) ≤ length m
  unfolding erase
  length-erase_le k [] = omega arith
  length-erase_le k ((j, w) ∷ m) = elim (Bool-cases (eqb j k)) [
    | inl t ↦ rw t (omega (arith, length-erase_le k m))
    | inr f ↦ rw f (omega (arith, length-erase_le k m))
  ]

  -- A key that is there takes up at least one entry.
  pub length-erase_lt :
      (k : K) (m : List (K × V)) {v : V} → lookup k m ≡ some v → length (erase k m) < length m
  unfolding lookup erase
  length-erase_lt k [] h = cc
  length-erase_lt k ((j, w) ∷ m) h = elim (Bool-cases (eqb j k)) [
    | inl t ↦ rw t (omega (arith, length-erase_le k m))
    | inr f ↦ rw f (omega (arith, length-erase_lt k m (rw f at h)))
  ]

  pub length-insert_fresh :
      (k : K) (v : V) (m : List (K × V)) → lookup k m ≡ none → length (insert k v m) ≡ length m + 1
  unfolding lookup insert
  length-insert_fresh k v [] h = omega arith
  length-insert_fresh k v ((j, w) ∷ m) h = elim (Bool-cases (eqb j k)) [
    | inl t ↦ let h' : some w ≡ none = (rw t at h) in cc h'
    | inr f ↦ rw f (omega (arith, length-insert_fresh k v m (rw f at h)))
  ]
