-- ===== src/HashId/Places.antt =====
-- The ids at the nodes of service-src/hashid.h when the id of one node changes.
use pskynet.Prelude.{
  ℕ, ◌≤◌, ◌<◌, ◌≡◌, ◌≢◌, ◌⊎◌, inl, inr, subst, List, [], ◌∷◌, bit_and, sym, ap, ◌∙◌, arith, false,
  some, ◌==◌, if◌then◌else◌, Bool-cases, ==→≡, ==_false, ≢→==, ==_refl,
}
use pskynet.HashId.{HashId, unused, set, lookup, lookup_chain}
use pskynet.HashId.Removal.{HasUniqueIds}

pub set_cases {ℓ} :
    {A : Type ℓ} (f : ℕ → A) (k : ℕ) (a : A) (j : ℕ)
    → ((j ≡ k) × (set f k a j ≡ a)) ⊎ ((j ≢ k) × (set f k a j ≡ f j))
set_cases f k a j = elim (Bool-cases (k == j)) [
  | inl same ↦ inl (sym (==→≡ k j same), rw same)
  | inr differ ↦ inr ((λ e. ==_false k j differ (sym e)), rw differ)
]

pub set_here {ℓ} : {A : Type ℓ} (f : ℕ → A) (k : ℕ) (a : A) → set f k a k ≡ a
set_here f k a = rw (==_refl k)

pub set_there {ℓ} : {A : Type ℓ} (f : ℕ → A) (k j : ℕ) (a : A) → j ≢ k → set f k a j ≡ f j
set_there f k j a differ = let other : (k == j) ≡ false = ≢→== k j (λ e. differ (sym e)) in rw other

-- An id that no node has, or -1, may be put anywhere.
pub set-HasUniqueIds :
    (ids : ℕ → ℕ) (place new : ℕ)
    → HasUniqueIds ids
    → (new ≡ unused) ⊎ ((c : ℕ) → ids c ≢ new)
    → HasUniqueIds (set ids place new)
set-HasUniqueIds ids place new unique ok c d same proper = elim (set_cases ids place new c) [
  | inl (here, x) ↦ elim (set_cases ids place new d) [
    | inl (here', y) ↦ here ∙ sym here'
    | inr (there, y) ↦ elim ok [
      | inl no_id ↦ absurd (proper (x ∙ no_id))
      | inr apart ↦ absurd (apart d (sym y ∙ sym same ∙ x))
    ]
  ]
  | inr (there, x) ↦ elim (set_cases ids place new d) [
    | inl (here, y) ↦ elim ok [
      | inl no_id ↦ absurd (proper (same ∙ y ∙ no_id))
      | inr apart ↦ absurd (apart c (sym x ∙ same ∙ y))
    ]
    | inr (there', y) ↦ unique c d (sym x ∙ same ∙ y) (λ e. proper (x ∙ e))
  ]
]

pub set-bounded :
    (ids : ℕ → ℕ) (place new cap : ℕ)
    → place < cap
    → ((c : ℕ) → cap ≤ c → ids c ≡ unused)
    → (c : ℕ) → cap ≤ c
    → set ids place new c ≡ unused
set-bounded ids place new cap below bounded c h =
    set_there ids place c new (λ e. omega arith) ∙ bounded c h

lookup_chain-id :
    (ids : ℕ → ℕ) (id c : ℕ) (cs : List ℕ) → lookup_chain ids id cs ≡ some c → ids c ≡ id
unfolding lookup_chain
lookup_chain-id ids id c [] h = absurd (ground arith)
lookup_chain-id ids id c (d ∷ cs) h = elim (Bool-cases (ids d == id)) [
  | inl same ↦
      let e : some d ≡ some c =
        subst (λ b. (if b then some d else lookup_chain ids id cs) ≡ some c) same h in
      let at : d ≡ c = cc in ap ids (sym at) ∙ ==→≡ (ids d) id same
  | inr differ ↦
      lookup_chain-id ids id c cs
        (subst (λ b. (if b then some d else lookup_chain ids id cs) ≡ some c) differ h)
]

-- A node that is found has the id.
pub lookup-id : (hi : HashId) (id c : ℕ) → lookup hi id ≡ some c → hi.id c ≡ id
unfolding lookup
lookup-id hi id c h = lookup_chain-id hi.id id c (hi.hash (bit_and id hi.hashmod)) h
