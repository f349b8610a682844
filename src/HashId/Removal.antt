-- ===== src/HashId/Removal.antt =====
-- `hashid_remove` of service-src/hashid.h.
use pskynet.Prelude.{
  ℕ, ◌≡◌, refl, sym, ap, ◌∙◌, ◌≢◌, ◌⊎◌, inl, inr, true, false, List, [], ◌∷◌, Option, none, some,
  ◌-◌, bit_and, ◌==◌, if◌then◌else◌, Bool-cases, ==_refl, ==→≡, ==_false, ≢→==,
}
use pskynet.HashId.{unused, HashId, set, lookup_chain, lookup, unlink, remove}
use pskynet.HashId.Lookup.{lookup_chain-set}

-- No two nodes have the same id.
abbrev pub HasUniqueIds : (ℕ → ℕ) → Type 0
HasUniqueIds ids = (c d : ℕ) → ids c ≡ ids d → ids c ≢ unused → c ≡ d

-- Once its node is free, an id is in no chain.
lookup_chain-gone :
    (ids : ℕ → ℕ) (c id : ℕ) (cs : List ℕ)
    → HasUniqueIds ids
    → ids c ≡ id
    → id ≢ unused
    → lookup_chain (set ids c unused) id cs ≡ none
unfolding lookup_chain
lookup_chain-gone ids c id [] unique e proper = refl
lookup_chain-gone ids c id (d ∷ cs) unique e proper = elim (Bool-cases (c == d)) [
  | inl same ↦
      rw (same, ≢→== unused id (λ k. proper (sym k)))
        (lookup_chain-gone ids c id cs unique e proper)
  | inr apart ↦
      let other : ids d ≢ id =
        λ k. ==_false c d apart (unique c d (e ∙ sym k) (λ u. proper (sym e ∙ u))) in
      rw (apart, ≢→== (ids d) id other) (lookup_chain-gone ids c id cs unique e proper)
]

-- What the search of `hashid_remove` finds in a chain.
record Unlinked (ids : ℕ → ℕ) (id : ℕ) (cs : List ℕ) (r : Option (ℕ × List ℕ)) : Type 0 where
  node : ℕ
  left : List ℕ
  returns : r ≡ some (node, left)
  has_id : ids node ≡ id
  found : lookup_chain ids id cs ≡ some node
  others : (other : ℕ) → other ≢ id → lookup_chain ids other left ≡ lookup_chain ids other cs

abbrev Missing : (ℕ → ℕ) → ℕ → List ℕ → Type 0
Missing ids id cs = (unlink ids id cs ≡ none) × (lookup_chain ids id cs ≡ none)

unlink-here :
    (ids : ℕ → ℕ) (id d : ℕ) (cs : List ℕ)
    → (ids d == id) ≡ true
    → Unlinked ids id (d ∷ cs) (unlink ids id (d ∷ cs))
unfolding unlink lookup_chain
unlink-here ids id d cs same =
    rw (same, unlink)
      (record {
        node = d;
        left = cs;
        returns = refl;
        has_id = ==→≡ (ids d) id same;
        found = rw same;
        others =
            λ other differ. rw (≢→== (ids d) other (λ k. differ (sym k ∙ ==→≡ (ids d) id same)));
      })

lookup_chain-cons :
    (ids : ℕ → ℕ) (other d : ℕ) (xs ys : List ℕ)
    → lookup_chain ids other xs ≡ lookup_chain ids other ys
    → lookup_chain ids other (d ∷ xs) ≡ lookup_chain ids other (d ∷ ys)
unfolding lookup_chain
lookup_chain-cons ids other d xs ys e = ap (λ rest. if ids d == other then some d else rest) e

unlink-later :
    (ids : ℕ → ℕ) (id d : ℕ) (cs : List ℕ)
    → (ids d == id) ≡ false
    → Unlinked ids id cs (unlink ids id cs)
    → Unlinked ids id (d ∷ cs) (unlink ids id (d ∷ cs))
unfolding unlink lookup_chain
unlink-later ids id d cs apart u =
    rw (apart, unlink)
      (rw u.returns (record {
        node = u.node;
        left = d ∷ u.left;
        returns = refl;
        has_id = u.has_id;
        found = rw apart u.found;
        others = λ other differ. lookup_chain-cons ids other d u.left cs (u.others other differ);
      }))

unlink-cases :
    (ids : ℕ → ℕ) (id : ℕ) (cs : List ℕ) → Missing ids id cs ⊎ Unlinked ids id cs (unlink ids id cs)
unfolding unlink lookup_chain
unlink-cases ids id [] = inl (refl, refl)
unlink-cases ids id (d ∷ cs) = elim (Bool-cases (ids d == id)) [
  | inl same ↦ inr (unlink-here ids id d cs same)
  | inr apart ↦ elim (unlink-cases ids id cs) [
    | inl (no_node, not_found) ↦ inl (rw (apart, no_node), rw (apart, not_found))
    | inr u ↦ inr (unlink-later ids id d cs apart u)
  ]
]

-- The node that a removal sets free.
pub record Freed (hi : HashId) (id : ℕ) (next : HashId) : Type 0 where
  pub node : ℕ
  pub found : lookup hi id ≡ some node
  pub has_id : hi.id node ≡ id
  pub ids : next.id ≡ set hi.id node unused
  pub one_less : next.count ≡ hi.count - 1
  pub cap : next.cap ≡ hi.cap

-- What a removal gives.
pub record Forgotten (hi : HashId) (id : ℕ) (r : Option ℕ × HashId) : Type 0 where
  pub returns : r.0 ≡ lookup hi id
  pub gone : lookup r.1 id ≡ none
  pub others : (other : ℕ) → other ≢ id → other ≢ unused → lookup r.1 other ≡ lookup hi other
  pub change : ((lookup hi id ≡ none) × (r.1 ≡ hi)) ⊎ Freed hi id r.1

-- When no two nodes have the same id, `hashid_remove` returns the node of the id, or -1 when there is
-- none; the id is not found any more, and every other id is found where it was.
pub remove-Forgotten :
    (hi : HashId) (id : ℕ) → HasUniqueIds hi.id → id ≢ unused → Forgotten hi id (remove hi id)
unfolding remove lookup
remove-Forgotten hi id unique proper =
    let h : ℕ = bit_and id hi.hashmod in
    elim (unlink-cases hi.id id (hi.hash h)) [
      | inl (no_node, not_found) ↦
          rw (no_node, remove)
            (record {
              returns = sym not_found;
              gone = not_found;
              others = λ other differ used. refl;
              change = inl (not_found, refl);
            })
      | inr u ↦
          let same : (other : ℕ) (cs : List ℕ)
              → other ≢ id
              → other ≢ unused
              → lookup_chain (set hi.id u.node unused) other cs ≡ lookup_chain hi.id other cs =
            λ other cs differ used.
              lookup_chain-set hi.id u.node unused other cs (λ k. differ (sym k ∙ u.has_id))
                (λ k. used (sym k)) in
          rw (u.returns, remove)
            (record {
              returns = sym u.found;
              gone =
                  rw (==_refl h) (lookup_chain-gone hi.id u.node id u.left unique u.has_id proper);
              others = λ other differ used. elim (Bool-cases (h == bit_and other hi.hashmod)) [
                | inl here ↦ rw here (
                    same other u.left differ used
                    ∙ u.others other differ
                    ∙ ap (λ k. lookup_chain hi.id other (hi.hash k))
                        (==→≡ h (bit_and other hi.hashmod) here))
                | inr there ↦ rw there (same other (hi.hash (bit_and other hi.hashmod)) differ used)
              ];
              change = inr (record {
                node = u.node;
                found = u.found;
                has_id = u.has_id;
                ids = refl;
                one_less = refl;
                cap = refl;
              });
            })
    ]
