-- ===== src/Netpack/Chains.antt =====
-- The table of packages that are not complete yet, in lualib-src/lua-netpack.c.
use pskynet.Prelude.{
  ℕ, ◌≡◌, refl, sym, subst, ap, ◌∙◌, ◌≢◌, inl, inr, true, false, List, [], ◌∷◌, Option, none, some,
  ◌>>=◌, ◌==◌, if◌then◌else◌, Bool-cases, ==→≡, ==_false, ≢→==, ==_refl,
}
use pskynet.Netpack.{
  Uncomplete, Queue, set, hash_fd, find_chain, find_uncomplete, save_uncomplete, get_queue,
}

abbrev pub first {ℓ κ} : {A : Type ℓ} {B : Type κ} → Option (A × B) → Option A
first none = none
first (some (a, b)) = some a

-- The package of a socket that is not complete.
abbrev pub pending : Queue → ℕ → Option Uncomplete
pending q fd = first (find_chain fd (q.hash (hash_fd fd)))

-- No two entries of a chain have the same id.
abbrev pub IsUnique : List Uncomplete → Type 0
IsUnique [] = Unit {0}
IsUnique (uc ∷ ucs) = (find_chain uc.id ucs ≡ none) × IsUnique ucs

first_none {ℓ κ} : {A : Type ℓ} {B : Type κ} (o : Option (A × B)) → first o ≡ none → o ≡ none
first_none none h = refl
first_none (some (a, b)) h = cc

first_bind :
    (uc : Uncomplete) (o : Option (Uncomplete × List Uncomplete))
    → first (o >>= λ r. some (r.0, uc ∷ r.1)) ≡ first o
first_bind uc none = refl
first_bind uc (some (u, left)) = refl

-- The first entry of a chain that has the id.
first-find_chain :
    (fd : ℕ) (uc : Uncomplete) (ucs : List Uncomplete)
    → first (find_chain fd (uc ∷ ucs))
      ≡ (if uc.id == fd then some uc else first (find_chain fd ucs))
unfolding find_chain
first-find_chain fd uc ucs = elim (Bool-cases (uc.id == fd)) [
  | inl same ↦ rw same
  | inr differ ↦ rw differ (first_bind uc (find_chain fd ucs))
]

-- What taking the entry of `fd` out of a chain does.
record HasTaken (fd : ℕ) (ucs : List Uncomplete) (u : Uncomplete) (left : List Uncomplete)
    : Type 0 where
  found : first (find_chain fd ucs) ≡ some u
  id : u.id ≡ fd
  others : (other : ℕ) → other ≢ fd → first (find_chain other left) ≡ first (find_chain other ucs)
  gone : IsUnique ucs → find_chain fd left ≡ none
  unique : IsUnique ucs → IsUnique left

take_first :
    (fd : ℕ) (uc : Uncomplete) (ucs : List Uncomplete)
    → (uc.id == fd) ≡ true
    → HasTaken fd (uc ∷ ucs) uc ucs
take_first fd uc ucs same =
    let e : uc.id ≡ fd = ==→≡ uc.id fd same in
    record {
      found = first-find_chain fd uc ucs ∙ rw same;
      id = e;
      others = λ other differ.
          let no : (uc.id == other) ≡ false = ≢→== uc.id other (λ k. differ (sym k ∙ e)) in
          sym (first-find_chain other uc ucs ∙ rw no);
      gone = λ u. subst (λ n. find_chain n ucs ≡ none) e u.0;
      unique = λ u. u.1;
    }

take_later :
    (fd : ℕ) (uc : Uncomplete) (ucs : List Uncomplete) (u : Uncomplete) (left : List Uncomplete)
    → (uc.id == fd) ≡ false
    → HasTaken fd ucs u left
    → HasTaken fd (uc ∷ ucs) u (uc ∷ left)
take_later fd uc ucs u left differ t = record {
  found = first-find_chain fd uc ucs ∙ rw differ t.found;
  id = t.id;
  others = λ other apart.
      first-find_chain other uc left
      ∙ ap (λ r. if uc.id == other then some uc else r) (t.others other apart)
      ∙ sym (first-find_chain other uc ucs);
  gone = λ un.
      first_none (find_chain fd (uc ∷ left))
        (first-find_chain fd uc left ∙ rw differ (ap first (t.gone un.1)));
  unique = λ un. (
    first_none (find_chain uc.id left) (t.others uc.id (==_false uc.id fd differ) ∙ ap first un.0),
    t.unique un.1,
  );
}

record Searched (fd : ℕ) (ucs : List Uncomplete) (u : Uncomplete) : Type 0 where
  left : List Uncomplete
  returns : find_chain fd ucs ≡ some (u, left)
  taken : HasTaken fd ucs u left

search_chain :
    (fd : ℕ) (ucs : List Uncomplete) (u : Uncomplete)
    → first (find_chain fd ucs) ≡ some u
    → Searched fd ucs u
unfolding find_chain
search_chain fd [] u h = absurd (cc)
search_chain fd (uc ∷ ucs) u h = elim (Bool-cases (uc.id == fd)) [
  | inl same ↦
      let e : some uc ≡ some u = (sym (first-find_chain fd uc ucs ∙ rw same)) ∙ h in
      let e' : uc ≡ u = cc in
      record {
        left = ucs;
        returns = rw same (ap (λ x. some (x, ucs)) e');
        taken = subst (λ x. HasTaken fd (uc ∷ ucs) x ucs) e' (take_first fd uc ucs same);
      }
  | inr differ ↦
      let later = search_chain fd ucs u (sym (first-find_chain fd uc ucs ∙ rw differ) ∙ h) in
      record {
        left = uc ∷ later.left;
        returns = rw (differ, later.returns);
        taken = take_later fd uc ucs u later.left differ later.taken;
      }
]

abbrev pub AllUnique : Queue → Type 0
AllUnique q = (h : ℕ) → IsUnique (q.hash h)

-- Only the entry of `fd` has changed; it is `u` now.
pub record Kept (q : Queue) (fd : ℕ) (u : Option Uncomplete) (r : Queue) : Type 0 where
  pub own : pending r fd ≡ u
  pub others : (other : ℕ) → other ≢ fd → pending r other ≡ pending q other
  pub unique : AllUnique r

pub record Found (q : Queue) (fd : ℕ) (u : Uncomplete) : Type 0 where
  pub left : List Uncomplete
  pub returns :
      find_uncomplete (some q) fd ≡ some (u, record q { hash = set q.hash (hash_fd fd) left })
  pub id : u.id ≡ fd
  pub kept : Kept q fd none (record q { hash = set q.hash (hash_fd fd) left })

set-IsUnique :
    (q : Queue) (k : ℕ) (ucs : List Uncomplete)
    → AllUnique q
    → IsUnique ucs
    → (h : ℕ) → IsUnique (set q.hash k ucs h)
set-IsUnique q k ucs all one h = elim (Bool-cases (k == h)) [
  | inl same ↦ rw same one
  | inr differ ↦ rw differ (all h)
]

-- `find_uncomplete` takes the entry of the socket out of the table.
pub find_uncomplete-Found :
    (q : Queue) (fd : ℕ) (u : Uncomplete) → AllUnique q → pending q fd ≡ some u → Found q fd u
unfolding find_uncomplete
find_uncomplete-Found q fd u all h =
    let s = search_chain fd (q.hash (hash_fd fd)) u h in
    record {
      left = s.left;
      returns = rw s.returns;
      id = s.taken.id;
      kept = record {
        own = rw (==_refl (hash_fd fd)) (ap first (s.taken.gone (all (hash_fd fd))));
        others = λ other apart. elim (Bool-cases (hash_fd fd == hash_fd other)) [
          | inl same ↦ rw same (
              s.taken.others other apart
              ∙ ap (λ k. first (find_chain other (q.hash k)))
                  (==→≡ (hash_fd fd) (hash_fd other) same))
          | inr differ ↦ rw differ
        ];
        unique = set-IsUnique q (hash_fd fd) s.left all (s.taken.unique (all (hash_fd fd)));
      };
    }

pub find_uncomplete-none :
    (s : Option Queue) (fd : ℕ) → pending (get_queue s) fd ≡ none → find_uncomplete s fd ≡ none
unfolding find_uncomplete get_queue
find_uncomplete-none none fd h = refl
find_uncomplete-none (some q) fd h = rw (first_none (find_chain fd (q.hash (hash_fd fd))) h)

-- `save_uncomplete` enters the socket's package.
pub save_uncomplete-Kept :
    (s : Option Queue) (uc : Uncomplete)
    → AllUnique (get_queue s)
    → pending (get_queue s) uc.id ≡ none
    → Kept (get_queue s) uc.id (some uc) (save_uncomplete s uc)
unfolding save_uncomplete
save_uncomplete-Kept s uc all h =
    let q : Queue = get_queue s in
    let k : ℕ = hash_fd uc.id in
    record {
      own = rw (==_refl k) (first-find_chain uc.id uc (q.hash k) ∙ rw (==_refl uc.id));
      others = λ other apart. elim (Bool-cases (k == hash_fd other)) [
        | inl same ↦
            let no : (uc.id == other) ≡ false = ≢→== uc.id other (λ e. apart (sym e)) in
            rw same (
              first-find_chain other uc (q.hash k)
              ∙ rw no (ap (λ j. first (find_chain other (q.hash j))) (==→≡ k (hash_fd other) same)))
        | inr differ ↦ rw differ
      ];
      unique =
          set-IsUnique q k (uc ∷ q.hash k) all (first_none (find_chain uc.id (q.hash k)) h, all k);
    }
