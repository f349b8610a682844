-- ===== src/Netpack/Cuts.antt =====
-- How a byte stream is cut into packages, apart from the code of lualib-src/lua-netpack.c.
use pskynet.Prelude.{
  ℕ, ◌<◌, ◌≡◌, refl, ap, List, [], ◌∷◌, ◌++◌, Option, none, some, length, append_assoc,
}
use pskynet.Netpack.{Uncomplete, read_size}

-- No whole package stands in front.
abbrev pub IsShort : List ℕ → Type 0
IsShort [] = Unit {0}
IsShort (a ∷ []) = Unit {0}
IsShort (a ∷ b ∷ bytes) = length bytes < read_size a b

-- The stream `s` is the packages `ps` with their sizes in front, and the rest `r`.
pub data Cuts : List ℕ → List (List ℕ) → List ℕ → Type 0 where
  rest : {s r : List ℕ} {ps : List (List ℕ)} → IsShort s → ps ≡ [] → r ≡ s → Cuts s ps r
  cut :
      {s r : List ℕ} {ps : List (List ℕ)} (a b : ℕ) (p t : List ℕ) (later : List (List ℕ))
      → s ≡ a ∷ b ∷ (p ++ t)
      → read_size a b ≡ length p
      → ps ≡ p ∷ later
      → Cuts t later r
      → Cuts s ps r

-- What an entry of the table has of the package that it waits for.
pub data IsPart (uc : Uncomplete) (s : List ℕ) : Type 0 where
  half_size : uc.read ≡ none → s ≡ uc.header ∷ [] → IsPart uc s
  bytes :
      (n a b : ℕ)
      → uc.read ≡ some n
      → uc.size ≡ read_size a b
      → s ≡ a ∷ b ∷ uc.buffer
      → length uc.buffer < uc.size
      → IsPart uc s

-- The entry of a socket, or none, stands for the bytes of its stream that are not cut yet.
abbrev pub Stands : ℕ → Option Uncomplete → List ℕ → Type 0
Stands fd none s = s ≡ []
Stands fd (some uc) s = (uc.id ≡ fd) × IsPart uc s

-- Cutting in two steps: what is left of the first goes before the second.
pub Cuts-append :
    {s r : List ℕ} {ps : List (List ℕ)} (t q : List ℕ) (qs : List (List ℕ))
    → Cuts s ps r
    → Cuts (r ++ t) qs q
    → Cuts (s ++ t) (ps ++ qs) q
Cuts-append t q qs (rest short empty same) later = rw (empty, ← same) later
Cuts-append t q qs (cut a b p u ps' e size shape more) later =
    rw (e, shape)
      (cut a b p (u ++ t) (ps' ++ qs) (ap (λ k. a ∷ b ∷ k) (append_assoc p u t)) size refl
        (Cuts-append t q qs more later))
