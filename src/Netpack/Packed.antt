-- ===== src/Netpack/Packed.antt =====
-- The streams that `lpack` of lualib-src/lua-netpack.c writes, and what `filter_data_` makes of them.
use pskynet.Prelude.{
  ℕ, ◌+◌, ◌*◌, ◌/◌, ◌%◌, ◌^◌, ◌<◌, ◌≡◌, ◌≢◌, refl, sym, subst, ap₂, ◌∙◌, List, [], ◌∷◌, ◌++◌,
  Option, none, some, ◌>>=◌, arith, length, take, drop, length-append, bit_and, ltb, false,
}
use pskynet.Prelude.Bits.{bit_and_mask, bit_or_low_digits}
use pskynet.Prelude.Bytes.{take-append_self, drop-append_self}
use pskynet.Netpack.{
  Queue, Uncomplete, Answer, get_queue, read_size, write_size, pack, pack_padding, filter_data,
}
use pskynet.Netpack.Ring.{IsQueue}
use pskynet.Netpack.Chains.{pending}
use pskynet.Netpack.Cuts.{IsShort, Cuts, rest, cut, half_size, bytes, Stands}
use pskynet.Netpack.Filter.{IsTable}
use pskynet.Netpack.Answers.{Delivers}
use pskynet.Netpack.Stream.{filter_data-Answered}

read_size_lem : (a b : ℕ) → b < 2 ^ 8 → read_size a b ≡ a * 2 ^ 8 + b
unfolding read_size
read_size_lem a b h = bit_or_low_digits 8 a b h

-- The two bytes of a size, which keep it to 16 bits.
record Sized (n : ℕ) : Type 0 where
  high : ℕ
  low : ℕ
  writes : write_size n ≡ high ∷ low ∷ []
  reads : read_size high low ≡ n % 2 ^ 16

write_size-Sized : (n : ℕ) → Sized n
unfolding write_size
write_size-Sized n =
    let low : bit_and n 0xff ≡ n % 2 ^ 8 = bit_and_mask 8 n in
    let high : bit_and (n / 2 ^ 8) 0xff ≡ n / 2 ^ 8 % 2 ^ 8 = bit_and_mask 8 (n / 2 ^ 8) in
    record {
      high = bit_and (n / 2 ^ 8) 0xff;
      low = bit_and n 0xff;
      writes = refl;
      reads =
          read_size_lem (bit_and (n / 2 ^ 8) 0xff) (bit_and n 0xff) (omega (arith, low))
          ∙ omega (arith, low, high);
    }

-- The bytes that `lpack` writes for one package after another.
abbrev pub pack_all : List (List ℕ) → Option (List ℕ)
pack_all [] = some []
pack_all (p ∷ ps) = do first ← pack p; later ← pack_all ps; some (first ++ later)

abbrev pub AreSmall : List (List ℕ) → Type 0
AreSmall [] = Unit {0}
AreSmall (p ∷ ps) = (length p < 2 ^ 16) × AreSmall ps

pub record Packed (ps : List (List ℕ)) : Type 0 where
  pub sent : List ℕ
  pub returns : pack_all ps ≡ some sent
  pub cuts : Cuts sent ps []

pub pack_all-Packed : (ps : List (List ℕ)) → AreSmall ps → Packed ps
unfolding pack
pack_all-Packed [] small = record { sent = []; returns = refl; cuts = rest tt refl refl }
pack_all-Packed (p ∷ ps) small =
    let s = write_size-Sized (length p) in
    let later = pack_all-Packed ps small.1 in
    let fits : ltb 0x10000 (length p) ≡ false = ground (arith, small.0) in
    record {
      sent = s.high ∷ s.low ∷ (p ++ later.sent);
      returns = rw (fits, s.writes, later.returns);
      cuts =
          cut s.high s.low p later.sent ps refl (omega (arith, s.reads, small.0)) refl later.cuts;
    }

-- A stream is cut in one way.
pub record Same (ps qs : List (List ℕ)) (r q : List ℕ) : Type 0 where
  pub packages : qs ≡ ps
  pub left : q ≡ r

not_short :
    {s : List ℕ} (a b : ℕ) (p t : List ℕ)
    → IsShort s
    → s ≡ a ∷ b ∷ (p ++ t)
    → read_size a b ≡ length p
    → ⊥
not_short a b p t short e size =
    let h : length (p ++ t) < read_size a b = subst IsShort e short in
    omega (arith, h, length-append p t)

record SameFirst (p t p' t' : List ℕ) : Type 0 where
  front : p' ≡ p
  back : t' ≡ t

same_first :
    (a b : ℕ) (p t : List ℕ) (a' b' : ℕ) (p' t' : List ℕ)
    → a ∷ b ∷ (p ++ t) ≡ a' ∷ b' ∷ (p' ++ t')
    → read_size a b ≡ length p
    → read_size a' b' ≡ length p'
    → SameFirst p t p' t'
same_first a b p t a' b' p' t' e size size' =
    let x : a ≡ a' = cc in
    let y : b ≡ b' = cc in
    let z : p ++ t ≡ p' ++ t' = cc in
    let n : length p' ≡ length p = sym size' ∙ ap₂ read_size (sym x) (sym y) ∙ size in
    record {
      front = sym (take-append_self p' t') ∙ ap₂ take n (sym z) ∙ take-append_self p t;
      back = sym (drop-append_self p' t') ∙ ap₂ drop n (sym z) ∙ drop-append_self p t;
    }

pub Cuts-Same :
    {s r : List ℕ} {ps qs : List (List ℕ)} (q : List ℕ) → Cuts s ps r → Cuts s qs q → Same ps qs r q
Cuts-Same q (rest short empty same) (rest short' empty' same') = record { packages = cc; left = cc }
Cuts-Same q (rest short empty same) (cut a b p t later e size shape more) =
    absurd (not_short a b p t short e size)
Cuts-Same q (cut a b p t later e size shape more) (rest short empty same) =
    absurd (not_short a b p t short e size)
Cuts-Same q (cut a b p t later e size shape more) (cut a' b' p' t' later' e' size' shape' more') =
    let f = same_first a b p t a' b' p' t' (sym e ∙ e') size size' in
    let moved : Cuts t later' q = subst (λ k. Cuts k later' q) f.back more' in
    let ih = Cuts-Same q more moved in
    record {
      packages = shape' ∙ ap₂ (λ x xs. x ∷ xs) f.front ih.packages ∙ sym shape;
      left = ih.left;
    }

-- What Lua gets, and what is left for the socket.
pub record Received (s : Option Queue) (fd : ℕ) (ps : List (List ℕ)) (chunk : List ℕ) : Type 0 where
  pub answer : Answer
  pub next : Option Queue
  pub returns : filter_data s fd chunk ≡ some (answer, next)
  pub delivers : Delivers fd ps (get_queue s) (get_queue next) answer
  pub own : pending (get_queue next) fd ≡ none
  pub others :
      (other : ℕ) → other ≢ fd → pending (get_queue next) other ≡ pending (get_queue s) other
  pub ring : IsQueue (get_queue next)

nothing_left :
    (fd : ℕ) (uc : Option Uncomplete) (left : List ℕ) → Stands fd uc left → left ≡ [] → uc ≡ none
nothing_left fd none left stands e = refl
nothing_left fd (some uc) left (id, half_size has shape) e = absurd (ground arith)
nothing_left fd (some uc) left (id, bytes n a b has size shape fits) e = absurd (ground arith)

-- When the last byte of packages that `lpack` has written for a socket comes, whatever chunks the
-- stream came in, `filter_data_` gives Lua these packages in their order, it keeps nothing for
-- the socket and leaves the entries of the other sockets. Each package is shorter than 65536 bytes.
pub filter_data-packed :
    (s : Option Queue) (fd : ℕ) (ps : List (List ℕ)) (seen chunk : List ℕ)
    → IsTable (get_queue s)
    → Stands fd (pending (get_queue s) fd) seen
    → 0 < length chunk
    → AreSmall ps
    → pack_all ps ≡ some (seen ++ chunk)
    → Received s fd ps chunk
filter_data-packed s fd ps seen chunk ok stands some_ small sent =
    let a = filter_data-Answered s fd seen chunk ok stands some_ in
    let p = pack_all-Packed ps small in
    let e : p.sent ≡ seen ++ chunk = cc in
    let same = Cuts-Same [] a.cuts (subst (λ k. Cuts k ps []) e p.cuts) in
    record {
      answer = a.answer;
      next = a.next;
      returns = a.returns;
      delivers =
          subst (λ d. Delivers fd d (get_queue s) (get_queue a.next) a.answer) (sym same.packages)
            a.delivers;
      own = a.kept.own ∙ nothing_left fd a.uc a.left a.stands (sym same.left);
      others = a.kept.others;
      ring = a.ring;
    }

-- `lpack_padding` writes what `lpack` writes for the text with the cookie behind it, and both
-- refuse the same lengths.
pub pack_padding-pack : (cookie ptr : List ℕ) → pack_padding cookie ptr ≡ pack (ptr ++ cookie)
unfolding pack_padding pack
pack_padding-pack cookie ptr =
    let e : length (ptr ++ cookie) ≡ length cookie + length ptr =
      omega (arith, length-append ptr cookie) in
    rw e

-- A package of just 65536 bytes is not refused, and it is written as an empty package that 65536
-- more bytes follow.
pub pack-limit :
    (p later : List ℕ) (ps : List (List ℕ)) (left : List ℕ)
    → length p ≡ 0x10000
    → Cuts (p ++ later) ps left
    → (bytes_ : List ℕ) × (pack p ≡ some bytes_) × Cuts (bytes_ ++ later) ([] ∷ ps) left
unfolding pack write_size
pack-limit p later ps left size h =
    (0 ∷ 0 ∷ p, rw size, cut 0 0 [] (p ++ later) ps refl (read_size_lem 0 0 (omega arith)) refl h)
