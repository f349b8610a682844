-- ===== src/Netpack/Filter.antt =====
-- `filter_data_` of lualib-src/lua-netpack.c cuts every socket's stream into its packages.
use pskynet.Prelude.{
  ℕ, zero, suc, ◌≤◌, ◌<◌, ◌≡◌, refl, sym, subst, ap, ◌∙◌, inl, inr, List, [], ◌∷◌, ◌++◌, map,
  Option, none, some, arith, ◌==◌, ltb, length, take, drop, length-take, length-drop, take-all,
  take-append-drop, append_assoc, append-nil, Bool-cases, ltb→lt, ==→≡,
}
use pskynet.Netpack.{
  NetPack, Uncomplete, Queue, push_data, get_queue, save_uncomplete, read_size, half, part,
  push_more, find_chain, hash_fd,
}
use pskynet.Netpack.Ring.{packs, count, entries-ext, IsQueue, Queued, push_data-Queued}
use pskynet.Netpack.Chains.{IsUnique, first, pending, AllUnique, Kept, save_uncomplete-Kept}
use pskynet.Netpack.Cuts.{IsShort, Cuts, rest, cut, IsPart, half_size, bytes, Stands}

pub record IsTable (q : Queue) : Type 0 where
  pub ring : IsQueue q
  pub unique : AllUnique q

abbrev pub netpack : ℕ → List ℕ → NetPack
netpack fd p = record { id = fd; buffer = p }

-- The queue after some packages of a socket, with what waits for the next one.
pub record Fed (q : Queue) (fd : ℕ) (stream : List ℕ) (r : Queue) : Type 0 where
  pub done : List (List ℕ)
  pub left : List ℕ
  pub uc : Option Uncomplete
  pub cuts : Cuts stream done left
  pub stands : Stands fd uc left
  pub kept : Kept q fd uc r
  pub ring : IsQueue r
  pub packages : packs r ≡ packs q ++ map (netpack fd) done

push_data-some :
    (s : Option Queue) (fd : ℕ) (p : List ℕ)
    → push_data s fd p ≡ push_data (some (get_queue s)) fd p
unfolding push_data get_queue
push_data-some none fd p = refl
push_data-some (some q) fd p = refl

pub data-Queued :
    (s : Option Queue) (fd : ℕ) (p : List ℕ)
    → IsQueue (get_queue s)
    → Queued (get_queue s) (netpack fd p) (push_data s fd p)
data-Queued s fd p ok = rw (push_data-some s fd p) (push_data-Queued (get_queue s) fd p ok)

pub pending-hash : (q r : Queue) (fd : ℕ) → r.hash ≡ q.hash → pending r fd ≡ pending q fd
pending-hash q r fd e = ap (λ h. first (find_chain fd (h (hash_fd fd)))) e

-- A change behind one that leaves the table alone.
Kept-hash :
    (q m r : Queue) (fd : ℕ) (uc : Option Uncomplete)
    → m.hash ≡ q.hash
    → Kept m fd uc r
    → Kept q fd uc r
Kept-hash q m r fd uc e k = record {
  own = k.own;
  others = λ other apart. k.others other apart ∙ pending-hash q m other e;
  unique = k.unique;
}

pub Kept-trans :
    (q m r : Queue) (fd : ℕ) (u uc : Option Uncomplete)
    → Kept q fd u m
    → Kept m fd uc r
    → Kept q fd uc r
Kept-trans q m r fd u uc j k = record {
  own = k.own;
  others = λ other apart. k.others other apart ∙ j.others other apart;
  unique = k.unique;
}

pub packs-hash : (q : Queue) (h : ℕ → List Uncomplete) → packs (record q { hash = h }) ≡ packs q
packs-hash q h = entries-ext (record q { hash = h }) q q.head q.head (count q) (λ k p. refl)

-- The entry `uc` is saved, and the queue stays.
pub record Entered (s : Option Queue) (fd : ℕ) (uc : Uncomplete) : Type 0 where
  pub kept : Kept (get_queue s) fd (some uc) (save_uncomplete s uc)
  pub ring : IsQueue (save_uncomplete s uc)
  pub packages : packs (save_uncomplete s uc) ≡ packs (get_queue s)

pub save_uncomplete-Entered :
    (s : Option Queue) (fd : ℕ) (uc : Uncomplete)
    → IsTable (get_queue s)
    → pending (get_queue s) fd ≡ none
    → uc.id ≡ fd
    → Entered s fd uc
unfolding save_uncomplete
save_uncomplete-Entered s fd uc ok free id = record {
  kept =
      subst (λ n. Kept (get_queue s) n (some uc) (save_uncomplete s uc)) id
        (save_uncomplete-Kept s uc ok.unique
          (subst (λ n. pending (get_queue s) n ≡ none) (sym id) free));
  ring = record { some_room = ok.ring.some_room; head = ok.ring.head; tail = ok.ring.tail };
  packages = packs-hash (get_queue s) (save_uncomplete s uc).hash;
}

-- Nothing of the stream is a whole package; the entry `uc` is saved for it.
saved :
    (s : Option Queue) (fd : ℕ) (stream : List ℕ) (uc : Uncomplete)
    → IsTable (get_queue s)
    → pending (get_queue s) fd ≡ none
    → uc.id ≡ fd
    → IsPart uc stream
    → IsShort stream
    → Fed (get_queue s) fd stream (save_uncomplete s uc)
saved s fd stream uc ok free id is short =
    let e = save_uncomplete-Entered s fd uc ok free id in
    record {
      done = [];
      left = stream;
      uc = some uc;
      cuts = rest short refl refl;
      stands = (id, is);
      kept = e.kept;
      ring = e.ring;
      packages = e.packages ∙ sym (append-nil (packs (get_queue s)));
    }

-- One package is queued, and nothing waits behind it.
queued_last :
    (s : Option Queue) (fd a b : ℕ) (p : List ℕ)
    → IsTable (get_queue s)
    → pending (get_queue s) fd ≡ none
    → read_size a b ≡ length p
    → Fed (get_queue s) fd (a ∷ b ∷ p) (push_data s fd p)
queued_last s fd a b p ok free size =
    let pushed = data-Queued s fd p ok.ring in
    record {
      done = p ∷ [];
      left = [];
      uc = none;
      cuts =
          cut a b p [] [] (ap (λ k. a ∷ b ∷ k) (sym (append-nil p))) size refl (rest tt refl refl);
      stands = refl;
      kept = record {
        own = pending-hash (get_queue s) (push_data s fd p) fd pushed.hash ∙ free;
        others = λ other apart. pending-hash (get_queue s) (push_data s fd p) other pushed.hash;
        unique = λ h. subst (λ f. IsUnique (f h)) (sym pushed.hash) (ok.unique h);
      };
      ring = pushed.valid;
      packages = pushed.packages;
    }

-- One package is queued before others.
pub queued_first :
    (s : Option Queue) (fd a b : ℕ) (p t : List ℕ) (r : Queue)
    → IsTable (get_queue s)
    → read_size a b ≡ length p
    → Fed (push_data s fd p) fd t r
    → Fed (get_queue s) fd (a ∷ b ∷ (p ++ t)) r
queued_first s fd a b p t r ok size f =
    let pushed = data-Queued s fd p ok.ring in
    record {
      done = p ∷ f.done;
      left = f.left;
      uc = f.uc;
      cuts = cut a b p t f.done refl size refl f.cuts;
      stands = f.stands;
      kept = Kept-hash (get_queue s) (push_data s fd p) r fd f.uc pushed.hash f.kept;
      ring = f.ring;
      packages =
          f.packages
          ∙ ap (λ xs. xs ++ map (netpack fd) f.done) pushed.packages
          ∙ append_assoc (packs (get_queue s)) (netpack fd p ∷ []) (map (netpack fd) f.done);
    }

pub queued-IsTable :
    (s : Option Queue) (fd : ℕ) (p : List ℕ) → IsTable (get_queue s) → IsTable (push_data s fd p)
queued-IsTable s fd p ok =
    let pushed = data-Queued s fd p ok.ring in
    record {
      ring = pushed.valid;
      unique = λ h. subst (λ f. IsUnique (f h)) (sym pushed.hash) (ok.unique h);
    }

pub record MoreFed (s : Option Queue) (fd : ℕ) (stream : List ℕ) (o : Option Queue) : Type 0 where
  pub next : Queue
  pub returns : o ≡ some next
  pub fed : Fed (get_queue s) fd stream next

pub push_more-Fed :
    (fuel : ℕ) (s : Option Queue) (fd : ℕ) (stream : List ℕ)
    → IsTable (get_queue s)
    → pending (get_queue s) fd ≡ none
    → 0 < length stream
    → length stream ≤ fuel
    → MoreFed s fd stream (push_more fuel s fd stream)
unfolding push_more get_queue
push_more-Fed zero s fd stream ok free some_ fits = absurd (omega arith)
push_more-Fed (suc fuel) s fd [] ok free some_ fits = absurd (omega arith)
push_more-Fed (suc fuel) s fd (b ∷ []) ok free some_ fits = record {
  next = save_uncomplete s (half fd b);
  returns = refl;
  fed = saved s fd (b ∷ []) (half fd b) ok free refl (half_size refl refl) tt;
}
push_more-Fed (suc fuel) s fd (a ∷ b ∷ t) ok free some_ fits =
    let n : ℕ = read_size a b in
    elim (Bool-cases (ltb (length t) n)) [
      | inl less ↦
          let short = ltb→lt (length t) n less in
          rw less (record {
            next = save_uncomplete s (part fd n t);
            returns = refl;
            fed =
                saved s fd (a ∷ b ∷ t) (part fd n t) ok free refl
                  (bytes (length t) a b refl refl refl short) short;
          })
      | inr whole ↦ elim (Bool-cases (length t == n)) [
        | inl exact ↦
            let size : n ≡ length t = sym (==→≡ (length t) n exact) in
            let all : take n t ≡ t = take-all n t (omega arith) in
            rw (whole, exact, all)
              (record {
                next = push_data s fd t;
                returns = refl;
                fed = queued_last s fd a b t ok free size;
              })
        | inr over ↦
            let long : n < length t = ground arith in
            let front : n ≡ length (take n t) = omega (arith, length-take n t) in
            let pushed = data-Queued s fd (take n t) ok.ring in
            let later =
              push_more-Fed fuel (some (push_data s fd (take n t))) fd (drop n t)
                (queued-IsTable s fd (take n t) ok)
                (pending-hash (get_queue s) (push_data s fd (take n t)) fd pushed.hash ∙ free)
                (omega (arith, length-drop n t)) (omega (arith, length-drop n t)) in
            rw (whole, over)
              (record {
                next = later.next;
                returns = later.returns;
                fed =
                    subst (λ k. Fed (get_queue s) fd (a ∷ b ∷ k) later.next) (take-append-drop n t)
                      (queued_first s fd a b (take n t) (drop n t) later.next ok front later.fed);
              })
      ]
    ]
