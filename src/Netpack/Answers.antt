-- ===== src/Netpack/Answers.antt =====
-- What `filter_data_` of lualib-src/lua-netpack.c answers.
use pskynet.Prelude.{
  ℕ, ◌-◌, ◌≤◌, ◌<◌, ◌≡◌, refl, sym, subst, ap, ◌∙◌, inl, inr, List, [], ◌∷◌, ◌++◌, map, Option,
  none, some, arith, ◌==◌, ltb, length, take, drop, length-append, length-take, length-drop,
  take-append-drop, append_assoc, append-nil, Bool-cases, ltb→lt, ==→≡,
}
use pskynet.Netpack.{
  Uncomplete, Queue, push_data, get_queue, save_uncomplete, read_size, half, part, Answer, nothing,
  one, more, Filtered, push_rest, add_bytes, fill_uncomplete, filter_new,
}
use pskynet.Netpack.Ring.{packs, IsQueue}
use pskynet.Netpack.Chains.{pending, Kept}
use pskynet.Netpack.Cuts.{IsShort, Cuts, rest, cut, IsPart, half_size, bytes, Stands}
use pskynet.Netpack.Filter.{
  IsTable, netpack, save_uncomplete-Entered, queued_first, queued-IsTable, push_more-Fed,
  data-Queued, pending-hash,
}

-- How the packages reach Lua: none, the one that is returned, or all of them through the queue.
abbrev pub Delivers : ℕ → List (List ℕ) → Queue → Queue → Answer → Type 0
Delivers fd done q r nothing = (done ≡ []) × (packs r ≡ packs q)
Delivers fd done q r (one i p) = (i ≡ fd) × (done ≡ p ∷ []) × (packs r ≡ packs q)
Delivers fd done q r more = packs r ≡ packs q ++ map (netpack fd) done

-- The answer to a stream, and what is left of the stream.
pub record Answered (q : Queue) (fd : ℕ) (stream : List ℕ) (o : Filtered) : Type 0 where
  pub answer : Answer
  pub next : Option Queue
  pub returns : o ≡ some (answer, next)
  pub done : List (List ℕ)
  pub left : List ℕ
  pub uc : Option Uncomplete
  pub cuts : Cuts stream done left
  pub stands : Stands fd uc left
  pub kept : Kept q fd uc (get_queue next)
  pub ring : IsQueue (get_queue next)
  pub delivers : Delivers fd done q (get_queue next) answer

module _ (s : Option Queue) (fd : ℕ) (ok : IsTable (get_queue s))
    (free : pending (get_queue s) fd ≡ none) where
  wait :
      (stream : List ℕ) (uc : Uncomplete)
      → uc.id ≡ fd
      → IsPart uc stream
      → IsShort stream
      → Answered (get_queue s) fd stream (some (nothing, some (save_uncomplete s uc)))
  unfolding get_queue
  wait stream uc id is short =
      let e = save_uncomplete-Entered s fd uc ok free id in
      record {
        answer = nothing;
        next = some (save_uncomplete s uc);
        returns = refl;
        done = [];
        left = stream;
        uc = some uc;
        cuts = rest short refl refl;
        stands = (id, is);
        kept = e.kept;
        ring = e.ring;
        delivers = (refl, e.packages);
      }

  give :
      (a b : ℕ) (p : List ℕ)
      → read_size a b ≡ length p
      → Answered (get_queue s) fd (a ∷ b ∷ p) (some (one fd p, s))
  give a b p size = record {
    answer = one fd p;
    next = s;
    returns = refl;
    done = p ∷ [];
    left = [];
    uc = none;
    cuts = cut a b p [] [] (ap (λ k. a ∷ b ∷ k) (sym (append-nil p))) size refl (rest tt refl refl);
    stands = refl;
    kept = record { own = free; others = λ other apart. refl; unique = ok.unique };
    ring = ok.ring;
    delivers = (refl, refl, refl);
  }

  queue_up :
      (a b : ℕ) (p t : List ℕ)
      → read_size a b ≡ length p
      → 0 < length t
      → Answered (get_queue s) fd (a ∷ b ∷ (p ++ t)) (push_rest s fd p t)
  unfolding push_rest get_queue
  queue_up a b p t size some_ =
      let pushed = data-Queued s fd p ok.ring in
      let m =
        push_more-Fed (length t) (some (push_data s fd p)) fd t (queued-IsTable s fd p ok)
          (pending-hash (get_queue s) (push_data s fd p) fd pushed.hash ∙ free) some_
          (omega arith) in
      let f = queued_first s fd a b p t m.next ok size m.fed in
      record {
        answer = more;
        next = some m.next;
        returns = rw m.returns;
        done = f.done;
        left = f.left;
        uc = f.uc;
        cuts = f.cuts;
        stands = f.stands;
        kept = f.kept;
        ring = f.ring;
        delivers = f.packages;
      }

  -- Behind the part `got` of a package, of which the size is known.
  pub fill_uncomplete-Answered :
      (q : Queue) (a b : ℕ) (uc : Uncomplete) (chunk : List ℕ)
      → s ≡ some q
      → uc.id ≡ fd
      → uc.size ≡ read_size a b
      → length uc.buffer ≤ uc.size
      → Answered (get_queue s) fd (a ∷ b ∷ (uc.buffer ++ chunk)) (fill_uncomplete q fd uc chunk)
  unfolding fill_uncomplete
  fill_uncomplete-Answered q a b uc chunk e id size fits =
      let need : ℕ = uc.size - length uc.buffer in
      elim (Bool-cases (ltb (length chunk) need)) [
        | inl less ↦
            let short : length (uc.buffer ++ chunk) < uc.size =
              omega (arith, ltb→lt (length chunk) need less, length-append uc.buffer chunk) in
            rw (less, ← e)
              (wait (a ∷ b ∷ (uc.buffer ++ chunk)) (add_bytes uc chunk) id
                (bytes (length (uc.buffer ++ chunk)) a b refl size refl short) (omega arith))
        | inr whole ↦ elim (Bool-cases (length chunk == need)) [
          | inl exact ↦
              let all : length chunk ≡ need = ==→≡ (length chunk) need exact in
              rw (whole, exact, ← e)
                (give a b (uc.buffer ++ chunk) (omega (arith, length-append uc.buffer chunk)))
          | inr over ↦
              let long : need < length chunk = ground arith in
              let front : read_size a b ≡ length (uc.buffer ++ take need chunk) =
                omega (arith, length-append uc.buffer (take need chunk), length-take need chunk) in
              let split : (uc.buffer ++ take need chunk) ++ drop need chunk ≡ uc.buffer ++ chunk =
                append_assoc uc.buffer (take need chunk) (drop need chunk)
                ∙ ap (λ k. uc.buffer ++ k) (take-append-drop need chunk) in
              rw (whole, over, ← e)
                (subst
                  (λ k.
                    Answered (get_queue s) fd (a ∷ b ∷ k)
                      (push_rest s fd (uc.buffer ++ take need chunk) (drop need chunk)))
                  split
                  (queue_up a b (uc.buffer ++ take need chunk) (drop need chunk) front
                    (omega (arith, length-drop need chunk))))
        ]
      ]

  pub filter_new-Answered :
      (chunk : List ℕ) → 0 < length chunk → Answered (get_queue s) fd chunk (filter_new s fd chunk)
  unfolding filter_new
  filter_new-Answered [] some_ = absurd (omega arith)
  filter_new-Answered (b ∷ []) some_ = wait (b ∷ []) (half fd b) refl (half_size refl refl) tt
  filter_new-Answered (a ∷ b ∷ t) some_ =
      let n : ℕ = read_size a b in
      elim (Bool-cases (ltb (length t) n)) [
        | inl less ↦
            let short = ltb→lt (length t) n less in
            rw less (
              wait (a ∷ b ∷ t) (part fd n t) refl (bytes (length t) a b refl refl refl short) short)
        | inr whole ↦ elim (Bool-cases (length t == n)) [
          | inl exact ↦ rw (whole, exact) (give a b t (sym (==→≡ (length t) n exact)))
          | inr over ↦
              let long : n < length t = ground arith in
              rw (whole, over)
                (subst
                  (λ k.
                    Answered (get_queue s) fd (a ∷ b ∷ k) (push_rest s fd (take n t) (drop n t)))
                  (take-append-drop n t)
                  (queue_up a b (take n t) (drop n t) (omega (arith, length-take n t))
                    (omega (arith, length-drop n t))))
        ]
      ]
