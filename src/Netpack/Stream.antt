-- ===== src/Netpack/Stream.antt =====
-- `filter_data_` of lualib-src/lua-netpack.c, chunk after chunk of a socket's stream.
use pskynet.Prelude.{
  ℕ, ◌<◌, ◌≡◌, refl, subst, ap, ◌∙◌, inl, inr, List, [], ◌∷◌, ◌++◌, map, Option, none, some, arith,
  length, Option-cases,
}
use pskynet.Netpack.{
  Uncomplete, Queue, set, get_queue, new_queue, read_size, Answer, nothing, one, more, Filtered,
  fill_uncomplete, filter_old, filter_data, find_chain, hash_fd,
}
use pskynet.Netpack.Ring.{packs}
use pskynet.Netpack.Chains.{pending, Kept, find_uncomplete-Found, find_uncomplete-none}
use pskynet.Netpack.Cuts.{IsPart, half_size, bytes, Stands}
use pskynet.Netpack.Filter.{IsTable, netpack, Kept-trans, packs-hash}
use pskynet.Netpack.Answers.{Delivers, Answered, fill_uncomplete-Answered, filter_new-Answered}

Delivers-packs :
    (fd : ℕ) (done : List (List ℕ)) (q m r : Queue) (a : Answer)
    → packs m ≡ packs q
    → Delivers fd done m r a
    → Delivers fd done q r a
Delivers-packs fd done q m r nothing e d = (d.0, d.1 ∙ e)
Delivers-packs fd done q m r (one i p) e d = (d.0, d.1, d.2 ∙ e)
Delivers-packs fd done q m r more e d = d ∙ ap (λ ps. ps ++ map (netpack fd) done) e

-- An answer behind the search that takes the socket's entry out.
Answered-taken :
    (q : Queue) (fd : ℕ) (h : ℕ → List Uncomplete) (stream : List ℕ) (o : Filtered)
    → Kept q fd none (record q { hash = h })
    → Answered (record q { hash = h }) fd stream o
    → Answered q fd stream o
Answered-taken q fd h stream o kept a = record {
  answer = a.answer;
  next = a.next;
  returns = a.returns;
  done = a.done;
  left = a.left;
  uc = a.uc;
  cuts = a.cuts;
  stands = a.stands;
  kept = Kept-trans q (record q { hash = h }) (get_queue a.next) fd none a.uc kept a.kept;
  ring = a.ring;
  delivers =
      Delivers-packs fd a.done q (record q { hash = h }) (get_queue a.next) a.answer
        (packs-hash q h) a.delivers;
}

module _ (m : Queue) (fd : ℕ) (ok : IsTable m) (free : pending m fd ≡ none) where
  -- Behind an entry that was taken out of the table.
  filter_old-Answered :
      (uc : Uncomplete) (seen chunk : List ℕ)
      → uc.id ≡ fd
      → IsPart uc seen
      → 0 < length chunk
      → Answered m fd (seen ++ chunk) (filter_old m fd uc chunk)
  unfolding filter_old get_queue fill_uncomplete
  filter_old-Answered uc seen chunk id (bytes n a b has size shape fits) some_ =
      rw (has, shape)
        (fill_uncomplete-Answered (some m) fd ok free m a b uc chunk refl id size (omega arith))
  filter_old-Answered uc seen [] id (half_size has shape) some_ = absurd (omega arith)
  filter_old-Answered uc seen (b ∷ t) id (half_size has shape) some_ =
      rw (has, shape)
        (fill_uncomplete-Answered (some m) fd ok free m uc.header b
          (record uc { size = read_size uc.header b; buffer = []; read = some 0 }) t refl id refl
          (omega arith))

-- The entry of the socket is there.
filter_found :
    (q : Queue) (fd : ℕ) (uc : Uncomplete) (seen chunk : List ℕ)
    → IsTable q
    → pending q fd ≡ some uc
    → IsPart uc seen
    → 0 < length chunk
    → Answered q fd (seen ++ chunk) (filter_data (some q) fd chunk)
unfolding filter_data
filter_found q fd uc seen chunk ok has is some_ =
    let f = find_uncomplete-Found q fd uc ok.unique has in
    let h : ℕ → List Uncomplete = set q.hash (hash_fd fd) f.left in
    let m : Queue = record q { hash = h } in
    let table_ : IsTable m = record {
      ring = record { some_room = ok.ring.some_room; head = ok.ring.head; tail = ok.ring.tail };
      unique = f.kept.unique;
    } in
    rw (f.returns, filter_data)
      (Answered-taken q fd h (seen ++ chunk) (filter_old m fd uc chunk) f.kept
        (filter_old-Answered m fd table_ f.kept.own uc seen chunk f.id is some_))

filter_held :
    (s : Option Queue) (fd : ℕ) (uc : Uncomplete) (seen chunk : List ℕ)
    → IsTable (get_queue s)
    → pending (get_queue s) fd ≡ some uc
    → IsPart uc seen
    → 0 < length chunk
    → Answered (get_queue s) fd (seen ++ chunk) (filter_data s fd chunk)
unfolding get_queue new_queue find_chain
filter_held none fd uc seen chunk ok has is some_ = absurd (cc)
filter_held (some q) fd uc seen chunk ok has is some_ =
    filter_found q fd uc seen chunk ok has is some_

-- A chunk of a socket's stream: its packages, in front of them the bytes that had come, are
-- delivered once and in order, and what is left is kept for the next chunk.
pub filter_data-Answered :
    (s : Option Queue) (fd : ℕ) (seen chunk : List ℕ)
    → IsTable (get_queue s)
    → Stands fd (pending (get_queue s) fd) seen
    → 0 < length chunk
    → Answered (get_queue s) fd (seen ++ chunk) (filter_data s fd chunk)
unfolding filter_data get_queue
filter_data-Answered s fd seen chunk ok stands some_ =
    elim (Option-cases (pending (get_queue s) fd)) [
      | inl free ↦
          let fresh : seen ≡ [] = subst (λ u. Stands fd u seen) free stands in
          rw (find_uncomplete-none s fd free, filter_data, fresh)
            (filter_new-Answered s fd ok free chunk some_)
      | inr (uc, has) ↦
          let is : (uc.id ≡ fd) × IsPart uc seen = subst (λ u. Stands fd u seen) has stands in
          filter_held s fd uc seen chunk ok has is.1 some_
    ]
