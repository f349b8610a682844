-- ===== src/Netpack/Tests.antt =====
-- Packages of lualib-src/lua-netpack.c at concrete inputs.
use pskynet.Prelude.{
  ℕ, zero, suc, ap, sym, ◌∙◌, ◌++◌, ◌≡◌, refl, List, [], ◌∷◌, ◌>>=◌, Option, none, some, arith,
  length,
}
use pskynet.Netpack.{
  NetPack, Queue, new_queue, get_queue, find_uncomplete, find_chain, hash_fd, filter_data,
  filter_new, push_rest, push_more, push_data, save_uncomplete, advance, half, pack, pack_padding,
  write_size, clear, entries, read_size,
}
use pskynet.Netpack.Ring.{IsQueue, packs, Queued, push_data-Queued, clear_lem}
use pskynet.Netpack.Chains.{pending, save_uncomplete-Kept}
use pskynet.Netpack.Cuts.{half_size, Stands, Cuts, cut, rest}
use pskynet.Netpack.Filter.{IsTable, netpack}
use pskynet.Netpack.Answers.{Answered}
use pskynet.Netpack.Stream.{filter_data-Answered}
use pskynet.Netpack.Packed.{Received, filter_data-packed, pack-limit, pack_padding-pack}

-- One byte of the socket 9 has come.
abbrev waiting : Queue
waiting = save_uncomplete none (half 9 0)

empty_table : IsTable (get_queue none)
unfolding get_queue new_queue
empty_table = record {
  ring = record { some_room = omega arith; head = omega arith; tail = omega arith };
  unique = λ h. tt;
}

nothing_pending : (fd : ℕ) → pending (get_queue none) fd ≡ none
unfolding get_queue new_queue find_chain
nothing_pending fd = refl

waiting-IsTable : IsTable waiting
unfolding save_uncomplete get_queue new_queue
waiting-IsTable = record {
  ring = record { some_room = omega arith; head = omega arith; tail = omega arith };
  unique = (save_uncomplete-Kept none (half 9 0) (empty_table.unique) (nothing_pending 9)).unique;
}

waiting-Stands : Stands 9 (pending waiting 9) (0 ∷ [])
unfolding save_uncomplete get_queue new_queue find_chain hash_fd
waiting-Stands = (refl, half_size refl refl)

filter_data-Answered_example :
    Answered waiting 9 (0 ∷ 2 ∷ 7 ∷ 8 ∷ 0 ∷ []) (filter_data (some waiting) 9 (2 ∷ 7 ∷ 8 ∷ 0 ∷ []))
unfolding get_queue
filter_data-Answered_example =
    filter_data-Answered (some waiting) 9 (0 ∷ []) (2 ∷ 7 ∷ 8 ∷ 0 ∷ []) waiting-IsTable
      waiting-Stands (omega arith)

filter_data-packed_example :
    Received (some waiting) 9 ((7 ∷ 8 ∷ []) ∷ (5 ∷ []) ∷ []) (2 ∷ 7 ∷ 8 ∷ 0 ∷ 1 ∷ 5 ∷ [])
unfolding get_queue pack write_size
filter_data-packed_example =
    filter_data-packed (some waiting) 9 ((7 ∷ 8 ∷ []) ∷ (5 ∷ []) ∷ []) (0 ∷ [])
      (2 ∷ 7 ∷ 8 ∷ 0 ∷ 1 ∷ 5 ∷ []) waiting-IsTable waiting-Stands (omega arith)
      (omega arith, (omega arith, tt)) refl

abbrev fresh : Queue
fresh = new_queue

fresh-IsQueue : IsQueue fresh
unfolding new_queue
fresh-IsQueue = record { some_room = omega arith; head = omega arith; tail = omega arith }

push_data-Queued_example : Queued fresh (netpack 3 (1 ∷ [])) (push_data (some fresh) 3 (1 ∷ []))
push_data-Queued_example = push_data-Queued fresh 3 (1 ∷ []) fresh-IsQueue

-- Two packages and a half one at once go through the queue.
abbrev waiting_packs : Option (List NetPack)
waiting_packs = do
  r ← filter_data none 4 (0 ∷ 1 ∷ 5 ∷ 0 ∷ 2 ∷ 6 ∷ 7 ∷ 0 ∷ [])
  some (packs (get_queue r.1))

more_test : waiting_packs ≡ some (netpack 4 (5 ∷ []) ∷ netpack 4 (6 ∷ 7 ∷ []) ∷ [])
unfolding filter_data find_uncomplete filter_new push_rest push_more push_data save_uncomplete
    advance get_queue new_queue read_size entries
more_test = refl

zeros : ℕ → List ℕ
zeros zero = []
zeros (suc n) = 0 ∷ zeros n

length-zeros : (n : ℕ) → length (zeros n) ≡ n
unfolding zeros
length-zeros zero = refl
length-zeros (suc n) = ap suc (length-zeros n)

-- 65536 bytes that look like a package of 65534 bytes.
abbrev full : List ℕ
full = 255 ∷ 254 ∷ zeros 65534

full-Cuts : Cuts (full ++ []) (zeros 65534 ∷ []) []
full-Cuts =
    let known : read_size 255 254 ≡ 65534 = unfold read_size in refl in
    let size : read_size 255 254 ≡ length (zeros 65534) = known ∙ sym (length-zeros 65534) in
    cut 255 254 (zeros 65534) [] [] refl size refl (rest tt refl refl)

pack-limit_example :
    (bytes_ : List ℕ) × (pack full ≡ some bytes_) × Cuts (bytes_ ++ []) ([] ∷ zeros 65534 ∷ []) []
pack-limit_example =
    pack-limit full [] (zeros 65534 ∷ []) [] (omega (arith, length-zeros 65534)) full-Cuts

pack_padding-pack_example : pack_padding (1 ∷ []) (2 ∷ 3 ∷ []) ≡ pack (2 ∷ 3 ∷ 1 ∷ [])
pack_padding-pack_example = pack_padding-pack (1 ∷ []) (2 ∷ 3 ∷ [])

clear_lem_example :
    ((clear fresh).0 ≡ packs fresh) × (packs (clear fresh).1 ≡ []) × IsQueue (clear fresh).1
clear_lem_example = clear_lem fresh fresh-IsQueue
