-- ===== src/Netpack.antt =====
-- lualib-src/lua-netpack.c: byte streams are cut into packages, which wait in a queue.
pub mod Ring
pub mod Chains
pub mod Cuts
pub mod Filter
pub mod Answers
pub mod Stream
pub mod Packed
mod Tests
use pskynet.Prelude.{
  ℕ, zero, suc, ◌+◌, ◌-◌, ◌*◌, ◌/◌, ◌%◌, ◌^◌, Bool, true, false, List, [], ◌∷◌, ◌++◌, Option, none,
  some, ◌>>=◌, bit_and, bit_or, ◌==◌, ltb, leb, if◌then◌else◌, length, take, drop,
}

-- QUEUESIZE
abbrev pub queue_size : ℕ
queue_size = 1024

-- HASHSIZE
abbrev pub hash_size : ℕ
hash_size = 4096

-- `size` is the length of the buffer.
pub record NetPack : Type 0 where
  pub id : ℕ
  pub buffer : List ℕ

-- `pack.buffer` has the `read` bytes that have come; `read` is `none` where the code has -1.
pub record Uncomplete : Type 0 where
  pub id : ℕ
  pub size : ℕ
  pub buffer : List ℕ
  pub read : Option ℕ
  pub header : ℕ

-- A chain of `next` pointers is a list.
pub record Queue : Type 0 where
  pub cap : ℕ
  pub head : ℕ
  pub tail : ℕ
  pub hash : ℕ → List Uncomplete
  pub queue : ℕ → NetPack

abbrev pub set {ℓ} : {A : Type ℓ} → (ℕ → A) → ℕ → A → ℕ → A
set f k a j = if k == j then a else f j

-- A socket id is not negative; the sum wraps.
unfoldable pub hash_fd : ℕ → ℕ
hash_fd fd = (fd / 2 ^ 24 + fd / 2 ^ 12 + fd) % 2 ^ 32 % hash_size

-- The search of `find_uncomplete` in a chain: what it finds and the chain without it.
unfoldable pub find_chain : ℕ → List Uncomplete → Option (Uncomplete × List Uncomplete)
find_chain fd [] = none
find_chain fd (uc ∷ ucs) =
    let rest = find_chain fd ucs in
    if uc.id == fd then some (uc, ucs) else do (found, left) ← rest; some (found, uc ∷ left)

-- `find_uncomplete` takes the entry out of the table. The queue is `none` where the code has NULL.
unfoldable pub find_uncomplete : Option Queue → ℕ → Option (Uncomplete × Queue)
find_uncomplete none fd = none
find_uncomplete (some q) fd = do
  (uc, left) ← find_chain fd (q.hash (hash_fd fd))
  some (uc, record q { hash = set q.hash (hash_fd fd) left })

unfoldable pub new_queue : Queue
new_queue = record {
  cap = queue_size;
  head = 0;
  tail = 0;
  hash = λ h. [];
  queue = λ i. record { id = 0; buffer = [] };
}

unfoldable pub get_queue : Option Queue → Queue
get_queue none = new_queue
get_queue (some q) = q

-- The queue that takes the old one's place.
unfoldable pub expand_queue : Queue → Queue
expand_queue q = record {
  cap = q.cap + queue_size;
  head = 0;
  tail = q.cap;
  hash = q.hash;
  queue = λ i. q.queue ((q.head + i) % q.cap);
}

unfoldable pub advance : ℕ → ℕ → ℕ
advance i cap = if leb cap (i + 1) then i + 1 - cap else i + 1

unfoldable pub push_data : Option Queue → ℕ → List ℕ → Queue
push_data s fd buffer =
    let q = get_queue s in
    let pushed : Queue = record q {
      queue = set q.queue q.tail (record { id = fd; buffer = buffer });
      tail = advance q.tail q.cap;
    } in
    if q.head == advance q.tail q.cap then expand_queue pushed else pushed

-- `save_uncomplete`, with the entry's other fields.
unfoldable pub save_uncomplete : Option Queue → Uncomplete → Queue
save_uncomplete s uc =
    let q = get_queue s in
    record q { hash = set q.hash (hash_fd uc.id) (uc ∷ q.hash (hash_fd uc.id)) }

unfoldable pub read_size : ℕ → ℕ → ℕ
read_size b0 b1 = bit_or (b0 * 2 ^ 8) b1

abbrev pub half : ℕ → ℕ → Uncomplete
half fd b = record { id = fd; size = 0; buffer = []; read = none; header = b }

abbrev pub part : ℕ → ℕ → List ℕ → Uncomplete
part fd size bytes = record {
  id = fd;
  size = size;
  buffer = bytes;
  read = some (length bytes);
  header = 0;
}

-- `push_more` on fuel; the buffer has a byte at least. `none` is out of fuel, or a read past the end.
unfoldable pub push_more : ℕ → Option Queue → ℕ → List ℕ → Option Queue
push_more zero s fd buffer = none
push_more (suc fuel) s fd [] = none
push_more (suc fuel) s fd (b ∷ []) = some (save_uncomplete s (half fd b))
push_more (suc fuel) s fd (b0 ∷ b1 ∷ bytes) =
    let pack_size = read_size b0 b1 in
    let pushed : Queue = push_data s fd (take pack_size bytes) in
    let rest = push_more fuel (some pushed) fd (drop pack_size bytes) in
    if ltb (length bytes) pack_size
    then some (save_uncomplete s (part fd pack_size bytes))
    else if length bytes == pack_size
    then some pushed
    else rest

-- What `filter_data_` returns to Lua: nothing, one package, or word that the queue has more.
pub data Answer : Type 0 where
  nothing : Answer
  one : ℕ → List ℕ → Answer
  more : Answer

abbrev pub Filtered : Type 0
Filtered = Option (Answer × Option Queue)

-- The packages behind the first one.
unfoldable pub push_rest : Option Queue → ℕ → List ℕ → List ℕ → Filtered
push_rest s fd buffer bytes = do
  q ← push_more (length bytes) (some (push_data s fd buffer)) fd bytes
  some (more, some q)

abbrev pub add_bytes : Uncomplete → List ℕ → Uncomplete
add_bytes uc bytes = record uc {
  buffer = uc.buffer ++ bytes;
  read = some (length (uc.buffer ++ bytes));
}

-- `filter_data_` where `uc` has the size and the first bytes of its package.
unfoldable pub fill_uncomplete : Queue → ℕ → Uncomplete → List ℕ → Filtered
fill_uncomplete q fd uc bytes =
    let need = uc.size - length uc.buffer in
    if ltb (length bytes) need
    then some (nothing, some (save_uncomplete (some q) (add_bytes uc bytes)))
    else if length bytes == need
    then some (one fd (uc.buffer ++ bytes), some q)
    else push_rest (some q) fd (uc.buffer ++ take need bytes) (drop need bytes)

unfoldable pub filter_old : Queue → ℕ → Uncomplete → List ℕ → Filtered
filter_old q fd uc bytes = elim uc.read [
  | some n ↦ fill_uncomplete q fd uc bytes
  | none ↦ elim bytes [
    | [] ↦ none
    | b ∷ rest ↦
        fill_uncomplete q fd
          (record uc { size = read_size uc.header b; buffer = []; read = some 0 }) rest
  ]
]

unfoldable pub filter_new : Option Queue → ℕ → List ℕ → Filtered
filter_new s fd [] = none
filter_new s fd (b ∷ []) = some (nothing, some (save_uncomplete s (half fd b)))
filter_new s fd (b0 ∷ b1 ∷ bytes) =
    let pack_size = read_size b0 b1 in
    if ltb (length bytes) pack_size
    then some (nothing, some (save_uncomplete s (part fd pack_size bytes)))
    else if length bytes == pack_size
    then some (one fd bytes, s)
    else push_rest s fd (take pack_size bytes) (drop pack_size bytes)

-- `filter_data_`
unfoldable pub filter_data : Option Queue → ℕ → List ℕ → Filtered
filter_data s fd bytes = elim (find_uncomplete s fd) [
  | some (uc, q) ↦ filter_old q fd uc bytes
  | none ↦ filter_new s fd bytes
]

-- What the socket layer reports; `connect` and types that `lfilter` does not know are `other`.
pub data SocketMessage : Type 0 where
  received : ℕ → List ℕ → SocketMessage
  closed : ℕ → SocketMessage
  accepted : ℕ → List ℕ → SocketMessage
  failed : ℕ → List ℕ → SocketMessage
  other : SocketMessage

-- What `lfilter` returns besides the queue.
pub data Event : Type 0 where
  nothing_new : Event
  filtered : Answer → Event
  close : ℕ → Event
  open_ : ℕ → List ℕ → Event
  error : ℕ → List ℕ → Event

-- `lfilter`
unfoldable pub filter : Option Queue → SocketMessage → Option (Event × Option Queue)
filter s (received id buffer) = do
  (answer, next) ← filter_data s id buffer
  some (filtered answer, next)
filter s (closed id) = some (close id, s)
filter s (accepted ud name) = some (open_ ud name, s)
filter s (failed id message) = some (error id message, s)
filter s other = some (nothing_new, s)

-- `lpop`
unfoldable pub pop : Option Queue → Option NetPack × Option Queue
pop none = (none, none)
pop (some q) = if q.head == q.tail then (none, some q) else (
  some (q.queue q.head),
  some (record q { head = if leb q.cap (q.head + 1) then 0 else q.head + 1 }),
)

-- `count` entries from `i` on.
unfoldable pub entries : Queue → ℕ → ℕ → List NetPack
entries q i zero = []
entries q i (suc count) = q.queue (i % q.cap) ∷ entries q (i + 1) count

-- `lclear`: the packages whose buffers are freed, and the queue that is left.
unfoldable pub clear : Queue → List NetPack × Queue
clear q =
    let tail = if ltb q.tail q.head then q.tail + q.cap else q.tail in
    (entries q q.head (tail - q.head), record q { hash = λ h. []; head = 0; tail = 0 })

unfoldable pub write_size : ℕ → List ℕ
write_size len = bit_and (len / 2 ^ 8) 0xff ∷ bit_and len 0xff ∷ []

-- `lpack` and `lpack_string`; `none` is the error "too long".
unfoldable pub pack : List ℕ → Option (List ℕ)
pack ptr = if ltb 0x10000 (length ptr) then none else some (write_size (length ptr) ++ ptr)

-- `lpack_padding`
unfoldable pub pack_padding : List ℕ → List ℕ → Option (List ℕ)
pack_padding cookie ptr =
    let len = length cookie + length ptr in
    if ltb 0x10000 len then none else some (write_size len ++ (ptr ++ cookie))
