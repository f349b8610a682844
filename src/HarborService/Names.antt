-- ===== src/HarborService/Names.antt =====
-- service-src/service_harbor.c: the table of global names.
use pskynet.Prelude.{
  ℕ, zero, suc, ◌*◌, ◌%◌, Bool, true, false, ◌&&◌, List, [], ◌∷◌, ◌++◌, Option, none, some, ◌==◌,
  if◌then◌else◌, take, drop,
}
use Prim.Native.Nat.{bit_xor}
use pskynet.Prelude.Bytes.{le_value}
use pskynet.HarborService.{KeyValue, Harbor, set, global_name_length}

-- HASH_SIZE
abbrev pub hash_size : ℕ
hash_size = 4096

abbrev pub zeros : ℕ → List ℕ
zeros zero = []
zeros (suc n) = 0 ∷ zeros n

-- The four words of a name, on a machine that has the lowest byte first.
abbrev pub word : List ℕ → ℕ → ℕ
word name i = le_value (take 4 (drop (i * 4) (name ++ zeros global_name_length)))

unfoldable pub hash_name : List ℕ → ℕ
hash_name name = bit_xor (bit_xor (bit_xor (word name 0) (word name 1)) (word name 2)) (word name 3)

-- `strncmp` of names without their zeros.
abbrev pub same_name : List ℕ → List ℕ → Bool
same_name [] [] = true
same_name [] (b ∷ bs) = false
same_name (a ∷ as_) [] = false
same_name (a ∷ as_) (b ∷ bs) = a == b && same_name as_ bs

unfoldable pub search_chain : ℕ → List ℕ → List KeyValue → Option KeyValue
search_chain h name [] = none
search_chain h name (node ∷ nodes) =
    let rest = search_chain h name nodes in
    if node.hash == h && same_name node.key name then some node else rest

unfoldable pub hash_search : Harbor → List ℕ → Option KeyValue
hash_search h name = search_chain (hash_name name) name (h.map_nodes (hash_name name % hash_size))

-- The node that `hash_insert` puts in front.
unfoldable pub fresh_node : List ℕ → KeyValue
fresh_node name = record { key = name; hash = hash_name name; value = 0; queue = none }

-- `hash_search`, with `hash_insert` where it finds nothing.
unfoldable pub search_or_insert : Harbor → List ℕ → KeyValue × Harbor
search_or_insert h name =
    let slot = hash_name name % hash_size in
    elim (hash_search h name) [
      | some node ↦ (node, h)
      | none ↦ (
        fresh_node name,
        record h { map_nodes = set h.map_nodes slot (fresh_node name ∷ h.map_nodes slot) },
      )
    ]

-- A write through the pointer to the node of a name.
unfoldable pub write_chain : KeyValue → List KeyValue → List KeyValue
write_chain new [] = []
write_chain new (node ∷ nodes) =
    let rest = node ∷ write_chain new nodes in
    if node.hash == new.hash && same_name node.key new.key then new ∷ nodes else rest

unfoldable pub write_node : Harbor → KeyValue → Harbor
write_node h new =
    let slot = new.hash % hash_size in
    record h { map_nodes = set h.map_nodes slot (write_chain new (h.map_nodes slot)) }
