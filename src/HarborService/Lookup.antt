-- ===== src/HarborService/Lookup.antt =====
-- The table of global names of service-src/service_harbor.c: what is written is found.
use pskynet.Prelude.{
  ℕ, ◌%◌, ◌≡◌, refl, sym, subst, inl, inr, true, false, ◌&&◌, List, [], ◌∷◌, Option, none, some,
  ◌==◌, ==_refl, ==→≡, Bool-cases,
}
use pskynet.HarborService.{KeyValue, Harbor}
use pskynet.HarborService.Names.{
  hash_size, hash_name, same_name, search_chain, hash_search, fresh_node, search_or_insert,
  write_chain, write_node,
}

same_name_refl : (name : List ℕ) → same_name name name ≡ true
same_name_refl [] = refl
same_name_refl (a ∷ as_) = rw (==_refl a, same_name_refl as_)

same_name_lem : (a b : List ℕ) → same_name a b ≡ true → a ≡ b
same_name_lem [] [] e = refl
same_name_lem [] (b ∷ bs) e = cc
same_name_lem (a ∷ as_) [] e = cc
same_name_lem (a ∷ as_) (b ∷ bs) e = elim (Bool-cases (a == b)) [
  | inl t ↦
      let rest : same_name as_ bs ≡ true = rw t at e in
      let first : a ≡ b = ==→≡ a b t in let tail : as_ ≡ bs = same_name_lem as_ bs rest in cc
  | inr f ↦ let no : false ≡ true = rw f at e in cc
]

-- A node of a name, as a search finds it.
pub record IsNode (hash : ℕ) (name : List ℕ) (node : KeyValue) : Type 0 where
  pub hashed : node.hash ≡ hash
  pub named : node.key ≡ name

search_chain-IsNode :
    (hash : ℕ) (name : List ℕ) (chain : List KeyValue) (node : KeyValue)
    → search_chain hash name chain ≡ some node
    → IsNode hash name node
unfolding search_chain
search_chain-IsNode hash name [] node e = cc
search_chain-IsNode hash name (n ∷ chain) node e = elim (Bool-cases (n.hash == hash)) [
  | inr f ↦ search_chain-IsNode hash name chain node (rw f at e)
  | inl t ↦ elim (Bool-cases (same_name n.key name)) [
    | inr f ↦ search_chain-IsNode hash name chain node (rw (t, f) at e)
    | inl same ↦
        let found : some n ≡ some node = rw (t, same) at e in
        let it : n ≡ node = cc in
        subst (IsNode hash name) it
          (record { hashed = ==→≡ n.hash hash t; named = same_name_lem n.key name same })
  ]
]

search_chain-write_chain :
    (new old : KeyValue) (chain : List KeyValue)
    → search_chain new.hash new.key chain ≡ some old
    → search_chain new.hash new.key (write_chain new chain) ≡ some new
unfolding search_chain write_chain
search_chain-write_chain new old [] e = cc
search_chain-write_chain new old (n ∷ chain) e =
    elim (Bool-cases (n.hash == new.hash && same_name n.key new.key)) [
      | inl t ↦ rw t (rw (==_refl new.hash, same_name_refl new.key))
      | inr f ↦
          let later : search_chain new.hash new.key chain ≡ some old = rw f at e in
          rw f (rw f (search_chain-write_chain new old chain later))
    ]

-- What `search_or_insert` returns for a name.
pub record Entry (h : Harbor) (name : List ℕ) (r : KeyValue × Harbor) : Type 0 where
  pub node : IsNode (hash_name name) name r.0
  pub found : hash_search r.1 name ≡ some r.0
  pub slaves : r.1.slaves ≡ h.slaves
  pub slave : r.1.slave ≡ h.slave

pub entry :
    (h : Harbor) (name : List ℕ) (o : Option KeyValue)
    → hash_search h name ≡ o
    → Entry h name (search_or_insert h name)
unfolding hash_search fresh_node search_chain search_or_insert
entry h name none e =
    rw (e, search_or_insert)
      (record {
        node = record { hashed = refl; named = refl };
        found =
            rw (==_refl (hash_name name % hash_size))
              (rw (==_refl (hash_name name), same_name_refl name));
        slaves = refl;
        slave = refl;
      })
entry h name (some node) e =
    rw (e, search_or_insert)
      (record {
        node =
            search_chain-IsNode (hash_name name) name (h.map_nodes (hash_name name % hash_size))
              node e;
        found = e;
        slaves = refl;
        slave = refl;
      })

-- A node that takes the place of the name's node is found from then on.
pub search_or_insert-write_node :
    (h : Harbor) (name : List ℕ) (old new : KeyValue)
    → hash_search h name ≡ some old
    → IsNode (hash_name name) name new
    → search_or_insert (write_node h new) name ≡ (new, write_node h new)
unfolding write_node hash_search search_or_insert
search_or_insert-write_node h name old new found ok =
    let slot : ℕ = hash_name name % hash_size in
    let chain : List KeyValue = h.map_nodes (new.hash % hash_size) in
    let there : search_chain new.hash new.key chain ≡ some old =
      subst (λ k. search_chain k new.key (h.map_nodes (k % hash_size)) ≡ some old) (sym ok.hashed)
        (subst (λ k. search_chain (hash_name name) k (h.map_nodes slot) ≡ some old) (sym ok.named)
          found) in
    let same : (new.hash % hash_size == slot) ≡ true = rw ok.hashed (==_refl slot) in
    let now : hash_search (write_node h new) name ≡ some new = rw same (
      subst (λ k. search_chain (hash_name name) k (write_chain new chain) ≡ some new) ok.named
        (subst (λ k. search_chain k new.key (write_chain new chain) ≡ some new) ok.hashed
          (search_chain-write_chain new old chain there))) in
    rw (now, search_or_insert)
