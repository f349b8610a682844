-- ===== src/HashId/Tests.antt =====
-- Runs of the table on concrete ids.
use pskynet.Prelude.{◌≡◌, refl, arith, [], ◌∷◌}
use pskynet.HashId.{unused, HashId, set, init, grow_cap}
use pskynet.HashId.Removal.{HasUniqueIds}

-- Two places; the ids 5 and 21 share a chain, and 5 is taken to stand at the place 1.
abbrev table : HashId
table = record {
  hashmod = 15;
  cap = 2;
  count = 1;
  id = set (λ c. unused) 1 5;
  hash = set (λ h. []) 5 (1 ∷ []);
}

table-HasUniqueIds : HasUniqueIds table.id
table-HasUniqueIds c d e used = ground arith

init_cap : (init 100).hashmod ≡ 127
unfolding init grow_cap
init_cap = refl
