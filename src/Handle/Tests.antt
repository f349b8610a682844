-- ===== src/Handle/Tests.antt =====
-- Runs of the handle table, and its theorems at concrete tables.
use pskynet.Prelude.{◌+◌, ◌*◌, ◌^◌, ◌≡◌, refl, [], ◌∷◌, some, arith}
use pskynet.Prelude.Assoc.{lookup, insert}
use pskynet.Handle.{
  HandleMgr, register, register_loop, find_context, remove, find_name, remove_all, loop_all,
}
use pskynet.Handle.Register.{IsTable, Hands, register-Hands}
use pskynet.Handle.Remove.{Removed, remove-Removed}

abbrev table : HandleMgr
table = record {
  harbor = 0;
  handle_index = 6;
  slots = (5, 50) ∷ (6, 60) ∷ [];
  name_map = ("boot", 5) ∷ [];
}

abbrev node_table : HandleMgr
node_table = record table { harbor = 2 * 2 ^ 24 }

table-IsTable : IsTable 0 table
table-IsTable = omega arith

node_table-IsTable : IsTable 2 node_table
node_table-IsTable = omega arith

abbrev after_70 : HandleMgr
after_70 = record node_table { handle_index = 8; slots = (5, 50) ∷ (6, 60) ∷ (7, 70) ∷ [] }

-- 6 is taken, so the next handle is 7, below the node's bits.
registers : register node_table 70 ≡ some (2 * 2 ^ 24 + 7, after_70)
unfolding register register_loop lookup insert
registers = refl

all_gone : (loop_all (remove_all table) ≡ []) × (find_name (remove_all table) "boot" ≡ 0)
unfolding loop_all remove_all find_name lookup
all_gone = (refl, refl)

register-Hands_example : Hands 2 node_table 70 (register node_table 70)
register-Hands_example = register-Hands 2 node_table 70 node_table-IsTable (omega arith)

remove-Removed_example : Removed table 5 50 (remove (λ c. 5) table 5)
unfolding find_context lookup
remove-Removed_example = remove-Removed (λ c. 5) table 5 50 refl refl
