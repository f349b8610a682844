-- ===== src/Handle.antt =====
-- src/sn_handle.cpp: the table of service handles and of their names. A handle has the node's
-- number in its top byte and a number of 24 bits below.

pub mod Register
pub mod Remove
mod Tests
use Prim.Native.String.{String}
use pskynet.Prelude.{
  ℕ, zero, suc, ◌+◌, ◌*◌, ◌%◌, ◌^◌, Bool, true, false, List, [], ◌∷◌, map, Option, none, some,
  bit_and, bit_or, ◌==◌, if◌then◌else◌, length,
}
use pskynet.Prelude.Assoc.{lookup, insert, erase, nat_eq, string_eq}
use pskynet.Message.{handle_mask, handle_remote_shift}

-- A `SNContextPtr` is the address of its context.
abbrev pub Context : Type 0
Context = ℕ

pub record HandleMgr : Type 0 where
  pub harbor : ℕ
  pub handle_index : ℕ
  pub slots : List (ℕ × Context)
  pub name_map : List (String × ℕ)

unfoldable pub create : ℕ → HandleMgr
create harbor = record {
  harbor = bit_and harbor 0xff * 2 ^ handle_remote_shift;
  handle_index = 1;
  slots = [];
  name_map = [];
}

-- The `for` of `Register` from the round `i`; `none` when it has not ended within the fuel.
unfoldable pub register_loop : ℕ → ℕ → HandleMgr → Context → Option (ℕ × HandleMgr)
register_loop zero i m ctx = none
register_loop (suc fuel) i m ctx =
    let handle = bit_and ((m.handle_index + i) % 2 ^ 32) handle_mask in
    elim (lookup handle m.slots) [
      | none ↦ some (
        bit_or handle m.harbor,
        record m { slots = insert handle ctx m.slots; handle_index = handle + 1 },
      )
      | some _ ↦ register_loop fuel (i + 1) m ctx
    ]

-- One round more than there are handles in use.
unfoldable pub register : HandleMgr → Context → Option (ℕ × HandleMgr)
register m ctx = register_loop (length m.slots + 1) 0 m ctx

unfoldable pub find_context : HandleMgr → ℕ → Option Context
find_context m handle = lookup (bit_and handle handle_mask) m.slots

-- The `for` of `Remove` over the names.
unfoldable pub drop_names : ℕ → List (String × ℕ) → List (String × ℕ)
drop_names handle [] = []
drop_names handle ((n, h) ∷ ns) =
    if h == handle then drop_names handle ns else (n, h) ∷ drop_names handle ns

-- `Remove` behind the mask. `own` reads the field `handle` of a context.
unfoldable pub remove_low : (Context → ℕ) → HandleMgr → ℕ → Option Context × HandleMgr
remove_low own m low = elim (lookup low m.slots) [
  | none ↦ (none, m)
  | some ctx ↦
      if own ctx == low
      then (some ctx, record m { slots = erase low m.slots; name_map = drop_names low m.name_map })
      else (none, m)
]

unfoldable pub remove : (Context → ℕ) → HandleMgr → ℕ → Option Context × HandleMgr
remove own m handle = remove_low own m (bit_and handle handle_mask)

unfoldable pub remove_all : HandleMgr → HandleMgr
remove_all m = record m { slots = []; name_map = [] }

-- `LoopAll`: the contexts that the function is called with.
unfoldable pub loop_all : HandleMgr → List Context
loop_all m = map (λ e. e.1) m.slots

-- 0 is INVALID_HANDLE.
unfoldable pub find_name : HandleMgr → String → ℕ
find_name m name = elim (lookup name m.name_map) [ none ↦ 0 | some h ↦ h ]

-- The name that is returned is the map's own copy; `none` is NULL.
unfoldable pub name_handle : HandleMgr → ℕ → String → Option String × HandleMgr
name_handle m handle name = elim (lookup name m.name_map) [
  | some _ ↦ (none, m)
  | none ↦ (some name, record m { name_map = insert name handle m.name_map })
]
