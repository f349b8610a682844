-- ===== src/Handle/Remove.antt =====
-- `SNHandleMgr::Remove` and the names of src/sn_handle.cpp.
use Prim.Native.String.{String}
use pskynet.Prelude.{
  ℕ, ◌%◌, ◌^◌, ◌≤◌, ◌<◌, ◌≡◌, refl, sym, ◌∙◌, ◌≢◌, inl, inr, false, List, [], ◌∷◌, Option, none,
  some, arith, bit_and, ◌==◌, length, Option-cases, Bool-cases, ≢→==, ==_refl, ==_false,
}
use pskynet.Prelude.Bits.{bit_and_mask}
use pskynet.Prelude.Filter.{All}
use pskynet.Prelude.Assoc.{
  lookup, erase, nat_eq, string_eq, lookup-insert_self, lookup-insert_ne, lookup-erase_self,
  lookup-erase_ne,
}
use pskynet.Message.{handle_mask}
use pskynet.Handle.Register.{IsTable, Hands, register-Hands}
use pskynet.Handle.{
  Context, HandleMgr, register, find_context, remove, remove_low, drop_names, find_name,
  name_handle,
}

low_bits : (h : ℕ) → bit_and h handle_mask ≡ h % 2 ^ 24
low_bits h = bit_and_mask 24 h

drop_names_none :
    (h : ℕ) (ns : List (String × ℕ)) → All (λ (e : String × ℕ). e.1 ≢ h) (drop_names h ns)
unfolding drop_names
drop_names_none h [] = tt
drop_names_none h ((n, k) ∷ ns) = elim (Bool-cases (k == h)) [
  | inl t ↦ rw t (drop_names_none h ns)
  | inr f ↦ rw f (==_false k h f, drop_names_none h ns)
]

-- What a call of `Remove` that finds its context gives.
pub record Removed (m : HandleMgr) (handle : ℕ) (ctx : Context) (r : Option Context × HandleMgr)
    : Type 0 where
  pub returned : r.0 ≡ some ctx
  pub gone : find_context r.1 handle ≡ none
  pub others : (h : ℕ) → h % 2 ^ 24 ≢ handle % 2 ^ 24 → find_context r.1 h ≡ find_context m h
  pub unnamed : All (λ (e : String × ℕ). e.1 ≢ handle % 2 ^ 24) r.1.name_map

module _ (own : Context → ℕ) (m : HandleMgr) (low : ℕ) (ctx : Context)
    (found : lookup low m.slots ≡ some ctx) where
  abbrev without : HandleMgr
  without = record m { slots = erase low m.slots; name_map = drop_names low m.name_map }

  remove_low-taken : own ctx ≡ low → remove_low own m low ≡ (some ctx, without)
  unfolding remove_low
  remove_low-taken e = rw (found, remove_low, e, ==_refl)

  remove_low-refused : own ctx ≢ low → remove_low own m low ≡ (none, m)
  unfolding remove_low
  remove_low-refused ne = rw (found, remove_low, ≢→== _ _ ne)

-- When the context's own handle is the number of its slot, as on the node 0, `Remove` returns the
-- context, takes it and every name for the number out of the table, and leaves the other handles
-- alone.
pub remove-Removed :
    (own : Context → ℕ) (m : HandleMgr) (handle : ℕ) (ctx : Context)
    → find_context m handle ≡ some ctx
    → own ctx ≡ handle % 2 ^ 24
    → Removed m handle ctx (remove own m handle)
unfolding remove find_context
remove-Removed own m handle ctx found own_low =
    let low = bit_and handle handle_mask in
    rw (remove_low-taken own m low ctx found (own_low ∙ sym (low_bits handle))) (record {
      returned = refl;
      gone = lookup-erase_self low m.slots;
      others = λ h ne.
          lookup-erase_ne low (bit_and h handle_mask) m.slots
            (≢→== _ _ (omega (arith, low_bits h, low_bits handle, ne)));
      unnamed = rw (low_bits handle) (drop_names_none (handle % 2 ^ 24) m.name_map);
    })

-- On any other node the table compares the whole handle of the context with the low bits of the
-- one that is given: `Remove` refuses, and the context and its names stay.
pub remove_refused :
    (own : Context → ℕ) (m : HandleMgr) (handle : ℕ) (ctx : Context)
    → find_context m handle ≡ some ctx
    → own ctx ≡ handle
    → 2 ^ 24 ≤ handle
    → remove own m handle ≡ (none, m)
unfolding remove find_context
remove_refused own m handle ctx found own_handle remote =
    remove_low-refused own m (bit_and handle handle_mask) ctx found
      (omega (arith, low_bits handle, own_handle, remote))

-- The outcome of `NameHandle`.
pub record Named (m : HandleMgr) (handle : ℕ) (name : String) (r : Option String × HandleMgr)
    : Type 0 where
  pub taken : (h : ℕ) → lookup name m.name_map ≡ some h → r ≡ (none, m)
  pub given : lookup name m.name_map ≡ none → r.0 ≡ some name
  pub found : lookup name m.name_map ≡ none → find_name r.1 name ≡ handle
  pub others :
      (other : String) → string_eq.eqb name other ≡ false → find_name r.1 other ≡ find_name m other
  pub slots : r.1.slots ≡ m.slots

-- `NameHandle` refuses a name that is taken and changes nothing; a new name is found from then on,
-- and neither another name nor a handle is affected.
pub name_handle-Named :
    (m : HandleMgr) (handle : ℕ) (name : String) → Named m handle name (name_handle m handle name)
unfolding name_handle find_name
name_handle-Named m handle name = elim (Option-cases (lookup name m.name_map)) [
  | inl free ↦
      rw (free, name_handle)
        (record {
          taken = λ h e. cc (free);
          given = λ e. refl;
          found = λ e. rw (lookup-insert_self name handle m.name_map, find_name);
          others = λ other ne. rw (lookup-insert_ne name other handle m.name_map ne, find_name);
          slots = refl;
        })
  | inr (k, used) ↦
      rw (used, name_handle)
        (record {
          taken = λ h e. refl;
          given = λ e. cc (used);
          found = λ e. cc (used);
          others = λ other ne. refl;
          slots = refl;
        })
]

module _ (own : Context → ℕ) (node : ℕ) (m : HandleMgr) (ctx : Context) (table : IsTable node m)
    (room : length m.slots < 2 ^ 24) where
  abbrev handed : Hands node m ctx (register m ctx)
  handed = register-Hands node m ctx table room

  -- On a node other than 0, with fewer than 2 ^ 24 handles in use, a context that has the handle
  -- which `Register` gave it can be found, but not removed: `Remove` gives nothing back and leaves
  -- the table as it was.
  pub register_then_remove :
      0 < node
      → (handle : ℕ) (next : HandleMgr) → register m ctx ≡ some (handle, next)
      → own ctx ≡ handle
      → (find_context next handle ≡ some ctx) × (remove own next handle ≡ (none, next))
  register_then_remove pos handle next e o =
      let same_handle : handed.handle ≡ handle = ground (arith, handed.returns, e) in
      let same_next : handed.next ≡ next = ground (arith, handed.returns, e) in
      let found : find_context next handle ≡ some ctx =
        rw (same_handle, same_next) at handed.found in
      (
        found,
        remove_refused own next handle ctx found o
            (omega (arith, handed.of_node, same_handle, pos)),
      )
