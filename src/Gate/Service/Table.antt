-- ===== src/Gate/Service/Table.antt =====
-- The table of connections of service-src/service_gate.c.
use pskynet.Prelude.{
  ◌+◌, ◌^◌, ℕ, ◌≤◌, ◌<◌, ◌≡◌, ◌≢◌, inl, inr, refl, sym, subst, ap, ◌∙◌, arith, false, List, [], ◌∷◌,
  none, some, ltb, take, Bool-cases, ==_false, ≢→==, ==_refl,
}
use pskynet.HashId.{HashId, set, unused, lookup, remove, insert, full}
use pskynet.HashId.Lookup.{Inserted, insert-Inserted}
use pskynet.HashId.Removal.{HasUniqueIds, Freed, remove-Forgotten}
use pskynet.HashId.Places.{set_cases, set_here, set_there, set-HasUniqueIds, set-bounded}
use pskynet.HashId.Counts.{used, mark, used-set, free_place, used_le}
use pskynet.Gate.Buffer.{MessagePool, empty, clear}
use pskynet.Gate.{Connection, Gate, Effect, started}
use pskynet.Gate.Service.{
  Service, Report, gone, Handled, no_connection, report, on_close, close_found, on_accept,
}

-- The connection has nothing of an earlier one.
abbrev pub IsFresh : Connection → Type 0
IsFresh c = (c.buffer ≡ empty) × (c.agent ≡ 0) × (c.client ≡ 0)

pub record IsService (s : Service) : Type 0 where
  pub unique : HasUniqueIds s.hash.id
  pub bounded : (c : ℕ) → s.hash.cap ≤ c → s.hash.id c ≡ unused
  pub counted : s.hash.count ≡ used s.hash.cap s.hash.id
  pub found : (c id : ℕ) → id ≢ unused → s.hash.id c ≡ id → lookup s.hash id ≡ some c
  pub fresh : (c : ℕ) → s.hash.id c ≡ unused → IsFresh (s.conn c)

-- The new connection is in the table with a fresh buffer; the others are as they were.
pub record Accepted (s : Service) (ud : ℕ) (r : Handled) : Type 0 where
  pub place : ℕ
  pub next : Service
  pub returns : r ≡ some (started ud ∷ [], next)
  pub connected : lookup next.hash ud ≡ some place
  pub id : (next.conn place).id ≡ ud
  pub starts : IsFresh (next.conn place)
  pub others :
      (other : ℕ) → other ≢ ud → other ≢ unused → lookup next.hash other ≡ lookup s.hash other
  pub conns : (c : ℕ) → c ≢ place → next.conn c ≡ s.conn c
  pub valid : IsService next

-- The connection is not in the table any more, and its place is free for a new one.
pub record Closed (s : Service) (id : ℕ) (place : ℕ) (out : List Effect) (r : Handled)
    : Type 0 where
  pub next : Service
  pub returns : r ≡ some (out, next)
  pub gone_ : lookup next.hash id ≡ none
  pub free : next.hash.id place ≡ unused
  pub others :
      (other : ℕ) → other ≢ id → other ≢ unused → lookup next.hash other ≡ lookup s.hash other
  pub conns : (c : ℕ) → c ≢ place → next.conn c ≡ s.conn c
  pub valid : IsService next

module _ (s : Service) (ok : IsService s) where
  -- A node that has no id of `none` is not found, so that the id is at no node.
  absent : (id c : ℕ) → id ≢ unused → lookup s.hash id ≡ none → s.hash.id c ≢ id
  absent id c proper missing e =
      let h : lookup s.hash id ≡ some c = ok.found c id proper e in absurd (ground arith)

  enter :
      (ud : ℕ) (conn : Connection) (names : ℕ → List ℕ) (r : Inserted s.hash ud (insert s.hash ud))
      → ud ≢ unused
      → lookup s.hash ud ≡ none
      → IsService (record s { hash = r.next; conn = set s.conn r.node conn; remote_name = names })
  enter ud conn names r proper missing = record {
    unique =
        rw r.ids
          (set-HasUniqueIds s.hash.id r.node ud ok.unique (inr (λ c. absent ud c proper missing)));
    bounded = rw (r.cap, r.ids) (set-bounded s.hash.id r.node ud s.hash.cap r.below ok.bounded);
    counted =
        let free : mark (s.hash.id r.node) ≡ 0 = rw r.was_free in
        let one : mark ud ≡ 1 = rw (≢→== ud unused proper) in
        rw (r.cap, r.ids)
          (omega (
            arith,
            r.one_more,
            ok.counted,
            free,
            one,
            used-set s.hash.cap r.node ud s.hash.id r.below,
          ));
    found = λ c id used_id at.
        let at' : set s.hash.id r.node ud c ≡ id = sym (ap (λ f. f c) r.ids) ∙ at in
        elim (set_cases s.hash.id r.node ud c) [
          | inl (here, x) ↦ let e : ud ≡ id = sym x ∙ at' in rw (← e, here) r.found
          | inr (there, x) ↦
              let old : s.hash.id c ≡ id = sym x ∙ at' in
              r.others id (λ e. absent ud c proper missing (old ∙ e)) used_id
              ∙ ok.found c id used_id old
        ];
    fresh = λ c free.
        let free' : set s.hash.id r.node ud c ≡ unused = sym (ap (λ f. f c) r.ids) ∙ free in
        elim (set_cases s.hash.id r.node ud c) [
          | inl (here, x) ↦ absurd (proper (sym x ∙ free'))
          | inr (there, x) ↦
              subst IsFresh (sym (set_there s.conn r.node c conn there))
                (ok.fresh c (sym x ∙ free'))
        ];
  }

  -- When the table is not full, a socket that it does not have, whose id is not -1 and at most 2^31 less
  -- the number of places, is entered: the assertions hold, the connection starts with nothing of an
  -- earlier one, the others are as they were, and the table stays well formed.
  pub on_accept-Accepted :
      (ud : ℕ) (name : List ℕ)
      → ud ≢ unused
      → ud + s.hash.cap ≤ 2 ^ 31
      → lookup s.hash ud ≡ none
      → full s.hash ≡ false
      → Accepted s ud (on_accept s ud name)
  unfolding on_accept full
  on_accept-Accepted ud name proper small missing room =
      let less : used s.hash.cap s.hash.id < s.hash.cap =
        omega (
          arith,
          ==_false s.hash.count s.hash.cap room,
          ok.counted,
          used_le s.hash.cap s.hash.id,
        ) in
      let (j, below, free) = free_place s.hash.cap s.hash.id less in
      let r = insert-Inserted s.hash ud j proper small below free in
      let conn : Connection = record (s.conn r.node) { id = ud } in
      let names : ℕ → List ℕ = set s.remote_name r.node (take 31 name) in
      rw (room, r.returns)
        (record {
          place = r.node;
          next = record s { hash = r.next; conn = set s.conn r.node conn; remote_name = names };
          returns = refl;
          connected = r.found;
          id = rw (==_refl r.node);
          starts = rw (==_refl r.node) (ok.fresh r.node r.was_free);
          others = r.others;
          conns = λ c apart. set_there s.conn r.node c conn apart;
          valid = enter ud conn names r proper missing;
        })

  leave :
      (names : ℕ → List ℕ) (mp : MessagePool) (id : ℕ) (hash : HashId) (f : Freed s.hash id hash)
      → id ≢ unused
      → ((other : ℕ) → other ≢ id → other ≢ unused → lookup hash other ≡ lookup s.hash other)
      → IsService (record s {
        hash = hash;
        conn = set s.conn f.node no_connection;
        remote_name = names;
        mp = mp;
      })
  leave names mp id hash f proper others =
      let moved : (c : ℕ) → set s.hash.id f.node unused c ≡ hash.id c =
        λ c. sym (ap (λ ids. ids c) f.ids) in
      let used_one : mark (s.hash.id f.node) ≡ 1 = rw (f.has_id, ≢→== id unused proper) in
      let below : f.node < s.hash.cap = elim (Bool-cases (ltb f.node s.hash.cap)) [
        | inl yes_ ↦ ground arith
        | inr no_ ↦ absurd (proper (sym f.has_id ∙ ok.bounded f.node (ground arith)))
      ] in
      record {
        unique = rw f.ids (set-HasUniqueIds s.hash.id f.node unused ok.unique (inl refl));
        bounded =
            rw (f.cap, f.ids) (set-bounded s.hash.id f.node unused s.hash.cap below ok.bounded);
        counted =
            rw (f.cap, f.ids)
              (omega (
                arith,
                f.one_less,
                ok.counted,
                used_one,
                used-set s.hash.cap f.node unused s.hash.id below,
              ));
        found = λ c other used_id at. elim (set_cases s.hash.id f.node unused c) [
          | inl (here, x) ↦ absurd (used_id (sym at ∙ sym (moved c) ∙ x))
          | inr (there, x) ↦
              let old : s.hash.id c ≡ other = sym x ∙ moved c ∙ at in
              let apart : other ≢ id = λ e.
                there (ok.unique c f.node (old ∙ e ∙ sym f.has_id) (λ k. used_id (sym old ∙ k))) in
              others other apart used_id ∙ ok.found c other used_id old
        ];
        fresh = λ c free. elim (set_cases s.conn f.node no_connection c) [
          | inl (here, x) ↦ subst IsFresh (sym x) (refl, refl, refl)
          | inr (there, x) ↦
              let old : s.hash.id c ≡ unused =
                sym (set_there s.hash.id f.node c unused there) ∙ moved c ∙ free in
              subst IsFresh (sym x) (ok.fresh c old)
        ];
      }

  -- A connection of the gate that is closed or fails leaves the table, this is reported to the watchdog
  -- when there is one, its place is free and has nothing of it any more, the others are as they were,
  -- and the table stays well formed.
  pub on_close-Closed :
      (format : Report → List ℕ) (g : Gate) (id place : ℕ)
      → id ≢ unused
      → lookup s.hash id ≡ some place
      → Closed s id place (report format g (gone id)) (on_close format g s id)
  unfolding on_close close_found
  on_close-Closed format g id place proper here =
      let r = remove-Forgotten s.hash id ok.unique proper in
      let found : (remove s.hash id).0 ≡ some place = r.returns ∙ here in
      elim r.change [
        | inl (missing, same) ↦ absurd (ground arith)
        | inr f ↦
            let at : f.node ≡ place = ground arith in
            let names : ℕ → List ℕ = set s.remote_name f.node [] in
            let mp : MessagePool = (clear (s.conn f.node).buffer s.mp).1 in
            rw (found, ← at, close_found)
              (record {
                next = record s {
                  hash = (remove s.hash id).1;
                  conn = set s.conn f.node no_connection;
                  remote_name = names;
                  mp = mp;
                };
                returns = refl;
                gone_ = r.gone;
                free = ap (λ ids. ids f.node) f.ids ∙ set_here s.hash.id f.node unused;
                others = r.others;
                conns = λ c apart. set_there s.conn f.node c no_connection apart;
                valid = leave names mp id (remove s.hash id).1 f proper r.others;
              })
      ]
