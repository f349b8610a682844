-- ===== src/Server/Launch.antt =====
-- src/sn_server.cpp: a service is started.
use pskynet.Prelude.{
  ℕ, ◌^◌, ◌<◌, ◌≤◌, ◌≡◌, refl, ◌∙◌, arith, Bool, true, false, not, ==_refl, List, [], ◌∷◌, ◌++◌,
  Option, none, some, ◌>>=◌, if◌then◌else◌, length,
}
use pskynet.Handle.{HandleMgr, register, find_context, remove}
use pskynet.Handle.Register.{IsTable, register-Hands}
use pskynet.Handle.Remove.{remove_refused}
use pskynet.Mq.{create, release}
use pskynet.Mq.Overload.{release-nil}
use pskynet.Mq.System.{update, give, remove_one}
use pskynet.Server.{Server, set}
use pskynet.Server.Dispatch.{Call, Event, drop_messages, drop_service}

-- The server behind `Register` and with the new queue; the context has its handle and its queue.
unfoldable pub begin_service : Server → ℕ → ℕ → ℕ → HandleMgr → Server
begin_service s ctx q handle handles = record s {
  handles = handles;
  contexts = set s.contexts ctx (record {
    handle = handle;
    queue = q;
    session_id = 0;
    has_callback = false;
    endless = false;
  });
  system = record s.system {
    queues = update s.system.queues q (create handle);
    held = q ∷ s.system.held;
  };
}

-- `callback` and `alloc` are those of the worker loop. `init` is the code of the module, which says
-- whether it has been successful.
module _ (callback : Call → Server → Server × Bool) (alloc : Server → ℕ)
    (init : ℕ → Server → Server × Bool) where
  -- The end of `NewContext`: the queue goes to the workers, or the service is taken back.
  unfoldable pub finish_service :
      ℕ → ℕ → ℕ → Server × Bool → Option (Option ℕ × List Event × Server)
  finish_service ctx q handle (s, true) = some (some ctx, [], record s { system = give s.system q })
  finish_service ctx q handle (s, false) =
      let (found, handles) = remove (λ c. (s.contexts c).handle) s.handles handle in
      do
        (out, last) ← drop_service callback alloc q handle (record s { handles = handles })
        some (none, out, last)

  -- `NewContext`, where `ctx` and `q` are the addresses of the new context and its queue, and `created`
  -- says whether the module has been loaded and has made an instance. `none` is a failed
  -- assertion, or a `Register` that does not end.
  unfoldable pub new_context : Bool → ℕ → ℕ → Server → Option (Option ℕ × List Event × Server)
  new_context created ctx q s = if not created then some (none, [], s) else do
    (handle, handles) ← register s.handles ctx
    finish_service ctx q handle (init ctx (begin_service s ctx q handle handles))

  -- What the module's `init` does with the new service: it does not take the service out of the table,
  -- and keeps its handle and its queue. It may send messages and start other services.
  pub record IsModule (s : Server) (ctx q : ℕ) (result : Bool) : Type 0 where
    pub keeps :
        (handle : ℕ) (handles : HandleMgr)
        → find_context handles handle ≡ some ctx
        → find_context (init ctx (begin_service s ctx q handle handles)).0.handles handle ≡ some ctx
    pub own :
        (handle : ℕ) (handles : HandleMgr)
        → ((init ctx (begin_service s ctx q handle handles)).0.contexts ctx).handle
          ≡ ((begin_service s ctx q handle handles).contexts ctx).handle
    pub keeps_queue :
        (handle : ℕ) (handles : HandleMgr)
        → ((init ctx (begin_service s ctx q handle handles)).0.contexts ctx).queue
          ≡ ((begin_service s ctx q handle handles).contexts ctx).queue
    pub result_lem :
        (handle : ℕ) (handles : HandleMgr)
        → (init ctx (begin_service s ctx q handle handles)).1 ≡ result

  -- It leaves no message for the new service.
  abbrev pub IsSilent : Server → ℕ → ℕ → Type 0
  IsSilent s ctx q =
      (handle : ℕ) (handles : HandleMgr)
      → ((init ctx (begin_service s ctx q handle handles)).0.system.queues q).messages ≡ []

  -- The service has a handle of its own, and its queue is the last of those that wait.
  pub record Launched (s : Server) (ctx q : ℕ) (r : Option (Option ℕ × List Event × Server))
      : Type 0 where
    pub handle : ℕ
    pub next : Server
    pub returns : r ≡ some (some ctx, [], next)
    pub unused : find_context s.handles handle ≡ none
    pub found : find_context next.handles handle ≡ some ctx
    pub own : (next.contexts ctx).handle ≡ handle
    pub others : List ℕ
    pub waiting : next.system.global ≡ others ++ q ∷ []
    pub started : Server
    pub messages : (next.system.queues q).messages ≡ ((init ctx started).0.system.queues q).messages
    pub handles : HandleMgr
    pub begun : started ≡ begin_service s ctx q handle handles

  -- The service is not there for its creator, but still in the table.
  pub record Left (s : Server) (ctx q : ℕ) (r : Option (Option ℕ × List Event × Server))
      : Type 0 where
    pub handle : ℕ
    pub next : Server
    pub returns : r ≡ some (none, [], next)
    pub unused : find_context s.handles handle ≡ none
    pub still : find_context next.handles handle ≡ some ctx
    pub own : (next.contexts ctx).handle ≡ handle
    pub dangling : (next.contexts ctx).queue ≡ q
    pub before : List ℕ
    pub gone : next.deleted ≡ q ∷ before

  drop_service-nil :
      (q handle : ℕ) (s : Server)
      → (s.system.queues q).messages ≡ []
      → (next : Server) × ((drop_service callback alloc q handle s ≡ some ([], next))
          × ((next.handles ≡ s.handles)
              × ((next.contexts ≡ s.contexts) × (next.deleted ≡ q ∷ s.deleted))))
  unfolding drop_service drop_messages
  drop_service-nil q handle s e =
      let none_ : (release (s.system.queues q)).0 ≡ [] = release-nil (s.system.queues q) e in
      let emptied : Server = record s {
        system = record s.system {
          queues = update s.system.queues q (release (s.system.queues q)).1;
          held = remove_one q s.system.held;
        };
        deleted = q ∷ s.deleted;
      } in
      (emptied, (rw (none_, drop_messages), (refl, (refl, refl))))

  finish_service-Left :
      (ctx q handle : ℕ) (r : Server × Bool)
      → r.1 ≡ false
      → find_context r.0.handles handle ≡ some ctx
      → (r.0.contexts ctx).handle ≡ handle
      → 2 ^ 24 ≤ handle
      → (r.0.system.queues q).messages ≡ []
      → (next : Server) × ((finish_service ctx q handle r ≡ some (none, [], next))
          × ((find_context next.handles handle ≡ some ctx)
              × ((next.contexts ≡ r.0.contexts) × (next.deleted ≡ q ∷ r.0.deleted))))
  unfolding finish_service
  finish_service-Left ctx q handle (s, true) e found own far quiet = cc
  finish_service-Left ctx q handle (s, false) e found own far quiet =
      let refused : remove (λ c. (s.contexts c).handle) s.handles handle ≡ (none, s.handles) =
        remove_refused (λ c. (s.contexts c).handle) s.handles handle ctx found own far in
      let (next, (dropped, (same, kept))) = drop_service-nil q handle s quiet in
      (next, (rw refused (rw dropped), (rw same found, kept)))

  -- On a node other than 0, while fewer than 2^24 handles are in use, a service whose module does not
  -- start well, and whose `init` does not take the service out of the table, keeps its handle and its
  -- queue and leaves it no message, stays in the table of handles under its own handle and
  -- with its queue, though this queue is deleted and the creator gets no service.
  pub new_context-Left :
      (node ctx q : ℕ) (s : Server)
      → IsTable node s.handles
      → length s.handles.slots < 2 ^ 24
      → 0 < node
      → IsModule s ctx q false
      → IsSilent s ctx q
      → Left s ctx q (new_context true ctx q s)
  unfolding new_context begin_service create
  new_context-Left node ctx q s table room pos module_ silent =
      let h = register-Hands node s.handles ctx table room in
      let begun : Server = begin_service s ctx q h.handle h.next in
      let (next, (returns, (still, (contexts, deleted)))) =
        finish_service-Left ctx q h.handle (init ctx begun) (module_.result_lem h.handle h.next)
          (module_.keeps h.handle h.next h.found) (module_.own h.handle h.next ∙ rw (==_refl ctx))
          (omega (arith, h.of_node)) (silent h.handle h.next) in
      record {
        handle = h.handle;
        next = next;
        returns = rw h.returns returns;
        unused = h.unused;
        still = still;
        own = rw contexts (module_.own h.handle h.next ∙ rw (==_refl ctx));
        dangling = rw contexts (module_.keeps_queue h.handle h.next ∙ rw (==_refl ctx));
        before = (init ctx begun).0.deleted;
        gone = deleted;
      }
