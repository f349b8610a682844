-- ===== src/HarborService/Rounds.antt =====
-- The rounds of `push_socket_data` in service-src/service_harbor.c for a piece of a stream of messages.
use pskynet.Prelude.{
  ℕ, zero, suc, ◌+◌, ◌-◌, ◌≤◌, ◌<◌, ◌≡◌, refl, sym, subst, ap, ◌∙◌, inl, inr, arith, Bool, false,
  List, [], ◌∷◌, ◌++◌, append_assoc, some, ◌==◌, ltb, if◌then◌else◌, ==_refl, ≢→==, Bool-cases,
  length, length-append, length-drop, take, drop,
}
use pskynet.HarborService.{
  header, content, Slave, Harbor, Done, to_bigendian, header_to_message, header_cookie_length,
}
use pskynet.HarborService.Slaves.{
  put_slave, forward_header, forward_local_message, content_step, header_step, feed,
}
use pskynet.HarborService.Wire.{to_bigendian-Length, Package, ArePackages, stream, length-body}
use pskynet.HarborService.Feed.{forward_local_message_lem}
use pskynet.HarborService.Pending.{
  fill, InHeader, InContent, Pending, in_header, in_content, stream_content, same_front,
  first_package, Took, stays, behind_change, behind-Took,
}

module _ (reachable : ℕ → Bool) (id : ℕ) where
  -- What the next round of the `for` does between two messages with less than `bound` bytes.
  abbrev Rounds : (Harbor → List ℕ → Done) → ℕ → Type 0
  Rounds again bound =
      (h : Harbor) (c later : List ℕ) (ps : List Package)
      → InHeader (h.slaves id) []
      → c ++ later ≡ stream ps
      → ArePackages ps
      → length c < bound
      → Took reachable id h ps later (again h c)

  module _ (again : Harbor → List ℕ → Done) (bound : ℕ) (rounds : Rounds again bound) where
    -- The end of the case STATUS_CONTENT.
    next-Took :
        (h : Harbor) (t : Slave) (ps : List Package) (c later : List ℕ)
        → t.fd ≡ (h.slaves id).fd
        → InHeader t []
        → c ++ later ≡ stream ps
        → ArePackages ps
        → length c < bound
        → Took reachable id h ps later
            (if length c == 0 then some ([], put_slave h id t) else again (put_slave h id t) c)
    next-Took h t ps [] later fd ready e ok few =
        stays reachable id h t ps later [] fd (in_header ready) e
    next-Took h t ps (x ∷ c) later fd ready e ok few =
        let some_ : (length (x ∷ c) == 0) ≡ false =
          ≢→== (length (x ∷ c)) 0 (λ z. omega (arith, z)) in
        let ready' : InHeader ((put_slave h id t).slaves id) [] = rw (==_refl id) ready in
        rw some_ (
          behind_change reachable id h t ps later (again (put_slave h id t) (x ∷ c)) fd
            (rounds (put_slave h id t) (x ∷ c) later ps ready' e ok few))

    content-Took :
        (h : Harbor) (p : Package) (ps : List Package) (got c later : List ℕ)
        → InContent (h.slaves id) p got
        → got ++ (c ++ later) ≡ (p.body ++ header_to_message p.cookie) ++ stream ps
        → ArePackages (p ∷ ps)
        → length c ≤ bound
        → Took reachable id h (p ∷ ps) later (content_step reachable again h id c)
    unfolding content_step
    content-Took h p ps got c later at e (ok, oks) few =
        let s : Slave = h.slaves id in
        let a : List ℕ = p.body ++ header_to_message p.cookie in
        let n : length a ≡ length p.body + header_cookie_length = length-body p in
        let need : s.length - length s.recv_buffer ≡ length a - length got =
          rw (at.bytes, at.size, n) refl in
        elim (Bool-cases (ltb (length c) (length a - length got))) [
          | inl t ↦
              let u : Slave = record s { recv_buffer = s.recv_buffer ++ c } in
              let in_ : InContent u p (got ++ c) = record {
                at = at.at;
                nothing = at.nothing;
                size = at.size;
                bytes = ap (λ k. k ++ c) at.bytes;
                short = ground (arith, length-append got c, at.short, n);
              } in
              rw (need, t)
                (stays reachable id h u (p ∷ ps) later
                  (to_bigendian (length p.body + header_cookie_length) ++ (got ++ c)) refl
                  (in_content p in_)
                  (append_assoc (to_bigendian (length p.body + header_cookie_length)) (got ++ c)
                      later
                    ∙ ap (λ k. to_bigendian (length p.body + header_cookie_length) ++ k)
                        (append_assoc got c later ∙ e)
                    ∙ sym (stream_content p ps ok)))
          | inr f ↦
              let enough : length a ≤ length got + length c = ground (arith, f) in
              let k = fill got c later a (stream ps) e (omega (arith, at.short, n)) enough in
              let t : Slave = record s { length = 0; recv_buffer = []; status = header } in
              let ready : InHeader t [] = record {
                at = refl;
                bytes = at.nothing;
                short = omega arith;
              } in
              let fwd : forward_local_message reachable h
                    (s.recv_buffer ++ take (length a - length got) c)
                  ≡ some (forward_header reachable h p.cookie p.body) =
                rw at.bytes (rw k.whole (forward_local_message_lem reachable h p ok)) in
              rw (need, f)
                (rw fwd (
                  behind-Took reachable id h p ps later
                    (if length (drop (length a - length got) c) == 0
                      then some ([], put_slave h id t)
                      else again (put_slave h id t) (drop (length a - length got) c))
                    (next-Took h t ps (drop (length a - length got) c) later refl ready k.left oks (
                      omega
                        (arith, length-drop (length a - length got) c, at.short, n, few, enough)))))
        ]

    -- The end of the case STATUS_HEADER.
    begin-Took :
        (h : Harbor) (t : Slave) (p : Package) (ps : List Package) (c later : List ℕ)
        → t.fd ≡ (h.slaves id).fd
        → InContent t p []
        → c ++ later ≡ (p.body ++ header_to_message p.cookie) ++ stream ps
        → ArePackages (p ∷ ps)
        → length c ≤ bound
        → Took reachable id h (p ∷ ps) later (
            if length c == 0
            then some ([], put_slave h id t)
            else content_step reachable again (put_slave h id t) id c)
    begin-Took h t p ps [] later fd in_ e (ok, oks) few =
        let size : List ℕ = to_bigendian (length p.body + header_cookie_length) in
        stays reachable id h t (p ∷ ps) later (size ++ []) fd (in_content p in_)
          (append_assoc size [] later ∙ ap (λ k. size ++ k) e ∙ sym (stream_content p ps ok))
    begin-Took h t p ps (x ∷ c) later fd in_ e oks few =
        let some_ : (length (x ∷ c) == 0) ≡ false =
          ≢→== (length (x ∷ c)) 0 (λ z. omega (arith, z)) in
        let in' : InContent ((put_slave h id t).slaves id) p [] = rw (==_refl id) in_ in
        rw some_ (
          behind_change reachable id h t (p ∷ ps) later
            (content_step reachable again (put_slave h id t) id (x ∷ c)) fd
            (content-Took (put_slave h id t) p ps [] (x ∷ c) later in' e oks few))

    header-Took :
        (h : Harbor) (ps : List Package) (got c later : List ℕ)
        → InHeader (h.slaves id) got
        → got ++ (c ++ later) ≡ stream ps
        → ArePackages ps
        → length c ≤ bound
        → Took reachable id h ps later (header_step reachable again h id c)
    unfolding header_step
    header-Took h ps got c later at e oks few =
        let s : Slave = h.slaves id in
        let u : Slave = record s { size = got ++ c } in
        elim (Bool-cases (ltb (length c) (4 - length got))) [
          | inl t ↦
              let in_ : InHeader u (got ++ c) = record {
                at = at.at;
                bytes = refl;
                short = ground (arith, length-append got c, at.short);
              } in
              rw (at.bytes, t)
                (stays reachable id h u ps later (got ++ c) refl (in_header in_)
                  (append_assoc got c later ∙ e))
          | inr f ↦
              let enough : 4 ≤ length got + length c = ground (arith, f) in
              let many : length (stream ps) ≡ length got + (length c + length later) =
                sym (ap length e)
                ∙ omega (arith, length-append got (c ++ later), length-append c later) in
              let (p, (ps', is)) = first_package ps (omega (arith, many, enough)) in
              let (ok, oks') = subst ArePackages is oks in
              let n : ℕ = length p.body + header_cookie_length in
              let l = to_bigendian-Length n ok.small in
              let bytes = to_bigendian n in
              let k =
                fill got c later bytes ((p.body ++ header_to_message p.cookie) ++ stream ps')
                  (e ∙ ap stream is ∙ stream_content p ps' ok) (omega (arith, l.four, at.short))
                  (omega (arith, l.four, enough)) in
              let four : length bytes - length got ≡ 4 - length got =
                ap (λ z. z - length got) l.four in
              let whole : got ++ take (4 - length got) c ≡ bytes =
                subst (λ z. got ++ take z c ≡ bytes) four k.whole in
              let left : drop (4 - length got) c ++ later
                  ≡ (p.body ++ header_to_message p.cookie) ++ stream ps' =
                subst
                  (λ z. drop z c ++ later ≡ (p.body ++ header_to_message p.cookie) ++ stream ps')
                  four k.left in
              let t : Slave = record s {
                size = [];
                recv_buffer = [];
                length = n;
                status = content;
              } in
              let in_ : InContent t p [] = record {
                at = refl;
                nothing = refl;
                size = refl;
                bytes = refl;
                short = omega arith;
              } in
              let rest = drop (4 - length got) c in
              let r : Done =
                if length rest == 0
                then some ([], put_slave h id t)
                else content_step reachable again (put_slave h id t) id rest in
              rw (at.bytes, f)
                (rw whole (
                  rw (l.first, l.value)
                    (subst (λ q. Took reachable id h q later r) (sym is)
                      (begin-Took h t p ps' (drop (4 - length got) c) later refl in_ left (ok, oks')
                        (omega (arith, length-drop (4 - length got) c, few))))))
        ]

  pub feed-Took :
      (fuel : ℕ) (h : Harbor) (ps : List Package) (got c later : List ℕ)
      → Pending (h.slaves id) ps got
      → got ++ (c ++ later) ≡ stream ps
      → ArePackages ps
      → length c < fuel
      → Took reachable id h ps later (feed reachable fuel id h c)
  unfolding feed
  feed-Took zero h ps got c later pending e oks few = absurd (omega arith)
  feed-Took (suc fuel) h ps got c later (in_header at) e oks few = rw at.at (
      header-Took (λ h' r. feed reachable fuel id h' r) fuel
        (λ h' c' l' qs at' e' oks' few'. feed-Took fuel h' qs [] c' l' (in_header at') e' oks' few')
        h ps got c later at e oks (omega arith))
  feed-Took (suc fuel) h _ _ c later (in_content {ps = ps} {got = got} p at) e (ok, oks) few =
      let size : List ℕ = to_bigendian (length p.body + header_cookie_length) in
      rw at.at (
        content-Took (λ h' r. feed reachable fuel id h' r) fuel
          (λ h' c' l' qs at' e' oks' few'.
            feed-Took fuel h' qs [] c' l' (in_header at') e' oks' few')
          h p ps got c later at
          (same_front size (got ++ (c ++ later))
            ((p.body ++ header_to_message p.cookie) ++ stream ps)
            (sym (append_assoc size got (c ++ later)) ∙ e ∙ stream_content p ps ok))
          (ok, oks) (omega arith))
