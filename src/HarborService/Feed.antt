-- ===== src/HarborService/Feed.antt =====
-- What service-src/service_harbor.c passes on for messages from another node.
use pskynet.Prelude.{ℕ, ◌-◌, ◌≡◌, refl, arith, Bool, false, List, [], ◌∷◌, ◌++◌, some, ltb, length}
use pskynet.Prelude.Bytes.{take-append_self, drop-append_self}
use pskynet.HarborService.{Slave, Harbor, Effect, header_to_message, header_cookie_length}
use pskynet.HarborService.Slaves.{put_slave, forward_header, forward_local_message}
use pskynet.HarborService.Wire.{
  message_to_header-header_to_message, Package, IsPackage, length-body,
}

module _ (reachable : ℕ → Bool) where
  abbrev pub forwards : Harbor → List Package → List Effect
  forwards h [] = []
  forwards h (p ∷ ps) = forward_header reachable h p.cookie p.body ++ forwards h ps

  pub forward_header_lem :
      (h : Harbor) (id : ℕ) (s : Slave) (p : Package)
      → forward_header reachable (put_slave h id s) p.cookie p.body
        ≡ forward_header reachable h p.cookie p.body
  unfolding forward_header
  forward_header_lem h id s p = refl

  pub forwards_lem :
      (ps : List Package) (h : Harbor) (id : ℕ) (s : Slave)
      → forwards (put_slave h id s) ps ≡ forwards h ps
  forwards_lem [] h id s = refl
  forwards_lem (p ∷ ps) h id s = rw (forward_header_lem h id s p, forwards_lem ps h id s)

  pub forward_local_message_lem :
      (h : Harbor) (p : Package)
      → IsPackage p
      → forward_local_message reachable h (p.body ++ header_to_message p.cookie)
        ≡ some (forward_header reachable h p.cookie p.body)
  unfolding forward_local_message
  forward_local_message_lem h p ok =
      let n = length-body p in
      let long : ltb (length (p.body ++ header_to_message p.cookie)) header_cookie_length ≡ false =
        ground (arith, n) in
      let sz : length (p.body ++ header_to_message p.cookie) - header_cookie_length
          ≡ length p.body =
        omega (arith, n) in
      rw (
        long,
        sz,
        take-append_self p.body (header_to_message p.cookie),
        drop-append_self p.body (header_to_message p.cookie),
        message_to_header-header_to_message p.cookie ok.cookie_ok,
      )
