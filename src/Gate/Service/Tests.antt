-- ===== src/Gate/Service/Tests.antt =====
-- The connections of service-src/service_gate.c at concrete inputs.
use pskynet.Prelude.{◌+◌, ◌≤◌, ◌^◌, ℕ, ◌≡◌, refl, false, List, [], ◌∷◌, none, arith}
use pskynet.HashId.{init, lookup, lookup_chain, full}
use pskynet.Gate.{Gate}
use pskynet.Gate.Service.{
  Service, Report, gone, opened, close, new_service, on_accept, on_close, report,
  dispatch_socket_message,
}
use pskynet.HashId.{init}
use pskynet.Gate.Service.Table.{Accepted, on_accept-Accepted, Closed, on_close-Closed}
use pskynet.Gate.Service.Invariant.{new_service-IsService, Keeps, dispatch_socket_message-Keeps}

abbrev two_places : Service
two_places = new_service 2

two_places-free : lookup two_places.hash 7 ≡ none
unfolding new_service init lookup lookup_chain
two_places-free = refl

two_places-full : full two_places.hash ≡ false
unfolding new_service init full
two_places-full = refl

two_places-small : 7 + two_places.hash.cap ≤ 2 ^ 31
unfolding new_service init
two_places-small = omega arith

abbrev accepted : Accepted two_places 7 (on_accept two_places 7 (49 ∷ []))
accepted =
    on_accept-Accepted two_places (new_service-IsService 2) 7 (49 ∷ []) (λ e. omega arith)
      two_places-small two_places-free two_places-full

on_accept-Accepted_example : Accepted two_places 7 (on_accept two_places 7 (49 ∷ []))
on_accept-Accepted_example =
    on_accept-Accepted two_places (new_service-IsService 2) 7 (49 ∷ []) (λ e. omega arith)
      two_places-small two_places-free two_places-full

abbrev gate : Gate
gate = record { watchdog = 1; broker = 0; client_tag = 3; header_size = 2 }

abbrev format : Report → List ℕ
format (opened id name) = id ∷ name
format (gone id) = id ∷ []

dispatch_socket_message-Keeps_example :
    Keeps (dispatch_socket_message (λ id. id ∷ []) format gate accepted.next (close 7))
dispatch_socket_message-Keeps_example =
    dispatch_socket_message-Keeps (λ id. id ∷ []) format gate accepted.next accepted.valid (close 7)
      (λ e. omega arith)

on_close-Closed_example :
    Closed accepted.next 7 accepted.place
      (report format gate (gone 7))
      (on_close format gate accepted.next 7)
on_close-Closed_example =
    on_close-Closed accepted.next accepted.valid format gate 7 accepted.place (λ e. omega arith)
      accepted.connected
