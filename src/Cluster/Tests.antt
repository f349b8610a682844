-- ===== src/Cluster/Tests.antt =====
-- Requests and responses between nodes.
use pskynet.Prelude.{ℕ, zero, suc, ◌^◌, ◌≡◌, refl, ap, true, List, [], ◌∷◌, some, arith, length}
use pskynet.Cluster.{number, name, text, overrun, fill_uint32, pack_request}
use pskynet.Cluster.Request
use pskynet.Cluster.Request.{pack_request-RoundTrip, pack_request-overrun}
use pskynet.Cluster.Response
use pskynet.Cluster.Response.{pack_response-RoundTrip}

pack_request-RoundTrip_example : Request.RoundTrip (name (115 ∷ 100 ∷ [])) 7 (1 ∷ 2 ∷ 3 ∷ [])
pack_request-RoundTrip_example =
    pack_request-RoundTrip (name (115 ∷ 100 ∷ [])) 7 (1 ∷ 2 ∷ 3 ∷ []) (omega arith, omega arith)
      (omega arith, omega arith) (unfold fill_uint32 in omega arith)

pack_response-RoundTrip_example : Response.RoundTrip 7 true (text (1 ∷ 2 ∷ []))
pack_response-RoundTrip_example =
    pack_response-RoundTrip 7 true (text (1 ∷ 2 ∷ [])) (omega arith)
      (unfold fill_uint32 in omega arith)

zeros : ℕ → List ℕ
zeros zero = []
zeros (suc n) = 0 ∷ zeros n

length-zeros : (n : ℕ) → length (zeros n) ≡ n
unfolding zeros
length-zeros zero = refl
length-zeros (suc n) = ap suc (length-zeros n)

pack_request-overrun_example : pack_request (number 1) 7 (some (zeros (2 ^ 31))) ≡ overrun
pack_request-overrun_example =
    pack_request-overrun 1 7 (zeros (2 ^ 31)) (omega arith, omega arith)
      (omega (arith, length-zeros (2 ^ 31))) (omega (arith, length-zeros (2 ^ 31)))
