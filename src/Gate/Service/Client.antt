-- ===== src/Gate/Service/Client.antt =====
-- What other services write to the connections of service-src/service_gate.c.
use pskynet.Prelude.{
  ℕ, ◌+◌, ◌-◌, ◌*◌, ◌/◌, ◌%◌, ◌^◌, ◌<◌, ◌≡◌, ap, ◌∙◌, arith, true, false, List, [], ◌∷◌, ◌++◌, some,
  bit_or, leb, length, length-append,
}
use pskynet.Prelude.Bits.{bit_or_high}
use pskynet.Prelude.Bytes.{le_bytes, length-le_bytes, take-append_self, drop-append_self}
use pskynet.HashId.{lookup}
use pskynet.Gate.{written}
use pskynet.Gate.Service.{Service, client_id, write_client, on_client}

client_id-le_bytes : (id : ℕ) → id < 2 ^ 32 → client_id (le_bytes 4 id) ≡ id
unfolding client_id
client_id-le_bytes id h =
    let a : ℕ = id % 256 in
    let b : ℕ = id / 256 % 256 in
    let c : ℕ = id / 256 / 256 % 256 in
    let d : ℕ = id / 256 / 256 / 256 % 256 in
    let first : bit_or a (b * 2 ^ 8) ≡ b * 2 ^ 8 + a = bit_or_high 8 b a (omega arith) in
    let second : bit_or (b * 2 ^ 8 + a) (c * 2 ^ 16) ≡ c * 2 ^ 16 + (b * 2 ^ 8 + a) =
      bit_or_high 16 c (b * 2 ^ 8 + a) (omega arith) in
    let third : bit_or (c * 2 ^ 16 + (b * 2 ^ 8 + a)) (d * 2 ^ 24)
        ≡ d * 2 ^ 24 + (c * 2 ^ 16 + (b * 2 ^ 8 + a)) =
      bit_or_high 24 d (c * 2 ^ 16 + (b * 2 ^ 8 + a)) (omega arith) in
    rw (first, second, third) (omega arith)

-- A message with the id of a connection in four bytes behind it, the lowest first, is written to the
-- socket without these bytes, and the gate keeps the memory of the message.
pub on_client-written :
    (s : Service) (text : List ℕ) (id place : ℕ)
    → 0 < length text
    → id < 2 ^ 32
    → lookup s.hash id ≡ some place
    → on_client s (text ++ le_bytes 4 id) ≡ (written id text ∷ [], true)
unfolding on_client write_client
on_client-written s text id place some_ fits here =
    let size : length (text ++ le_bytes 4 id) - 4 ≡ length text =
      omega (arith, length-append text (le_bytes 4 id), length-le_bytes 4 id) in
    let long : leb (length (text ++ le_bytes 4 id)) 4 ≡ false =
      ground (arith, length-append text (le_bytes 4 id), length-le_bytes 4 id) in
    rw (long, size)
      (rw (drop-append_self text (le_bytes 4 id), take-append_self text (le_bytes 4 id))
        (ap (λ u. write_client s u text) (client_id-le_bytes id fits) ∙ rw (here, write_client)))
