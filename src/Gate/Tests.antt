-- ===== src/Gate/Tests.antt =====
-- Runs of the gate on concrete chunks.
use pskynet.Prelude.{ℕ, refl, inl, List, [], ◌∷◌, arith}
use pskynet.Gate.Buffer.{DataBuffer, MessagePool, empty}
use pskynet.Gate.Reading.{IsBuffer}
use pskynet.Gate.{Gate, Connection}
use pskynet.Gate.Stuck.{Hoarded, receive_all-Hoarded}
use pskynet.Gate.Received.{receive_all, Received, receive_all-Received}

abbrev prefix : ℕ → List ℕ
prefix id = id ∷ []

abbrev gate : Gate
gate = record { watchdog = 5; broker = 0; client_tag = 3; header_size = 2 }

abbrev pool : MessagePool
pool = record { pool = 1; freelist = 1023 }

abbrev connection : Connection
connection = record { id = 9; agent = 0; client = 0; buffer = empty }

-- The packages 1 2 3 and 4, cut inside a header and inside a package.
abbrev chunks : List (List ℕ)
chunks = (0 ∷ []) ∷ (3 ∷ 1 ∷ 2 ∷ []) ∷ (3 ∷ 0 ∷ 1 ∷ []) ∷ (4 ∷ []) ∷ []

abbrev packages : List (List ℕ)
packages = (1 ∷ 2 ∷ 3 ∷ []) ∷ (4 ∷ []) ∷ []

empty-IsBuffer : IsBuffer 0 empty pool
empty-IsBuffer = record { in_head = omega arith; counted = refl; pooled = refl }

receive_all-Received_example :
    Received prefix gate 0 7 9 0 0
      (λ _ _. omega arith)
      (inl refl)
      packages
      (receive_all prefix gate 7 chunks connection pool)
receive_all-Received_example =
    receive_all-Received prefix gate 0 7 9 0 0 (λ _ _. omega arith) (inl refl) chunks packages empty
      pool empty-IsBuffer refl refl ((omega arith, omega arith), ((omega arith, omega arith), tt))
      refl

abbrev two_messages : DataBuffer
two_messages = record {
  header = 0;
  offset = 1;
  size = 4;
  messages = (9 ∷ 1 ∷ 2 ∷ []) ∷ (3 ∷ 4 ∷ []) ∷ [];
}

abbrev used_pool : MessagePool
used_pool = record { pool = 1; freelist = 1021 }

-- The four bytes 255 have been read as the header.
abbrev hostile : Connection
hostile = record connection { buffer = record empty { header = 0xffffffff } }

receive_all-Hoarded_example :
    Hoarded prefix gate 7 hostile chunks (receive_all prefix gate 7 chunks hostile pool)
receive_all-Hoarded_example =
    receive_all-Hoarded prefix gate 7 chunks hostile pool refl (omega arith)

abbrev idle_gate : Gate
idle_gate = record gate { watchdog = 0 }

abbrev arrived : Connection
arrived = record connection { buffer = record two_messages { header = 3 } }
