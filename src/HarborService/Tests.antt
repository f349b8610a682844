-- ===== src/HarborService/Tests.antt =====
-- Messages between two nodes at concrete inputs.
use pskynet.Prelude.{
  take, drop, ℕ, ◌+◌, ◌*◌, ◌/◌, ◌^◌, ◌≡◌, ◌≢◌, refl, true, List, [], ◌∷◌, ◌++◌, map, none, some,
  arith,
}
use pskynet.HarborService.{
  Header, HarborMsg, HarborMsgQueue, Status, wait, handshake, header, content, down, Slave, Harbor,
  Effect, started, written, closed, logged, push_queue_msg, pop_all,
}
use pskynet.HarborService.Slaves.{put_slave, send_remote, send_msg, push_socket_data, harbor_id}
use pskynet.HarborService.Mainloop.{
  update_name, Command, accept_from, Input, command, socket_data, remote_header, harbor_command,
  remote_send_handle, mainloop, new_harbor,
}
use pskynet.HarborService.Drains.{Waits, Request, queued, send_all, Sends, accept_from-Sends}
use pskynet.Message.{handle_remote_shift}
use pskynet.HarborService.Names.{hash_search, search_chain, fresh_node, search_or_insert}
use pskynet.HarborService.Wire.{Package}
use pskynet.HarborService.Carried.{wire, Carried}
use pskynet.HarborService.Named.{
  WaitsForName, ToName, ask_all, question, direct, Known, update_name-Sends,
}
use pskynet.HarborService.Down.{Reached, begun, after, remote_send_handle-closed}

-- A message for the service 9 of the node 2.
abbrev hello : Request
hello = record {
  source = 2 ^ 24 + 4;
  destination = 2 * 2 ^ 24 + 9;
  type = 10;
  session = 3;
  msg = 104 ∷ 105 ∷ [];
}

start-Waits : Waits (new_harbor 1 7) 2 []
unfolding new_harbor
start-Waits = record { other = λ e. omega (arith, e); apart = refl; hope = refl; holds = refl }

accept_from-Sends_example :
    (next : Harbor) × (send_all (new_harbor 1 7) (hello ∷ hello ∷ []) ≡ some ([], next))
    × Sends next 5 2
        ([] ++ map queued (hello ∷ hello ∷ []))
        (harbor_command next (accept_from 5 2) 0)
accept_from-Sends_example =
    accept_from-Sends (new_harbor 1 7) 5 2 0 [] (hello ∷ hello ∷ []) start-Waits (refl, (refl, tt))
      (λ e. omega (arith, e)) (omega arith) (omega arith)

abbrev connected : Harbor → ℕ → ℕ → Harbor
connected h id fd = put_slave h id (record (h.slaves id) { fd = fd; status = header })

-- The node 2, to which the node 1 is connected at the socket 6, and the node 1.
abbrev peer : Harbor
peer = connected (new_harbor 2 8) 1 6

abbrev home : Harbor
home = connected (new_harbor 1 7) 2 5

abbrev two : List Package
two =
    record {
      cookie = record { source = 2 ^ 24 + 4; destination = 10 * 2 ^ 24 + 9; session = 3 };
      body = 104 ∷ [];
    }
    ∷ record { cookie = record { source = 2 ^ 24 + 5; destination = 9; session = 0 }; body = [] }
    ∷ []

abbrev pieces : List ℕ → List (List ℕ)
pieces bytes = take 3 bytes ∷ [] ∷ take 9 (drop 3 bytes) ∷ drop 12 bytes ∷ []

abbrev hello_wire : List ℕ
hello_wire = wire (2 ^ 24 + 4) (2 * 2 ^ 24 + 9) 10 3 (104 ∷ [])

-- The node 2 sends the length 2^24, which is too long, and its connection is closed.
abbrev broken : Harbor
broken = put_slave home 2 (record (home.slaves 2) { status = down; queue = none })

accepted :
    mainloop (λ d. true) (λ i. []) (new_harbor 1 7) (command (accept_from 5 2) 7)
    ≡ some (started 5 ∷ written 5 (1 ∷ []) ∷ [], home)
unfolding mainloop harbor_command pskynet.HarborService.Mainloop.open_slave
    pskynet.HarborService.Mainloop.send_handshake new_harbor
    pskynet.HarborService.Slaves.dispatch_queue pskynet.HarborService.Slaves.dispatch_slave
    pskynet.HarborService.Slaves.flush_queue
accepted = refl

too_long :
    mainloop (λ d. true) (λ i. []) home (socket_data 5 (1 ∷ 0 ∷ 0 ∷ 0 ∷ []))
    ≡ some (logged ∷ closed 5 ∷ [], broken)
unfolding mainloop push_socket_data pskynet.HarborService.Slaves.feed
    pskynet.HarborService.Slaves.header_step pskynet.HarborService.Slaves.close_harbor harbor_id
    pskynet.HarborService.Slaves.find_slave new_harbor
too_long = refl

broken-Reached : Reached (λ i. []) (new_harbor 1 7) broken
broken-Reached =
    after (λ d. true) (socket_data 5 (1 ∷ 0 ∷ 0 ∷ 0 ∷ [])) (logged ∷ closed 5 ∷ [])
      (after (λ d. true) (command (accept_from 5 2) 7) (started 5 ∷ written 5 (1 ∷ []) ∷ []) begun
        accepted)
      too_long

away : (2 * 2 ^ 24 + 9) / 2 ^ 24 ≢ broken.id
unfolding new_harbor
away e = omega (arith, e)

remote_send_handle-closed_example :
    ((broken.slaves ((2 * 2 ^ 24 + 9) / 2 ^ 24)).fd ≢ 0)
    × (remote_send_handle broken 4 (2 * 2 ^ 24 + 9) 10 3 []
        ≡ some (
          send_remote
                (broken.slaves ((2 * 2 ^ 24 + 9) / 2 ^ 24)).fd
                []
                (remote_header 4 (2 * 2 ^ 24 + 9) 10 3)
              ∷ [],
          broken,
        ))
remote_send_handle-closed_example =
    remote_send_handle-closed (λ i. []) 1 7 broken 4 (2 * 2 ^ 24 + 9) 10 3 [] broken-Reached refl
      away

-- A message for the name "db", which becomes the service 9 of the node 2.
abbrev for_db : ToName
for_db = record { source = 2 ^ 24 + 4; type = 10; session = 3; msg = 104 ∷ 105 ∷ [] }

db-WaitsForName : WaitsForName home (100 ∷ 98 ∷ []) []
unfolding new_harbor search_or_insert hash_search search_chain fresh_node
db-WaitsForName = record { no_handle = refl; holds = refl }

socket_of_db : (home.slaves ((2 * 2 ^ 24 + 9) / 2 ^ handle_remote_shift)).fd ≢ 0
unfolding new_harbor
socket_of_db e = omega (arith, e)

update_name-Sends_example :
    (next : Harbor) × (ask_all home (100 ∷ 98 ∷ []) (for_db ∷ for_db ∷ [])
      ≡ some (map (λ m. question home (100 ∷ 98 ∷ [])) (for_db ∷ for_db ∷ []), next))
    × Known next
        (100 ∷ 98 ∷ [])
        (2 * 2 ^ 24 + 9)
        (map
          (direct (home.slaves ((2 * 2 ^ 24 + 9) / 2 ^ handle_remote_shift)).fd (2 * 2 ^ 24 + 9))
          (for_db ∷ for_db ∷ []))
        (update_name next (100 ∷ 98 ∷ []) (2 * 2 ^ 24 + 9))
update_name-Sends_example =
    update_name-Sends home (100 ∷ 98 ∷ []) (2 * 2 ^ 24 + 9) (for_db ∷ for_db ∷ []) db-WaitsForName
      (omega arith, (omega arith, tt)) (λ e. omega (arith, e)) socket_of_db
