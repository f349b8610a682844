-- ===== src/Server/Tests.antt =====
-- Services and messages of src/sn_server.cpp at concrete inputs.
use pskynet.Prelude.{
  ℕ, Bool, ◌+◌, ◌/◌, ◌*◌, ◌^◌, ◌≡◌, refl, true, false, [], ◌∷◌, append-nil, sym, none, some, arith,
  bit_or, ◌-◌, take, drop,
}
use pskynet.Prelude.Assoc.{lookup}
use pskynet.Message.{Message}
use pskynet.Handle.{find_context}
use pskynet.Mq.{create}
use pskynet.Handle.Register.{IsTable}
use pskynet.Server.Launch.{IsModule, IsSilent, begin_service, Left, new_context, new_context-Left}
use pskynet.Monitor.{new_monitor}
use pskynet.Server.{push_context, Server, is_remote, send, shift_type, type_of}
use pskynet.Server.Sizes.{packed_negative}
use pskynet.Server.Dispatch.{Call, drop_messages, dispatch_loop}
use pskynet.Server.Dispatch.Rounds.{IsService, Served, content, batch, dispatch_loop-Served}
use pskynet.Server.Delivery.{Received, send-Received}
use pskynet.Server.Commands.Exits.{Told, drop_messages-Told}

-- Two services of the node 1, at the addresses 50 and 60.
abbrev node : Server
node = record {
  handles = record {
    harbor = 1 * 2 ^ 24;
    handle_index = 7;
    slots = (5, 50) ∷ (6, 60) ∷ [];
    name_map = [];
  };
  contexts = λ c. record {
    handle = 1 * 2 ^ 24 + c / 10;
    queue = c;
    session_id = 0;
    has_callback = true;
    endless = false;
  };
  system = record { queues = λ q. create q; global = []; held = [] };
  remote = some 50;
  harbor = 1 * 2 ^ 24;
  monitor_exit = 0;
  remote_messages = λ p. record { name = []; handle = 0; message = none; sz = 0 };
  memory = λ p. 104 ∷ 105 ∷ 106 ∷ [];
  deleted = [];
}

abbrev quiet : Call → Server → Server × Bool
quiet call s = (s, true)

quiet-IsService : IsService 60 60 quiet
quiet-IsService = record {
  adds = λ call s. [];
  content_lem = λ call s. sym (append-nil (content s 60));
  callback_lem = λ call s h. h;
}

near : is_remote node.harbor (1 * 2 ^ 24 + 6) ≡ false
unfolding is_remote
near = refl

there : find_context node.handles (1 * 2 ^ 24 + 6) ≡ some 60
unfolding find_context lookup
there = refl

empty : content node 60 ≡ []
unfolding create
empty = refl

-- The sender 50 asks for a session, and keeps its data.
send-Received_example :
    Received quiet
      (λ s. 99)
      98
      node
      50
      0
      60
      (1 * 2 ^ 24 + 6)
      0x2000a
      0
      (some 40)
      3
      (some 0)
      new_monitor
      (send 98 97 node 50 0 (1 * 2 ^ 24 + 6) 0x2000a 0 (some 40) 3)
send-Received_example =
    send-Received quiet (λ s. 99) 98 97 node 50 0 (1 * 2 ^ 24 + 6) 0x2000a 0 (some 40) 3 60
      (1 * 2 ^ 24 + 6) (some 0) new_monitor (λ h. refl) (λ e. omega arith) (omega arith)
      (omega arith) near there empty refl quiet-IsService (omega arith)

abbrev note : ℕ → Message
note source = record { source = source; session = 1; data_ptr = none; sz = 0 }

abbrev loaded : Server
loaded = record node {
  system = record node.system {
    queues = λ q. record (create q) { messages = note 1 ∷ note 2 ∷ note 3 ∷ note 4 ∷ note 5 ∷ [] };
  };
}

-- With the weight 1, two messages are taken when four follow the first.
dispatch_loop-Served_example :
    Served quiet
      (λ s. 99)
      60
      60
      7
      quiet-IsService
      (take (batch (some 1) 4) (note 1 ∷ note 2 ∷ note 3 ∷ note 4 ∷ note 5 ∷ []))
      (drop (batch (some 1) 4) (note 1 ∷ note 2 ∷ note 3 ∷ note 4 ∷ note 5 ∷ []))
      (dispatch_loop quiet (λ s. 99) (some 1) 60 60 7 loaded new_monitor)
dispatch_loop-Served_example =
    dispatch_loop-Served quiet (λ s. 99) 60 60 7 quiet-IsService (some 1) loaded new_monitor
      (note 1) (note 2 ∷ note 3 ∷ note 4 ∷ note 5 ∷ []) refl refl

other_near : is_remote node.harbor (1 * 2 ^ 24 + 5) ≡ false
unfolding is_remote
other_near = refl

timer_near : is_remote node.harbor 0 ≡ false
unfolding is_remote
timer_near = refl

drop_messages-Told_example :
    Told node
      (1 * 2 ^ 24 + 6)
      (note (1 * 2 ^ 24 + 5) ∷ note 0 ∷ [])
      (drop_messages quiet (λ s. 99) (1 * 2 ^ 24 + 6) (note (1 * 2 ^ 24 + 5) ∷ note 0 ∷ []) node)
drop_messages-Told_example =
    drop_messages-Told quiet (λ s. 99) (1 * 2 ^ 24 + 6) (λ e. omega arith)
      (note (1 * 2 ^ 24 + 5) ∷ note 0 ∷ []) node (other_near, (timer_near, tt))

packed_negative_example : type_of (bit_or 3 (shift_type 200)) ≡ 2 ^ 32 - (2 ^ 8 - 200)
packed_negative_example = packed_negative 200 3 (omega arith) (omega arith) (omega arith)

-- A module that sends its service a first message and starts well, and one that does not start.
abbrev starting : ℕ → Server → Server × Bool
starting ctx s = (push_context s ctx (note 60), true)

abbrev failing : ℕ → Server → Server × Bool
failing ctx s = (s, false)

failing-IsModule : IsModule quiet (λ s. 99) failing node 70 70 false
unfolding begin_service
failing-IsModule = record {
  keeps = λ handle handles e. e;
  own = λ handle handles. refl;
  keeps_queue = λ handle handles. refl;
  result_lem = λ handle handles. refl;
}

failing-IsSilent : IsSilent quiet (λ s. 99) failing node 70 70
unfolding create begin_service
failing-IsSilent handle handles = refl

node-IsTable : IsTable 1 node.handles
node-IsTable = record { small_node = omega arith; node_bits = refl; index = omega arith }

new_context-Left_example :
    Left quiet (λ s. 99) failing node 70 70 (new_context quiet (λ s. 99) failing true 70 70 node)
new_context-Left_example =
    new_context-Left quiet (λ s. 99) failing 1 70 70 node node-IsTable (omega arith) (omega arith)
      failing-IsModule failing-IsSilent
