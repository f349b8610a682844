-- ===== src/Lib.antt =====
-- pskynet: the C++ port of the skynet actor framework, and the C services and Lua libraries that
-- come with it.
--
-- A service is a context with a handle and a message queue. Services send one another messages by
-- handle; worker threads take a queue from the global queue, pop messages from it and call the
-- service; a timer thread turns timeouts into messages.
--
-- Files and what they model (paths from the repository's root):
--   - Message: struct sn_message of src/sn_mq.h.
--   - Handle, with Handle/Register and Handle/Remove: class SNHandleMgr of src/sn_handle.cpp. The
--     two unordered_maps are association lists. Each method holds the lock throughout, so each is
--     one function from the table to a new table. `Register` runs on fuel, one round more than
--     there are handles in use.
--   - Gate: service-src/service_gate.c, the work on the bytes that a connection receives.
--     Gate/Buffer is service-src/databuffer.h, a linked list of messages as a list of byte lists.
--     Gate/Reading is about reading and pushing, Gate/Framing about headers, Gate/Stream,
--     Gate/Packages, Gate/Chunks and Gate/Received about streams of packages, Gate/Stuck about
--     streams that go wrong. The loop of `dispatch_message` gets two rounds more than there are
--     bytes. Gate/Service has the table of connections and the messages of the socket layer, with
--     Gate/Service/Table and Gate/Service/Invariant about the table, and Gate/Service/Client about
--     what services write.
--   - HashId: service-src/hashid.h, the gate's table of socket ids, its chains as lists of indexes.
--     HashId/Lookup is about insertion, HashId/Removal about removal, HashId/Counts and
--     HashId/Places about the nodes' ids. The search for a free node gets as many rounds as the
--     table has nodes, the loop of `hashid_init` as many as the capacity.
--   - Cluster: lualib-src/lua-cluster.c. An outcome says whether an error has freed the message,
--     and whether a copy runs past the buffer. Cluster/Words has the integers and the header,
--     Cluster/Request and Cluster/Response the two directions.
--   - Seri: lualib-src/lua-seri.c. Seri/Blocks is the chain of blocks, Seri/Write the packing and
--     Seri/Read the unpacking; Seri/Format is the format as a function, which Seri/Packed,
--     Seri/Numbers, Seri/Unpacked and Seri/RoundTrip are about, and Seri/Ends is about streams of
--     any kind. Unpacking gets three calls for each byte, and `wb_push` a round for each byte.
--   - Netpack: lualib-src/lua-netpack.c. The table of unfinished packages is a function into lists,
--     the ring a function from indexes. Netpack/Ring is about the ring and Netpack/Chains about the
--     table; Netpack/Cuts says how a stream is cut, Netpack/Filter, Netpack/Answers and
--     Netpack/Stream are about `filter_data_`, and Netpack/Packed about packing. `push_more` gets a
--     round for each byte.
--   - Crypt: the hexadecimal texts of lualib-src/lua-crypt.c, with Crypt/Hex about the round trip.
--   - Server: src/sn_server.cpp and src/sn_harbor.cpp, on top of Handle, Mq and Monitor. Server has
--     sending, with data as addresses, a memory from addresses to bytes, and remote messages in a
--     store; Server/Sizes, Server/Send and Server/Delivery are about it. Server/Dispatch is the
--     worker loop and what drops the queue of a service that has gone, with Server/Dispatch/Rounds
--     about the loop; Server/Commands has the commands and Server/Commands/Exits is about the end
--     of a service; Server/Launch has the start of one. The queues that are deleted are listed,
--     since others may still have them. The code of modules, the callbacks of services and the
--     allocator are parameters.
--   - Monitor: src/sn_monitor.cpp, with Monitor/Checks about two checks of one worker.
--   - HarborService: service-src/service_harbor.c. HarborService has the queues and the codec of
--     headers, HarborService/Slaves the connections and the reading of their bytes,
--     HarborService/Names the global names and HarborService/Mainloop the messages of the service.
--     HarborService/Ring is about the queue, HarborService/Drains about messages that wait for a
--     node, HarborService/Lookup and HarborService/Named about names and messages that wait for
--     them, HarborService/Wire, HarborService/Feed, HarborService/Pending, HarborService/Rounds,
--     HarborService/Chunks and HarborService/Carried about messages on their way to another node,
--     whose bytes come in pieces, and HarborService/Opened and HarborService/Down about connections
--     that are closed. The loop of `push_socket_data` gets two rounds more than there are bytes,
--     and a loop over a queue as many as the queue has places.
--   - Mq: class SNMessageQueue of src/sn_mq.cpp. Mq/System has the queues of all services, the
--     global queue (the std::queue of the _DEBUG build) and the queues that threads hold; a run is
--     any sequence of locked sections of Push, of ForceInGlobal and of workers, on queues that are
--     not being released. Mq/Invariant and Mq/Fifo prove what holds in every run, and Mq/Overload
--     is about single queues. The loop of `Pop` gets as many rounds as there are messages, and the
--     queue notes it when these are not enough.
--   - Timer: src/sn_timer.cpp. Timer/Wheel has the timing wheel, with its arrays of linked lists as
--     functions into lists, and Timer/Clock the entry points. Timer/Place and Timer/Tick are the
--     arithmetic of the lists' positions, Timer/Slots, Timer/Shift and Timer/Execute each
--     function's effect on the nodes that wait, Timer/Runs, Timer/Fires and Timer/UpdateTime whole
--     updates. The loop of `timer_shift` gets four rounds and that of `timer_execute` two.
--
-- Arithmetic: a uint32_t is a number that each operation takes modulo 2 ^ 32; masks are the native
-- bit operations, which Prelude/Bits relates to quotients and remainders. Addresses are numbers. Sizes and counts
-- that are ints, those of buffers, blocks and queues, are not cut to 31 bits: the model agrees with the
-- code below 2 ^ 31, and where a theorem depends on it, it has the bound.
--
-- Not modelled: threads as such, the lock-free global queue of boost with its overflow list, memory
-- allocation, the messages of skynet_error to the logger, files, sockets below libuv, Lua, the copy
-- of sproto in lualib-src/, and the vendored libraries of deps/.
pub mod Prelude
pub mod Message
pub mod Handle
pub mod Gate
pub mod Cluster
pub mod Crypt
pub mod Netpack
pub mod Monitor
pub mod Server
pub mod HarborService
pub mod Seri
pub mod HashId
pub mod Mq
pub mod Timer
