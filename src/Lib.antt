-- ===== src/Lib.antt =====
-- Verification of ghetto-redis, a Redis-like server in C whose keys are spread over shards, each
-- with a thread, a reactor and its databases.
--
-- How the program works. `on_data_available` (src/server.c) parses a request from a connection's
-- receive buffer (src/include/protocol.c), finds the command in a table and calls its function
-- (src/include/commands.c). A command on a key belongs to the shard `hash % size`: on that shard it
-- is executed at once, else DEFINE_COMMAND (src/include/commands.h) sends a message to the owner's
-- reactor, which executes it and sends the reply back as a message. `on_cb` runs a message and then
-- goes on with the connection's requests.
--
-- Files:
--   Prelude            words of 64 bits, memory, lists, decimal text, `int64_t`
--   Protocol           the types of src/include/protocol.h; children for src/include/protocol.c:
--     Number             `parse_number`
--     Resp               `parse_resp_request`; Resp/Layout has the requests that a client writes
--     Inline             `parse_inline_request`; Inline/Words has what a line means
--     Reply              the `write_…` functions, as the bytes that they append
--   HashMap            the calls of src/include/hashmap.c, as an interface with laws
--   Kv                 src/include/kv.c
--   Commands           State: connections, shards, reactors and messages (src/include/state.h,
--                      src/include/reactor.h); Counter, Handlers, Plain and Table:
--                      src/include/commands.c; Dispatch: DEFINE_COMMAND; Call: the function pointers
--   Reactor            src/include/reactor.c, `reactor_wakeup_pending` of src/include/reactor_epoll.c
--   Server             src/server.c; Server/Start: what `main` sets up; Commands/Frame has what commands
--                      leave alone, for Server/Progress; Server/Delivery: a command with the rounds of
--                      callbacks that answer it; Server/Reads: the arguments that commands look at
--   Vector             src/include/vector.h; Reactor/Table: the table of connections that uses it;
--                      Reactor/Table/Closing: the end of `reactor_run`
--   Epoll              sockets, of src/include/reactor_epoll.c: reading, writing; Epoll/Events: one event
--   Shards             all shards, in steps of a command, a callback or a socket operation; Shards/Store is
--                      the store that they are together, Shards/Reached relates the two, and
--                      Shards/Runs and Shards/Polls have the handlers of src/server.c as such steps
--   Wakeup             the sleeping and waking of the loop of src/include/reactor_epoll.c, by access
--   Spscq              src/include/spsc.c: the queue of one producer and one consumer, by memory access
--   Mpmcq              src/include/mpmcq.c: the queue of messages, as one thread runs it alone;
--                      Mpmcq/Threads: any number of threads, by memory access
--   Deque              src/include/deque.c, which the server does not run; Deque/Ring has the links as a
--                      ring
--   Examples           concrete inputs
--
-- Correspondence. Addresses and `size_t` are natural numbers below 2^64 with the wrap-around written
-- out (`add_size`, `sub_size`). Memory is a function from addresses to bytes, so that a read behind
-- the received bytes is a read like any other. An `int64_t` is the word of its bits. A connection is
-- known by its address, a shard by its index. A call that does not return, or whose
-- assertion fails, is `none`. Threads are
-- steps on one state: each command, callback and round of the loops is taken as a whole, which is
-- exact for what only the shard's own thread touches; in Spscq, Wakeup and Mpmcq/Threads each
-- access to shared memory is a step, and the threads interleave freely.
--
-- Bounds and fuel. The loops of the parsers recurse on the rounds that their tests allow.
-- `poll_loop`, `drain` and the loops of Mpmcq have fuel for their rounds; without fuel left they are
-- `none`, as a loop that has not ended. Decimal text has at most 20 digits, which is enough for
-- every 64-bit number.
--
-- Not modelled: the hash table (third-party, an interface here), allocation and its failures, the
-- writes past the end of the send buffer (Server/Progress says where a run comes to that), SHUTDOWN
-- in Wakeup, the creation of sockets and of the epoll descriptor, logging, the experiments under
-- hack, and src/include/deque_embedded.c, which is compiled out.
pub mod Prelude
pub mod Protocol
pub mod HashMap
pub mod Kv
pub mod Commands
pub mod Vector
pub mod Reactor
pub mod Server
pub mod Epoll
pub mod Examples
pub mod Spscq
pub mod Deque
pub mod Shards
pub mod Wakeup
pub mod Mpmcq
