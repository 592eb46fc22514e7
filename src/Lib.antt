-- ===== src/Lib.antt =====
-- A verification library for the data broker: queues of messages behind a TCP server.
--
-- The program. `src/net/server.rs` accepts connections, splits what they send into requests and
-- starts a task for each. A task looks the queue up by its name, first in the map from names to
-- uuids and then in the map from uuids to queues, calls operations of `Queue` and answers with a
-- status and a payload. `src/net/queue.rs` is one queue: the ids in the order of their arrival, the
-- messages by id, for each client the list of ids that it holds, and the id that the next reader
-- gets. A reader locks a message; an acknowledgement removes it and leaves a 0 in its place; a lock
-- is given back on request or by a timer. The allocator (`src/memory/allocator.rs`) gives slots of
-- one arena, from a list of free nodes or from its unused end, and counts the memory in use; the
-- server reads its counters to refuse requests that are too large. `src/main.rs` reads the
-- configuration (`src/config.rs`), sets up the arena, starts the server, and on a signal tells it to
-- stop; the server hands its connections to a pool of threads and counts them until none is left.
--
-- The files.
--   Prelude, Dict, Bytes   lists, results with errors and panics, `HashMap`, big-endian integers
--   Queue.Message          `QueueMessage`, `MessageMeta` and their bytes
--   Queue.Config           `QueueConfig`, `NetQueueConfig` and its bytes
--   Queue.State            the fields of `Queue`, `Queue::new`, `find_nonzero`, `remove_zeroes`
--   Queue.Ops              `enqueue`, `lock_to_read`, `dequeue`
--   Queue.Locks            `is_locked`, `unlock`, `requeue`, `update_message`, `list_messages`, the
--                          getters and the configuration
--   Queue.Payloads, Queue.Sizes   the biggest payloads, the memory estimates
--   Errors, NetStats       `src/errors.rs`, `src/net/net_stats.rs`
--   Memory                 the counters of `src/memory/allocator.rs`
--   Memory.Align, Memory.Arena, Memory.Alloc, Memory.Defragment   its `align_up`, its statics, `init`
--                          with `alloc` and `dealloc`, and `defragment` with the round of its thread
--   Config                 `parse_config` of `src/config.rs`
--   Pool                   `Pool` of `src/net/server.rs`
--   Lifecycle              the arguments, the loop and the `shutdown` of `src/main.rs`, with `run` and
--                          `handle_connection` of `src/net/server.rs`, as a step relation
--   Lifecycle.Launch       `main` up to the loop, with `Addr` and `start_server`
--   Server.Wire, Server.Frame     `Request`, `Response`, and the framing in `read_buffer`
--   Server.Connection      the loop of `read_buffer` over what a connection reads
--   Server.State           `Server`: the two maps and the counters; `get_queue`
--   Server.Handlers, Server.Updates, Server.Dispatch   the task of each request and the `match`
--   Server.Traffic         the requests of all clients and the answers about one queue
--   Server.Locks           the locks that the task of a request takes and gives back, in their order
--   Server.Locks.Running   tasks side by side that wait for locks
--   The other modules are proofs: Queue.Invariant (well-formedness), Queue.Fifo (the queue as a
--   first-in first-out list, with Fifo.Held for what the clients hold), Queue.Reads, Queue.Acks,
--   Queue.Requeue, Queue.Faults (what one call does, and what goes wrong at the edges),
--   Server.Invariant (the two maps), Server.Run (the server as a step relation), Server.Isolation
--   (requests and other queues), Server.Delivery (requests against the list),
--   Server.Traffic.Answers (their answers from CreateQ on), Server.Refusals and Queue.Atomic
--   (what fails, and why), Server.Locks.Order, Invariant, Progress, Finish and Exclusion (the
--   order of the locks, and what they keep apart), Server.Frame.Fuel and Names (how far the
--   framing goes, and the name in its field),
--   Server.Connection.Resume and Chunks (a request in several reads), Memory.Owners,
--   Memory.Tiling and Memory.Run (which node or slot holds an address, under every call),
--   Memory.Defragment.Order and Canonical (the list after `defragment`), Memory.Recover (an arena
--   without slots), Config.Numerals, Names and Values (what the file says), Pool.Least, Room and
--   Balance (the pressures and the channels), Lifecycle.Shutdown (the notifications), and the
--   modules RoundTrip, Layout and Codes (encodings). Tests has the results at concrete inputs.
--
-- The correspondence. A function has the name of the Rust function that it models. An operation of
-- `Queue` takes the state and gives the new state beside `ok`, an error or `panic` (an `unwrap` of
-- nothing; the state is then the one that the calls before it left). The `Arc`s around the list of
-- a client and around a queue are reached through the map that owns them only, so a list stands in
-- the map itself and a queue under its uuid. A task works on the maps and on its queue under their
-- locks, and is one step; a Dequeue is one step when it hands out a message, and another when its
-- timer runs out. In Server.Locks a task is the list of its actions: it takes `queue_names` and
-- `queue` (tokio's `RwLock`, shared or exclusive), the mutex of a queue and that of the writing
-- half of a connection, and gives the lock that it took last back first, as guards are dropped. A
-- lock can go to a task when no holder is in the way; whom tokio serves first is left open. Time,
-- new uuids, the capacities that collections chose, whether the socket takes the answer of a
-- Dequeue, and the counter of the memory in use, which every allocation of every task moves, are
-- arguments of a request. The list of a worker of the pool has the jobs in its bounded channel and
-- behind them those whose send waits.
-- `HashMap` is an association list: an insertion writes in place or puts the new key last.
-- The list of free nodes is a list in the order of the `next` pointers, and a header is kept with
-- its user pointer until the release. A loop around a compare-exchange is one step, at the exchange
-- that succeeds; the system allocator is an outcome of `alloc` and `dealloc`, and the answer of the
-- operating system to `init` an argument. So are the text of the file of settings and the matches of
-- the regular expression in it. In Lifecycle whoever waits for a notification may wake at any time
-- after it, or never.
--
-- Bounds and fuel. Integers are natural numbers; ids wrap at 2 ^ 128 as `wrapping_add` does, and
-- `usize` is 64 bits wide: the counters and `align_up` wrap there. `read_frames` runs on fuel: a
-- round takes a request of at least 89 bytes off the buffer, so more rounds than there are bytes are
-- enough.
-- The factor 2.25 on a size is `* 9 / 4`, which is exact up to the largest payload accepted.
--
-- Not modelled: sockets and the logging; a task's answer is a value, and what it answers when a write
-- fails is looked at for the message of a Dequeue alone, since the other answers are the last thing
-- that a task does. The order of the writes to one socket. Of the allocator, the interleavings of
-- the atomic accesses within one call, and a lock that is poisoned. The path of the file of
-- settings. The tests.
pub mod Prelude
pub mod Config
pub mod Dict
pub mod Bytes
pub mod Errors
pub mod Queue
pub mod Lifecycle
pub mod Memory
pub mod Pool
pub mod NetStats
pub mod Server
pub mod Tests
