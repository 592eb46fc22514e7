-- ===== src/Server/Run.antt =====
-- The server as a step relation: the tasks of the requests, whichever order the runtime gives them,
-- the timers of the messages that were handed out, and the allocator behind the counters. A task
-- works under the locks of the maps and of its queue, so its work on them is one step; a Dequeue is
-- one step when it hands out the message and another when its timer has run out.
use rust_data_broker.Prelude.{ℕ, ◌≡◌, none, List, [], ◌∷◌}
use rust_data_broker.Dict
use rust_data_broker.Memory.{Memory}
use rust_data_broker.Server.State.{Server, Name, new_server, create_queues}
use rust_data_broker.Server.Frame.{Frame}
use rust_data_broker.Server.Handlers.{auto_unlock}
use rust_data_broker.Server.Dispatch.{Surroundings, handle_frame}
use rust_data_broker.Server.Invariant.{IsConsistent, queue_at, memory-IsConsistent}
use rust_data_broker.Server.Invariant.Names.{with_queue, with_queue-IsConsistent}
use rust_data_broker.Server.Invariant.Requests.{handle_frame-IsConsistent, auto_unlock-IsConsistent}

-- A new uuid is one under which there is no queue.
pub data Step : Server → Server → Type 0 where
  request :
      (s : Server) (f : Frame) (e : Surroundings)
      → queue_at e.new_hash s ≡ none
      → Step s (handle_frame s f e).0
  timer : (s : Server) (hash client_id id : ℕ) → Step s (auto_unlock s hash client_id id)
  allocator : (s : Server) (m : Memory) → Step s (record s { memory = m })

pub data Reach (s : Server) : Server → Type 0 where
  here : Reach s s
  next : {t u : Server} → Reach s t → Step t u → Reach s u

-- The uuids of the configured queues are new, one after the other.
abbrev pub AreNew : Server → List (Name × ℕ) → Type 0
AreNew s [] = Unit {0}
AreNew s ((n, hash) ∷ names) = (queue_at hash s ≡ none) × AreNew (with_queue s n hash) names

new_server-IsConsistent : (m : Memory) → IsConsistent (new_server m)
unfolding new_server Dict.lookup
new_server-IsConsistent m = record {
  queues = λ hash q e. cc;
  named = λ n hash e. cc;
  apart = λ n o hash e f. cc;
}

create_queues-IsConsistent :
    (s : Server) (names : List (Name × ℕ))
    → IsConsistent s
    → AreNew s names
    → IsConsistent (create_queues s names)
unfolding create_queues
create_queues-IsConsistent s [] k a = k
create_queues-IsConsistent s ((n, hash) ∷ names) k a =
    create_queues-IsConsistent (with_queue s n hash) names (with_queue-IsConsistent s n hash k a.0)
      a.1

Step-IsConsistent : {s t : Server} → Step s t → IsConsistent s → IsConsistent t
Step-IsConsistent (request s f e fresh) k = handle_frame-IsConsistent s k f e fresh
Step-IsConsistent (timer s hash c id) k = auto_unlock-IsConsistent s k hash c id
Step-IsConsistent (allocator s m) k = memory-IsConsistent s m k

Reach-keeps : {s t : Server} → IsConsistent s → Reach s t → IsConsistent t
Reach-keeps k here = k
Reach-keeps k (next r st) = Step-IsConsistent st (Reach-keeps k r)

-- Whatever a server that starts with queues under new uuids is asked, in whatever order, its queues
-- are well-formed, every name leads to a queue, and no two names lead to the same.
pub Reach-IsConsistent :
    (m : Memory) (names : List (Name × ℕ)) (t : Server)
    → AreNew (new_server m) names
    → Reach (create_queues (new_server m) names) t
    → IsConsistent t
Reach-IsConsistent m names t a r =
    Reach-keeps (create_queues-IsConsistent (new_server m) names (new_server-IsConsistent m) a) r
