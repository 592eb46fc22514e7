-- ===== src/Server/State.antt =====
-- net/server.rs: the state of `Server` that the requests read and change, and the answers.
-- A queue is reached through the uuid under which the map holds it; the uuids that `Uuid::new_v4`
-- gives are arguments.
use native.Mathlib.Decide.{ℕ_discrete}
use rust_data_broker.Prelude.{ℕ, none, some, List, [], ◌∷◌, Outcome, ok, err}
use rust_data_broker.Dict
use rust_data_broker.Dict.{Dict}
use rust_data_broker.Errors.{ErrorCode, queue_hash_not_found, queue_not_found}
use rust_data_broker.Memory.{Memory}
use rust_data_broker.Queue.State.{Queue, new_queue}

abbrev pub Name : Type 0
Name = List ℕ

unfoldable pub Name-discrete : Discrete Name
unfolding ℕ_discrete
Name-discrete = hlevel ℕ_discrete

pub record Server : Type 0 where
  pub queue : Dict ℕ Queue
  pub queue_names : Dict Name ℕ
  pub memory : Memory

-- What the task of a request writes to the connection. A task that panics writes nothing.
pub data Answer : Type 0 where
  succeeded : List ℕ → Answer
  failed : ErrorCode → Answer
  silent : Answer

unfoldable pub get_queue : Server → Name → Outcome ErrorCode (ℕ × Queue)
get_queue s queue_name = elim (Dict.lookup Name-discrete queue_name s.queue_names) [
  | none ↦ err queue_hash_not_found
  | some hash ↦ elim (Dict.lookup ℕ_discrete hash s.queue) [
    | none ↦ err queue_not_found
    | some queue ↦ ok (hash, queue)
  ]
]

abbrev pub put_queue : Server → ℕ → Queue → Server
put_queue s hash q = record s { queue = Dict.insert ℕ_discrete hash q s.queue }

-- `Server::new`, without the address and the signals.
unfoldable pub new_server : Memory → Server
new_server memory = record { queue = []; queue_names = []; memory = memory }

-- The queues of the configuration, each with its uuid.
unfoldable pub create_queues : Server → List (Name × ℕ) → Server
unfolding new_queue
create_queues s [] = s
create_queues s ((queue_name, hash) ∷ names) =
    create_queues
      (record s {
        queue = Dict.insert ℕ_discrete hash new_queue s.queue;
        queue_names = Dict.insert Name-discrete queue_name hash s.queue_names;
      })
      names
