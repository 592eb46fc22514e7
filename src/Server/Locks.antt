-- ===== src/Server/Locks.antt =====
-- net/server.rs: which locks the task of a request takes, in which order, and what it does between
-- them. A task gives its locks back in the opposite order. The lists of locked ids stand under
-- locks of their own, which only the holder of the queue's mutex takes: no task waits for them.
pub mod Order
pub mod Running
pub mod Invariant
pub mod Progress
pub mod Finish
pub mod Exclusion
use rust_data_broker.Prelude.{
  ℕ, ◌<◌, ◌≡◌, Bool, true, false, ◌&&◌, ◌||◌, not, none, Option, some, List, [], ◌∷◌, ◌++◌, ◌==◌,
  if◌then◌else◌,
}
use native.Mathlib.Decide.{ℕ_discrete}
use mathlib.Core.Logic.{ite}
use rust_data_broker.Server.Wire.{
  Request, enqueue, dequeue, create_q, delete_q, list_m, delete_m, succeeded, failed, requeue,
  update_m, update_q, net_stats,
}

-- `queue_names`, `queue`, the mutex of a queue, and that of the writing half of a connection.
pub data Lock : Type 0 where
  names : Lock
  queues : Lock
  one_queue : (hash : ℕ) → Lock
  writer : (connection : ℕ) → Lock

pub data Mode : Type 0 where
  shared : Mode
  exclusive : Mode

pub data Action : Type 0 where
  take : Lock → Mode → Action
  give : Action

-- What decides the way of a task: whether its frame is parsed, whether the name has a hash and the
-- hash a queue, whether the payload passes its guard, whether the read of a Dequeue and the writing
-- of its answer succeed, and whether its timer runs; the queues that NetStats visits.
pub record Plan : Type 0 where
  pub command : Request
  pub connection : ℕ
  pub parsed : Bool
  pub named : Bool
  pub found : Option ℕ
  pub valid : Bool
  pub is_read : Bool
  pub is_written : Bool
  pub timer : Bool
  pub hashes : List ℕ

-- `send_response`
unfoldable pub send : ℕ → List Action
send connection = take (writer connection) exclusive ∷ give ∷ []

-- `queue.read()` and `get_queue`, then what is done under the read lock.
unfoldable pub under_queues : List Action → List Action
under_queues actions = take queues shared ∷ take names shared ∷ give ∷ (actions ++ give ∷ [])

unfoldable pub visit : ℕ → List Action
visit hash = take (one_queue hash) exclusive ∷ give ∷ []

unfoldable pub visit_all : List ℕ → List Action
visit_all [] = []
visit_all (hash ∷ hashes) = take (one_queue hash) exclusive ∷ give ∷ visit_all hashes

-- The arms of a `match` on an operation of the locked queue: they answer before the guard is dropped.
unfoldable pub on_queue : Option ℕ → ℕ → List Action
on_queue none connection = under_queues (send connection)
on_queue (some hash) connection =
    under_queues (take (one_queue hash) exclusive ∷ (send connection ++ give ∷ []))

-- Dequeue: `lock_and_dequeue_message`, and the answer to its error, when the read locks are back.
-- The tests tell whether the message is read, its bytes written, and the timer waited for.
unfoldable pub dequeue_actions : Option ℕ → Bool → Bool → Bool → ℕ → List Action
dequeue_actions none is_read is_written timer connection = under_queues [] ++ send connection
dequeue_actions (some hash) false is_written timer connection =
    under_queues (visit hash) ++ send connection
dequeue_actions (some hash) true false timer connection =
    under_queues (visit hash ++ send connection) ++ send connection
dequeue_actions (some hash) true true false connection =
    under_queues (visit hash ++ (send connection ++ visit hash))
dequeue_actions (some hash) true true true connection =
    under_queues (visit hash ++ (send connection ++ (visit hash ++ visit hash)))

-- Succeeded: `dequeue_message_sent`, and then the answer.
unfoldable pub succeeded_actions : Option ℕ → ℕ → List Action
succeeded_actions none connection = under_queues [] ++ send connection
succeeded_actions (some hash) connection = under_queues (visit hash) ++ send connection

unfoldable pub list_m_actions : Bool → Option ℕ → ℕ → List Action
list_m_actions false found connection = take names shared ∷ give ∷ send connection
list_m_actions true none connection =
    take names shared ∷ give ∷ take queues shared ∷ give ∷ send connection
list_m_actions true (some hash) connection =
    take names shared ∷ give ∷ take queues shared ∷ give ∷ (visit hash ++ send connection)

unfoldable pub net_stats_actions : List ℕ → ℕ → List Action
net_stats_actions hashes connection =
    take names shared
    ∷ take queues shared
    ∷ (visit_all hashes ++ (send connection ++ give ∷ give ∷ []))

-- CreateQ and DeleteQ, which the reading task runs; the answer is a task of its own.
unfoldable pub write_both : List Action
write_both = take names exclusive ∷ take queues exclusive ∷ give ∷ give ∷ []

-- DeleteM, Requeue and UpdateQ: the payload is looked at once the queue is found.
unfoldable pub guarded : Plan → List Action
guarded p =
    if not p.parsed
    then send p.connection
    else if p.valid
    then on_queue p.found p.connection
    else under_queues (send p.connection)

unfoldable pub actions_of : Request → Plan → List Action
actions_of enqueue p = if p.parsed then on_queue p.found p.connection else send p.connection
actions_of dequeue p = dequeue_actions p.found p.is_read p.is_written p.timer p.connection
actions_of create_q p = write_both
actions_of delete_q p = write_both
actions_of list_m p = list_m_actions p.named p.found p.connection
actions_of delete_m p = guarded p
actions_of succeeded p = succeeded_actions p.found p.connection
actions_of failed p = on_queue p.found p.connection
actions_of requeue p = guarded p
actions_of update_m p =
    if p.parsed && p.valid then on_queue p.found p.connection else send p.connection
actions_of update_q p = guarded p
actions_of net_stats p = net_stats_actions p.hashes p.connection

-- What one task does in turn: the requests it runs itself, and answers.
pub data Job : Type 0 where
  request : (plan : Plan) → Job
  answer : (connection : ℕ) → Job

unfoldable pub job_actions : Job → List Action
job_actions (request p) = actions_of p.command p
job_actions (answer connection) = send connection

unfoldable pub program : List Job → List Action
program [] = []
program (job ∷ jobs) = job_actions job ++ program jobs
