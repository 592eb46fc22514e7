-- ===== src/Queue/State.antt =====
-- net/queue.rs: the state of a `Queue`, its errors and the helpers that its operations share.
-- The list of ids that a client holds stands in the `locked` map itself: each `Arc` is reached
-- through this map only.
use mathlib.Core.Option
use native.Mathlib.Decide.{ℕ_discrete}
use rust_data_broker.Prelude.{
  ℕ, ◌-◌, Option, none, some, List, [], ◌∷◌, ◌==◌, leb, if◌then◌else◌, length, drop, suc,
}
use rust_data_broker.Dict
use rust_data_broker.Dict.{Dict}
use rust_data_broker.Queue.Message.{QueueMessage}
use rust_data_broker.Queue.Config.{QueueConfig, new_config}

pub record Queue : Type 0 where
  pub order : List ℕ
  pub queue : Dict ℕ QueueMessage
  pub locked : Dict ℕ (List ℕ)
  pub next_id : Option ℕ
  pub config : QueueConfig
  pub biggest_payloads : List ℕ

-- The texts of the `io::Error`s that the operations return.
pub data QueueError : Type 0 where
  queue_is_empty : QueueError
  no_such_message_id : QueueError
  message_already_locked : QueueError
  no_such_message_id_locked : QueueError
  not_locked_by_client : QueueError
  message_not_in_queue : QueueError

unfoldable pub new_queue : Queue
unfolding new_config
new_queue = record {
  order = [];
  queue = [];
  locked = [];
  next_id = none;
  config = new_config;
  biggest_payloads = 0 ∷ 0 ∷ 0 ∷ 0 ∷ 0 ∷ [];
}

abbrev pub message : ℕ → Queue → Option QueueMessage
message id q = Dict.lookup ℕ_discrete id q.queue

abbrev pub locked_ids : ℕ → Queue → Option (List ℕ)
locked_ids client_id q = Dict.lookup ℕ_discrete client_id q.locked

-- `iter().find(|x| x != 0)` and `iter().position(|i| i != 0)`
unfoldable pub find_nonzero : List ℕ → Option ℕ
find_nonzero [] = none
find_nonzero (x ∷ xs) = if x == 0 then find_nonzero xs else some x

unfoldable pub position_nonzero : List ℕ → Option ℕ
position_nonzero [] = none
position_nonzero (x ∷ xs) = if x == 0 then Option.map suc (position_nonzero xs) else some 0

abbrev pub magic_drain_vec : ℕ
magic_drain_vec = 10

unfoldable pub drain_zeroes : List ℕ → List ℕ
unfolding position_nonzero
drain_zeroes order =
    if leb magic_drain_vec (length order)
    then elim (position_nonzero order) [
      | some id ↦ if leb (magic_drain_vec - 1) id then drop id order else order
      | none ↦ []
    ]
    else order

unfoldable pub remove_zeroes : Queue → Queue
unfolding drain_zeroes
remove_zeroes q = record q { order = drain_zeroes q.order }
