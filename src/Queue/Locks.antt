-- ===== src/Queue/Locks.antt =====
-- net/queue.rs: the operations of `Queue` on locks, on single messages and on the configuration.
use native.Mathlib.Decide.{ℕ_discrete}
use rust_data_broker.Prelude.{
  ℕ, ◌+◌, Bool, false, Option, none, some, List, [], ◌∷◌, map, ltb, if◌then◌else◌, is_empty,
  position, contains, remove_at, length, ok, err, panic, ◌>>=◌,
}
use rust_data_broker.Dict
use rust_data_broker.Dict.{Dict}
use rust_data_broker.Queue.Message.{QueueMessage, MessageMeta, new_meta}
use rust_data_broker.Queue.Message
use rust_data_broker.Queue.Config.{QueueConfig}
use rust_data_broker.Queue.State.{
  Queue, queue_is_empty, not_locked_by_client, message_not_in_queue, message, locked_ids,
}
use rust_data_broker.Queue.Ops.{Reply, enqueue, dequeue}

-- `Queue::is_locked`
unfoldable pub is_locked : Queue → ℕ → ℕ → Bool
is_locked q client_id message_id = elim (locked_ids client_id q) [
  | none ↦ false
  | some ids ↦ contains message_id ids
]

abbrev pub back_to : ℕ → Option ℕ → Option ℕ
back_to m none = some m
back_to m (some n) = if ltb m n then some m else some n

unfoldable pub unlock_in : Queue → ℕ → Dict ℕ QueueMessage
unlock_in q m = elim (message m q) [
  | none ↦ q.queue
  | some msg ↦ Dict.insert ℕ_discrete m (Message.unlock msg) q.queue
]

unfoldable pub unlock_id : Queue → ℕ → List ℕ → ℕ → Reply (Unit {0})
unfolding unlock_in
unlock_id q client_id ids m = elim (position m ids) [
  | none ↦ (q, panic)
  | some i ↦ (
    record q {
      locked = Dict.insert ℕ_discrete client_id (remove_at i ids) q.locked;
      queue = unlock_in q m;
      next_id = back_to m q.next_id;
    },
    ok tt,
  )
]

unfoldable pub unlock_held : Queue → ℕ → List ℕ → Option ℕ → Reply (Unit {0})
unfolding unlock_id
unlock_held q client_id ids (some m) =
    if contains m ids then unlock_id q client_id ids m else (q, err not_locked_by_client)
unlock_held q client_id [] none = (q, ok tt)
unlock_held q client_id (id ∷ ids) none = unlock_id q client_id (id ∷ ids) id

unfoldable pub unlock : Queue → ℕ → Option ℕ → Reply (Unit {0})
unfolding unlock_held
unlock q client_id message_id =
    if is_empty q.order then (q, err queue_is_empty) else elim (locked_ids client_id q) [
      | none ↦ (q, err not_locked_by_client)
      | some ids ↦ unlock_held q client_id ids message_id
    ]

unfoldable pub requeue : Queue → ℕ → ℕ → ℕ → Reply (Unit {0})
requeue q client_id message_id now =
    if is_empty q.order then (q, err queue_is_empty) else elim (message message_id q) [
      | none ↦ (q, err message_not_in_queue)
      | some m ↦
          let (q', _) = enqueue q m.payload m.publisher_id now in
          let (q'', size) = dequeue q' client_id (some message_id) in (q'', size >>= λ _. ok tt)
    ]

unfoldable pub update_message : Queue → ℕ → List ℕ → Reply (Unit {0})
update_message q message_id payload =
    if is_empty q.order then (q, err queue_is_empty) else elim (message message_id q) [
      | none ↦ (q, err message_not_in_queue)
      | some m ↦ (
        record q {
          queue = Dict.insert ℕ_discrete message_id (record m { payload = payload }) q.queue;
        },
        ok tt,
      )
    ]

abbrev pub entry_meta : ℕ × QueueMessage → MessageMeta
entry_meta (key, value) = new_meta key value.publisher_id value.timestamp value.locked_by

unfoldable pub list_messages : Queue → List MessageMeta
unfolding new_meta
list_messages q = map entry_meta q.queue

unfoldable pub get_total_messages : Queue → ℕ
get_total_messages q = length q.queue

unfoldable pub sum_lengths : Dict ℕ (List ℕ) → ℕ
sum_lengths [] = 0
sum_lengths ((client_id, ids) ∷ locked) = length ids + sum_lengths locked

unfoldable pub get_total_messages_locked : Queue → ℕ
unfolding sum_lengths
get_total_messages_locked q = sum_lengths q.locked

unfoldable pub get_config_auto_fail : Queue → Bool
get_config_auto_fail q = q.config.auto_fail

unfoldable pub get_config_fail_timeout : Queue → ℕ
get_config_fail_timeout q = q.config.fail_timeout

set_auto_fail : QueueConfig → Bool → QueueConfig
set_auto_fail c value = record c { auto_fail = value }

set_fail_timeout : QueueConfig → ℕ → QueueConfig
set_fail_timeout c value = record c { fail_timeout = value }

unfoldable pub update_config_auto_fail : Queue → Bool → Queue
unfolding set_auto_fail
update_config_auto_fail q value = record q { config = set_auto_fail q.config value }

unfoldable pub update_config_fail_timeout : Queue → ℕ → Queue
unfolding set_fail_timeout
update_config_fail_timeout q value = record q { config = set_fail_timeout q.config value }
