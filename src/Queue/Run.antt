-- ===== src/Queue/Run.antt =====
-- net/queue.rs: the calls that the server makes on a queue, in any order.
use rust_data_broker.Prelude.{ℕ, Bool, Option, List, [], ◌∷◌}
use rust_data_broker.Queue.State.{Queue, new_queue}
use rust_data_broker.Queue.Ops.{enqueue, lock_to_read, dequeue}
use rust_data_broker.Queue.Locks.{
  unlock, requeue, update_message, update_config_auto_fail, update_config_fail_timeout,
}
use rust_data_broker.Queue.Invariant.{Inv, new_queue-Inv}
use rust_data_broker.Queue.Invariant.Delivery.{enqueue-Inv, lock_to_read-Inv}
use rust_data_broker.Queue.Invariant.Removal.{dequeue-Inv}
use rust_data_broker.Queue.Invariant.Release.{
  unlock-Inv, requeue-Inv, update_message-Inv, update_config-Inv,
}

-- A call with its arguments; the time is that of the clock during the call.
pub data Call : Type 0 where
  enqueues : (payload : List ℕ) (publisher_id now : ℕ) → Call
  reads : (client_id : ℕ) → Call
  dequeues : (client_id : ℕ) (message_id : Option ℕ) → Call
  unlocks : (client_id : ℕ) (message_id : Option ℕ) → Call
  requeues : (client_id message_id now : ℕ) → Call
  updates : (message_id : ℕ) (payload : List ℕ) → Call
  sets_auto_fail : Bool → Call
  sets_fail_timeout : ℕ → Call

unfoldable pub step : Queue → Call → Queue
step q (enqueues payload publisher_id now) = (enqueue q payload publisher_id now).0
step q (reads c) = (lock_to_read q c).0
step q (dequeues c m) = (dequeue q c m).0
step q (unlocks c m) = (unlock q c m).0
step q (requeues c m now) = (requeue q c m now).0
step q (updates m payload) = (update_message q m payload).0
step q (sets_auto_fail b) = update_config_auto_fail q b
step q (sets_fail_timeout t) = update_config_fail_timeout q t

unfoldable pub run : Queue → List Call → Queue
run q [] = q
run q (c ∷ calls) = run (step q c) calls

step-Inv : (q : Queue) (c : Call) → Inv q → Inv (step q c)
unfolding step
step-Inv q (enqueues payload publisher_id now) v = enqueue-Inv q payload publisher_id now v
step-Inv q (reads c) v = lock_to_read-Inv q c v
step-Inv q (dequeues c m) v = dequeue-Inv q c m v
step-Inv q (unlocks c m) v = unlock-Inv q c m v
step-Inv q (requeues c m now) v = requeue-Inv q c m now v
step-Inv q (updates m payload) v = update_message-Inv q m payload v
step-Inv q (sets_auto_fail b) v = (update_config-Inv q b 0 v).0
step-Inv q (sets_fail_timeout t) v = (update_config-Inv q Bool.false t v).1

run-Inv : (q : Queue) (calls : List Call) → Inv q → Inv (run q calls)
unfolding run
run-Inv q [] v = v
run-Inv q (c ∷ calls) v = run-Inv (step q c) calls (step-Inv q c v)

-- Whatever calls are made on a new queue, in whatever order and with whatever arguments, every
-- message has its id in `order`, no message has the id 0, a message locked by a client is in the
-- list of that client, no id 0 is held or next, no id stands under two messages, and every place of
-- `order` is a u128.
pub run-new_queue-Inv : (calls : List Call) → Inv (run new_queue calls)
run-new_queue-Inv calls = run-Inv new_queue calls new_queue-Inv
