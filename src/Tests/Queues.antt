-- ===== src/Tests/Queues.antt =====
-- The operations of a queue at concrete queues.
use native.Mathlib.Decide.{ℕ_discrete}
use rust_data_broker.Prelude.{
  ℕ, ◌≡◌, refl, Option, none, some, [], ◌∷◌, ◌++◌, arith, ok, err, panic,
}
use rust_data_broker.Dict
use rust_data_broker.Queue.Message.{
  QueueMessage, MessageMeta, new_message, lock, get_meta_as_vec, meta_to_be_bytes,
}
use rust_data_broker.Queue.State.{Queue, message}
use rust_data_broker.Queue.Ops.{enqueue, lock_to_read, dequeue, next_enqueue_id, read_message}
use rust_data_broker.Queue.Locks.{requeue, get_total_messages}
use rust_data_broker.Queue.Order.{erase}
use rust_data_broker.Queue.Acks.{Removed, Holds, dequeue_by_id, dequeue_acknowledges}
use rust_data_broker.Queue.Requeue.{requeue_moves}
use rust_data_broker.Queue.Faults.{delete_then_acknowledge, enqueue_overwrites, requeue_loses}
use rust_data_broker.Queue.Reads.{Handed, lock_to_read-Handed}
use rust_data_broker.Queue.Payloads.{get_next_biggest_payload}
use rust_data_broker.Queue.Payloads.Sorted.{
  IsRanked, max_size, keep_biggest, get_next_biggest_payload-IsRanked,
}
use rust_data_broker.Queue.Faults.{acknowledge_strands}
use rust_data_broker.Queue.State.{no_such_message_id}
use rust_data_broker.Prelude.{err}
use rust_data_broker.Tests.Base.{first_message, second_message, two, cleared}

lock_to_read-Handed_example :
    (n : ℕ) × (◌≡◌ {A = Option ℕ} (some 2) (some n))
    × Handed two (lock_to_read two 6).0 6 n (get_meta_as_vec 2 (lock second_message 6) ++ 3 ∷ [])
unfolding lock_to_read read_message Dict.lookup ℕ_discrete rust_data_broker.Queue.Message.is_locked
lock_to_read-Handed_example =
    lock_to_read-Handed two 6 (get_meta_as_vec 2 (lock second_message 6) ++ 3 ∷ []) (some 2) refl

dequeue_by_id_example :
    ((dequeue two 5 (some 1)).1 ≡ ok 2)
    × Removed two (dequeue two 5 (some 1)).0 1
    × Holds two.locked (dequeue two 5 (some 1)).0.locked 5 (some (erase 1 (1 ∷ [])))
unfolding Dict.lookup ℕ_discrete
dequeue_by_id_example = dequeue_by_id two 5 1 first_message refl refl

dequeue_acknowledges_example :
    ((dequeue two 5 (some 9)).1 ≡ ok 2)
    × Removed two (dequeue two 5 (some 9)).0 1
    × Holds two.locked (dequeue two 5 (some 9)).0.locked 5 (some [])
unfolding Dict.lookup ℕ_discrete
dequeue_acknowledges_example =
    dequeue_acknowledges two 5 (some 9) 1 [] refl (λ m e. ground arith) refl first_message refl

requeue_moves_example :
    ((requeue two 5 1 200).1 ≡ ok tt)
    × (message 3 (requeue two 5 1 200).0 ≡ some (new_message (1 ∷ 2 ∷ []) 7 200))
    × (message 1 (requeue two 5 1 200).0 ≡ none)
    × ((requeue two 5 1 200).0.queue
        ≡ Dict.remove ℕ_discrete 1
            (Dict.insert ℕ_discrete 3 (new_message (1 ∷ 2 ∷ []) 7 200) two.queue))
unfolding Dict.lookup ℕ_discrete next_enqueue_id
requeue_moves_example = requeue_moves two 5 1 200 first_message refl refl refl

delete_then_acknowledge_example : (dequeue (dequeue two 6 (some 1)).0 5 none).1 ≡ panic
unfolding Dict.lookup ℕ_discrete
delete_then_acknowledge_example =
    delete_then_acknowledge two 5 6 1 [] first_message refl refl refl (λ e. omega arith) refl

enqueue_overwrites_example :
    (message 1 (enqueue cleared (4 ∷ []) 8 300).0 ≡ some (new_message (4 ∷ []) 8 300))
    × (get_total_messages (enqueue cleared (4 ∷ []) 8 300).0 ≡ get_total_messages cleared)
unfolding Dict.lookup ℕ_discrete
enqueue_overwrites_example = enqueue_overwrites cleared (4 ∷ []) 8 300 second_message refl refl

requeue_loses_example :
    ((requeue cleared 5 1 300).1 ≡ ok tt)
    × ((requeue cleared 5 1 300).0.queue ≡ Dict.remove ℕ_discrete 1 cleared.queue)
unfolding Dict.lookup ℕ_discrete
requeue_loses_example = requeue_loses cleared 5 300 second_message refl refl

get_next_biggest_payload-IsRanked_example :
    ((get_next_biggest_payload two).1 ≡ ok 0)
    × IsRanked (get_next_biggest_payload two).0.biggest_payloads (max_size two.queue 0)
    × ((get_next_biggest_payload (get_next_biggest_payload two).0).1 ≡ ok (max_size two.queue 0))
    × ((get_next_biggest_payload two).0.biggest_payloads
        ≡ keep_biggest two.queue two.biggest_payloads)
get_next_biggest_payload-IsRanked_example =
    get_next_biggest_payload-IsRanked two 0
      (record { five = refl; chain = ground arith; greatest = refl })

-- The client 5 holds the message 2, which is also next.
abbrev next_is_held : Queue
next_is_held = record two {
  queue = (1, second_message) ∷ (2, record second_message { locked_by = some 5 }) ∷ [];
  locked = (5, 2 ∷ []) ∷ [];
}

acknowledge_strands_example :
    lock_to_read (dequeue next_is_held 5 none).0 6
    ≡ ((dequeue next_is_held 5 none).0, err no_such_message_id)
unfolding Dict.lookup ℕ_discrete
acknowledge_strands_example =
    acknowledge_strands next_is_held 5 6 2 1 [] refl refl refl (λ e. omega arith) (λ e. omega arith)
