-- ===== src/Tests/Fifos.antt =====
-- Sequences of calls, and the queue as a list.
use native.Mathlib.Decide.{ℕ_discrete}
use rust_data_broker.Prelude.{ℕ, ◌≡◌, refl, none, some, List, [], ◌∷◌, ◌++◌, arith, ok}
use rust_data_broker.Dict
use rust_data_broker.Queue.Message.{new_message, lock, get_meta_as_vec}
use rust_data_broker.Queue.State.{new_queue}
use rust_data_broker.Queue.Ops.{enqueue, lock_to_read, dequeue, take_lock, next_enqueue_id}
use rust_data_broker.Queue.Invariant.{Inv}
use rust_data_broker.Queue.Run.{run, enqueues, reads, dequeues, unlocks, run-new_queue-Inv}
use rust_data_broker.Queue.Fifo.{Fifo}
use rust_data_broker.Queue.Fifo.Steps.{enqueue-Fifo, lock_to_read-Fifo}
use rust_data_broker.Queue.Fifo.Delivery.{
  deliveries, list_deliveries, published, publish, read, deliveries-new_queue,
}
use rust_data_broker.Queue.Fifo.Returns.{unlock-Fifo, dequeue-Fifo}
use rust_data_broker.Queue.State.{remove_zeroes}
use rust_data_broker.Queue.Locks.{unlock}
use rust_data_broker.Queue.Ops.{mark_locked, end_of_queue}
use rust_data_broker.Tests.Base.{one_waits, one_read, one_read-Fifo}

run-new_queue-Inv_example : Inv (
    run new_queue
      (enqueues (1 ∷ []) 7 100 ∷ reads 5 ∷ unlocks 5 none ∷ reads 6 ∷ dequeues 6 none ∷ []))
run-new_queue-Inv_example =
    run-new_queue-Inv
      (enqueues (1 ∷ []) 7 100 ∷ reads 5 ∷ unlocks 5 none ∷ reads 6 ∷ dequeues 6 none ∷ [])

deliveries-new_queue_example :
    deliveries new_queue
      (read 5 ∷ publish (1 ∷ []) 7 100 ∷ publish (2 ∷ []) 7 101 ∷ read 5 ∷ read 6 ∷ read 5 ∷ [])
    ≡ list_deliveries 1 []
        (read 5 ∷ publish (1 ∷ []) 7 100 ∷ publish (2 ∷ []) 7 101 ∷ read 5 ∷ read 6 ∷ read 5 ∷ [])
unfolding published
deliveries-new_queue_example =
    deliveries-new_queue
      (read 5 ∷ publish (1 ∷ []) 7 100 ∷ publish (2 ∷ []) 7 101 ∷ read 5 ∷ read 6 ∷ read 5 ∷ [])
      (omega arith)

enqueue-Fifo_example :
    Fifo
      (enqueue (enqueue new_queue (1 ∷ []) 7 100).0 (2 ∷ []) 8 101).0
      []
      ((1, new_message (1 ∷ []) 7 100) ∷ (2, new_message (2 ∷ []) 8 101) ∷ [])
unfolding new_queue enqueue next_enqueue_id
enqueue-Fifo_example =
    enqueue-Fifo (enqueue new_queue (1 ∷ []) 7 100).0 (2 ∷ []) 8 101 []
      ((1, new_message (1 ∷ []) 7 100) ∷ []) one_waits (λ l e. ground arith)

lock_to_read-Fifo_example :
    (done : List ℕ) × (lock_to_read (enqueue new_queue (1 ∷ []) 7 100).0 5 ≡ (
      take_lock (enqueue new_queue (1 ∷ []) 7 100).0 5 1 (new_message (1 ∷ []) 7 100),
      ok (get_meta_as_vec 1 (lock (new_message (1 ∷ []) 7 100) 5) ++ 1 ∷ [], some 1),
    ))
    × Fifo (take_lock (enqueue new_queue (1 ∷ []) 7 100).0 5 1 (new_message (1 ∷ []) 7 100)) done []
unfolding new_message
lock_to_read-Fifo_example =
    lock_to_read-Fifo (enqueue new_queue (1 ∷ []) 7 100).0 5 1 (new_message (1 ∷ []) 7 100) [] []
      one_waits

unlock-Fifo_example :
    (done : List ℕ) × ((unlock (lock_to_read (enqueue new_queue (1 ∷ []) 7 100).0 5).0 5 (some 1)).1
      ≡ ok tt)
    × Fifo
        (unlock (lock_to_read (enqueue new_queue (1 ∷ []) 7 100).0 5).0 5 (some 1)).0
        done
        ((1, new_message (1 ∷ []) 7 100) ∷ [])
unlock-Fifo_example =
    unlock-Fifo (enqueue new_queue (1 ∷ []) 7 100).0 5 1 (new_message (1 ∷ []) 7 100) [] []
      one_waits

dequeue-Fifo_example :
    (done : List ℕ) × ((dequeue one_read 5 none).1 ≡ ok 1)
    × Fifo (dequeue one_read 5 none).0 done []
unfolding one_read new_queue enqueue next_enqueue_id new_message lock take_lock mark_locked
    end_of_queue Dict.lookup Dict.insert ℕ_discrete remove_zeroes
dequeue-Fifo_example =
    dequeue-Fifo one_read 5 1 [] (lock (new_message (1 ∷ []) 7 100) 5) one_read-Fifo.0 []
      one_read-Fifo.1 refl refl refl
