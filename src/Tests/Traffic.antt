-- ===== src/Tests/Traffic.antt =====
-- The answers of concrete servers to the requests of several clients.
use rust_data_broker.Prelude.{false, ◌≡◌, refl, List, [], ◌∷◌, ap, get_or, arith}
use native.Mathlib.Decide.{ℕ_discrete}
use rust_data_broker.Dict
use rust_data_broker.Errors
use rust_data_broker.Server.State.{new_server, create_queues, get_queue, Name-discrete}
use rust_data_broker.Server.Handlers.{
  handle_dequeue, handle_create_q, handle_enqueue, handle_succeeded,
}
use rust_data_broker.Queue.State.{new_queue, remove_zeroes}
use rust_data_broker.Queue.Ops.{enqueue, next_enqueue_id, lock_to_read, dequeue}
use rust_data_broker.Queue.Message.{is_locked, new_message, lock}
use rust_data_broker.Queue.Payloads.{get_next_biggest_payload}
use rust_data_broker.Server.Frame.{size_factor}
use rust_data_broker.Memory.{set_locked_size}
use rust_data_broker.Queue.Fifo.Held.{none_held}
use rust_data_broker.Server.Dispatch.{Surroundings, handle_frame, run_command}
use rust_data_broker.Server.Run.{here, Reach-IsConsistent}
use rust_data_broker.Server.Traffic.{
  Traffic, publishes, reads, acknowledges, elsewhere, keeps_newest, read_frame_of, create_frame,
  answers, list_answers, publications,
}
use rust_data_broker.Server.Traffic.Answers.{answers-created}
use rust_data_broker.Tests.Base.{memory, surroundings}

-- The socket of a reader is closed.
abbrev closed : Surroundings
closed = record surroundings { is_written = false }

-- Two publications, two reads, an acknowledgement of the first message and one of a client that
-- holds none, and a read of another queue
-- between them; the last reader is gone.
abbrev traffic : List Traffic
traffic =
    publishes (1 ∷ 2 ∷ []) 7 surroundings
    ∷ publishes (3 ∷ []) 7 surroundings
    ∷ elsewhere (read_frame_of (98 ∷ []) 5) surroundings
    ∷ reads 5 surroundings
    ∷ acknowledges 5 surroundings
    ∷ acknowledges 5 surroundings
    ∷ reads 6 closed
    ∷ []

-- A CreateQ, under a uuid of its own.
abbrev later : Surroundings
later = record surroundings { new_hash = 72 }

answers-created_example :
    answers (97 ∷ []) (handle_frame (new_server memory) (create_frame (97 ∷ []) 7) later).0 traffic
    ≡ list_answers 1 [] none_held traffic
unfolding new_server create_queues publications keeps_newest handle_frame run_command
    handle_create_q handle_enqueue handle_dequeue get_queue Name-discrete ℕ_discrete Dict.lookup
    Dict.insert enqueue new_queue next_enqueue_id lock_to_read handle_succeeded dequeue is_locked
    new_message size_factor set_locked_size lock get_next_biggest_payload remove_zeroes
answers-created_example =
    answers-created (97 ∷ []) (new_server memory) 7 later traffic
      (Reach-IsConsistent memory [] (new_server memory) tt here) refl refl
      (
        refl,
        (
          refl,
          (
            (λ e. let h : 98 ≡ 97 = ap (λ l. get_or l 0 0) e in omega arith),
            refl,
            (refl, (refl, (refl, (refl, tt)))),
          ),
        ),
      )
      (omega arith) refl
