-- ===== src/Tests/Base.antt =====
-- The queues, requests and servers of the tests.
use rust_data_broker.Prelude.{ℕ, true, false, none, some, List, [], ◌∷◌, arith}
use rust_data_broker.Memory.{Memory}
use rust_data_broker.Queue.Message.{QueueMessage, new_message}
use rust_data_broker.Queue.State.{Queue, new_queue}
use rust_data_broker.Queue.Ops.{enqueue, take_lock, next_enqueue_id}
use rust_data_broker.Queue.Fifo.{Fifo}
use rust_data_broker.Server.Wire.{Request}
use rust_data_broker.Server.Frame.RoundTrip.{Sent, frame_of}
use rust_data_broker.Server.State.{Server, new_server, create_queues}
use rust_data_broker.Server.Dispatch.{Surroundings, handle_frame}
use rust_data_broker.Queue.Fifo.Steps.{enqueue-Fifo, lock_to_read-Fifo}
use rust_data_broker.Queue.Fifo.Delivery.{new_queue-Fifo}

-- Two messages; the client 5 holds the first.
abbrev pub first_message : QueueMessage
first_message = record {
  payload = 1 ∷ 2 ∷ [];
  publisher_id = 7;
  timestamp = 100;
  locked_by = some 5;
}

abbrev pub second_message : QueueMessage
second_message = record { payload = 3 ∷ []; publisher_id = 7; timestamp = 101; locked_by = none }

abbrev pub two : Queue
two = record {
  order = 1 ∷ 2 ∷ [];
  queue = (1, first_message) ∷ (2, second_message) ∷ [];
  locked = (5, 1 ∷ []) ∷ [];
  next_id = some 2;
  config = record { auto_fail = false; fail_timeout = 0 };
  biggest_payloads = 0 ∷ 0 ∷ 0 ∷ 0 ∷ 0 ∷ [];
}

-- The client 5 holds an id whose message is gone.
abbrev pub dangling : Queue
dangling = record two { order = 0 ∷ 2 ∷ []; queue = (2, second_message) ∷ [] }

-- The second message was acknowledged while the first one waits.
abbrev pub cleared : Queue
cleared = record {
  order = 1 ∷ 0 ∷ [];
  queue = (1, second_message) ∷ [];
  locked = [];
  next_id = some 1;
  config = record { auto_fail = false; fail_timeout = 0 };
  biggest_payloads = 0 ∷ 0 ∷ 0 ∷ 0 ∷ 0 ∷ [];
}

pub one_waits : Fifo (enqueue new_queue (1 ∷ []) 7 100).0 [] ((1, new_message (1 ∷ []) 7 100) ∷ [])
unfolding new_queue next_enqueue_id
one_waits =
    enqueue-Fifo new_queue (1 ∷ []) 7 100 [] [] new_queue-Fifo (λ l e. absurd (ground arith))

-- A publication and a read as a client sends them, to the queue "a".
abbrev pub name : List ℕ
name =
    97 ∷ 0 ∷ 0 ∷ 0 ∷ 0 ∷ 0 ∷ 0 ∷ 0 ∷ 0 ∷ 0 ∷ 0 ∷ 0 ∷ 0 ∷ 0 ∷ 0 ∷ 0 ∷ 0 ∷ 0 ∷ 0 ∷ 0 ∷ 0 ∷ 0 ∷ 0 ∷ 0
    ∷ 0 ∷ 0 ∷ 0 ∷ 0 ∷ 0 ∷ 0 ∷ 0 ∷ 0 ∷ 0 ∷ 0 ∷ 0 ∷ 0 ∷ 0 ∷ 0 ∷ 0 ∷ 0 ∷ 0 ∷ 0 ∷ 0 ∷ 0 ∷ 0 ∷ 0 ∷ 0 ∷ 0
    ∷ 0 ∷ 0 ∷ 0 ∷ 0 ∷ 0 ∷ 0 ∷ 0 ∷ 0 ∷ 0 ∷ 0 ∷ 0 ∷ 0 ∷ 0 ∷ 0 ∷ 0 ∷ 0 ∷ []

abbrev pub publication : Sent
publication = record { command = Request.enqueue; client_id = 7; name = name; payload = 1 ∷ 2 ∷ [] }

abbrev pub reading : Sent
reading = record { command = Request.dequeue; client_id = 5; name = name; payload = [] }

abbrev pub memory : Memory
memory = record { allocated = 1000; used = 10; locked_size = 0 }

-- The queue "a" under the uuid 70; a client publishes to it, another one reads from it, and the
-- timer of that message runs out.
abbrev pub started : Server
started = create_queues (new_server memory) ((97 ∷ [], 70) ∷ [])

abbrev pub surroundings : Surroundings
surroundings = record {
  now = 100;
  new_hash = 71;
  capacities =
      λ hash. record { order = 4; queue = 3; locked = 3; payload = λ id. 2; ids = λ id. 4 };
  used = 20;
  is_written = true;
}

abbrev pub after_publication : Server
after_publication = (handle_frame started (frame_of publication) surroundings).0

abbrev pub after_reading : Server
after_reading = (handle_frame after_publication (frame_of reading) surroundings).0

-- The same queue after the client 5 has read the message.
unfoldable pub one_read : Queue
one_read = take_lock (enqueue new_queue (1 ∷ []) 7 100).0 5 1 (new_message (1 ∷ []) 7 100)

pub one_read-Fifo : (done : List ℕ) × Fifo one_read done []
unfolding one_read
one_read-Fifo =
    let (done, _, f) =
      lock_to_read-Fifo (enqueue new_queue (1 ∷ []) 7 100).0 5 1 (new_message (1 ∷ []) 7 100) [] []
        one_waits in
    (done, f)
