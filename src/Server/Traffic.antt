-- ===== src/Server/Traffic.antt =====
-- net/server.rs: the requests of all clients, in any order, and what the publishers and the readers
-- of one queue are answered.
pub mod Operations
pub mod Answers
use rust_data_broker.Prelude.{
  ℕ, ◌+◌, ◌-◌, ◌<◌, ◌≡◌, ◌≢◌, refl, sym, ap, subst, ◌∙◌, none, some, List, [], ◌∷◌, ◌++◌, arith, ok,
  err, length, Bool, true, false, ◌&&◌, not, ◌==◌,
}
use rust_data_broker.Errors
use rust_data_broker.Queue.Message.{QueueMessage, new_message, lock, get_meta_as_vec}
use rust_data_broker.Queue.State.{Queue, new_queue}
use rust_data_broker.Queue.Ops
use rust_data_broker.Queue.Ops.{u128_mod, next_enqueue_id, take_lock}
use rust_data_broker.Queue.Fifo.{Waiting, Fifo}
use rust_data_broker.Queue.Fifo.Steps.{enqueue-Fifo, lock_to_read-Fifo, lock_to_read-none}
use rust_data_broker.Queue.Fifo.Counts.{Counts}
use rust_data_broker.Queue.Fifo.Held.{Holdings, set_held, Holding}
use rust_data_broker.Server.Wire.{Request}
use rust_data_broker.Server.Frame.{Frame}
use rust_data_broker.Server.State.{Server, Name, Answer, succeeded, failed, get_queue}
use rust_data_broker.Server.Handlers.{handle_create_q, handle_enqueue, handle_dequeue}
use rust_data_broker.Server.Dispatch.{Surroundings, run_command, handle_frame}
use rust_data_broker.Server.Invariant.{IsConsistent, hash_of, queue_at}
use rust_data_broker.Server.Invariant.Requests.{handle_frame-IsConsistent}
use rust_data_broker.Server.Isolation.{handle_frame-get_queue}
use rust_data_broker.Server.Delivery.{on_queue-found, found_after, found_by}

-- An Enqueue, a Dequeue or a Succeeded of the queue, or a request with another name in it.
pub data Traffic : Type 0 where
  publishes : (payload : List ℕ) (client_id : ℕ) → Surroundings → Traffic
  reads : (client_id : ℕ) → Surroundings → Traffic
  acknowledges : (client_id : ℕ) → Surroundings → Traffic
  elsewhere : Frame → Surroundings → Traffic

abbrev pub publish_frame : Name → List ℕ → ℕ → Frame
publish_frame n payload client_id = record {
  command = Request.enqueue;
  client_id = client_id;
  payload_size = length payload;
  queue_name = n;
  payload = payload;
}

abbrev pub read_frame_of : Name → ℕ → Frame
read_frame_of n client_id = record {
  command = Request.dequeue;
  client_id = client_id;
  payload_size = 0;
  queue_name = n;
  payload = [];
}

abbrev pub acknowledge_frame : Name → ℕ → Frame
acknowledge_frame n client_id = record {
  command = Request.succeeded;
  client_id = client_id;
  payload_size = 0;
  queue_name = n;
  payload = [];
}

abbrev pub create_frame : Name → ℕ → Frame
create_frame n client_id = record {
  command = Request.create_q;
  client_id = client_id;
  payload_size = 0;
  queue_name = n;
  payload = [];
}

-- The answers to the requests of the queue.
unfoldable pub answers : Name → Server → List Traffic → List Answer
unfolding handle_frame
answers n s [] = []
answers n s (publishes payload client_id e ∷ traffic) =
    let r = handle_frame s (publish_frame n payload client_id) e in r.1 ∷ answers n r.0 traffic
answers n s (reads client_id e ∷ traffic) =
    let r = handle_frame s (read_frame_of n client_id) e in r.1 ∷ answers n r.0 traffic
answers n s (acknowledges client_id e ∷ traffic) =
    let r = handle_frame s (acknowledge_frame n client_id) e in r.1 ∷ answers n r.0 traffic
answers n s (elsewhere f e ∷ traffic) = answers n (handle_frame s f e).0 traffic

-- The other requests have other names, and a new uuid is one under which there is no queue.
abbrev pub IsApart : Name → Server → List Traffic → Type 0
IsApart n s [] = Unit {0}
IsApart n s (publishes payload client_id e ∷ traffic) =
    (queue_at e.new_hash s ≡ none)
    × IsApart n (handle_frame s (publish_frame n payload client_id) e).0 traffic
IsApart n s (reads client_id e ∷ traffic) =
    (queue_at e.new_hash s ≡ none)
    × IsApart n (handle_frame s (read_frame_of n client_id) e).0 traffic
IsApart n s (acknowledges client_id e ∷ traffic) =
    (queue_at e.new_hash s ≡ none)
    × IsApart n (handle_frame s (acknowledge_frame n client_id) e).0 traffic
IsApart n s (elsewhere f e ∷ traffic) =
    (f.queue_name ≢ n) × (queue_at e.new_hash s ≡ none) × IsApart n (handle_frame s f e).0 traffic

unfoldable pub publications : List Traffic → ℕ
publications [] = 0
publications (publishes payload client_id e ∷ traffic) = publications traffic + 1
publications (reads client_id e ∷ traffic) = publications traffic
publications (acknowledges client_id e ∷ traffic) = publications traffic
publications (elsewhere f e ∷ traffic) = publications traffic

-- A message that a reader gets, or what follows when the socket does not take it.
abbrev pub delivered : Bool → List ℕ → Answer
delivered true bytes = succeeded bytes
delivered false bytes = failed Errors.response_failed_error

-- The description: ids that count up from `k`, the messages that no reader got, in their order, and
-- what each client got and did not acknowledge.
unfoldable pub list_answers : ℕ → Waiting → Holdings → List Traffic → List Answer
list_answers k w h [] = []
list_answers k w h (publishes payload client_id e ∷ traffic) =
    succeeded []
    ∷ list_answers (k + 1) (w ++ (k, new_message payload client_id e.now) ∷ []) h traffic
list_answers k [] h (reads client_id e ∷ traffic) =
    failed Errors.queue_is_empty ∷ list_answers k [] h traffic
list_answers k ((id, m) ∷ w) h (reads client_id e ∷ traffic) =
    delivered e.is_written (get_meta_as_vec id (lock m client_id) ++ m.payload)
    ∷ list_answers k w (set_held h client_id (h client_id ++ (id, lock m client_id) ∷ [])) traffic
list_answers k w h (acknowledges client_id e ∷ traffic) = elim (h client_id) [
  | [] ↦ failed Errors.no_such_message_id_locked ∷ list_answers k w h traffic
  | first ∷ rest ↦ succeeded [] ∷ list_answers k w (set_held h client_id rest) traffic
]
list_answers k w h (elsewhere f e ∷ traffic) = list_answers k w h traffic

-- In the description, no client acknowledges the newest message, the one with the id before `k`.
unfoldable pub keeps_newest : ℕ → Waiting → Holdings → List Traffic → Bool
keeps_newest k w h [] = true
keeps_newest k w h (publishes payload client_id e ∷ traffic) =
    keeps_newest (k + 1) (w ++ (k, new_message payload client_id e.now) ∷ []) h traffic
keeps_newest k [] h (reads client_id e ∷ traffic) = keeps_newest k [] h traffic
keeps_newest k ((id, m) ∷ w) h (reads client_id e ∷ traffic) =
    keeps_newest k w (set_held h client_id (h client_id ++ (id, lock m client_id) ∷ [])) traffic
keeps_newest k w h (acknowledges client_id e ∷ traffic) = elim (h client_id) [
  | [] ↦ keeps_newest k w h traffic
  | (id, m) ∷ rest ↦ not (id + 1 == k) && keeps_newest k w (set_held h client_id rest) traffic
]
keeps_newest k w h (elsewhere f e ∷ traffic) = keeps_newest k w h traffic

-- The queue of the name is the list `w`, the clients hold `h`, and the next id is `k`.
pub record Follows (n : Name) (s : Server) (k : ℕ) (w : Waiting) (h : Holdings) : Type 0 where
  pub consistent : IsConsistent s
  pub hash : ℕ
  pub queue : Queue
  pub done : List ℕ
  pub found : get_queue s n ≡ ok (hash, queue)
  pub fifo : Fifo queue done w
  pub counts : Counts queue k
  pub holding : Holding queue h
