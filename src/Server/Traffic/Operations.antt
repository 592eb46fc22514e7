-- ===== src/Server/Traffic/Operations.antt =====
-- net/server.rs: what one request does to a queue that follows a plain list.
use rust_data_broker.Prelude.{
  Bool, true, false, some, ℕ, Option, ◌+◌, ◌<◌, ◌≡◌, ◌≢◌, refl, sym, ap, subst, ◌∙◌, none, List, [],
  ◌∷◌, ◌++◌, ok, err, length, Bool-cases, leb, inl, inr,
}
use rust_data_broker.Errors
use rust_data_broker.Memory.{Memory}
use rust_data_broker.Queue.Message.{QueueMessage, new_message, lock, get_meta_as_vec}
use rust_data_broker.Queue.State.{Queue, queue_is_empty}
use rust_data_broker.Queue.Ops
use rust_data_broker.Queue.Ops.{u128_mod, next_enqueue_id, take_lock, lock_to_read}
use rust_data_broker.Queue.Fifo.{Waiting, Fifo, ids}
use rust_data_broker.Queue.Fifo.Steps.{enqueue-Fifo, lock_to_read-Fifo, lock_to_read-none}
use rust_data_broker.Queue.Fifo.Counts.{
  Counts, Counts-same, enqueue-Counts, take_lock-Counts, dequeue_held-Counts,
}
use rust_data_broker.Queue.Fifo.Held.{
  Holdings, set_held, Holding, Holding-same, enqueue-Holding, next_enqueue_id-new,
  take_lock-Holding, first_listed, first_present, dequeue_held-Holding, dequeue-none,
}
use rust_data_broker.Queue.Fifo.Returns.{dequeue-dequeue_held, dequeue-Fifo}
use rust_data_broker.Queue.Payloads.{get_next_biggest_payload}
use rust_data_broker.Server.Frame.{Frame, size_factor}
use rust_data_broker.Server.State.{Server, Name, Answer, succeeded, failed, get_queue, put_queue}
use rust_data_broker.Server.Handlers.{
  Handled, handle_enqueue, handle_dequeue, handle_succeeded, acknowledge, shrink_locked_size,
  read_answer, grow_locked_size,
}
use rust_data_broker.Server.Dispatch.{Surroundings, observed, run_command, handle_frame}
use rust_data_broker.Server.Invariant.{queue_at}
use rust_data_broker.Server.Invariant.Requests.{handle_frame-IsConsistent}
use rust_data_broker.Server.Isolation.{handle_frame-get_queue}
use rust_data_broker.Server.Delivery.{on_queue-found, found_after, observed-found, shrink-Fifo}
use rust_data_broker.Server.Traffic.{
  delivered, publish_frame, read_frame_of, acknowledge_frame, Follows,
}

-- The queue after an operation on it follows what the operation does to the list.
module _ (n : Name) (s : Server) (k : ℕ) (w : Waiting) (h : Holdings) (v : Follows n s k w h) where
  pub on_queue-Follows :
      (f : Frame) (e : Surroundings) (m : Memory) (q : Queue) (answer : Answer) (k' : ℕ)
      (done' : List ℕ) (w' : Waiting) (h' : Holdings)
      → queue_at e.new_hash s ≡ none
      → handle_frame s f e ≡ (put_queue (record s { memory = m }) v.hash q, answer)
      → Fifo q done' w'
      → Counts q k'
      → Holding q h'
      → Follows n (handle_frame s f e).0 k' w' h'
  on_queue-Follows f e m q answer k' done' w' h' fresh opened fifo counts holding = record {
    consistent = handle_frame-IsConsistent s v.consistent f e fresh;
    hash = v.hash;
    queue = q;
    done = done';
    found =
        subst (λ (r : Handled). get_queue r.0 n ≡ ok (v.hash, q)) (sym opened)
          (found_after s m n v.hash v.queue q v.found);
    fifo = fifo;
    counts = counts;
    holding = holding;
  }

  pub publishes-Follows :
      (payload : List ℕ) (client_id : ℕ) (e : Surroundings)
      → queue_at e.new_hash s ≡ none
      → k + 1 < u128_mod
      → let r = handle_frame s (publish_frame n payload client_id) e in
        (r.1 ≡ succeeded [])
        × Follows n r.0 (k + 1) (w ++ (k, new_message payload client_id e.now) ∷ []) h
  unfolding handle_frame run_command handle_enqueue Ops.enqueue
  publishes-Follows payload client_id e fresh room = (
    ap (λ (r : Handled). r.1) opened,
    on_queue-Follows (publish_frame n payload client_id) e _ _ (succeeded []) (k + 1) v.done
        (w ++ (k, new_message payload client_id e.now) ∷ []) h fresh opened
        (subst (λ id. Fifo after v.done (w ++ (id, new_message payload client_id e.now) ∷ []))
          v.counts.next
          (enqueue-Fifo v.queue payload client_id e.now v.done w v.fifo v.counts.room))
        (enqueue-Counts v.queue payload client_id e.now k v.done w v.fifo v.counts room)
        (enqueue-Holding v.queue payload client_id e.now h
          (next_enqueue_id-new v.queue v.done w v.fifo v.counts.room) v.holding),
  )
    where
      after : Queue
      after = (Ops.enqueue v.queue payload client_id e.now).0

      opened : handle_frame s (publish_frame n payload client_id) e ≡ (
        put_queue
            (record s {
              memory = grow_locked_size (observed s e).memory (size_factor (length payload));
            })
            v.hash
            after,
        succeeded [],
      )
      opened =
          on_queue-found (observed s e) n _ v.hash v.queue
            (observed-found s e n v.hash v.queue v.found)

  -- What a Dequeue does, by what `lock_to_read` does.
  reads-opened :
      (client_id : ℕ) (e : Surroundings) (r : Ops.Reply (List ℕ × Option ℕ))
      → lock_to_read v.queue client_id ≡ r
      → handle_frame s (read_frame_of n client_id) e
        ≡ (put_queue (observed s e) v.hash r.0, read_answer e.is_written r.1)
  unfolding handle_frame run_command handle_dequeue
  reads-opened client_id e r z =
      on_queue-found (observed s e) n _ v.hash v.queue (observed-found s e n v.hash v.queue v.found)
      ∙ ap (λ a. (put_queue (observed s e) v.hash a.0, read_answer e.is_written a.1)) z

  pub elsewhere-Follows :
      (f : Frame) (e : Surroundings)
      → f.queue_name ≢ n
      → queue_at e.new_hash s ≡ none
      → Follows n (handle_frame s f e).0 k w h
  elsewhere-Follows f e d fresh = record {
    consistent = handle_frame-IsConsistent s v.consistent f e fresh;
    hash = v.hash;
    queue = v.queue;
    done = v.done;
    found = handle_frame-get_queue s v.consistent f e n fresh d ∙ v.found;
    fifo = v.fifo;
    counts = v.counts;
    holding = v.holding;
  }

pub reads_none-Follows :
    (n : Name) (s : Server) (k : ℕ) (h : Holdings) (v : Follows n s k [] h) (client_id : ℕ)
    (e : Surroundings)
    → queue_at e.new_hash s ≡ none
    → let r = handle_frame s (read_frame_of n client_id) e in
      (r.1 ≡ failed Errors.queue_is_empty) × Follows n r.0 k [] h
reads_none-Follows n s k h v client_id e fresh =
    let opened =
      reads-opened n s k [] h v client_id e (v.queue, err queue_is_empty)
        (lock_to_read-none v.queue client_id v.fifo.next) in
    (
      ap (λ (r : Handled). r.1) opened,
      on_queue-Follows n s k [] h v (read_frame_of n client_id) e (observed s e).memory v.queue
          (failed Errors.queue_is_empty) k v.done [] h fresh opened v.fifo v.counts v.holding,
    )

read_answer-delivered :
    (is_written : Bool) (bytes : List ℕ) (id : Option ℕ)
    → read_answer is_written (ok (bytes, id)) ≡ delivered is_written bytes
read_answer-delivered true bytes id = refl
read_answer-delivered false bytes id = refl

pub reads_some-Follows :
    (n : Name) (s : Server) (k id : ℕ) (m : QueueMessage) (w : Waiting) (h : Holdings)
    (v : Follows n s k ((id, m) ∷ w) h) (client_id : ℕ) (e : Surroundings)
    → queue_at e.new_hash s ≡ none
    → let r = handle_frame s (read_frame_of n client_id) e in
      (r.1 ≡ delivered e.is_written (get_meta_as_vec id (lock m client_id) ++ m.payload))
      × Follows n r.0 k w (set_held h client_id (h client_id ++ (id, lock m client_id) ∷ []))
reads_some-Follows n s k id m w h v client_id e fresh =
    let (done', answer, after) = lock_to_read-Fifo v.queue client_id id m v.done w v.fifo in
    let bytes = get_meta_as_vec id (lock m client_id) ++ m.payload in
    let opened =
      reads-opened n s k ((id, m) ∷ w) h v client_id e _ answer
      ∙ ap (λ a. (put_queue (observed s e) v.hash (take_lock v.queue client_id id m), a))
          (read_answer-delivered e.is_written bytes (some id)) in
    (
      ap (λ (r : Handled). r.1) opened,
      on_queue-Follows n s k ((id, m) ∷ w) h v (read_frame_of n client_id) e (observed s e).memory
          (take_lock v.queue client_id id m) (delivered e.is_written bytes) k done' w _ fresh opened
          after (take_lock-Counts v.queue client_id id k m v.counts)
          (take_lock-Holding v.queue client_id id m h v.holding v.fifo.unlocked.0.0
            v.fifo.unlocked.0.1),
    )

-- What a Succeeded does, by what `dequeue` does.
acknowledges-opened :
    (n : Name) (s : Server) (k : ℕ) (w : Waiting) (h : Holdings) (v : Follows n s k w h)
    (client_id : ℕ) (e : Surroundings) (r : Ops.Reply ℕ)
    → Ops.dequeue v.queue client_id none ≡ r
    → handle_frame s (acknowledge_frame n client_id) e ≡ acknowledge (observed s e) v.hash v.queue r
unfolding handle_frame run_command handle_succeeded
acknowledges-opened n s k w h v client_id e r z =
    rw (observed-found s e n v.hash v.queue v.found, handle_succeeded, z) refl

-- The biggest payloads change, and nothing else.
shrink-keeps :
    (m : Memory) (q : Queue) (size : ℕ)
    → let r = (shrink_locked_size m q size).1 in
      (r.order ≡ q.order) × (r.queue ≡ q.queue) × (r.locked ≡ q.locked)
unfolding shrink_locked_size get_next_biggest_payload
shrink-keeps m q size = elim (Bool-cases (leb m.locked_size (size_factor size))) [
  | inl h ↦ rw h (refl, refl, refl)
  | inr h ↦ rw h (refl, refl, refl)
]

pub acknowledges_none-Follows :
    (n : Name) (s : Server) (k : ℕ) (w : Waiting) (h : Holdings) (v : Follows n s k w h)
    (client_id : ℕ) (e : Surroundings)
    → queue_at e.new_hash s ≡ none
    → h client_id ≡ []
    → let r = handle_frame s (acknowledge_frame n client_id) e in
      (r.1 ≡ failed Errors.no_such_message_id_locked) × Follows n r.0 k w h
unfolding acknowledge
acknowledges_none-Follows n s k w h v client_id e fresh none_of =
    let (x, refused) =
      dequeue-none v.queue client_id ((v.holding client_id).lists ∙ ap (λ l. ids l) none_of) in
    let opened = acknowledges-opened n s k w h v client_id e (v.queue, err x) refused in
    (
      ap (λ (r : Handled). r.1) opened,
      on_queue-Follows n s k w h v (acknowledge_frame n client_id) e (observed s e).memory v.queue
          (failed Errors.no_such_message_id_locked) k v.done w h fresh opened v.fifo v.counts
          v.holding,
    )

pub acknowledges_some-Follows :
    (n : Name) (s : Server) (k : ℕ) (w : Waiting) (h : Holdings) (v : Follows n s k w h)
    (client_id : ℕ) (e : Surroundings) (id : ℕ) (m : QueueMessage) (rest : Waiting)
    → queue_at e.new_hash s ≡ none
    → h client_id ≡ (id, m) ∷ rest
    → id + 1 ≢ k
    → let r = handle_frame s (acknowledge_frame n client_id) e in
      (r.1 ≡ succeeded []) × Follows n r.0 k w (set_held h client_id rest)
unfolding acknowledge
acknowledges_some-Follows n s k w h v client_id e id m rest fresh first_of older =
    let listed = first_listed v.queue client_id id m rest h v.holding first_of in
    let (here, own) = first_present v.queue client_id id m rest h v.holding first_of in
    let held_step =
      dequeue-dequeue_held v.queue client_id id (ids rest) m v.done w v.fifo listed here in
    let (done', answer, after) =
      dequeue-Fifo v.queue client_id id (ids rest) m v.done w v.fifo listed here own in
    let r : Queue = (Ops.dequeue_held v.queue client_id (id ∷ ids rest)).0 in
    let size : ℕ = length m.payload in
    let pair : Ops.dequeue v.queue client_id none ≡ (r, ok size) =
      held_step ∙ ap (λ a. (r, a)) (ap (λ (a : Ops.Reply ℕ). a.1) (sym held_step) ∙ answer) in
    let opened = acknowledges-opened n s k w h v client_id e (r, ok size) pair in
    let (order, messages, locks) = shrink-keeps (observed s e).memory r size in
    let fifo = subst (λ (a : Ops.Reply ℕ). Fifo a.0 done' w) pair after in
    (
      ap (λ (a : Handled). a.1) opened,
      on_queue-Follows n s k w h v (acknowledge_frame n client_id) e
          (shrink_locked_size (observed s e).memory r size).0
          (shrink_locked_size (observed s e).memory r size).1 (succeeded []) k done' w
          (set_held h client_id rest) fresh opened
          (shrink-Fifo (observed s e).memory r size done' w fifo)
          (Counts-same r (shrink_locked_size (observed s e).memory r size).1 k order
            (dequeue_held-Counts v.queue client_id id k (ids rest) v.counts older))
          (Holding-same r (shrink_locked_size (observed s e).memory r size).1 _ messages locks
            (dequeue_held-Holding v.queue client_id id m rest h v.holding first_of)),
    )
