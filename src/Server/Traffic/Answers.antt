-- ===== src/Server/Traffic/Answers.antt =====
-- net/server.rs: the requests of a queue in the traffic of all clients, against a plain list.
use rust_data_broker.Prelude.{
  ℕ, ◌+◌, ◌-◌, ◌<◌, ◌≡◌, refl, sym, ap, subst, none, List, [], ◌∷◌, ◌++◌, arith, ok, true, ◌&&◌,
  not, ◌==◌,
}
use native.Mathlib.Decide.{ℕ_discrete}
use rust_data_broker.Dict.{lookup-insert_self}
use rust_data_broker.Errors
use rust_data_broker.Queue.Message.{lock, get_meta_as_vec}
use rust_data_broker.Queue.State.{new_queue}
use rust_data_broker.Queue.Ops.{u128_mod}
use rust_data_broker.Queue.Fifo.{Waiting}
use rust_data_broker.Queue.Fifo.Delivery.{new_queue-Fifo}
use rust_data_broker.Queue.Fifo.Counts.{new_queue-Counts}
use rust_data_broker.Queue.Fifo.Held.{Holdings, set_held, none_held, new_queue-Holding}
use rust_data_broker.Server.State.{Server, Name, Name-discrete, succeeded, failed, get_queue}
use rust_data_broker.Server.Handlers.{handle_create_q}
use rust_data_broker.Server.Dispatch.{Surroundings, observed, run_command, handle_frame}
use rust_data_broker.Server.Invariant.{IsConsistent, hash_of, queue_at}
use rust_data_broker.Server.Invariant.Requests.{handle_frame-IsConsistent}
use rust_data_broker.Server.Invariant.Names.{with_queue}
use rust_data_broker.Server.Delivery.{found_by}
use rust_data_broker.Server.Traffic.{
  delivered, Traffic, publishes, reads, acknowledges, elsewhere, acknowledge_frame, create_frame,
  answers, IsApart, publications, list_answers, keeps_newest, Follows,
}
use rust_data_broker.Server.Traffic.Operations.{
  publishes-Follows, reads_none-Follows, reads_some-Follows, elsewhere-Follows,
  acknowledges_none-Follows, acknowledges_some-Follows,
}

-- A Succeeded, where the rest of the traffic is answered as the list answers.
acknowledges-answers :
    (n : Name) (s : Server) (k : ℕ) (w : Waiting) (h : Holdings) (v : Follows n s k w h)
    (client_id : ℕ) (e : Surroundings) (traffic : List Traffic)
    → queue_at e.new_hash s ≡ none
    → ((h' : Holdings)
        → Follows n (handle_frame s (acknowledge_frame n client_id) e).0 k w h'
        → keeps_newest k w h' traffic ≡ true
        → answers n (handle_frame s (acknowledge_frame n client_id) e).0 traffic
          ≡ list_answers k w h' traffic)
    → (held : Waiting) → h client_id ≡ held
    → elim held [
      | [] ↦ keeps_newest k w h traffic
      | (id, m) ∷ rest ↦ not (id + 1 == k) && keeps_newest k w (set_held h client_id rest) traffic
    ]
      ≡ true
    → answers n s (acknowledges client_id e ∷ traffic) ≡ elim held [
      | [] ↦ failed Errors.no_such_message_id_locked ∷ list_answers k w h traffic
      | first ∷ rest ↦ succeeded [] ∷ list_answers k w (set_held h client_id rest) traffic
    ]
unfolding answers
acknowledges-answers n s k w h v client_id e traffic fresh next [] z newer =
    let (answer, v') = acknowledges_none-Follows n s k w h v client_id e fresh z in
    rw answer (ap (◌∷◌ (failed Errors.no_such_message_id_locked)) (next h v' newer))
acknowledges-answers n s k w h v client_id e traffic fresh next ((id, m) ∷ rest) z newer =
    let (answer, v') =
      acknowledges_some-Follows n s k w h v client_id e id m rest fresh z (λ same. ground arith) in
    rw answer (ap (◌∷◌ (succeeded [])) (next (set_held h client_id rest) v' (ground arith)))

answers-list_answers :
    (n : Name) (traffic : List Traffic) (s : Server) (k : ℕ) (w : Waiting) (h : Holdings)
    → Follows n s k w h
    → IsApart n s traffic
    → k + publications traffic < u128_mod
    → keeps_newest k w h traffic ≡ true
    → answers n s traffic ≡ list_answers k w h traffic
unfolding answers list_answers publications keeps_newest
answers-list_answers n [] s k w h v apart few newest = refl
answers-list_answers n (publishes payload client_id e ∷ traffic) s k w h v apart few newest =
    let (answer, v') = publishes-Follows n s k w h v payload client_id e apart.0 (omega arith) in
    rw answer (
      ap (◌∷◌ (succeeded []))
        (answers-list_answers n traffic _ (k + 1) _ h v' apart.1 (omega arith) newest))
answers-list_answers n (reads client_id e ∷ traffic) s k [] h v apart few newest =
    let (answer, v') = reads_none-Follows n s k h v client_id e apart.0 in
    rw answer (
      ap (◌∷◌ (failed Errors.queue_is_empty))
        (answers-list_answers n traffic _ k [] h v' apart.1 few newest))
answers-list_answers n (reads client_id e ∷ traffic) s k ((id, m) ∷ w) h v apart few newest =
    let (answer, v') = reads_some-Follows n s k id m w h v client_id e apart.0 in
    rw answer (
      ap (◌∷◌ (delivered e.is_written (get_meta_as_vec id (lock m client_id) ++ m.payload)))
        (answers-list_answers n traffic _ k w _ v' apart.1 few newest))
answers-list_answers n (acknowledges client_id e ∷ traffic) s k w h v apart few newest =
    acknowledges-answers n s k w h v client_id e traffic apart.0
      (λ h' v' newer. answers-list_answers n traffic _ k w h' v' apart.1 few newer) (h client_id)
      refl newest
answers-list_answers n (elsewhere f e ∷ traffic) s k w h v apart few newest =
    answers-list_answers n traffic _ k w h (elsewhere-Follows n s k w h v f e apart.0 apart.1)
      apart.2 few newest

created-Follows :
    (n : Name) (s : Server) (client_id : ℕ) (e : Surroundings)
    → IsConsistent s
    → hash_of n s ≡ none
    → queue_at e.new_hash s ≡ none
    → Follows n (handle_frame s (create_frame n client_id) e).0 1 [] none_held
unfolding handle_frame run_command handle_create_q
created-Follows n s client_id e k new fresh =
    let made : (handle_frame s (create_frame n client_id) e).0
        ≡ with_queue (observed s e) n e.new_hash =
      rw (new, handle_create_q) refl in
    record {
      consistent = handle_frame-IsConsistent s k (create_frame n client_id) e fresh;
      hash = e.new_hash;
      queue = new_queue;
      done = [];
      found =
          subst (λ t. get_queue t n ≡ ok (e.new_hash, new_queue)) (sym made)
            (found_by (with_queue (observed s e) n e.new_hash) n e.new_hash new_queue
              (lookup-insert_self Name-discrete n e.new_hash s.queue_names)
              (lookup-insert_self ℕ_discrete e.new_hash new_queue s.queue));
      fifo = new_queue-Fifo;
      counts = new_queue-Counts;
      holding = new_queue-Holding;
    }

-- On a consistent server, after a CreateQ of a name that is not in use, and with any requests of
-- other names between them, in any order, the Enqueues, Dequeues and Succeededs of the queue, fewer
-- than 2 ^ 128 - 1 of them Enqueues, are answered as a plain list answers: an Enqueue with success, a
-- Dequeue with the oldest message that no reader got (or with ResponseFailedError where the socket
-- does not take that message, which counts as got all the same), or with QueueIsEmpty, and a Succeeded with
-- success where its client holds a message, of which it gives up the first, or with
-- NoSuchMessageIdLocked. It is assumed that no client acknowledges the newest message of the queue,
-- and that there is no queue under the uuids of new queues.
pub answers-created :
    (n : Name) (s : Server) (client_id : ℕ) (e : Surroundings) (traffic : List Traffic)
    → IsConsistent s
    → hash_of n s ≡ none
    → queue_at e.new_hash s ≡ none
    → IsApart n (handle_frame s (create_frame n client_id) e).0 traffic
    → publications traffic < u128_mod - 1
    → keeps_newest 1 [] none_held traffic ≡ true
    → answers n (handle_frame s (create_frame n client_id) e).0 traffic
      ≡ list_answers 1 [] none_held traffic
answers-created n s client_id e traffic k new fresh apart few newest =
    answers-list_answers n traffic _ 1 [] none_held (created-Follows n s client_id e k new fresh)
      apart (omega arith) newest
