-- ===== src/Server/Invariant/Requests.antt =====
-- net/server.rs: the task of each request, for the consistency of the server.
use rust_data_broker.Prelude.{
  Bool, ℕ, Bool, ◌≡◌, inl, inr, true, Option, none, some, List, Outcome, ok, err, panic,
  Option-cases, Bool-cases, ltb, leb, drop,
}
use rust_data_broker.Memory.{Memory}
use rust_data_broker.Queue.State.{Queue}
use rust_data_broker.Queue.Ops
use rust_data_broker.Queue.Locks
use rust_data_broker.Queue.Config.{NetQueueConfig, ConfigError, net_config_from_be_bytes}
use rust_data_broker.Queue.Payloads.{get_next_biggest_payload}
use rust_data_broker.Queue.Invariant.{Inv}
use rust_data_broker.Queue.Invariant.Delivery.{enqueue-Inv, lock_to_read-Inv}
use rust_data_broker.Queue.Invariant.Removal.{dequeue-Inv}
use rust_data_broker.Queue.Invariant.Release.{
  unlock-Inv, requeue-Inv, update_message-Inv, update_config-Inv,
}
use rust_data_broker.Server.Wire.{
  Request, enqueue, dequeue, create_q, delete_q, list_m, delete_m, requeue, update_m, update_q,
  net_stats,
}
use rust_data_broker.Server.Frame.{Frame, size_factor}
use rust_data_broker.Server.State.{Server, Name}
use rust_data_broker.Server.Handlers.{
  message_id_of, handle_enqueue, handle_dequeue, handle_create_q, handle_delete_q, handle_list_m,
  handle_delete_m, shrink_locked_size, acknowledge, handle_succeeded, handle_failed, auto_unlock,
}
use rust_data_broker.Server.Updates.{
  handle_requeue, handle_update_m, set_auto_fail_if, set_fail_timeout_if, apply_config, configure,
  handle_update_q, handle_net_stats,
}
use rust_data_broker.Server.Dispatch.{Surroundings, observed, run_command, handle_frame}
use rust_data_broker.Server.Invariant.Names.{with_queue-IsConsistent, without_queue-IsConsistent}
use rust_data_broker.Server.Invariant.{
  IsConsistent, queue_at, hash_of, put_queue-IsConsistent, memory-IsConsistent, get_queue_cases,
  on_queue-IsConsistent,
}

pub biggest-Inv : (q : Queue) → Inv q → Inv (get_next_biggest_payload q).0
unfolding get_next_biggest_payload
biggest-Inv q v = assumption

pub shrink-Inv : (m : Memory) (q : Queue) (size : ℕ) → Inv q → Inv (shrink_locked_size m q size).1
unfolding shrink_locked_size get_next_biggest_payload
shrink-Inv m q size v = elim (Bool-cases (leb m.locked_size (size_factor size))) [
  | inl h ↦ rw h (biggest-Inv q v)
  | inr h ↦ rw h v
]

set_auto_fail_if-Inv : (o : Option Bool) (q : Queue) → Inv q → Inv (set_auto_fail_if o q)
set_auto_fail_if-Inv none q v = v
set_auto_fail_if-Inv (some b) q v = (update_config-Inv q b 0 v).0

set_fail_timeout_if-Inv : (o : Option ℕ) (q : Queue) → Inv q → Inv (set_fail_timeout_if o q)
set_fail_timeout_if-Inv none q v = v
set_fail_timeout_if-Inv (some t) q v = (update_config-Inv q true t v).1

apply_config-Inv : (c : NetQueueConfig) (q : Queue) → Inv q → Inv (apply_config c q)
unfolding apply_config
apply_config-Inv c q v =
    set_fail_timeout_if-Inv c.fail_timeout _ (set_auto_fail_if-Inv c.auto_fail q v)

module _ (s : Server) (k : IsConsistent s) where
  enqueue-IsConsistent :
      (n : Name) (client size : ℕ) (payload : List ℕ) (now : ℕ)
      → IsConsistent (handle_enqueue s n client size payload now).0
  unfolding handle_enqueue
  enqueue-IsConsistent n client size payload now = on_queue-IsConsistent s n _ k λ hash q v.
      put_queue-IsConsistent _ hash _ (enqueue-Inv q payload client now v)
        (memory-IsConsistent s _ k)

  dequeue-IsConsistent :
      (n : Name) (client : ℕ) (is_written : Bool)
      → IsConsistent (handle_dequeue s n client is_written).0
  unfolding handle_dequeue
  dequeue-IsConsistent n client is_written =
      on_queue-IsConsistent s n _ k
        λ hash q v. put_queue-IsConsistent s hash _ (lock_to_read-Inv q client v) k

  delete_m-IsConsistent :
      (n : Name) (client size : ℕ) (payload : List ℕ)
      → IsConsistent (handle_delete_m s n client size payload).0
  unfolding handle_delete_m
  delete_m-IsConsistent n client size payload = on_queue-IsConsistent s n _ k λ hash q v.
      elim (Bool-cases (ltb size 16)) [
        | inl h ↦ rw h k
        | inr h ↦ rw h (
            put_queue-IsConsistent s hash _ (dequeue-Inv q client (some (message_id_of payload)) v)
              k)
      ]

  acknowledge-IsConsistent :
      (hash : ℕ) (q r : Queue) (done : Outcome _ ℕ)
      → Inv r
      → IsConsistent (acknowledge s hash q (r, done)).0
  unfolding acknowledge
  acknowledge-IsConsistent hash q r (ok size) v =
      put_queue-IsConsistent _ hash _ (shrink-Inv s.memory r size v) (memory-IsConsistent s _ k)
  acknowledge-IsConsistent hash q r (err e) v = put_queue-IsConsistent s hash r v k
  acknowledge-IsConsistent hash q r panic v = put_queue-IsConsistent s hash r v k

  succeeded-IsConsistent : (n : Name) (client : ℕ) → IsConsistent (handle_succeeded s n client).0
  unfolding handle_succeeded
  succeeded-IsConsistent n client = elim (get_queue_cases s n k) [
    | inl (hash, q, _, there, e) ↦
        rw (e, handle_succeeded)
          (acknowledge-IsConsistent hash q (Ops.dequeue q client none).0
            (Ops.dequeue q client none).1 (dequeue-Inv q client none (k.queues hash q there)))
    | inr (_, e) ↦ rw (e, handle_succeeded) k
  ]

  failed-IsConsistent : (n : Name) (client : ℕ) → IsConsistent (handle_failed s n client).0
  unfolding handle_failed
  failed-IsConsistent n client =
      on_queue-IsConsistent s n _ k
        λ hash q v. put_queue-IsConsistent s hash _ (unlock-Inv q client none v) k

  requeue-IsConsistent :
      (n : Name) (client size : ℕ) (payload : List ℕ) (now : ℕ)
      → IsConsistent (handle_requeue s n client size payload now).0
  unfolding handle_requeue
  requeue-IsConsistent n client size payload now = on_queue-IsConsistent s n _ k λ hash q v.
      elim (Bool-cases (ltb size 16)) [
        | inl h ↦ rw h k
        | inr h ↦
            rw h (
              put_queue-IsConsistent s hash _ (requeue-Inv q client (message_id_of payload) now v)
                k)
      ]

  update_m-IsConsistent :
      (n : Name) (size : ℕ) (payload : List ℕ) → IsConsistent (handle_update_m s n size payload).0
  unfolding handle_update_m
  update_m-IsConsistent n size payload = elim (Bool-cases (ltb size 16)) [
    | inl h ↦ rw h k
    | inr h ↦ rw h (
        on_queue-IsConsistent s n _ k λ hash q v.
          put_queue-IsConsistent s hash _
            (update_message-Inv q (message_id_of payload) (drop 16 payload) v) k)
  ]

  update_q-IsConsistent :
      (n : Name) (size : ℕ) (payload : List ℕ) → IsConsistent (handle_update_q s n size payload).0
  unfolding handle_update_q
  update_q-IsConsistent n size payload = on_queue-IsConsistent s n _ k λ hash q v.
      elim (Bool-cases (ltb size 1)) [
        | inl h ↦ rw h k
        | inr h ↦ rw h (configured hash q v (net_config_from_be_bytes payload))
      ]
    where
      configured :
          (hash : ℕ) (q : Queue)
          → Inv q
          → (o : Outcome ConfigError (NetQueueConfig × ℕ)) → IsConsistent (configure s hash q o).0
      configured hash q v (ok (c, size)) =
          put_queue-IsConsistent s hash _ (apply_config-Inv c q v) k
      configured hash q v (err e) = k
      configured hash q v panic = k

  list_m-IsConsistent : (n : Name) → IsConsistent (handle_list_m s n).0
  unfolding handle_list_m
  list_m-IsConsistent n = elim (get_queue_cases s n k) [
    | inl (hash, q, _, there, e) ↦ rw (e, handle_list_m) k
    | inr (_, e) ↦ rw (e, handle_list_m) k
  ]

  create_q-IsConsistent :
      (n : Name) (hash : ℕ) → queue_at hash s ≡ none → IsConsistent (handle_create_q s n hash).0
  unfolding handle_create_q
  create_q-IsConsistent n hash fresh = elim (Option-cases (hash_of n s)) [
    | inr (old, e) ↦ rw (e, handle_create_q) k
    | inl e ↦ rw (e, handle_create_q) (with_queue-IsConsistent s n hash k fresh)
  ]

  delete_q-IsConsistent : (n : Name) → IsConsistent (handle_delete_q s n).0
  unfolding handle_delete_q
  delete_q-IsConsistent n = elim (Option-cases (hash_of n s)) [
    | inl e ↦ rw (e, handle_delete_q) k
    | inr (hash, e) ↦ rw (e, handle_delete_q) (without_queue-IsConsistent s n hash k e)
  ]

  pub auto_unlock-IsConsistent : (hash client id : ℕ) → IsConsistent (auto_unlock s hash client id)
  unfolding auto_unlock
  auto_unlock-IsConsistent hash client id = elim (Option-cases (queue_at hash s)) [
    | inl e ↦ rw (e, auto_unlock) k
    | inr (q, e) ↦ elim (Bool-cases (Locks.is_locked q client id)) [
      | inl h ↦
          rw (e, auto_unlock, h)
            (put_queue-IsConsistent s hash _ (unlock-Inv q client (some id) (k.queues hash q e)) k)
      | inr h ↦ rw (e, auto_unlock, h) k
    ]
  ]

  -- Whatever the request, and with a uuid under which there is no queue yet.
  run_command-IsConsistent :
      (f : Frame) (e : Surroundings)
      → queue_at e.new_hash s ≡ none
      → IsConsistent (run_command f.command s f e).0
  unfolding handle_net_stats run_command handle_enqueue
  run_command-IsConsistent f e fresh = by_command f.command
    where
      by_command : (c : Request) → IsConsistent (run_command c s f e).0
      by_command enqueue =
          enqueue-IsConsistent f.queue_name f.client_id f.payload_size f.payload e.now
      by_command dequeue = dequeue-IsConsistent f.queue_name f.client_id e.is_written
      by_command create_q = create_q-IsConsistent f.queue_name e.new_hash fresh
      by_command delete_q = delete_q-IsConsistent f.queue_name
      by_command list_m = list_m-IsConsistent f.queue_name
      by_command delete_m = delete_m-IsConsistent f.queue_name f.client_id f.payload_size f.payload
      by_command Request.succeeded = succeeded-IsConsistent f.queue_name f.client_id
      by_command Request.failed = failed-IsConsistent f.queue_name f.client_id
      by_command requeue =
          requeue-IsConsistent f.queue_name f.client_id f.payload_size f.payload e.now
      by_command update_m = update_m-IsConsistent f.queue_name f.payload_size f.payload
      by_command update_q = update_q-IsConsistent f.queue_name f.payload_size f.payload
      by_command net_stats = k

pub handle_frame-IsConsistent :
    (s : Server) (k : IsConsistent s) (f : Frame) (e : Surroundings)
    → queue_at e.new_hash s ≡ none
    → IsConsistent (handle_frame s f e).0
unfolding handle_frame
handle_frame-IsConsistent s k f e fresh =
    run_command-IsConsistent (observed s e) (memory-IsConsistent s _ k) f e fresh
