-- ===== src/Server/Refusals/Commands.antt =====
-- net/server.rs: the failures of each request, when the socket takes its answer.
use rust_data_broker.Prelude.{
  ◌⊎◌, true, Bool-cases, Option-cases, is_empty, ℕ, Option, ◌≡◌, refl, ap, ◌∙◌, inl, inr, none,
  List, [], arith, Outcome, ok, err, panic,
}
use rust_data_broker.Errors.{ErrorCode}
use rust_data_broker.Errors
use rust_data_broker.Queue.State.{Queue, QueueError, message}
use rust_data_broker.Queue.Message.{is_locked}
use rust_data_broker.Queue.Locks
use rust_data_broker.Queue.Ops
use rust_data_broker.Queue.Ops.{Reply}
use rust_data_broker.Queue.Config.{NetQueueConfig, ConfigError, net_config_from_be_bytes}
use rust_data_broker.Queue.Atomic.{
  IsAtomic, lock_to_read-IsAtomic, dequeue-IsAtomic, unlock-IsAtomic, requeue-IsAtomic,
  update_message-IsAtomic,
}
use rust_data_broker.Server.Wire.{
  Request, enqueue, dequeue, create_q, delete_q, list_m, delete_m, requeue, update_m, update_q,
}
use rust_data_broker.Server.Frame.{Frame}
use rust_data_broker.Server.State.{Server, succeeded, failed, silent, get_queue, put_queue}
use rust_data_broker.Server.Handlers.{
  read_answer, read_error, handle_enqueue, handle_dequeue, handle_create_q, handle_delete_q,
  handle_list_m, handle_delete_m, handle_succeeded, handle_failed, acknowledge, on_queue, Handled,
  metas_to_be_bytes,
}
use rust_data_broker.Server.Updates.{configure, handle_requeue, handle_update_m, handle_update_q}
use rust_data_broker.Server.Dispatch.{Surroundings}
use rust_data_broker.Server.Refusals.{
  NotFound, Unread, Reason, Refuses, put_queue_again, served-Refuses, silent-Refuses,
  refused-Refuses, reply-Refuses, guarded-Refuses, on_queue-Refuses,
}

lock_to_read-Unread :
    (q : Queue) (c : ℕ) (e : QueueError)
    → (Ops.lock_to_read q c).1 ≡ err e
    → Unread q (read_error e)
unfolding Ops.lock_to_read Ops.read_message is_locked
lock_to_read-Unread q c e h = elim (Option-cases q.next_id) [
  | inl none_next ↦ inl (ground arith, inl none_next)
  | inr (id, next) ↦ elim (Bool-cases (is_empty q.order)) [
    | inl empty ↦ inl (ground arith, inr empty)
    | inr full ↦ elim (Option-cases (message id q)) [
      | inl gone ↦ inr (id, next, inl (ground arith, gone))
      | inr (m, here) ↦ inr (id, next, inr (ground arith, (m, here, ground arith)))
    ]
  ]
]

module _ (s : Server) (f : Frame) (e : Surroundings) where
  abbrev Or : Request → ErrorCode → Type 0
  Or r code = NotFound s f.queue_name code ⊎ Reason r s f e code

  pub dequeue-Refuses : Refuses s (Or dequeue) (handle_dequeue s f.queue_name f.client_id true)
  unfolding handle_dequeue
  dequeue-Refuses =
      on_queue-Refuses s _ f.queue_name _ (λ code z. inl z)
        (λ hash q found.
          answered hash q (Ops.lock_to_read q f.client_id) found
            (lock_to_read-IsAtomic q f.client_id)
            (λ x z. (hash, q, found, lock_to_read-Unread q f.client_id x z)))
    where
      answered :
          (hash : ℕ) (q : Queue) (r : Reply (List ℕ × Option ℕ))
          → get_queue s f.queue_name ≡ ok (hash, q)
          → IsAtomic q r
          → ((x : QueueError) → r.1 ≡ err x → Reason dequeue s f e (read_error x))
          → Refuses s (Or dequeue) (put_queue s hash r.0, read_answer true r.1)
      answered hash q (q', ok (bytes, id)) found h l =
          served-Refuses s _ (put_queue s hash q') bytes
      answered hash q (q', err x) found h l =
          refused-Refuses s _ (put_queue s hash q') (read_error x)
            (ap (put_queue s hash) (h x refl) ∙ put_queue_again s f.queue_name hash q found)
            (inr (l x refl))
      answered hash q (q', panic) found h l = silent-Refuses s _ (put_queue s hash q')

  pub succeeded-Refuses :
      Refuses s (Reason Request.succeeded s f e) (handle_succeeded s f.queue_name f.client_id)
  unfolding handle_succeeded acknowledge
  succeeded-Refuses = by_outcome (get_queue s f.queue_name) refl
    where
      acknowledged :
          (hash : ℕ) (q : Queue) (r : Reply ℕ)
          → get_queue s f.queue_name ≡ ok (hash, q)
          → IsAtomic q r
          → ((x : QueueError)
              → r.1 ≡ err x
              → Reason Request.succeeded s f e Errors.no_such_message_id_locked)
          → Refuses s (Reason Request.succeeded s f e) (acknowledge s hash q r)
      acknowledged hash q (q', ok size) found h l =
          served-Refuses s _ (acknowledge s hash q (q', ok size)).0 []
      acknowledged hash q (q', err x) found h l =
          refused-Refuses s _ (put_queue s hash q') Errors.no_such_message_id_locked
            (ap (put_queue s hash) (h x refl) ∙ put_queue_again s f.queue_name hash q found)
            (l x refl)
      acknowledged hash q (q', panic) found h l = silent-Refuses s _ (put_queue s hash q')

      by_outcome :
          (r : Outcome ErrorCode (ℕ × Queue))
          → get_queue s f.queue_name ≡ r
          → Refuses s (Reason Request.succeeded s f e) (elim r [
            | ok (hash, q) ↦ acknowledge s hash q (Ops.dequeue q f.client_id none)
            | err _ ↦ (s, failed Errors.no_such_message_id_locked)
            | panic ↦ (s, silent)
          ])
      by_outcome (ok (hash, q)) z =
          acknowledged hash q (Ops.dequeue q f.client_id none) z
            (dequeue-IsAtomic q f.client_id none) (λ x h. (refl, inr (hash, q, x, z, h)))
      by_outcome (err c) z =
          refused-Refuses s _ s Errors.no_such_message_id_locked refl (refl, inl (c, z))
      by_outcome panic z = silent-Refuses s _ s

  pub list_m-Refuses : Refuses s (Reason list_m s f e) (handle_list_m s f.queue_name)
  unfolding handle_list_m
  list_m-Refuses = by_outcome (get_queue s f.queue_name) refl
    where
      by_outcome :
          (r : Outcome ErrorCode (ℕ × Queue))
          → get_queue s f.queue_name ≡ r
          → Refuses s (Reason list_m s f e) (elim r [
            | ok (hash, q) ↦ (s, succeeded (metas_to_be_bytes (Locks.list_messages q)))
            | err _ ↦ (s, failed Errors.queue_hash_not_found)
            | panic ↦ (s, silent)
          ])
      by_outcome (ok (hash, q)) z = served-Refuses s _ s _
      by_outcome (err c) z = refused-Refuses s _ s _ refl (refl, (c, z))
      by_outcome panic z = silent-Refuses s _ s

  pub create_q-Refuses :
      Refuses s (Reason create_q s f e) (handle_create_q s f.queue_name e.new_hash)
  unfolding handle_create_q
  create_q-Refuses = λ code z. ground arith

  pub delete_q-Refuses : Refuses s (Reason delete_q s f e) (handle_delete_q s f.queue_name)
  unfolding handle_delete_q
  delete_q-Refuses = λ code z. ground arith

  -- A request that asks for its queue first, for its own reasons.
  found_first :
      (r : Request) (g : ℕ → Queue → Handled)
      → ((hash : ℕ) (q : Queue)
          → get_queue s f.queue_name ≡ ok (hash, q)
          → Refuses s (Or r) (g hash q))
      → Refuses s (Or r) (on_queue s f.queue_name g)
  found_first r g h = on_queue-Refuses s (Or r) f.queue_name g (λ code z. inl z) h

  pub enqueue-Refuses :
      Refuses s
        (Or enqueue)
        (handle_enqueue s f.queue_name f.client_id f.payload_size f.payload e.now)
  unfolding handle_enqueue Ops.enqueue
  enqueue-Refuses = found_first enqueue _ λ hash q found. served-Refuses s _ _ []

  pub delete_m-Refuses :
      Refuses s (Or delete_m) (handle_delete_m s f.queue_name f.client_id f.payload_size f.payload)
  unfolding handle_delete_m
  delete_m-Refuses = found_first delete_m _ λ hash q found.
      guarded-Refuses s _ f.payload_size 16 _ _ (λ low. inr (inl (refl, low)))
        (reply-Refuses s _ f.queue_name hash q _ _ found (dequeue-IsAtomic q f.client_id _)
          (λ x z. inr (inr (refl, (hash, q, x, found, z)))))

  pub failed-Refuses : Refuses s (Or Request.failed) (handle_failed s f.queue_name f.client_id)
  unfolding handle_failed
  failed-Refuses = found_first Request.failed _ λ hash q found.
      reply-Refuses s _ f.queue_name hash q _ _ found (unlock-IsAtomic q f.client_id none)
        (λ x z. inr (refl, (hash, q, x, found, z)))

  pub requeue-Refuses :
      Refuses s
        (Or requeue)
        (handle_requeue s f.queue_name f.client_id f.payload_size f.payload e.now)
  unfolding handle_requeue
  requeue-Refuses = found_first requeue _ λ hash q found.
      guarded-Refuses s _ f.payload_size 16 _ _ (λ low. inr (inl (refl, low)))
        (reply-Refuses s _ f.queue_name hash q _ _ found (requeue-IsAtomic q f.client_id _ e.now)
          (λ x z. inr (inr (refl, (hash, q, x, found, z)))))

  pub update_m-Refuses :
      Refuses s (Or update_m) (handle_update_m s f.queue_name f.payload_size f.payload)
  unfolding handle_update_m
  update_m-Refuses =
      guarded-Refuses s _ f.payload_size 16 _ _ (λ low. inr (inl (refl, low)))
        (found_first update_m _ λ hash q found.
          reply-Refuses s _ f.queue_name hash q _ _ found (update_message-IsAtomic q _ _)
            (λ x z. inr (inr (refl, (hash, q, x, found, z)))))

  configure-Refuses :
      (hash : ℕ) (q : Queue) (r : Outcome ConfigError (NetQueueConfig × ℕ))
      → net_config_from_be_bytes f.payload ≡ r
      → Refuses s (Or update_q) (configure s hash q r)
  unfolding configure
  configure-Refuses hash q (ok (config, size)) z = served-Refuses s _ _ []
  configure-Refuses hash q (err x) z = refused-Refuses s _ s _ refl (inr (inr (refl, (x, z))))
  configure-Refuses hash q panic z = silent-Refuses s _ s

  pub update_q-Refuses :
      Refuses s (Or update_q) (handle_update_q s f.queue_name f.payload_size f.payload)
  unfolding handle_update_q
  update_q-Refuses = found_first update_q _ λ hash q found.
      guarded-Refuses s _ f.payload_size 1 _ _ (λ low. inr (inl (refl, omega arith)))
        (configure-Refuses hash q (net_config_from_be_bytes f.payload) refl)
