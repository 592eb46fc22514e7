-- ===== src/Server/Refusals.antt =====
-- net/server.rs: which errors a request is answered with, and that such a request changes nothing.
pub mod Commands
pub mod Requests
use native.Mathlib.Decide.{ℕ_discrete}
use rust_data_broker.Prelude.{
  ◌<◌, ◌≢◌, Bool, is_empty, drop, subst, ℕ, Option, ◌≡◌, refl, sym, ap, ◌∙◌, inl, inr, ◌⊎◌, true,
  false, none, some, List, [], ◌∷◌, arith, Bool-cases, Option-cases, Outcome, ok, err, panic, ltb,
  if◌then◌else◌,
}
use rust_data_broker.Dict
use rust_data_broker.Dict.{insert_again}
use rust_data_broker.Errors.{ErrorCode}
use rust_data_broker.Errors
use rust_data_broker.Memory.{Memory}
use rust_data_broker.Queue.State.{Queue, QueueError, message}
use rust_data_broker.Queue.Message.{QueueMessage}
use rust_data_broker.Queue.Ops
use rust_data_broker.Queue.Ops.{Reply}
use rust_data_broker.Queue.Locks
use rust_data_broker.Queue.Config.{NetQueueConfig, ConfigError, net_config_from_be_bytes}
use rust_data_broker.Queue.Atomic.{
  IsAtomic, lock_to_read-IsAtomic, dequeue-IsAtomic, unlock-IsAtomic, requeue-IsAtomic,
  update_message-IsAtomic,
}
use rust_data_broker.Server.Wire.{
  Request, enqueue, dequeue, create_q, delete_q, list_m, delete_m, requeue, update_m, update_q,
  net_stats,
}
use rust_data_broker.Server.Frame.{Frame}
use rust_data_broker.Server.State.{
  Server, Name, Answer, succeeded, failed, silent, get_queue, put_queue,
}
use rust_data_broker.Server.Handlers.{
  Handled, on_queue, reply, answer_with, read_answer, read_error, handle_enqueue, handle_dequeue,
  handle_create_q, handle_delete_q, handle_list_m, metas_to_be_bytes, handle_delete_m,
  handle_succeeded, handle_failed, acknowledge, message_id_of,
}
use rust_data_broker.Server.Updates.{
  configure, handle_requeue, handle_update_m, handle_update_q, handle_net_stats,
}
use rust_data_broker.Server.Dispatch.{Surroundings, run_command, handle_frame}
use rust_data_broker.Server.Invariant.{hash_of, queue_at}
use rust_data_broker.Server.Delivery.{queue_found}

-- Why `get_queue` fails: the name is not in use, or its uuid leads to no queue.
abbrev pub NotFound : Server → Name → ErrorCode → Type 0
NotFound s n code =
    ((Errors.queue_hash_not_found ≡ code) × (hash_of n s ≡ none))
    ⊎ ((Errors.queue_not_found ≡ code)
        × ((hash : ℕ) × (hash_of n s ≡ some hash) × (queue_at hash s ≡ none)))

-- The operation on the queue of the name fails.
abbrev pub Fails : {A : Type 0} → Server → Name → (Queue → Outcome QueueError A) → Type 0
Fails s n operation =
    (hash : ℕ) × (q : Queue) × (e : QueueError) × (get_queue s n ≡ ok (hash, q))
    × (operation q ≡ err e)

-- Why the next message of a queue cannot be read: there is none, it is gone, or a client has it.
abbrev pub Unread : Queue → ErrorCode → Type 0
Unread q code =
    ((Errors.queue_is_empty ≡ code) × ((q.next_id ≡ none) ⊎ (is_empty q.order ≡ true)))
    ⊎ ((id : ℕ) × (q.next_id ≡ some id)
        × (((Errors.no_such_message_id ≡ code) × (message id q ≡ none))
            ⊎ ((Errors.message_already_locked ≡ code)
                × ((m : QueueMessage) × (message id q ≡ some m) × (m.locked_by ≢ none)))))

-- The reasons to fail that only one request has, by its code.
abbrev pub Reason : Request → Server → Frame → Surroundings → ErrorCode → Type 0
Reason enqueue s f e code = ⊥
Reason dequeue s f e code =
    (hash : ℕ) × (q : Queue) × (get_queue s f.queue_name ≡ ok (hash, q)) × Unread q code
Reason create_q s f e code = (Errors.queue_already_exists ≡ code) × (hash_of f.queue_name s ≢ none)
Reason delete_q s f e code = (Errors.queue_does_not_exist ≡ code) × (hash_of f.queue_name s ≡ none)
Reason list_m s f e code =
    (Errors.queue_hash_not_found ≡ code) × ((c : ErrorCode) × (get_queue s f.queue_name ≡ err c))
Reason delete_m s f e code =
    ((Errors.payload_missing_message_id ≡ code) × (f.payload_size < 16))
    ⊎ ((Errors.no_such_message_id ≡ code)
        × Fails s f.queue_name
            (λ q. (Ops.dequeue q f.client_id (some (message_id_of f.payload))).1))
Reason Request.succeeded s f e code =
    (Errors.no_such_message_id_locked ≡ code)
    × (((c : ErrorCode) × (get_queue s f.queue_name ≡ err c))
        ⊎ Fails s f.queue_name (λ q. (Ops.dequeue q f.client_id none).1))
Reason Request.failed s f e code =
    (Errors.message_not_locked_by_client ≡ code)
    × Fails s f.queue_name (λ q. (Locks.unlock q f.client_id none).1)
Reason requeue s f e code =
    ((Errors.payload_missing_message_id ≡ code) × (f.payload_size < 16))
    ⊎ ((Errors.message_not_in_queue ≡ code)
        × Fails s f.queue_name
            (λ q. (Locks.requeue q f.client_id (message_id_of f.payload) e.now).1))
Reason update_m s f e code =
    ((Errors.payload_missing_message_id ≡ code) × (f.payload_size < 16))
    ⊎ ((Errors.message_not_in_queue ≡ code)
        × Fails s f.queue_name
            (λ q. (Locks.update_message q (message_id_of f.payload) (drop 16 f.payload)).1))
Reason update_q s f e code =
    ((Errors.invalid_config_payload_size ≡ code) × (f.payload_size ≡ 0))
    ⊎ ((Errors.config_bytes_empty ≡ code)
        × ((x : ConfigError) × (net_config_from_be_bytes f.payload ≡ err x)))
Reason net_stats s f e code = ⊥

-- CreateQ, DeleteQ, ListM, Succeeded and NetStats do not say why a queue is not found.
abbrev pub names_queue : Request → Bool
names_queue create_q = false
names_queue delete_q = false
names_queue list_m = false
names_queue Request.succeeded = false
names_queue net_stats = false
names_queue _ = true

abbrev pub Why : Request → Server → Frame → Surroundings → ErrorCode → Type 0
Why r s f e code = ((names_queue r ≡ true) × NotFound s f.queue_name code) ⊎ Reason r s f e code

-- The message is locked, as if the socket had taken it, and its write has failed.
abbrev pub Unwritten : Frame → Surroundings → ErrorCode → Handled → Handled → Type 0
Unwritten f e code r written =
    (f.command ≡ dequeue)
    × (e.is_written ≡ false)
    × (Errors.response_failed_error ≡ code)
    × ((bytes : List ℕ) × (written ≡ (r.0, succeeded bytes)))

-- Where the answer is a failure, this holds of its code, and the server is as it was.
abbrev pub Refuses : Server → (ErrorCode → Type 0) → Handled → Type 0
Refuses s P r = (code : ErrorCode) → r.1 ≡ failed code → (r.0 ≡ s) × P code

pub failed-injective : (c d : ErrorCode) → failed c ≡ failed d → c ≡ d
failed-injective c d e = ground arith

get_queue-NotFound :
    (s : Server) (n : Name) (code : ErrorCode) → get_queue s n ≡ err code → NotFound s n code
unfolding get_queue
get_queue-NotFound s n code e = elim (Option-cases (hash_of n s)) [
  | inl h ↦ inl (ground arith, h)
  | inr (hash, h) ↦ elim (Option-cases (queue_at hash s)) [
    | inl q ↦ inr (ground arith, (hash, h, q))
    | inr (q, found) ↦ absurd (ground arith)
  ]
]

-- To put the queue back that was found is to change nothing.
pub put_queue_again :
    (s : Server) (n : Name) (hash : ℕ) (q : Queue)
    → get_queue s n ≡ ok (hash, q)
    → put_queue s hash q ≡ s
put_queue_again s n hash q e =
    ap (λ m. record s { queue = m })
      (insert_again ℕ_discrete hash q s.queue (queue_found s n hash q e))

module _ (s : Server) (P : ErrorCode → Type 0) where
  pub served-Refuses : (r : Server) (bytes : List ℕ) → Refuses s P (r, succeeded bytes)
  served-Refuses r bytes = λ code e. absurd (let z : succeeded bytes ≡ failed code = e in cc)

  pub silent-Refuses : (r : Server) → Refuses s P (r, silent)
  silent-Refuses r = λ code e. absurd (let z : silent ≡ failed code = e in cc)

  pub refused-Refuses : (r : Server) (c : ErrorCode) → r ≡ s → P c → Refuses s P (r, failed c)
  refused-Refuses r c same l = λ code e. (same, subst P (failed-injective c code e) l)

  pub reply-Refuses :
      {A : Type 0} (n : Name) (hash : ℕ) (q : Queue) (c : ErrorCode) (r : Reply A)
      → get_queue s n ≡ ok (hash, q)
      → IsAtomic q r
      → ((e : QueueError) → r.1 ≡ err e → P c)
      → Refuses s P (reply s hash c r)
  reply-Refuses n hash q c (q', ok a) found h l = served-Refuses (put_queue s hash q') []
  reply-Refuses n hash q c (q', err e) found h l =
      refused-Refuses (put_queue s hash q') c
        (ap (put_queue s hash) (h e refl) ∙ put_queue_again s n hash q found) (l e refl)
  reply-Refuses n hash q c (q', panic) found h l = silent-Refuses (put_queue s hash q')

  pub guarded-Refuses :
      (size least : ℕ) (c : ErrorCode) (r : Handled)
      → (size < least → P c)
      → Refuses s P r
      → Refuses s P (if ltb size least then (s, failed c) else r)
  guarded-Refuses size least c r l h = elim (Bool-cases (ltb size least)) [
    | inl e ↦ rw e (refused-Refuses s c refl (l (ground arith)))
    | inr e ↦ rw e h
  ]

  pub on_queue-Refuses :
      (n : Name) (f : ℕ → Queue → Handled)
      → ((code : ErrorCode) → NotFound s n code → P code)
      → ((hash : ℕ) (q : Queue) → get_queue s n ≡ ok (hash, q) → Refuses s P (f hash q))
      → Refuses s P (on_queue s n f)
  on_queue-Refuses n f l h = by_outcome (get_queue s n) refl
    where
      by_outcome :
          (r : Outcome ErrorCode (ℕ × Queue))
          → get_queue s n ≡ r
          → Refuses s P (elim r [
            | ok (hash, q) ↦ f hash q
            | err code ↦ (s, failed code)
            | panic ↦ (s, silent)
          ])
      by_outcome (ok (hash, q)) e = h hash q e
      by_outcome (err c) e = refused-Refuses s c refl (l c (get_queue-NotFound s n c e))
      by_outcome panic e = silent-Refuses s
