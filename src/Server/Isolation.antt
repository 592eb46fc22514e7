-- ===== src/Server/Isolation.antt =====
-- net/server.rs: the task of each request, and the queues of the other names.
use native.Mathlib.Decide.{ℕ_discrete}
use rust_data_broker.Prelude.{
  ℕ, ◌≡◌, refl, ◌≢◌, ap, ◌∙◌, inl, inr, none, some, arith, Outcome, ok, err, panic, Option-cases,
  Bool-cases, ltb, if◌then◌else◌,
}
use rust_data_broker.Dict.{lookup-insert_ne, lookup-remove_ne}
use rust_data_broker.Memory.{Memory}
use rust_data_broker.Queue.State.{Queue}
use rust_data_broker.Queue.Ops
use rust_data_broker.Queue.Config.{NetQueueConfig, ConfigError, net_config_from_be_bytes}
use rust_data_broker.Server.Wire.{
  Request, enqueue, dequeue, create_q, delete_q, list_m, delete_m, requeue, update_m, update_q,
  net_stats,
}
use rust_data_broker.Server.Frame.{Frame}
use rust_data_broker.Server.State.{Server, Name, Name-discrete, get_queue, put_queue}
use rust_data_broker.Server.Handlers.{
  Handled, on_queue, handle_enqueue, handle_dequeue, handle_create_q, handle_delete_q,
  handle_list_m, handle_delete_m, acknowledge, handle_succeeded, handle_failed,
}
use rust_data_broker.Server.Updates.{
  handle_requeue, handle_update_m, configure, handle_update_q, handle_net_stats,
}
use rust_data_broker.Server.Dispatch.{Surroundings, observed, run_command, handle_frame}
use rust_data_broker.Server.Invariant.{
  memory-IsConsistent, IsConsistent, queue_at, hash_of, get_queue_cases,
}

-- The names other than `n`, and the queues other than that of `n` and a new one, are what they were.
record SameElse (s t : Server) (n : Name) (new : ℕ) : Type 0 where
  names : (o : Name) → n ≢ o → hash_of o t ≡ hash_of o s
  queues : (h : ℕ) → hash_of n s ≢ some h → new ≢ h → queue_at h t ≡ queue_at h s

module _ (s : Server) (k : IsConsistent s) (n : Name) (new : ℕ) where
  same : SameElse s s n new
  same = record { names = λ o d. refl; queues = λ h d f. refl }

  put-SameElse :
      (m : Memory) (hash : ℕ) (q : Queue)
      → hash_of n s ≡ some hash
      → SameElse s (put_queue (record s { memory = m }) hash q) n new
  put-SameElse m hash q e = record {
    names = λ o d. refl;
    queues = λ h d f. lookup-insert_ne ℕ_discrete hash h q s.queue (λ z. d (e ∙ ap some z));
  }

  on_queue-SameElse :
      (f : ℕ → Queue → Handled)
      → ((hash : ℕ) (q : Queue) → hash_of n s ≡ some hash → SameElse s (f hash q).0 n new)
      → SameElse s (on_queue s n f).0 n new
  on_queue-SameElse f h = elim (get_queue_cases s n k) [
    | inl (hash, q, e, there, g) ↦ rw (g, on_queue) (h hash q e)
    | inr (_, g) ↦ rw (g, on_queue) same
  ]

  guarded-SameElse :
      (size least : ℕ) (a b : Handled)
      → SameElse s a.0 n new
      → SameElse s b.0 n new
      → SameElse s (if ltb size least then a else b).0 n new
  guarded-SameElse size least a b h g = elim (Bool-cases (ltb size least)) [
    | inl e ↦ rw e h
    | inr e ↦ rw e g
  ]

  acknowledge-SameElse :
      (hash : ℕ) (q r : Queue) (done : Outcome _ ℕ)
      → hash_of n s ≡ some hash
      → SameElse s (acknowledge s hash q (r, done)).0 n new
  unfolding acknowledge
  acknowledge-SameElse hash q r (ok size) e = put-SameElse _ hash _ e
  acknowledge-SameElse hash q r (err x) e = put-SameElse s.memory hash r e
  acknowledge-SameElse hash q r panic e = put-SameElse s.memory hash r e

  succeeded-SameElse : (client : ℕ) → SameElse s (handle_succeeded s n client).0 n new
  unfolding handle_succeeded
  succeeded-SameElse client = elim (get_queue_cases s n k) [
    | inl (hash, q, e, there, g) ↦
        rw (g, handle_succeeded)
          (acknowledge-SameElse hash q (Ops.dequeue q client none).0 (Ops.dequeue q client none).1
            e)
    | inr (_, g) ↦ rw (g, handle_succeeded) same
  ]

  configure-SameElse :
      (hash : ℕ) (q : Queue) (o : Outcome ConfigError (NetQueueConfig × ℕ))
      → hash_of n s ≡ some hash
      → SameElse s (configure s hash q o).0 n new
  unfolding configure
  configure-SameElse hash q (ok (c, size)) e = put-SameElse s.memory hash _ e
  configure-SameElse hash q (err x) e = same
  configure-SameElse hash q panic e = same

  list_m-SameElse : SameElse s (handle_list_m s n).0 n new
  unfolding handle_list_m
  list_m-SameElse = elim (get_queue_cases s n k) [
    | inl (hash, q, e, there, g) ↦ rw (g, handle_list_m) same
    | inr (_, g) ↦ rw (g, handle_list_m) same
  ]

  create_q-SameElse : SameElse s (handle_create_q s n new).0 n new
  unfolding handle_create_q
  create_q-SameElse = elim (Option-cases (hash_of n s)) [
    | inr (old, e) ↦ rw (e, handle_create_q) same
    | inl e ↦
        rw (e, handle_create_q)
          (record {
            names = λ o d. lookup-insert_ne Name-discrete n o new s.queue_names d;
            queues = λ h d f. lookup-insert_ne ℕ_discrete new h _ s.queue f;
          })
  ]

  delete_q-SameElse : SameElse s (handle_delete_q s n).0 n new
  unfolding handle_delete_q
  delete_q-SameElse = elim (Option-cases (hash_of n s)) [
    | inl e ↦ rw (e, handle_delete_q) same
    | inr (hash, e) ↦
        rw (e, handle_delete_q)
          (record {
            names = λ o d. lookup-remove_ne Name-discrete n o s.queue_names d;
            queues = λ h d f. lookup-remove_ne ℕ_discrete hash h s.queue (λ z. d (e ∙ ap some z));
          })
  ]

module _ (s : Server) (k : IsConsistent s) (f : Frame) (e : Surroundings) where
  put :
      (m : Memory) (hash : ℕ) (q : Queue)
      → hash_of f.queue_name s ≡ some hash
      → SameElse s (put_queue (record s { memory = m }) hash q) f.queue_name e.new_hash
  put = put-SameElse s k f.queue_name e.new_hash

  run_command-SameElse : SameElse s (run_command f.command s f e).0 f.queue_name e.new_hash
  unfolding run_command handle_enqueue handle_dequeue handle_delete_m handle_failed handle_requeue
      handle_update_m handle_update_q handle_net_stats
  run_command-SameElse = by_command f.command
    where
      named :
          (g : ℕ → Queue → Handled)
          → ((hash : ℕ) (q : Queue)
              → hash_of f.queue_name s ≡ some hash
              → SameElse s (g hash q).0 f.queue_name e.new_hash)
          → SameElse s (on_queue s f.queue_name g).0 f.queue_name e.new_hash
      named = on_queue-SameElse s k f.queue_name e.new_hash

      guarded :
          (least : ℕ) (a b : Handled)
          → SameElse s a.0 f.queue_name e.new_hash
          → SameElse s b.0 f.queue_name e.new_hash
          → SameElse s (if ltb f.payload_size least then a else b).0 f.queue_name e.new_hash
      guarded = guarded-SameElse s k f.queue_name e.new_hash f.payload_size

      unchanged : SameElse s s f.queue_name e.new_hash
      unchanged = same s k f.queue_name e.new_hash

      by_command : (c : Request) → SameElse s (run_command c s f e).0 f.queue_name e.new_hash
      by_command enqueue = named _ λ hash q h. put _ hash _ h
      by_command dequeue = named _ λ hash q h. put s.memory hash _ h
      by_command create_q = create_q-SameElse s k f.queue_name e.new_hash
      by_command delete_q = delete_q-SameElse s k f.queue_name e.new_hash
      by_command list_m = list_m-SameElse s k f.queue_name e.new_hash
      by_command delete_m = named _ λ hash q h. guarded 16 _ _ unchanged (put s.memory hash _ h)
      by_command Request.succeeded = succeeded-SameElse s k f.queue_name e.new_hash f.client_id
      by_command Request.failed = named _ λ hash q h. put s.memory hash _ h
      by_command requeue = named _ λ hash q h. guarded 16 _ _ unchanged (put s.memory hash _ h)
      by_command update_m = guarded 16 _ _ unchanged (named _ λ hash q h. put s.memory hash _ h)
      by_command update_q = named _ λ hash q h. guarded 1 _ _ unchanged (
          configure-SameElse s k f.queue_name e.new_hash hash q (net_config_from_be_bytes f.payload)
            h)
      by_command net_stats = unchanged

handle_frame-SameElse :
    (s : Server) (k : IsConsistent s) (f : Frame) (e : Surroundings)
    → SameElse s (handle_frame s f e).0 f.queue_name e.new_hash
unfolding handle_frame
handle_frame-SameElse s k f e =
    let r = run_command-SameElse (observed s e) (memory-IsConsistent s _ k) f e in
    record { names = r.names; queues = r.queues }

-- On a consistent server, with a uuid for a new queue under which there is none, a request leaves
-- the queues of all names but its own as they were, and their names as well.
pub handle_frame-get_queue :
    (s : Server) (k : IsConsistent s) (f : Frame) (e : Surroundings) (n : Name)
    → queue_at e.new_hash s ≡ none
    → f.queue_name ≢ n
    → get_queue (handle_frame s f e).0 n ≡ get_queue s n
unfolding get_queue
handle_frame-get_queue s k f e n fresh d = elim (Option-cases (hash_of n s)) [
  | inl g ↦ rw ((handle_frame-SameElse s k f e).names n d, g, get_queue)
  | inr (hash, g) ↦
      let kept : queue_at hash (handle_frame s f e).0 ≡ queue_at hash s =
        (handle_frame-SameElse s k f e).queues hash (λ z. d (k.apart f.queue_name n hash z g))
          (λ z. let there = k.named n hash g in ground arith) in
      rw ((handle_frame-SameElse s k f e).names n d, g, get_queue, kept)
]
