-- ===== src/Server/Handlers.antt =====
-- net/server.rs: the task of each request in `read_buffer`, from its parsed frame to its answer.
-- `RequestMessage::new` never fails on a whole frame, so no task answers RequestParseError.
use native.Mathlib.Decide.{ℕ_discrete}
use rust_data_broker.Prelude.{
  ℕ, Option, none, some, List, [], ◌∷◌, ◌++◌, Outcome, ok, err, panic, ltb, leb, ◌==◌, Bool, true,
  false, if◌then◌else◌, take,
}
use rust_data_broker.Dict
use rust_data_broker.Bytes.{from_be_bytes}
use rust_data_broker.Errors.{ErrorCode}
use rust_data_broker.Errors
use rust_data_broker.Memory.{Memory, set_locked_size}
use rust_data_broker.Queue.Message.{MessageMeta, meta_to_be_bytes}
use rust_data_broker.Queue.State.{
  Queue, QueueError, new_queue, no_such_message_id, message_already_locked,
}
use rust_data_broker.Queue.Ops
use rust_data_broker.Queue.Locks
use rust_data_broker.Queue.Payloads.{get_next_biggest_payload}
use rust_data_broker.Server.Frame.{size_factor}
use rust_data_broker.Server.State.{
  Server, Name, Name-discrete, Answer, succeeded, failed, silent, get_queue, put_queue,
}

abbrev pub Handled : Type 0
Handled = Server × Answer

-- The answer where an operation gives nothing back, with the code of its errors.
abbrev pub answer_with : {A : Type 0} → ErrorCode → Outcome QueueError A → Answer
answer_with code (ok a) = succeeded []
answer_with code (err e) = failed code
answer_with code panic = silent

-- A handler that works on one queue.
abbrev pub on_queue : Server → Name → (ℕ → Queue → Handled) → Handled
on_queue s queue_name f = elim (get_queue s queue_name) [
  | ok (hash, q) ↦ f hash q
  | err code ↦ (s, failed code)
  | panic ↦ (s, silent)
]

-- The reply of an operation: the queue goes back into the map.
abbrev pub reply : {A : Type 0} → Server → ℕ → ErrorCode → Queue × Outcome QueueError A → Handled
reply s hash code (q, done) = (put_queue s hash q, answer_with code done)

-- The tail reservation grows with the biggest payload.
unfoldable pub grow_locked_size : Memory → ℕ → Memory
grow_locked_size m size = if ltb m.locked_size size then (set_locked_size m size).0 else m

unfoldable pub handle_enqueue : Server → Name → ℕ → ℕ → List ℕ → ℕ → Handled
unfolding grow_locked_size
handle_enqueue s queue_name client_id payload_size payload now = on_queue s queue_name λ hash q.
    let (q', done) = Ops.enqueue q payload client_id now in
    reply (record s { memory = grow_locked_size s.memory (size_factor payload_size) }) hash
      Errors.queue_is_empty (q', done)

abbrev pub read_error : QueueError → ErrorCode
read_error no_such_message_id = Errors.no_such_message_id
read_error message_already_locked = Errors.message_already_locked
read_error _ = Errors.queue_is_empty

-- The message is written to the socket when it is already locked; a write that fails is answered too.
abbrev pub read_answer : Bool → Outcome QueueError (List ℕ × Option ℕ) → Answer
read_answer true (ok (bytes, id)) = succeeded bytes
read_answer false (ok (bytes, id)) = failed Errors.response_failed_error
read_answer is_written (err e) = failed (read_error e)
read_answer is_written panic = silent

unfoldable pub handle_dequeue : Server → Name → ℕ → Bool → Handled
handle_dequeue s queue_name client_id is_written = on_queue s queue_name λ hash q.
    let (q', answer) = Ops.lock_to_read q client_id in
    (put_queue s hash q', read_answer is_written answer)

-- The delay after which the message that was handed out is given back, if the queue asks for it.
unfoldable pub auto_fail_delay : Queue → Option ℕ
auto_fail_delay q =
    if Locks.get_config_auto_fail q
    then (if Locks.get_config_fail_timeout q == 0
        then none
        else some (Locks.get_config_fail_timeout q))
    else none

-- The end of the task of a Dequeue, after that delay; a queue that was deleted is out of reach.
unfoldable pub auto_unlock : Server → ℕ → ℕ → ℕ → Server
auto_unlock s hash client_id message_id = elim (Dict.lookup ℕ_discrete hash s.queue) [
  | none ↦ s
  | some q ↦
      if Locks.is_locked q client_id message_id
      then put_queue s hash (Locks.unlock q client_id (some message_id)).0
      else s
]

unfoldable pub handle_create_q : Server → Name → ℕ → Handled
unfolding new_queue
handle_create_q s queue_name hash = elim (Dict.lookup Name-discrete queue_name s.queue_names) [
  | some _ ↦ (s, failed Errors.queue_already_exists)
  | none ↦ (
    record s {
      queue = Dict.insert ℕ_discrete hash new_queue s.queue;
      queue_names = Dict.insert Name-discrete queue_name hash s.queue_names;
    },
    succeeded [],
  )
]

unfoldable pub handle_delete_q : Server → Name → Handled
handle_delete_q s queue_name = elim (Dict.lookup Name-discrete queue_name s.queue_names) [
  | none ↦ (s, failed Errors.queue_does_not_exist)
  | some hash ↦ (
    record s {
      queue = Dict.remove ℕ_discrete hash s.queue;
      queue_names = Dict.remove Name-discrete queue_name s.queue_names;
    },
    succeeded [],
  )
]

unfoldable pub metas_to_be_bytes : List MessageMeta → List ℕ
metas_to_be_bytes [] = []
metas_to_be_bytes (m ∷ metas) = meta_to_be_bytes m ++ metas_to_be_bytes metas

unfoldable pub handle_list_m : Server → Name → Handled
unfolding metas_to_be_bytes
handle_list_m s queue_name = elim (get_queue s queue_name) [
  | ok (hash, q) ↦ (s, succeeded (metas_to_be_bytes (Locks.list_messages q)))
  | err _ ↦ (s, failed Errors.queue_hash_not_found)
  | panic ↦ (s, silent)
]

-- The id at the front of the payload.
abbrev pub message_id_of : List ℕ → ℕ
message_id_of payload = from_be_bytes (take 16 payload)

unfoldable pub handle_delete_m : Server → Name → ℕ → ℕ → List ℕ → Handled
handle_delete_m s queue_name client_id payload_size payload = on_queue s queue_name λ hash q.
    if ltb payload_size 16
    then (s, failed Errors.payload_missing_message_id)
    else reply s hash Errors.no_such_message_id
        (Ops.dequeue q client_id (some (message_id_of payload)))

-- The reservation follows the biggest payload when one of its size has left.
unfoldable pub shrink_locked_size : Memory → Queue → ℕ → Memory × Queue
shrink_locked_size m q size =
    if leb m.locked_size (size_factor size)
    then (let (q', answer) = get_next_biggest_payload q in
        elim answer [
          | ok biggest ↦ ((set_locked_size m biggest).0, q')
          | err _ ↦ (m, q')
          | panic ↦ (m, q')
        ])
    else (m, q)

-- `dequeue_message_sent`, with the lock on the queue already taken.
unfoldable pub acknowledge : Server → ℕ → Queue → Queue × Outcome QueueError ℕ → Handled
unfolding shrink_locked_size
acknowledge s hash q (q', ok size) =
    let (memory, q'') = shrink_locked_size s.memory q' size in
    (put_queue (record s { memory = memory }) hash q'', succeeded [])
acknowledge s hash q (q', err e) = (put_queue s hash q', failed Errors.no_such_message_id_locked)
acknowledge s hash q (q', panic) = (put_queue s hash q', silent)

unfoldable pub handle_succeeded : Server → Name → ℕ → Handled
unfolding acknowledge
handle_succeeded s queue_name client_id = elim (get_queue s queue_name) [
  | ok (hash, q) ↦ acknowledge s hash q (Ops.dequeue q client_id none)
  | err _ ↦ (s, failed Errors.no_such_message_id_locked)
  | panic ↦ (s, silent)
]

unfoldable pub handle_failed : Server → Name → ℕ → Handled
handle_failed s queue_name client_id =
    on_queue s queue_name
      λ hash q. reply s hash Errors.message_not_locked_by_client (Locks.unlock q client_id none)
