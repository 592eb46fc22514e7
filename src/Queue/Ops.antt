-- ===== src/Queue/Ops.antt =====
-- net/queue.rs: the operations of `Queue`. Each returns the new state beside its outcome.
use native.Mathlib.Decide.{ℕ_discrete}
use rust_data_broker.Prelude.{
  ℕ, ◌+◌, ◌%◌, ◌^◌, Bool, false, Option, none, some, List, [], ◌∷◌, ◌++◌, ◌==◌, if◌then◌else◌,
  is_empty, first, last, after, position, contains, set, remove_at, length, Outcome, ok, err, panic,
  ◌>>=◌,
}
use rust_data_broker.Dict
use rust_data_broker.Dict.{Dict}
use rust_data_broker.Queue.Message.{QueueMessage, new_message, is_locked, lock, get_meta_as_vec}
use rust_data_broker.Queue.State.{
  Queue, QueueError, queue_is_empty, no_such_message_id, message_already_locked,
  no_such_message_id_locked, not_locked_by_client, message, locked_ids, find_nonzero, remove_zeroes,
}

abbrev pub Reply : Type 0 → Type 0
Reply A = Queue × Outcome QueueError A

abbrev pub u128_mod : ℕ
u128_mod = 2 ^ 128

-- The id after the last one in `order`; it wraps, and skips 0.
unfoldable pub next_enqueue_id : List ℕ → ℕ
next_enqueue_id order = elim (last order) [
  | none ↦ 1
  | some l ↦ let id = (l + 1) % u128_mod in if id == 0 then 1 else id
]

abbrev pub or_id : Option ℕ → ℕ → Option ℕ
or_id none id = some id
or_id (some n) id = some n

unfoldable pub enqueue : Queue → List ℕ → ℕ → ℕ → Reply (Unit {0})
unfolding next_enqueue_id
enqueue q payload publisher_id now =
    let id = next_enqueue_id q.order in
    (
      record q {
        order = q.order ++ id ∷ [];
        queue = Dict.insert ℕ_discrete id (new_message payload publisher_id now) q.queue;
        next_id = or_id q.next_id id;
      },
      ok tt,
    )

-- What follows `n` in the order. After a 0 the search starts again at the front.
unfoldable pub advance : List ℕ → ℕ → Option ℕ
advance order n = elim (first (after n order)) [
  | none ↦ none
  | some id ↦ if id == 0 then find_nonzero order else some id
]

unfoldable pub end_of_queue : Queue → Queue
end_of_queue q = elim q.next_id [ none ↦ remove_zeroes q | some _ ↦ q ]

abbrev pub ids_or_new : Option (List ℕ) → List ℕ
ids_or_new none = []
ids_or_new (some ids) = ids

-- The message and the client's list are marked, and `next_id` moves on.
unfoldable pub mark_locked : Queue → ℕ → ℕ → QueueMessage → Queue
unfolding advance
mark_locked q client_id n m = record q {
  queue = Dict.insert ℕ_discrete n (lock m client_id) q.queue;
  locked =
      Dict.insert ℕ_discrete client_id (ids_or_new (locked_ids client_id q) ++ n ∷ []) q.locked;
  next_id = advance q.order n;
}

unfoldable pub take_lock : Queue → ℕ → ℕ → QueueMessage → Queue
unfolding mark_locked end_of_queue
take_lock q client_id n m = end_of_queue (mark_locked q client_id n m)

-- The guards of `lock_to_read` on the message `n` that `next_id` names.
unfoldable pub read_message : Queue → ℕ → ℕ → Reply (List ℕ × Option ℕ)
unfolding take_lock
read_message q client_id n = elim (message n q) [
  | none ↦ (q, err no_such_message_id)
  | some m ↦ if is_locked m then (q, err message_already_locked) else (
    take_lock q client_id n m,
    ok (get_meta_as_vec n (lock m client_id) ++ m.payload, some n),
  )
]

unfoldable pub lock_to_read : Queue → ℕ → Reply (List ℕ × Option ℕ)
unfolding read_message
lock_to_read q client_id = elim q.next_id [
  | none ↦ (q, err queue_is_empty)
  | some n ↦ if is_empty q.order then (q, err queue_is_empty) else read_message q client_id n
]

abbrev pub eq_id : Option ℕ → ℕ → Bool
eq_id none n = false
eq_id (some a) n = a == n

-- `next_id` moves past the message `m`, which is to go, and off a 0.
unfoldable pub pass_over : Option ℕ → List ℕ → ℕ → Option ℕ
pass_over next_id order m = if eq_id next_id m then first (after m order) else next_id

unfoldable pub off_zero : Option ℕ → List ℕ → Option ℕ
off_zero next_id order = if eq_id next_id 0 then find_nonzero order else next_id

unfoldable pub clear_order : Queue → ℕ → Queue
unfolding pass_over off_zero
clear_order q m = elim (position m q.order) [
  | none ↦ q
  | some i ↦
      let order = set q.order i 0 in
      record q { order = order; next_id = off_zero (pass_over q.next_id q.order m) order }
]

unfoldable pub drop_lock : Queue → ℕ → ℕ → Reply (Unit {0})
drop_lock q client_id m = elim (locked_ids client_id q) [
  | none ↦ (q, ok tt)
  | some ids ↦
      if contains m ids
      then elim (position m ids) [
        | none ↦ (q, err no_such_message_id)
        | some i ↦ (
          remove_zeroes
              (record q { locked = Dict.insert ℕ_discrete client_id (remove_at i ids) q.locked }),
          ok tt,
        )
      ]
      else (q, ok tt)
]

unfoldable pub erase_message : Queue → ℕ → Queue
erase_message q m = record q { queue = Dict.remove ℕ_discrete m q.queue }

-- `dequeue` by the id of a message that is in the queue.
unfoldable pub dequeue_id : Queue → ℕ → ℕ → QueueMessage → Reply ℕ
unfolding clear_order erase_message drop_lock
dequeue_id q client_id m msg =
    let (q', done) = drop_lock (erase_message (clear_order q m) m) client_id m in
    (q', done >>= λ _. ok (length msg.payload))

abbrev pub zero_out : ℕ → List ℕ → List ℕ
zero_out id order = elim (position id order) [ none ↦ order | some i ↦ set order i 0 ]

abbrev pub unwrap_length : Option QueueMessage → Outcome QueueError ℕ
unwrap_length none = panic
unwrap_length (some m) = ok (length m.payload)

-- The client acknowledges the first message that it holds; the `unwrap` comes last.
unfoldable pub dequeue_held : Queue → ℕ → List ℕ → Reply ℕ
dequeue_held q client_id [] = (q, err no_such_message_id_locked)
dequeue_held q client_id (id ∷ ids) = (
  remove_zeroes (record q {
    order = zero_out id q.order;
    queue = Dict.remove ℕ_discrete id q.queue;
    locked = Dict.insert ℕ_discrete client_id ids q.locked;
  }),
  unwrap_length (message id q),
)

unfoldable pub dequeue_first : Queue → ℕ → Reply ℕ
unfolding dequeue_held
dequeue_first q client_id = elim (locked_ids client_id q) [
  | none ↦ (q, err not_locked_by_client)
  | some ids ↦ dequeue_held q client_id ids
]

-- An explicit id that is not in the queue is treated as no id.
unfoldable pub dequeue : Queue → ℕ → Option ℕ → Reply ℕ
unfolding dequeue_id dequeue_first
dequeue q client_id message_id =
    if is_empty q.order then (q, err queue_is_empty) else elim message_id [
      | none ↦ dequeue_first q client_id
      | some m ↦ elim (message m q) [
        | none ↦ dequeue_first q client_id
        | some msg ↦ dequeue_id q client_id m msg
      ]
    ]
