-- ===== src/Queue/Faults.antt =====
-- net/queue.rs: calls at the edges of `enqueue`, `dequeue` and `requeue`.
use native.Mathlib.Decide.{ℕ_discrete}
use rust_data_broker.Prelude.{
  subst, err, ap, true, ℕ, ◌≡◌, refl, sym, ◌≢◌, ◌∙◌, inl, inr, false, some, none, List, [], ◌∷◌,
  arith, ok, panic, Option-cases, position, contains, is_empty, set, last,
}
use rust_data_broker.Dict
use rust_data_broker.Dict.{
  lookup-remove_self, lookup-remove_ne, lookup-insert_self, lookup-insert_ne, length-insert_present,
  remove-insert_self,
}
use rust_data_broker.Queue.Message.{QueueMessage, new_message}
use rust_data_broker.Queue.State.{
  no_such_message_id, drain_zeroes, remove_zeroes, Queue, message, locked_ids,
}
use rust_data_broker.Queue.Ops.{
  dequeue_held, dequeue_first, lock_to_read, read_message, zero_out, ids_or_new, next_enqueue_id,
  enqueue, clear_order, erase_message, drop_lock, dequeue_id, dequeue,
}
use rust_data_broker.Queue.Locks.{requeue, get_total_messages}
use rust_data_broker.Queue.Requeue.{requeue-ok-queue}
use rust_data_broker.Queue.Acks.{
  dequeue-first, clear_order-locked, dequeue-id, dequeue_by_id, dequeue_panics,
}
use rust_data_broker.Queue.Order.{contains-drain_zeroes, contains-clear, zero_out-clear}

set-is_empty : (xs : List ℕ) (i v : ℕ) → is_empty (set xs i v) ≡ is_empty xs
set-is_empty [] i v = refl
set-is_empty (x ∷ xs) ℕ.zero v = refl
set-is_empty (x ∷ xs) (ℕ.suc i) v = refl

clear_order-is_empty : (q : Queue) (m : ℕ) → is_empty (clear_order q m).order ≡ is_empty q.order
unfolding clear_order
clear_order-is_empty q m = elim (Option-cases (position m q.order)) [
  | inl e ↦ rw (e, clear_order)
  | inr (i, e) ↦ rw (e, clear_order) (set-is_empty q.order i 0)
]

drop_lock_free :
    (q : Queue) (d m : ℕ)
    → contains m (ids_or_new (locked_ids d q)) ≡ false
    → drop_lock q d m ≡ (q, ok tt)
unfolding drop_lock
drop_lock_free q d m h = elim (Option-cases (locked_ids d q)) [
  | inl e ↦ rw (e, drop_lock)
  | inr (ids, e) ↦ ground arith
]

-- A client that does not hold the message leaves the order as long as it was.
dequeue_id-is_empty :
    (q : Queue) (d m : ℕ) (msg : QueueMessage)
    → contains m (ids_or_new (locked_ids d q)) ≡ false
    → is_empty (dequeue_id q d m msg).0.order ≡ is_empty q.order
unfolding dequeue_id erase_message
dequeue_id-is_empty q d m msg h =
    rw (drop_lock_free (erase_message (clear_order q m) m) d m (rw (clear_order-locked q m) h))
      (clear_order-is_empty q m)

-- On a queue with a non-empty order, a client deletes, by its id, the message that another client
-- holds first and that it does not hold itself. The acknowledgement of the holder then panics.
pub delete_then_acknowledge :
    (q : Queue) (c d m : ℕ) (ids : List ℕ) (msg : QueueMessage)
    → is_empty q.order ≡ false
    → message m q ≡ some msg
    → locked_ids c q ≡ some (m ∷ ids)
    → c ≢ d
    → contains m (ids_or_new (locked_ids d q)) ≡ false
    → (dequeue (dequeue q d (some m)).0 c none).1 ≡ panic
delete_then_acknowledge q c d m ids msg full here holds other free =
    let (_, removed, held) = dequeue_by_id q d m msg full here in
    (dequeue_panics (dequeue q d (some m)).0 c none m ids
      (rw (dequeue-id q d m msg full here) (dequeue_id-is_empty q d m msg free ∙ full))
      (λ n e. absurd (ground arith)) (held.others c (λ e. other (sym e)) ∙ holds) removed.gone).0

next_enqueue_id_cleared : (order : List ℕ) → last order ≡ some 0 → next_enqueue_id order ≡ 1
unfolding next_enqueue_id
next_enqueue_id_cleared order e = rw (e, next_enqueue_id)

-- Where the last place of the order is cleared and there is a message 1, `enqueue` replaces it by the
-- new message, and the number of messages stays the same.
pub enqueue_overwrites :
    (q : Queue) (payload : List ℕ) (publisher_id now : ℕ) (m : QueueMessage)
    → last q.order ≡ some 0
    → message 1 q ≡ some m
    → let r = (enqueue q payload publisher_id now).0 in
      (message 1 r ≡ some (new_message payload publisher_id now))
      × (get_total_messages r ≡ get_total_messages q)
unfolding enqueue get_total_messages
enqueue_overwrites q payload publisher_id now m e here = rw (next_enqueue_id_cleared q.order e) (
  lookup-insert_self ℕ_discrete 1 (new_message payload publisher_id now) q.queue,
  length-insert_present ℕ_discrete 1 (new_message payload publisher_id now) q.queue m here,
)

full_of_last : (order : List ℕ) → last order ≡ some 0 → is_empty order ≡ false
full_of_last [] e = cc
full_of_last (x ∷ xs) e = refl

-- Where the last place of the order is cleared and there is a message 1, `requeue` of it answers with
-- success, and the map of the messages is the old one without the message 1.
pub requeue_loses :
    (q : Queue) (c now : ℕ) (m : QueueMessage)
    → last q.order ≡ some 0
    → message 1 q ≡ some m
    → ((requeue q c 1 now).1 ≡ ok tt)
      × ((requeue q c 1 now).0.queue ≡ Dict.remove ℕ_discrete 1 q.queue)
unfolding enqueue
requeue_loses q c now m e here =
    let (answer, left) =
      requeue-ok-queue q c 1 now m (full_of_last q.order e) here
        (new_message m.payload m.publisher_id now)
        (rw (next_enqueue_id_cleared q.order e) (lookup-insert_self ℕ_discrete 1 _ q.queue)) in
    (
      answer,
      left ∙ rw (next_enqueue_id_cleared q.order e) (remove-insert_self ℕ_discrete 1 _ q.queue),
    )

full_of : (order : List ℕ) (j : ℕ) → contains j order ≡ true → is_empty order ≡ false
full_of [] j h = cc
full_of (x ∷ xs) j h = refl

lock_to_read_missing :
    (r : Queue) (d id : ℕ)
    → r.next_id ≡ some id
    → is_empty r.order ≡ false
    → message id r ≡ none
    → lock_to_read r d ≡ (r, err no_such_message_id)
unfolding lock_to_read read_message
lock_to_read_missing r d id next h gone = ground arith

-- A client acknowledges, without an id, the message that it holds first, while `next_id` names this
-- message and another id stands in the order. Every reader is then told that there is no such message,
-- and nothing changes.
pub acknowledge_strands :
    (q : Queue) (c d id j : ℕ) (ids : List ℕ)
    → q.next_id ≡ some id
    → locked_ids c q ≡ some (id ∷ ids)
    → contains j q.order ≡ true
    → j ≢ 0
    → id ≢ j
    → let r = (dequeue q c none).0 in lock_to_read r d ≡ (r, err no_such_message_id)
unfolding dequeue_first dequeue_held remove_zeroes
acknowledge_strands q c d id j ids next holds other positive apart =
    let opens : dequeue q c none ≡ dequeue_held q c (id ∷ ids) =
      dequeue-first q c none (full_of q.order j other) (λ n e. cc) ∙ rw (holds, dequeue_first) in
    subst (λ x. lock_to_read x.0 d ≡ (x.0, err no_such_message_id)) (sym opens)
      (lock_to_read_missing (dequeue_held q c (id ∷ ids)).0 d id next
        (full_of (drain_zeroes (zero_out id q.order)) j (
          contains-drain_zeroes j (zero_out id q.order) positive
          ∙ ap (contains j) (zero_out-clear id q.order)
          ∙ contains-clear j id q.order apart other))
        (lookup-remove_self ℕ_discrete id q.queue))
