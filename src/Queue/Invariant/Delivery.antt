-- ===== src/Queue/Invariant/Delivery.antt =====
-- net/queue.rs: `enqueue` and `lock_to_read`, for the well-formedness of a queue.
use native.Mathlib.Decide.{ℕ_discrete}
use rust_data_broker.Prelude.{
  ℕ, ◌≡◌, refl, ◌≢◌, ◌∙◌, inl, inr, Option, some, none, List, arith, Option-cases, Bool-cases,
  first, last, after, is_empty,
}
use rust_data_broker.Dict.{lookup-insert_ne, insert-IsUnique}
use rust_data_broker.Queue.Message.{QueueMessage, new_message, lock, is_locked}
use rust_data_broker.Queue.State.{Queue, message}
use rust_data_broker.Queue.Ops.{
  next_enqueue_id, or_id, enqueue, advance, mark_locked, take_lock, read_message, lock_to_read,
}
use rust_data_broker.Queue.Order.{All-append_one, find_nonzero-ne-zero, not-contains-append}
use rust_data_broker.Queue.Invariant.Parts.{
  ids_of, Covers-append, Covers-insert, HeldBy-unlocked, HeldBy-take, ZeroFree-insert,
}
use rust_data_broker.Queue.Invariant.{Inv, IsWord, end_of_queue-Inv, id-ne-zero}

pub next_enqueue_id-ne-zero : (order : List ℕ) → next_enqueue_id order ≢ 0
unfolding next_enqueue_id
next_enqueue_id-ne-zero order = elim (Option-cases (last order)) [
  | inl e ↦ λ z. ground arith
  | inr (l, e) ↦ λ z. ground arith
]

pub next_enqueue_id-IsWord : (order : List ℕ) → IsWord (next_enqueue_id order)
unfolding next_enqueue_id
next_enqueue_id-IsWord order = elim (Option-cases (last order)) [
  | inl e ↦ rw (e, next_enqueue_id) (omega arith)
  | inr (l, e) ↦ ground arith
]

pub enqueue-Inv :
    (q : Queue) (payload : List ℕ) (publisher_id now : ℕ)
    → Inv q
    → Inv (enqueue q payload publisher_id now).0
unfolding enqueue new_message
enqueue-Inv q payload publisher_id now v = record {
  covers = Covers-append q.order q.queue v.covers id msg;
  positive =
      lookup-insert_ne ℕ_discrete id 0 msg q.queue (next_enqueue_id-ne-zero q.order) ∙ v.positive;
  held = HeldBy-unlocked q.queue q.locked v.held id msg refl;
  zero_free = v.zero_free;
  next = starts_positive q.next_id v.next;
  unique = insert-IsUnique ℕ_discrete id msg q.queue v.unique;
  words = All-append_one IsWord q.order id v.words (next_enqueue_id-IsWord q.order);
}
  where
    id : ℕ
    id = next_enqueue_id q.order

    msg : QueueMessage
    msg = new_message payload publisher_id now

    starts_positive : (o : Option ℕ) → o ≢ some 0 → or_id o id ≢ some 0
    starts_positive none h = λ e. ground (arith, next_enqueue_id-ne-zero q.order)
    starts_positive (some n) h = h

pub advance-ne-zero : (order : List ℕ) (n : ℕ) → advance order n ≢ some 0
unfolding advance
advance-ne-zero order n = elim (Option-cases (first (after n order))) [
  | inl e ↦ rw (e, advance) (λ h. cc)
  | inr (id, e) ↦ λ h. ground (arith, find_nonzero-ne-zero order)
]

pub mark_locked-Inv :
    (q : Queue) (c n : ℕ) (m : QueueMessage)
    → Inv q
    → message n q ≡ some m
    → Inv (mark_locked q c n m)
unfolding mark_locked lock
mark_locked-Inv q c n m v here = record {
  covers = Covers-insert q.order q.queue v.covers n taken (v.covers n m here);
  positive = lookup-insert_ne ℕ_discrete n 0 taken q.queue positive ∙ v.positive;
  held = HeldBy-take q.queue q.locked v.held n c taken refl;
  zero_free =
      ZeroFree-insert q.locked c _ v.zero_free
        (not-contains-append 0 n (ids_of c q.locked) (v.zero_free c) positive);
  next = advance-ne-zero q.order n;
  unique = insert-IsUnique ℕ_discrete n taken q.queue v.unique;
  words = v.words;
}
  where
    taken : QueueMessage
    taken = lock m c

    positive : n ≢ 0
    positive = id-ne-zero q n v here

pub take_lock-Inv :
    (q : Queue) (c n : ℕ) (m : QueueMessage)
    → Inv q
    → message n q ≡ some m
    → Inv (take_lock q c n m)
unfolding take_lock
take_lock-Inv q c n m v here =
    end_of_queue-Inv (mark_locked q c n m) (mark_locked-Inv q c n m v here)

read_message-Inv : (q : Queue) (c n : ℕ) → Inv q → Inv (read_message q c n).0
unfolding read_message
read_message-Inv q c n v = elim (Option-cases (message n q)) [
  | inl e ↦ rw (e, read_message) v
  | inr (m, e) ↦ elim (Bool-cases (is_locked m)) [
    | inl l ↦ rw (e, read_message, l) v
    | inr l ↦ rw (e, read_message, l) (take_lock-Inv q c n m v e)
  ]
]

pub lock_to_read-Inv : (q : Queue) (c : ℕ) → Inv q → Inv (lock_to_read q c).0
unfolding lock_to_read
lock_to_read-Inv q c v = elim (Option-cases q.next_id) [
  | inl e ↦ rw (e, lock_to_read) v
  | inr (n, e) ↦ elim (Bool-cases (is_empty q.order)) [
    | inl l ↦ rw (e, lock_to_read, l) v
    | inr l ↦ rw (e, lock_to_read, l) (read_message-Inv q c n v)
  ]
]
