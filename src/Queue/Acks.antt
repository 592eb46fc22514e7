-- ===== src/Queue/Acks.antt =====
-- net/queue.rs: what `Queue::dequeue` does to the messages and to the locks, on each path.
use mathlib.Core.Option
use native.Mathlib.Decide.{ℕ_discrete}
use rust_data_broker.Prelude.{
  ℕ, ◌≡◌, refl, ap, subst, ◌≢◌, ◌∙◌, inl, inr, false, Option, some, none, List, [], ◌∷◌, arith, ok,
  panic, Option-cases, Bool-cases, contains, is_empty, length,
}
use rust_data_broker.Dict
use rust_data_broker.Dict.{
  Dict, lookup-remove_self, lookup-remove_ne, lookup-insert_self, lookup-insert_ne,
}
use rust_data_broker.Queue.Message.{QueueMessage}
use rust_data_broker.Queue.State.{Queue, message, locked_ids, remove_zeroes}
use rust_data_broker.Queue.Order.{erase, remove_at-erase, position_of_contains}
use rust_data_broker.Queue.Ops.{
  clear_order, erase_message, drop_lock, dequeue_id, dequeue_held, dequeue_first, dequeue,
}

-- The message `id` is gone, and every other is what it was.
pub record Removed (q r : Queue) (id : ℕ) : Type 0 where
  pub gone : message id r ≡ none
  pub others : (j : ℕ) → id ≢ j → message j r ≡ message j q

Removed-of : (q r : Queue) (id : ℕ) → r.queue ≡ Dict.remove ℕ_discrete id q.queue → Removed q r id
Removed-of q r id e = record {
  gone = rw e (lookup-remove_self ℕ_discrete id q.queue);
  others = λ j d. rw e (lookup-remove_ne ℕ_discrete id j q.queue d);
}

clear_order-queue : (q : Queue) (m : ℕ) → (clear_order q m).queue ≡ q.queue
unfolding clear_order
clear_order-queue q m = ground arith

drop_lock-queue : (q : Queue) (c m : ℕ) → (drop_lock q c m).0.queue ≡ q.queue
unfolding drop_lock remove_zeroes
drop_lock-queue q c m = ground arith

-- The error after `contains` is never returned.
drop_lock-ok : (q : Queue) (c m : ℕ) → (drop_lock q c m).1 ≡ ok tt
unfolding drop_lock
drop_lock-ok q c m = elim (Option-cases (locked_ids c q)) [
  | inl e ↦ rw (e, drop_lock)
  | inr (ids, e) ↦ elim (Bool-cases (contains m ids)) [
    | inr h ↦ rw (e, drop_lock, h)
    | inl h ↦ let (i, p) = position_of_contains m ids h in rw (e, drop_lock, h, p)
  ]
]

abbrev pub Locks : Type 0
Locks = Dict ℕ (List ℕ)

-- The lists of the clients: that of `c` is `ids`, the others are what they were.
pub record Holds (old new : Locks) (c : ℕ) (ids : Option (List ℕ)) : Type 0 where
  pub own : Dict.lookup ℕ_discrete c new ≡ ids
  pub others : (d : ℕ) → c ≢ d → Dict.lookup ℕ_discrete d new ≡ Dict.lookup ℕ_discrete d old

Holds-insert :
    (locked : Locks) (c : ℕ) (ids : List ℕ)
    → Holds locked (Dict.insert ℕ_discrete c ids locked) c (some ids)
Holds-insert locked c ids = record {
  own = lookup-insert_self ℕ_discrete c ids locked;
  others = λ d n. lookup-insert_ne ℕ_discrete c d ids locked n;
}

erase_absent : (m : ℕ) (xs : List ℕ) → contains m xs ≡ false → erase m xs ≡ xs
unfolding erase
erase_absent m [] h = refl
erase_absent m (x ∷ xs) h = ground (arith, erase_absent m xs)

drop_lock-Holds :
    (q : Queue) (c m : ℕ)
    → Holds q.locked (drop_lock q c m).0.locked c (Option.map (erase m) (locked_ids c q))
unfolding drop_lock remove_zeroes
drop_lock-Holds q c m = elim (Option-cases (locked_ids c q)) [
  | inl e ↦ rw (e, drop_lock) (record { own = e; others = λ d n. refl })
  | inr (ids, e) ↦ elim (Bool-cases (contains m ids)) [
    | inr h ↦
        rw (e, drop_lock, h) (record { own = rw (e, erase_absent m ids h); others = λ d n. refl })
    | inl h ↦
        let (i, p) = position_of_contains m ids h in
        rw (e, drop_lock, h, p, remove_at-erase m ids p) (Holds-insert q.locked c (erase m ids))
  ]
]

pub clear_order-locked : (q : Queue) (m : ℕ) → (clear_order q m).locked ≡ q.locked
unfolding clear_order
clear_order-locked q m = ground arith

pub dequeue-id :
    (q : Queue) (c m : ℕ) (msg : QueueMessage)
    → is_empty q.order ≡ false
    → message m q ≡ some msg
    → dequeue q c (some m) ≡ dequeue_id q c m msg
unfolding dequeue
dequeue-id q c m msg h e = rw (h, e, dequeue)

pub dequeue_id-queue :
    (q : Queue) (c m : ℕ) (msg : QueueMessage)
    → (dequeue_id q c m msg).0.queue ≡ Dict.remove ℕ_discrete m q.queue
unfolding dequeue_id erase_message
dequeue_id-queue q c m msg =
    drop_lock-queue (erase_message (clear_order q m) m) c m
    ∙ ap (Dict.remove ℕ_discrete m) (clear_order-queue q m)

pub dequeue_id-ok :
    (q : Queue) (c m : ℕ) (msg : QueueMessage) → (dequeue_id q c m msg).1 ≡ ok (length msg.payload)
unfolding dequeue_id
dequeue_id-ok q c m msg = rw (drop_lock-ok (erase_message (clear_order q m) m) c m)

-- Every client may delete a message of a queue with a non-empty order by its id: the answer is the length of the payload, the message
-- is gone, no other message changes, and the id leaves the client's own list and no other.
pub dequeue_by_id :
    (q : Queue) (c m : ℕ) (msg : QueueMessage)
    → is_empty q.order ≡ false
    → message m q ≡ some msg
    → let r = dequeue q c (some m) in
      (r.1 ≡ ok (length msg.payload))
      × Removed q r.0 m
      × Holds q.locked r.0.locked c (Option.map (erase m) (locked_ids c q))
unfolding dequeue erase_message
dequeue_by_id q c m msg h e =
    rw (h, e, dequeue)
      (
        rw (drop_lock-ok erased c m),
        Removed-of q _ m
            (drop_lock-queue erased c m ∙ ap (Dict.remove ℕ_discrete m) (clear_order-queue q m)),
        subst
            (λ l.
              Holds l (drop_lock erased c m).0.locked c
                (Option.map (erase m) (Dict.lookup ℕ_discrete c l)))
            (clear_order-locked q m) (drop_lock-Holds erased c m),
      )
  where
    erased : Queue
    erased = erase_message (clear_order q m) m

-- No id, or one under which there is no message.
abbrev pub Unnamed : Queue → Option ℕ → Type 0
Unnamed q message_id = (m : ℕ) → message_id ≡ some m → message m q ≡ none

pub dequeue-first :
    (q : Queue) (c : ℕ) (message_id : Option ℕ)
    → is_empty q.order ≡ false
    → Unnamed q message_id
    → dequeue q c message_id ≡ dequeue_first q c
unfolding dequeue
dequeue-first q c none h u = rw h
dequeue-first q c (some m) h u = rw (h, u m refl, dequeue)

module _ (q : Queue) (c : ℕ) (message_id : Option ℕ) (id : ℕ) (ids : List ℕ)
    (full : is_empty q.order ≡ false) (unnamed : Unnamed q message_id)
    (holds : locked_ids c q ≡ some (id ∷ ids)) where
  -- Without an id, or with one under which there is no message, `dequeue` on a non-empty order
  -- acknowledges the first message that the client holds, if it is in the queue: it leaves the queue
  -- and the client's list, no other message and no other list changes, and the answer is the length
  -- of its payload.
  pub dequeue_acknowledges :
      (msg : QueueMessage)
      → message id q ≡ some msg
      → let r = dequeue q c message_id in
        (r.1 ≡ ok (length msg.payload)) × Removed q r.0 id × Holds q.locked r.0.locked c (some ids)
  unfolding dequeue_first dequeue_held remove_zeroes
  dequeue_acknowledges msg e =
      rw (dequeue-first q c message_id full unnamed, holds, dequeue_first)
        (rw e, Removed-of q _ id refl, Holds-insert q.locked c ids)

  -- Without an id, or with one under which there is no message, `dequeue` on a non-empty order panics
  -- where there is no message under the first id that the client holds; that id leaves the client's
  -- list, and no other list changes.
  pub dequeue_panics :
      message id q ≡ none
      → let r = dequeue q c message_id in (r.1 ≡ panic) × Holds q.locked r.0.locked c (some ids)
  unfolding dequeue_first dequeue_held remove_zeroes
  dequeue_panics e =
      rw (dequeue-first q c message_id full unnamed, holds, dequeue_first)
        (rw e, Holds-insert q.locked c ids)
