-- ===== src/Queue/Fifo/Returns.antt =====
-- net/queue.rs: `unlock` and `dequeue` against the list of waiting messages.
use native.Mathlib.Decide.{ℕ_discrete}
use rust_data_broker.Prelude.{
  ℕ, ◌<◌, ◌≡◌, refl, sym, ap, subst, ◌∙◌, inl, inr, true, false, none, some, List, [], ◌∷◌, ◌++◌,
  arith, All, first, contains, ok, Option-cases, Bool-cases, is_empty, length, ◌==◌,
}
use rust_data_broker.Dict
use rust_data_broker.Dict.{lookup-insert_self, lookup-insert_ne, lookup-remove_ne}
use rust_data_broker.Queue.Message.{QueueMessage, lock}
use rust_data_broker.Queue.Message
use rust_data_broker.Queue.State.{Queue, message, locked_ids, remove_zeroes, drain_zeroes}
use rust_data_broker.Queue.Ops.{
  ids_or_new, end_of_queue, mark_locked, take_lock, lock_to_read, dequeue_held, dequeue_first,
  dequeue,
}
use rust_data_broker.Queue.Locks.{back_to, unlock_in, unlock_id, unlock_held, unlock}
use rust_data_broker.Queue.Order.{clear, zero_out-clear, position_of_contains, contains-append_self}
use rust_data_broker.Queue.Invariant.Release.{unlock-Inv}
use rust_data_broker.Queue.Invariant.Removal.{dequeue-Inv}
use rust_data_broker.Queue.Acks.{dequeue-first}
use rust_data_broker.Queue.Reads.{end_of_queue-queue}
use rust_data_broker.Queue.Fifo.{Waiting, ids, IsWaiting, Fifo, waiting-Positive}
use rust_data_broker.Queue.Fifo.Rising.{
  Ascends, Ascends-mono, Ascends-drain_zeroes, drain_zeroes-append, All-above,
}
use rust_data_broker.Queue.Fifo.Steps.{
  others_wait, after_first, full, not-contains_below, lock_to_read-Fifo,
}

-- What `unlock` does with the id of a message that the client holds.
module _ (r : Queue) (c n : ℕ) (held : List ℕ) (msg : QueueMessage)
    (some_order : is_empty r.order ≡ false) (mine : locked_ids c r ≡ some held)
    (among : contains n held ≡ true) (here : message n r ≡ some msg) where
  unlock-held :
      let u = unlock r c (some n) in
      (u.1 ≡ ok tt)
      × (u.0.order ≡ r.order)
      × (u.0.queue ≡ Dict.insert ℕ_discrete n (Message.unlock msg) r.queue)
      × (u.0.next_id ≡ back_to n r.next_id)
  unfolding unlock unlock_held unlock_id unlock_in
  unlock-held =
      let (i, p) = position_of_contains n held among in
      rw (some_order, mine, unlock, among, unlock_held, p, unlock_id)
        (refl, refl, rw (here, unlock_in), refl)

unlock-lock : (m : QueueMessage) (c : ℕ) → m.locked_by ≡ none → Message.unlock (lock m c) ≡ m
unfolding Message.unlock lock
unlock-lock m c e = ap (λ l. record m { locked_by = l }) (sym e)

-- The order after a read: the message that was handed out comes right before those that wait.
take_lock-splits :
    (q : Queue) (c n : ℕ) (m : QueueMessage) (done : List ℕ) (w : Waiting)
    → Fifo q done ((n, m) ∷ w)
    → (done' : List ℕ) × ((take_lock q c n m).order ≡ done' ++ n ∷ ids w)
unfolding take_lock end_of_queue mark_locked remove_zeroes
take_lock-splits q c n m done w f =
    let (done', e) =
      drain_zeroes-append done (n ∷ ids w) (waiting-Positive q ((n, m) ∷ w) f.valid f.unlocked) in
    elim (Option-cases (mark_locked q c n m).next_id) [
      | inl z ↦ (done', rw (z, end_of_queue) (ap drain_zeroes f.splits ∙ e))
      | inr (k, z) ↦ (done, rw (z, end_of_queue) f.splits)
    ]

back_to-first :
    (n : ℕ) (w : Waiting) → All (λ x. n < x) (ids w) → back_to n (first (ids w)) ≡ some n
back_to-first n [] h = refl
back_to-first n ((id, m) ∷ w) h = ground arith

given_back :
    (q : Queue) (c n : ℕ) (m : QueueMessage) (done : List ℕ) (w : Waiting)
    → Fifo q done ((n, m) ∷ w)
    → let u = unlock (take_lock q c n m) c (some n) in
      (done' : List ℕ) × (u.1 ≡ ok tt) × Fifo u.0 done' ((n, m) ∷ w)
unfolding take_lock mark_locked
given_back q c n m done w f =
    let (done', splits) = take_lock-splits q c n m done w f in
    let (_, _, after) = lock_to_read-Fifo q c n m done w f in
    let (_, low, rest, positive) = after_first q n m done w f in
    let (messages, locks) = end_of_queue-queue (mark_locked q c n m) in
    let above = All-above n (ids w) rest positive in
    let r : Queue = take_lock q c n m in
    let (answer, order, queue, next) =
      unlock-held r c n (ids_or_new (locked_ids c q) ++ n ∷ []) (lock m c) (full r done' n w splits)
        (ap (Dict.lookup ℕ_discrete c) locks ∙ lookup-insert_self ℕ_discrete c _ q.locked)
        (contains-append_self n (ids_or_new (locked_ids c q)))
        (rw messages (lookup-insert_self ℕ_discrete n (lock m c) q.queue)) in
    (
      done',
      answer,
      record {
        valid = unlock-Inv r c (some n) after.valid;
        ascends = subst (Ascends 0) (sym order) after.ascends;
        splits = order ∙ splits;
        next = next ∙ ap (back_to n) after.next ∙ back_to-first n w above;
        unlocked = (
          (
            rw queue (
                lookup-insert_self ℕ_discrete n _ r.queue
                ∙ ap some (unlock-lock m c f.unlocked.0.1)),
            f.unlocked.0.1,
          ),
          others_wait r (unlock r c (some n)).0 n (Message.unlock (lock m c)) w queue
              (not-contains_below n (ids w) above) after.unlocked,
        );
      },
    )

-- On a queue that is a first-in first-out list, a reader who gives back, by its id, the message that
-- it has just got is answered with success, and the queue is again the list with that message, not
-- locked, in front.
pub unlock-Fifo :
    (q : Queue) (c n : ℕ) (m : QueueMessage) (done : List ℕ) (w : Waiting)
    → Fifo q done ((n, m) ∷ w)
    → let u = unlock (lock_to_read q c).0 c (some n) in
      (done' : List ℕ) × (u.1 ≡ ok tt) × Fifo u.0 done' ((n, m) ∷ w)
unlock-Fifo q c n m done w f =
    let (_, answer, after) = lock_to_read-Fifo q c n m done w f in rw answer back
  where
    r : Queue
    r = take_lock q c n m

    back :
        (done' : List ℕ) × ((unlock r c (some n)).1 ≡ ok tt)
        × Fifo (unlock r c (some n)).0 done' ((n, m) ∷ w)
    back = given_back q c n m done w f

Ascends-clear : (b m : ℕ) (xs : List ℕ) → Ascends b xs → Ascends b (clear m xs)
unfolding clear
Ascends-clear b m [] s = s
Ascends-clear b m (x ∷ xs) (inl (z, s)) = elim (Bool-cases (x == m)) [
  | inl e ↦ rw e (inl (refl, s))
  | inr e ↦ rw e (inl (z, Ascends-clear b m xs s))
]
Ascends-clear b m (x ∷ xs) (inr (u, s)) = elim (Bool-cases (x == m)) [
  | inl e ↦ rw e (inl (refl, Ascends-mono b x xs (omega arith) s))
  | inr e ↦ rw e (inr (u, Ascends-clear x m xs s))
]

clear-append :
    (m : ℕ) (xs ys : List ℕ) → contains m ys ≡ false → clear m (xs ++ ys) ≡ clear m xs ++ ys
unfolding clear
clear-append m [] [] h = refl
clear-append m [] (y ∷ ys) h = ground (arith, clear-append m [] ys)
clear-append m (x ∷ xs) ys h = ground (arith, clear-append m xs ys h)

not-contains_waiting :
    (q : Queue) (id c : ℕ) (msg : QueueMessage) (w : Waiting)
    → message id q ≡ some msg
    → msg.locked_by ≡ some c
    → All (IsWaiting q) w
    → contains id (ids w) ≡ false
not-contains_waiting q id c msg [] here l h = refl
not-contains_waiting q id c msg ((n, m) ∷ w) here l h =
    ground (arith, not-contains_waiting q id c msg w here l h.1)

wait_on :
    (q r : Queue) (id : ℕ) (w : Waiting)
    → r.queue ≡ Dict.remove ℕ_discrete id q.queue
    → contains id (ids w) ≡ false
    → All (IsWaiting q) w
    → All (IsWaiting r) w
wait_on q r id [] e f h = tt
wait_on q r id ((n, m) ∷ w) e f h = (
  (rw e (lookup-remove_ne ℕ_discrete id n q.queue (λ d. ground arith) ∙ h.0.0), h.0.1),
  wait_on q r id w e (ground arith) h.1,
)

some_order : (order : List ℕ) (id : ℕ) → contains id order ≡ true → is_empty order ≡ false
some_order [] id h = cc
some_order (x ∷ xs) id h = refl

pub dequeue_held-order :
    (q : Queue) (c id : ℕ) (held : List ℕ)
    → (dequeue_held q c (id ∷ held)).0.order ≡ drain_zeroes (clear id q.order)
unfolding dequeue_held remove_zeroes
dequeue_held-order q c id held = ap drain_zeroes (zero_out-clear id q.order)

-- The guards of `dequeue` let the client with a message through.
pub dequeue-dequeue_held :
    (q : Queue) (c id : ℕ) (held : List ℕ) (msg : QueueMessage) (done : List ℕ) (w : Waiting)
    → Fifo q done w
    → locked_ids c q ≡ some (id ∷ held)
    → message id q ≡ some msg
    → dequeue q c none ≡ dequeue_held q c (id ∷ held)
unfolding dequeue_first
dequeue-dequeue_held q c id held msg done w f mine here =
    dequeue-first q c none (some_order q.order id (f.valid.covers id msg here)) (λ n e. cc)
    ∙ rw (mine, dequeue_first)

-- On a queue that is a first-in first-out list, a client whose first id is that of a message locked
-- by it acknowledges this message without an id: the queue is the list of the same waiting messages.
pub dequeue-Fifo :
    (q : Queue) (c id : ℕ) (held : List ℕ) (msg : QueueMessage) (done : List ℕ) (w : Waiting)
    → Fifo q done w
    → locked_ids c q ≡ some (id ∷ held)
    → message id q ≡ some msg
    → msg.locked_by ≡ some c
    → let r = dequeue q c none in
      (done' : List ℕ) × (r.1 ≡ ok (length msg.payload)) × Fifo r.0 done' w
unfolding dequeue_first dequeue_held remove_zeroes
dequeue-Fifo q c id held msg done w f mine here own =
    let fresh = not-contains_waiting q id c msg w here own f.unlocked in
    let (done', e) =
      drain_zeroes-append (clear id done) (ids w) (waiting-Positive q w f.valid f.unlocked) in
    let opens = dequeue-dequeue_held q c id held msg done w f mine here in
    let order = ap (λ r. r.0.order) opens ∙ dequeue_held-order q c id held in
    (
      done',
      rw opens (rw here),
      record {
        valid = dequeue-Inv q c none f.valid;
        ascends =
            subst (Ascends 0) (sym order)
              (Ascends-drain_zeroes 0 _ (Ascends-clear 0 id q.order f.ascends));
        splits =
            order
            ∙ ap (λ o. drain_zeroes (clear id o)) f.splits
            ∙ ap drain_zeroes (clear-append id done (ids w) fresh)
            ∙ e;
        next = rw opens f.next;
        unlocked = wait_on q (dequeue q c none).0 id w (rw opens refl) fresh f.unlocked;
      },
    )
