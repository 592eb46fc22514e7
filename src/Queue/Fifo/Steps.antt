-- ===== src/Queue/Fifo/Steps.antt =====
-- net/queue.rs: `enqueue`, `lock_to_read` and the drain against the list of waiting messages.
use mathlib.Core.List.{append_assoc, map-append}
use native.Mathlib.Decide.{ℕ_discrete}
use rust_data_broker.Prelude.{
  ℕ, ◌+◌, ◌-◌, ◌<◌, ◌≤◌, ◌≡◌, refl, sym, ap, subst, ◌∙◌, inl, inr, false, none, some, List, [], ◌∷◌,
  ◌++◌, arith, All, first, last, contains, ok, err, Option-cases, is_empty,
}
use rust_data_broker.Dict
use rust_data_broker.Dict.{lookup-insert_self, lookup-insert_ne}
use rust_data_broker.Queue.Message.{QueueMessage, new_message, lock, is_locked, get_meta_as_vec}
use rust_data_broker.Queue.State.{Queue, message, queue_is_empty, remove_zeroes, drain_zeroes}
use rust_data_broker.Queue.Ops.{
  u128_mod, next_enqueue_id, or_id, enqueue, advance, end_of_queue, mark_locked, take_lock,
  read_message, lock_to_read,
}
use rust_data_broker.Queue.Invariant.{remove_zeroes-Inv}
use rust_data_broker.Queue.Invariant.Delivery.{enqueue-Inv, mark_locked-Inv}
use rust_data_broker.Queue.Fifo.{Waiting, ids, IsWaiting, Fifo, waiting-Positive}
use rust_data_broker.Queue.Fifo.Rising.{
  Ascends, Positive, Ascends-append, All-le-last, not-contains_above, not-contains_before,
  after-append, All-above, Ascends-drain_zeroes, drain_zeroes-append,
}

-- The last place is not cleared, and there is an id above it.
abbrev pub HasRoom : List ℕ → Type 0
HasRoom order = (l : ℕ) → last order ≡ some l → (0 < l) × (l < u128_mod - 1)

pub last-some : (x : ℕ) (xs : List ℕ) → (l : ℕ) × (last (x ∷ xs) ≡ some l)
last-some x [] = (x, refl)
last-some x (y ∷ xs) = last-some y xs

All-below_suc : (l id : ℕ) (xs : List ℕ) → id ≡ l + 1 → All (λ x. x ≤ l) xs → All (λ x. x < id) xs
All-below_suc l id [] e h = tt
All-below_suc l id (x ∷ xs) e h = (omega arith, All-below_suc l id xs e h.1)

pub next_enqueue_id-suc :
    (order : List ℕ) (l : ℕ)
    → last order ≡ some l
    → l < u128_mod - 1
    → next_enqueue_id order ≡ l + 1
unfolding next_enqueue_id
next_enqueue_id-suc order l e h = ground arith

-- The new id lies above all that were given.
pub next_enqueue_id-above :
    (order : List ℕ)
    → Ascends 0 order
    → HasRoom order
    → All (λ x. x < next_enqueue_id order) order × (0 < next_enqueue_id order)
next_enqueue_id-above [] s room = (tt, unfold next_enqueue_id in omega arith)
next_enqueue_id-above (x ∷ xs) s room =
    let (l, e) = last-some x xs in
    let (low, high) = room l e in
    let (all, _) = All-le-last 0 l (x ∷ xs) s e (omega arith) in
    let new = next_enqueue_id-suc (x ∷ xs) l e high in
    (All-below_suc l (next_enqueue_id (x ∷ xs)) (x ∷ xs) new all, omega arith)

-- A message with another id waits as before.
pub others_wait :
    (q r : Queue) (n : ℕ) (v : QueueMessage) (w : Waiting)
    → r.queue ≡ Dict.insert ℕ_discrete n v q.queue
    → contains n (ids w) ≡ false
    → All (IsWaiting q) w
    → All (IsWaiting r) w
others_wait q r n v [] e f h = tt
others_wait q r n v ((id, m) ∷ w) e f h = (
  (rw e (lookup-insert_ne ℕ_discrete n id v q.queue (λ d. ground arith) ∙ h.0.0), h.0.1),
  others_wait q r n v w e (ground arith) h.1,
)

pub All-join {ℓ} :
    {A : Type ℓ} (P : A → Type 0) (xs : List A) (a : A) → All P xs → P a → All P (xs ++ a ∷ [])
All-join P [] a h p = (p, tt)
All-join P (x ∷ xs) a h p = (h.0, All-join P xs a h.1 p)

All-back : (P : ℕ → Type 0) (xs ys : List ℕ) → All P (xs ++ ys) → All P ys
All-back P [] ys h = h
All-back P (x ∷ xs) ys h = All-back P xs ys h.1

first-append :
    (w : Waiting) (id : ℕ) (m : QueueMessage)
    → or_id (first (ids w)) id ≡ first (ids (w ++ (id, m) ∷ []))
first-append [] id m = refl
first-append (e ∷ w) id m = refl

-- On a queue that is a first-in first-out list, where the last place of the order is neither cleared
-- nor the greatest u128, `enqueue` adds its message, unlocked and under the id
-- `next_enqueue_id`, behind the waiting ones, and the result is such a list again.
pub enqueue-Fifo :
    (q : Queue) (payload : List ℕ) (publisher_id now : ℕ) (done : List ℕ) (w : Waiting)
    → Fifo q done w
    → HasRoom q.order
    → Fifo
        (enqueue q payload publisher_id now).0
        done
        (w ++ (next_enqueue_id q.order, new_message payload publisher_id now) ∷ [])
unfolding enqueue new_message
enqueue-Fifo q payload publisher_id now done w f room = record {
  valid = enqueue-Inv q payload publisher_id now f.valid;
  ascends = Ascends-append 0 id q.order f.ascends above.0 above.1;
  splits =
      ap (λ o. o ++ id ∷ []) f.splits
      ∙ append_assoc done (ids w) (id ∷ [])
      ∙ ap (λ o. done ++ o) (sym (map-append (λ (e : ℕ × QueueMessage). e.0) w ((id, m) ∷ [])));
  next = rw f.next (first-append w id m);
  unlocked =
      All-join (IsWaiting (enqueue q payload publisher_id now).0) w (id, m)
        (others_wait q (enqueue q payload publisher_id now).0 id m w refl
          (not-contains_above id (ids w)
            (All-back (λ x. x < id) done (ids w) (subst (All (λ x. x < id)) f.splits above.0)))
          f.unlocked)
        (lookup-insert_self ℕ_discrete id m q.queue, refl);
}
  where
    id : ℕ
    id = next_enqueue_id q.order

    m : QueueMessage
    m = new_message payload publisher_id now

    above : All (λ x. x < id) q.order × (0 < id)
    above = next_enqueue_id-above q.order f.ascends room

pub after_first :
    (q : Queue) (n : ℕ) (m : QueueMessage) (done : List ℕ) (w : Waiting)
    → Fifo q done ((n, m) ∷ w)
    → (contains n done ≡ false) × (0 < n) × Ascends n (ids w) × Positive (ids w)
after_first q n m done w f =
    let positive = waiting-Positive q ((n, m) ∷ w) f.valid f.unlocked in
    let (fresh, up, rest) =
      not-contains_before 0 n done (ids w) (subst (Ascends 0) f.splits f.ascends) positive.0 in
    (fresh, positive.0, rest, positive.1)

advance-first :
    (order done : List ℕ) (n : ℕ) (w : Waiting)
    → order ≡ done ++ n ∷ ids w
    → contains n done ≡ false
    → Positive (ids w)
    → advance order n ≡ first (ids w)
unfolding advance
advance-first order done n [] e fresh p = rw (e, after-append n done [] fresh, advance)
advance-first order done n ((id, m) ∷ w) e fresh p =
    rw (e, after-append n done (id ∷ ids w) fresh, advance) (ground arith)

-- The drain takes no waiting id.
pub remove_zeroes-Fifo :
    (q : Queue) (done : List ℕ) (w : Waiting)
    → Fifo q done w
    → (done' : List ℕ) × Fifo (remove_zeroes q) done' w
unfolding remove_zeroes
remove_zeroes-Fifo q done w f =
    let (done', e) = drain_zeroes-append done (ids w) (waiting-Positive q w f.valid f.unlocked) in
    (
      done',
      record {
        valid = remove_zeroes-Inv q f.valid;
        ascends = Ascends-drain_zeroes 0 q.order f.ascends;
        splits = ap drain_zeroes f.splits ∙ e;
        next = f.next;
        unlocked = f.unlocked;
      },
    )

end_of_queue-Fifo :
    (q : Queue) (done : List ℕ) (w : Waiting)
    → Fifo q done w
    → (done' : List ℕ) × Fifo (end_of_queue q) done' w
unfolding end_of_queue
end_of_queue-Fifo q done w f = elim (Option-cases q.next_id) [
  | inl e ↦ rw (e, end_of_queue) (remove_zeroes-Fifo q done w f)
  | inr (n, e) ↦ rw (e, end_of_queue) (done, f)
]

pub not-contains_below : (n : ℕ) (xs : List ℕ) → All (λ x. n < x) xs → contains n xs ≡ false
not-contains_below n [] h = refl
not-contains_below n (x ∷ xs) h = ground (arith, not-contains_below n xs h.1)

mark_locked-Fifo :
    (q : Queue) (c n : ℕ) (m : QueueMessage) (done : List ℕ) (w : Waiting)
    → Fifo q done ((n, m) ∷ w)
    → Fifo (mark_locked q c n m) (done ++ n ∷ []) w
unfolding mark_locked
mark_locked-Fifo q c n m done w f =
    let (fresh, low, rest, positive) = after_first q n m done w f in
    record {
      valid = mark_locked-Inv q c n m f.valid f.unlocked.0.0;
      ascends = f.ascends;
      splits = f.splits ∙ sym (append_assoc done (n ∷ []) (ids w));
      next = advance-first q.order done n w f.splits fresh positive;
      unlocked =
          others_wait q (mark_locked q c n m) n (lock m c) w refl
            (not-contains_below n (ids w) (All-above n (ids w) rest positive)) f.unlocked.1;
    }

pub full :
    (q : Queue) (done : List ℕ) (n : ℕ) (w : Waiting)
    → q.order ≡ done ++ n ∷ ids w
    → is_empty q.order ≡ false
full q [] n w e = rw e
full q (x ∷ done) n w e = rw e

-- The guards of `lock_to_read` let an unlocked message through.
lock_to_read_free :
    (q : Queue) (c n : ℕ) (m : QueueMessage)
    → q.next_id ≡ some n
    → is_empty q.order ≡ false
    → message n q ≡ some m
    → m.locked_by ≡ none
    → lock_to_read q c ≡ (take_lock q c n m, ok (get_meta_as_vec n (lock m c) ++ m.payload, some n))
unfolding lock_to_read read_message is_locked
lock_to_read_free q c n m e h here free = rw (e, lock_to_read, h, here, read_message, free)

-- On a queue that is a first-in first-out list, `lock_to_read` hands the first waiting message to
-- the client, as the bytes of its meta data (which name the client) and its payload, with its id; the
-- others wait in the same order.
pub lock_to_read-Fifo :
    (q : Queue) (c n : ℕ) (m : QueueMessage) (done : List ℕ) (w : Waiting)
    → Fifo q done ((n, m) ∷ w)
    → (done' : List ℕ) × (lock_to_read q c
        ≡ (take_lock q c n m, ok (get_meta_as_vec n (lock m c) ++ m.payload, some n)))
      × Fifo (take_lock q c n m) done' w
lock_to_read-Fifo q c n m done w f =
    let (done', f') =
      end_of_queue-Fifo (mark_locked q c n m) (done ++ n ∷ []) w
        (mark_locked-Fifo q c n m done w f) in
    (
      done',
      lock_to_read_free q c n m f.next (full q done n w f.splits) f.unlocked.0.0 f.unlocked.0.1,
      unfold take_lock in f',
    )

-- Where no message waits, a reader is told that the queue is empty, and nothing changes.
pub lock_to_read-none :
    (q : Queue) (c : ℕ) → q.next_id ≡ none → lock_to_read q c ≡ (q, err queue_is_empty)
unfolding lock_to_read
lock_to_read-none q c e = ground arith
