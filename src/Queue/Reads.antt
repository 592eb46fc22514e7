-- ===== src/Queue/Reads.antt =====
-- net/queue.rs: what `lock_to_read` hands out.
use native.Mathlib.Decide.{ℕ_discrete}
use rust_data_broker.Prelude.{
  ℕ, ◌≡◌, refl, sym, ap, subst, Outcome, ◌≢◌, ◌∙◌, inl, inr, true, false, Option, some, none, List,
  [], ◌∷◌, ◌++◌, arith, ok, Option-cases, Bool-cases, contains, is_empty,
}
use rust_data_broker.Dict
use rust_data_broker.Dict.{lookup-insert_self, lookup-insert_ne}
use rust_data_broker.Queue.Message.{QueueMessage, lock, is_locked, get_meta_as_vec}
use rust_data_broker.Queue.State.{Queue, QueueError, message, locked_ids, remove_zeroes}
use rust_data_broker.Queue.Ops.{
  ids_or_new, end_of_queue, mark_locked, take_lock, read_message, lock_to_read,
}
use rust_data_broker.Queue.Locks
use rust_data_broker.Queue.Order.{contains-append_self}

pub end_of_queue-queue :
    (q : Queue) → ((end_of_queue q).queue ≡ q.queue) × ((end_of_queue q).locked ≡ q.locked)
unfolding end_of_queue remove_zeroes
end_of_queue-queue q = ground arith

-- The message `n`, which `r` hands to the client `c` out of `q`.
pub record Handed (q r : Queue) (c n : ℕ) (bytes : List ℕ) : Type 0 where
  pub msg : QueueMessage
  pub next : q.next_id ≡ some n
  pub was : message n q ≡ some msg
  pub free : msg.locked_by ≡ none
  pub content : bytes ≡ get_meta_as_vec n (lock msg c) ++ msg.payload
  pub taken : message n r ≡ some (lock msg c)
  pub held : Locks.is_locked r c n ≡ true
  pub others : (j : ℕ) → n ≢ j → message j r ≡ message j q

not_locked : (m : QueueMessage) → is_locked m ≡ false → m.locked_by ≡ none
unfolding is_locked
not_locked m h = ground arith

is_locked_of :
    (q : Queue) (c n : ℕ) (ids : List ℕ)
    → locked_ids c q ≡ some ids
    → contains n ids ≡ true
    → Locks.is_locked q c n ≡ true
unfolding Locks.is_locked
is_locked_of q c n ids e h = rw (e, Locks.is_locked) h

answer_parts :
    (a b : List ℕ) (i j : Option ℕ)
    → ◌≡◌ {A = Outcome QueueError (List ℕ × Option ℕ)} (ok (a, i)) (ok (b, j))
    → (a ≡ b) × (i ≡ j)
answer_parts a b i j h = ground arith

take_lock-Handed :
    (q : Queue) (c n : ℕ) (m : QueueMessage)
    → q.next_id ≡ some n
    → message n q ≡ some m
    → is_locked m ≡ false
    → Handed q (take_lock q c n m) c n (get_meta_as_vec n (lock m c) ++ m.payload)
unfolding take_lock mark_locked is_locked Locks.is_locked
take_lock-Handed q c n m e here free =
    let (same, locks) = end_of_queue-queue (mark_locked q c n m) in
    record {
      msg = m;
      next = e;
      was = here;
      free = not_locked m free;
      content = refl;
      taken = rw same (lookup-insert_self ℕ_discrete n (lock m c) q.queue);
      held =
          is_locked_of (take_lock q c n m) c n (ids_or_new (locked_ids c q) ++ n ∷ [])
            (ap (Dict.lookup ℕ_discrete c) locks ∙ lookup-insert_self ℕ_discrete c _ q.locked)
            (contains-append_self n (ids_or_new (locked_ids c q)));
      others = λ j d. rw same (lookup-insert_ne ℕ_discrete n j (lock m c) q.queue d);
    }

read_message-Handed :
    (q : Queue) (c n : ℕ) (bytes : List ℕ) (id : Option ℕ)
    → q.next_id ≡ some n
    → (read_message q c n).1 ≡ ok (bytes, id)
    → (id ≡ some n) × Handed q (read_message q c n).0 c n bytes
unfolding read_message
read_message-Handed q c n bytes id e h = elim (Option-cases (message n q)) [
  | inl f ↦ absurd (ground arith)
  | inr (m, f) ↦ elim (Bool-cases (is_locked m)) [
    | inl l ↦ absurd (ground arith)
    | inr l ↦
        let (content, this) = answer_parts _ bytes (some n) id (rw (f, read_message, l) at h) in
        (
          sym this,
          rw (f, read_message, l)
              (subst (Handed q (take_lock q c n m) c n) content (take_lock-Handed q c n m e f l)),
        )
  ]
]

-- A read that succeeds hands out the message that `next_id` names, which no client had locked: the
-- answer is its meta data with the client in it, its payload and its id; it is then locked by the
-- client and in the client's list, and every other message is what it was.
pub lock_to_read-Handed :
    (q : Queue) (c : ℕ) (bytes : List ℕ) (id : Option ℕ)
    → (lock_to_read q c).1 ≡ ok (bytes, id)
    → (n : ℕ) × (id ≡ some n) × Handed q (lock_to_read q c).0 c n bytes
unfolding lock_to_read
lock_to_read-Handed q c bytes id h = elim (Option-cases q.next_id) [
  | inl e ↦ absurd (ground arith)
  | inr (n, e) ↦ elim (Bool-cases (is_empty q.order)) [
    | inl l ↦ absurd (ground arith)
    | inr l ↦
        let opens : lock_to_read q c ≡ read_message q c n = ground arith in
        let (this, given) = read_message-Handed q c n bytes id e (rw opens at h) in
        (n, this, subst (λ r. Handed q r c n bytes) (ap (λ r. r.0) (sym opens)) given)
  ]
]
