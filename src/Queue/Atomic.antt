-- ===== src/Queue/Atomic.antt =====
-- net/queue.rs: an operation that answers with an error leaves the queue as it was.
use rust_data_broker.Prelude.{
  ℕ, ◌≡◌, refl, sym, ap, ◌∙◌, inl, inr, false, Option, none, some, List, [], ◌∷◌, ◌++◌, arith,
  Bool-cases, Option-cases, Outcome, ok, err, ◌>>=◌, is_empty,
}
use native.Mathlib.Decide.{ℕ_discrete}
use rust_data_broker.Dict.{lookup-insert_self, lookup-insert_ne}
use rust_data_broker.Queue.Message.{QueueMessage, new_message}
use rust_data_broker.Queue.State.{Queue, QueueError, message}
use rust_data_broker.Queue.Ops.{
  Reply, next_enqueue_id, enqueue, read_message, lock_to_read, dequeue_held, dequeue_first, dequeue,
}
use rust_data_broker.Queue.Locks.{unlock_id, unlock_held, unlock, requeue, update_message}
use rust_data_broker.Queue.Acks.{dequeue-id, dequeue_id-ok}

abbrev pub IsAtomic : {A : Type 0} → Queue → Reply A → Type 0
IsAtomic q r = (e : QueueError) → r.1 ≡ err e → r.0 ≡ q

module _ {A : Type 0} (q : Queue) where
  refused-IsAtomic : (x : QueueError) → IsAtomic {A = A} q (q, err x)
  refused-IsAtomic x = λ e h. refl

  done-IsAtomic : (r : Reply A) (a : A) → r.1 ≡ ok a → IsAtomic q r
  done-IsAtomic r a h = λ e k. absurd (let z : ok a ≡ err e = sym h ∙ k in cc)

pub lock_to_read-IsAtomic : (q : Queue) (c : ℕ) → IsAtomic q (lock_to_read q c)
unfolding lock_to_read read_message
lock_to_read-IsAtomic q c = λ e h. ground arith

pub dequeue-IsAtomic : (q : Queue) (c : ℕ) (id : Option ℕ) → IsAtomic q (dequeue q c id)
unfolding dequeue dequeue_first dequeue_held
dequeue-IsAtomic q c none = λ e h. ground arith
dequeue-IsAtomic q c (some m) = elim (Option-cases (message m q)) [
  | inl g ↦ λ e h. ground arith
  | inr (msg, g) ↦ λ e h. ground (arith, dequeue_id-ok q c m msg)
]

pub unlock-IsAtomic : (q : Queue) (c : ℕ) (id : Option ℕ) → IsAtomic q (unlock q c id)
unfolding unlock unlock_held unlock_id
unlock-IsAtomic q c none = λ e h. ground arith
unlock-IsAtomic q c (some m) = λ e h. ground arith

pub update_message-IsAtomic :
    (q : Queue) (id : ℕ) (payload : List ℕ) → IsAtomic q (update_message q id payload)
unfolding update_message
update_message-IsAtomic q id payload = λ e h. ground arith

is_empty-append : (xs : List ℕ) (x : ℕ) → is_empty (xs ++ x ∷ []) ≡ false
is_empty-append [] x = refl
is_empty-append (y ∷ xs) x = refl

-- A message that is in the queue is in it after `enqueue`, or is the new one.
enqueue-message :
    (q : Queue) (payload : List ℕ) (publisher_id now id : ℕ) (m : QueueMessage)
    → message id q ≡ some m
    → (m' : QueueMessage) × (message id (enqueue q payload publisher_id now).0 ≡ some m')
unfolding enqueue
enqueue-message q payload publisher_id now id m e =
    let new = new_message payload publisher_id now in
    elim (ℕ_discrete (next_enqueue_id q.order) id) [
      | yes same ↦
          (new, rw (← same) (lookup-insert_self ℕ_discrete (next_enqueue_id q.order) new q.queue))
      | no d ↦ (m, lookup-insert_ne ℕ_discrete (next_enqueue_id q.order) id new q.queue d ∙ e)
    ]

requeue-ok :
    (q : Queue) (c id now : ℕ) (m : QueueMessage)
    → is_empty q.order ≡ false
    → message id q ≡ some m
    → (requeue q c id now).1 ≡ ok tt
unfolding requeue enqueue
requeue-ok q c id now m f e =
    let (m', g) = enqueue-message q m.payload m.publisher_id now id m e in
    let after = (enqueue q m.payload m.publisher_id now).0 in
    let opens = dequeue-id after c id m' (is_empty-append q.order (next_enqueue_id q.order)) g in
    rw (f, e, requeue)
      (ap (λ (r : Reply ℕ). r.1 >>= λ _. ok tt) opens
        ∙ ap (λ (o : Outcome QueueError ℕ). o >>= λ _. ok tt) (dequeue_id-ok after c id m'))

pub requeue-IsAtomic : (q : Queue) (c id now : ℕ) → IsAtomic q (requeue q c id now)
unfolding requeue
requeue-IsAtomic q c id now = elim (Option-cases (message id q)) [
  | inl g ↦ λ e h. ground arith
  | inr (m, g) ↦ elim (Bool-cases (is_empty q.order)) [
    | inl f ↦ λ e h. ground arith
    | inr f ↦ λ e h. absurd (let z : ok tt ≡ err e = sym (requeue-ok q c id now m f g) ∙ h in cc)
  ]
]
