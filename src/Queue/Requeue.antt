-- ===== src/Queue/Requeue.antt =====
-- net/queue.rs: `Queue::requeue`.
use native.Mathlib.Decide.{ℕ_discrete}
use rust_data_broker.Prelude.{
  ℕ, ◌≡◌, refl, sym, ◌≢◌, ◌∙◌, false, some, none, List, [], ◌∷◌, ◌++◌, arith, ok, is_empty,
}
use rust_data_broker.Dict
use rust_data_broker.Dict.{
  lookup-remove_self, lookup-remove_ne, lookup-insert_self, lookup-insert_ne, remove-insert_self,
}
use rust_data_broker.Queue.Message.{QueueMessage, new_message}
use rust_data_broker.Queue.State.{Queue, message}
use rust_data_broker.Queue.Ops.{next_enqueue_id, enqueue}
use rust_data_broker.Queue.Locks.{requeue}
use rust_data_broker.Queue.Acks.{dequeue-id, dequeue_id-queue, dequeue_id-ok}

append-is_empty : (xs : List ℕ) (x : ℕ) → is_empty (xs ++ x ∷ []) ≡ false
append-is_empty [] x = refl
append-is_empty (y ∷ xs) x = refl

module _ (q : Queue) (c id now : ℕ) (m : QueueMessage) (full : is_empty q.order ≡ false)
    (here : message id q ≡ some m) where
  -- The state between the two calls.
  abbrev pub enqueued : Queue
  enqueued = (enqueue q m.payload m.publisher_id now).0

  pub requeue-ok-queue :
      (m' : QueueMessage)
      → message id enqueued ≡ some m'
      → ((requeue q c id now).1 ≡ ok tt)
        × ((requeue q c id now).0.queue ≡ Dict.remove ℕ_discrete id enqueued.queue)
  unfolding requeue
  requeue-ok-queue m' e =
      rw
        (
          full,
          here,
          requeue,
          dequeue-id enqueued c id m' (unfold enqueue in append-is_empty q.order _) e,
        )
        (rw (dequeue_id-ok enqueued c id m'), dequeue_id-queue enqueued c id m')

  -- Where the order is not empty, the message is in the queue and no message has the new id, `requeue`
  -- succeeds: the message stands under the new id with
  -- its payload and publisher, the time of the call and no lock, its old id is free, and the map of
  -- the messages changes by that insertion and that removal alone.
  pub requeue_moves :
      message (next_enqueue_id q.order) q ≡ none
      → let r = requeue q c id now in
        let moved = new_message m.payload m.publisher_id now in
        (r.1 ≡ ok tt)
        × (message (next_enqueue_id q.order) r.0 ≡ some moved)
        × (message id r.0 ≡ none)
        × (r.0.queue
            ≡ Dict.remove ℕ_discrete id
                (Dict.insert ℕ_discrete (next_enqueue_id q.order) moved q.queue))
  unfolding enqueue
  requeue_moves free = (
    answer.0,
    rw answer.1 (
        lookup-remove_ne ℕ_discrete id k _ (λ e. fresh (sym e))
        ∙ lookup-insert_self ℕ_discrete k _ q.queue),
    rw answer.1 (lookup-remove_self ℕ_discrete id _),
    answer.1,
  )
    where
      k : ℕ
      k = next_enqueue_id q.order

      fresh : k ≢ id
      fresh = λ e. ground arith

      answer :
          ((requeue q c id now).1 ≡ ok tt)
          × ((requeue q c id now).0.queue ≡ Dict.remove ℕ_discrete id enqueued.queue)
      answer = requeue-ok-queue m (lookup-insert_ne ℕ_discrete k id _ q.queue fresh ∙ here)
