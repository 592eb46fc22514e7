-- ===== src/Queue/Fifo/Delivery.antt =====
-- Publishers and readers in any interleaving, against a plain list of waiting messages.
use rust_data_broker.Prelude.{
  ℕ, ◌+◌, ◌-◌, ◌<◌, ◌≡◌, refl, ap, subst, Option, some, List, [], ◌∷◌, ◌++◌, arith, Outcome, ok,
  err,
}
use rust_data_broker.Queue.Message.{new_message, lock, get_meta_as_vec}
use rust_data_broker.Queue.State.{Queue, QueueError, queue_is_empty, new_queue}
use rust_data_broker.Queue.Ops.{u128_mod, enqueue, take_lock, lock_to_read}
use rust_data_broker.Queue.Invariant.{new_queue-Inv}
use rust_data_broker.Queue.Fifo.{Waiting, Fifo}
use rust_data_broker.Queue.Fifo.Steps.{enqueue-Fifo, lock_to_read-Fifo, lock_to_read-none}
use rust_data_broker.Queue.Fifo.Counts.{Counts, enqueue-Counts, take_lock-Counts, new_queue-Counts}

pub data Event : Type 0 where
  publish : (payload : List ℕ) (publisher_id now : ℕ) → Event
  read : (client_id : ℕ) → Event

abbrev pub Delivery : Type 0
Delivery = Outcome QueueError (List ℕ × Option ℕ)

-- What the readers get, one answer for each read.
unfoldable pub deliveries : Queue → List Event → List Delivery
deliveries q [] = []
deliveries q (publish payload publisher_id now ∷ events) =
    deliveries (enqueue q payload publisher_id now).0 events
deliveries q (read c ∷ events) =
    let (q', answer) = lock_to_read q c in answer ∷ deliveries q' events

-- The description: the ids count up from `k`, and a read takes the first of the waiting list.
unfoldable pub list_deliveries : ℕ → Waiting → List Event → List Delivery
list_deliveries k w [] = []
list_deliveries k w (publish payload publisher_id now ∷ events) =
    list_deliveries (k + 1) (w ++ (k, new_message payload publisher_id now) ∷ []) events
list_deliveries k [] (read c ∷ events) = err queue_is_empty ∷ list_deliveries k [] events
list_deliveries k ((n, m) ∷ w) (read c ∷ events) =
    ok (get_meta_as_vec n (lock m c) ++ m.payload, some n) ∷ list_deliveries k w events

unfoldable pub published : List Event → ℕ
published [] = 0
published (publish payload publisher_id now ∷ events) = published events + 1
published (read c ∷ events) = published events

deliveries-list_deliveries :
    (events : List Event) (q : Queue) (k : ℕ) (done : List ℕ) (w : Waiting)
    → Fifo q done w
    → Counts q k
    → k + published events < u128_mod
    → deliveries q events ≡ list_deliveries k w events
unfolding deliveries list_deliveries published
deliveries-list_deliveries [] q k done w f c h = refl
deliveries-list_deliveries (publish payload publisher_id now ∷ events) q k done w f c h =
    let f' = enqueue-Fifo q payload publisher_id now done w f c.room in
    deliveries-list_deliveries events (enqueue q payload publisher_id now).0 (k + 1) done
      (w ++ (k, new_message payload publisher_id now) ∷ [])
      (subst
        (λ id.
          Fifo (enqueue q payload publisher_id now).0 done
            (w ++ (id, new_message payload publisher_id now) ∷ []))
        c.next f')
      (enqueue-Counts q payload publisher_id now k done w f c (omega arith)) (omega arith)
deliveries-list_deliveries (read c ∷ events) q k done [] f h l =
    rw (lock_to_read-none q c f.next)
      (ap (◌∷◌ (err queue_is_empty)) (deliveries-list_deliveries events q k done [] f h l))
deliveries-list_deliveries (read c ∷ events) q k done ((n, m) ∷ w) f h l =
    let (done', answer, f') = lock_to_read-Fifo q c n m done w f in
    rw answer (
      ap (◌∷◌ (ok (get_meta_as_vec n (lock m c) ++ m.payload, some n))) (
        deliveries-list_deliveries events (take_lock q c n m) k done' w f'
          (take_lock-Counts q c n k m h) l))

pub new_queue-Fifo : Fifo new_queue [] []
unfolding new_queue
new_queue-Fifo = record {
  valid = new_queue-Inv;
  ascends = tt;
  splits = refl;
  next = refl;
  unlocked = tt;
}

-- Whatever publishers and readers do on a new queue, in any interleaving with fewer than 2 ^ 128 - 1
-- messages and no acknowledgement, every read gives what a plain list gives: the oldest message that
-- no reader got, under ids that count up from 1, and `queue_is_empty` when there is none.
pub deliveries-new_queue :
    (events : List Event)
    → published events < u128_mod - 1
    → deliveries new_queue events ≡ list_deliveries 1 [] events
deliveries-new_queue events h =
    deliveries-list_deliveries events new_queue 1 [] [] new_queue-Fifo new_queue-Counts
      (omega arith)
