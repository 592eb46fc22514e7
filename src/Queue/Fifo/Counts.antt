-- ===== src/Queue/Fifo/Counts.antt =====
-- net/queue.rs: the id that `enqueue` gives, while the last place of `order` is not cleared.
use rust_data_broker.Prelude.{
  ℕ, ◌+◌, ◌<◌, ◌≡◌, ◌≢◌, refl, sym, ap, ◌∙◌, inl, inr, none, some, List, [], ◌∷◌, ◌++◌, arith, last,
  last-append, drop, Option-cases,
}
use rust_data_broker.Queue.Message.{QueueMessage}
use rust_data_broker.Queue.State.{Queue, new_queue, drain_zeroes, remove_zeroes, position_nonzero}
use rust_data_broker.Queue.Ops.{
  u128_mod, next_enqueue_id, enqueue, end_of_queue, mark_locked, take_lock, dequeue_held,
}
use rust_data_broker.Queue.Order.{clear}
use rust_data_broker.Queue.Fifo.{Waiting, Fifo}
use rust_data_broker.Queue.Fifo.Steps.{
  HasRoom, next_enqueue_id-above, next_enqueue_id-suc, last-some,
}
use rust_data_broker.Queue.Fifo.Returns.{dequeue_held-order}

last-drop :
    (l k : ℕ) (xs : List ℕ)
    → last xs ≡ some l
    → l ≢ 0
    → position_nonzero xs ≡ some k
    → last (drop k xs) ≡ some l
unfolding position_nonzero
last-drop l k [] e d p = cc
last-drop l k (x ∷ []) e d p = ground arith
last-drop l k (x ∷ y ∷ xs) e d p = elim (Option-cases (position_nonzero (y ∷ xs))) [
  | inl z ↦ ground arith
  | inr (i, z) ↦ ground (arith, last-drop l i (y ∷ xs) e d z)
]

last-zero : (l : ℕ) (xs : List ℕ) → last xs ≡ some l → position_nonzero xs ≡ none → l ≡ 0
unfolding position_nonzero
last-zero l [] e p = cc
last-zero l (x ∷ []) e p = ground arith
last-zero l (x ∷ y ∷ xs) e p = elim (Option-cases (position_nonzero (y ∷ xs))) [
  | inl z ↦ last-zero l (y ∷ xs) e z
  | inr (i, z) ↦ ground arith
]

last-drain_zeroes : (xs : List ℕ) → HasRoom xs → last (drain_zeroes xs) ≡ last xs
unfolding drain_zeroes
last-drain_zeroes [] room = refl
last-drain_zeroes (x ∷ xs) room =
    let (l, e) = last-some x xs in
    let (low, _) = room l e in
    elim (Option-cases (position_nonzero (x ∷ xs))) [
      | inl z ↦ absurd (let zero = last-zero l (x ∷ xs) e z in omega arith)
      | inr (k, z) ↦ ground (arith, last-drop l k (x ∷ xs) e (λ h. omega arith) z)
    ]

last-clear : (m l : ℕ) (xs : List ℕ) → last xs ≡ some l → m ≢ l → last (clear m xs) ≡ some l
unfolding clear
last-clear m l [] e d = cc
last-clear m l (x ∷ []) e d = ground arith
last-clear m l (x ∷ y ∷ xs) e d = ground (arith, last-clear m l (y ∷ xs) e d)

next_enqueue_id-by_last : (a b : List ℕ) → last a ≡ last b → next_enqueue_id a ≡ next_enqueue_id b
unfolding next_enqueue_id
next_enqueue_id-by_last a b e = rw (next_enqueue_id, e) refl

-- `k` is the next id.
pub record Counts (q : Queue) (k : ℕ) : Type 0 where
  pub next : next_enqueue_id q.order ≡ k
  pub room : HasRoom q.order

-- The last place is what it was.
Counts-by_last : (q r : Queue) (k : ℕ) → last r.order ≡ last q.order → Counts q k → Counts r k
Counts-by_last q r k e h = record {
  next = next_enqueue_id-by_last r.order q.order e ∙ h.next;
  room = λ l f. h.room l (sym e ∙ f);
}

pub Counts-same : (q r : Queue) (k : ℕ) → r.order ≡ q.order → Counts q k → Counts r k
Counts-same q r k e h = Counts-by_last q r k (ap last e) h

take_lock-last :
    (q : Queue) (c n : ℕ) (m : QueueMessage)
    → HasRoom q.order
    → last (take_lock q c n m).order ≡ last q.order
unfolding take_lock mark_locked end_of_queue remove_zeroes
take_lock-last q c n m room = ground (arith, last-drain_zeroes q.order room)

pub take_lock-Counts :
    (q : Queue) (c n k : ℕ) (m : QueueMessage) → Counts q k → Counts (take_lock q c n m) k
take_lock-Counts q c n k m h =
    Counts-by_last q (take_lock q c n m) k (take_lock-last q c n m h.room) h

pub enqueue-Counts :
    (q : Queue) (payload : List ℕ) (publisher_id now k : ℕ) (done : List ℕ) (w : Waiting)
    → Fifo q done w
    → Counts q k
    → k + 1 < u128_mod
    → Counts (enqueue q payload publisher_id now).0 (k + 1)
unfolding enqueue
enqueue-Counts q payload publisher_id now k done w f c h =
    let (_, low) = next_enqueue_id-above q.order f.ascends c.room in
    let top = last-append q.order (next_enqueue_id q.order) in
    let id : ℕ = next_enqueue_id q.order in
    record {
      next =
          next_enqueue_id-suc (q.order ++ id ∷ []) id top (rw c.next (omega arith))
          ∙ ap (λ n. n + 1) c.next;
      room = λ l e.
          let same : id ≡ l = ground (arith, top) in
          (rw (← same) low, rw (← same, c.next) (omega arith));
    }

-- The newest message is not the one acknowledged.
clear-HasRoom :
    (order : List ℕ) (id : ℕ)
    → HasRoom order
    → id + 1 ≢ next_enqueue_id order
    → (last (clear id order) ≡ last order) × HasRoom (clear id order)
unfolding clear
clear-HasRoom [] id room d = (refl, room)
clear-HasRoom (x ∷ xs) id room d =
    let (l, e) = last-some x xs in
    let (low, high) = room l e in
    let next = next_enqueue_id-suc (x ∷ xs) l e high in
    let kept = last-clear id l (x ∷ xs) e (λ same. d (ap (λ n. n + 1) same ∙ sym next)) in
    (kept ∙ sym e, λ j f. room j (e ∙ sym kept ∙ f))

pub dequeue_held-Counts :
    (q : Queue) (c id k : ℕ) (held : List ℕ)
    → Counts q k
    → id + 1 ≢ k
    → Counts (dequeue_held q c (id ∷ held)).0 k
dequeue_held-Counts q c id k held h d =
    let (same, room) = clear-HasRoom q.order id h.room (λ e. d (e ∙ h.next)) in
    Counts-by_last q _ k
      (ap last (dequeue_held-order q c id held) ∙ last-drain_zeroes (clear id q.order) room ∙ same)
      h

pub new_queue-Counts : Counts new_queue 1
unfolding new_queue next_enqueue_id
new_queue-Counts = record { next = refl; room = λ l e. absurd (ground arith) }
