-- ===== src/Queue/Fifo/Held.antt =====
-- net/queue.rs: the messages that each client holds, in the order in which it got them.
use mathlib.Core.List.{map-append}
use mathlib.Core.Logic.{ite, if_pos, if_neg}
use native.Mathlib.Decide.{ℕ_discrete}
use rust_data_broker.Prelude.{
  ℕ, ◌≡◌, ◌≢◌, refl, sym, ap, subst, ◌∙◌, inl, inr, false, none, some, List, [], ◌∷◌, ◌++◌, arith,
  All, contains, Option-cases, Bool-cases, ◌==◌, err, is_empty,
}
use rust_data_broker.Dict
use rust_data_broker.Dict.{lookup-insert_self, lookup-insert_ne, lookup-remove_ne}
use rust_data_broker.Queue.Message.{QueueMessage, lock}
use rust_data_broker.Queue.State.{
  Queue, QueueError, queue_is_empty, not_locked_by_client, no_such_message_id_locked, message,
  locked_ids, new_queue, remove_zeroes,
}
use rust_data_broker.Queue.Ops.{
  next_enqueue_id, ids_or_new, enqueue, mark_locked, take_lock, dequeue_held, dequeue_first,
  dequeue,
}
use rust_data_broker.Queue.Reads.{end_of_queue-queue}
use rust_data_broker.Queue.Fifo.{Waiting, ids, Fifo}
use rust_data_broker.Queue.Fifo.Steps.{HasRoom, next_enqueue_id-above, All-join}
use rust_data_broker.Queue.Fifo.Rising.{not-contains_above}

-- The clients' messages.
abbrev pub Holdings : Type 0
Holdings = ℕ → Waiting

abbrev pub set_held : Holdings → ℕ → Waiting → Holdings
set_held h c w d = ite (ℕ_discrete c d) w (h d)

abbrev pub none_held : Holdings
none_held c = []

abbrev IsHeld : Queue → ℕ → ℕ × QueueMessage → Type 0
IsHeld q c (id, m) = (message id q ≡ some m) × (m.locked_by ≡ some c)

abbrev IsDistinct : List ℕ → Type 0
IsDistinct [] = Unit {0}
IsDistinct (x ∷ xs) = (contains x xs ≡ false) × IsDistinct xs

-- The list of a client is that of these messages, each of them locked by it.
pub record HoldsOf (q : Queue) (c : ℕ) (w : Waiting) : Type 0 where
  pub lists : ids_or_new (locked_ids c q) ≡ ids w
  pub present : All (IsHeld q c) w
  pub once : IsDistinct (ids w)

abbrev pub Holding : Queue → Holdings → Type 0
Holding q h = (c : ℕ) → HoldsOf q c (h c)

IsHeld-on :
    (q r : Queue) (c n : ℕ) (w : Waiting)
    → ((id : ℕ) → n ≢ id → message id r ≡ message id q)
    → contains n (ids w) ≡ false
    → All (IsHeld q c) w
    → All (IsHeld r c) w
IsHeld-on q r c n [] same fresh h = tt
IsHeld-on q r c n ((id, m) ∷ w) same fresh h =
    ((same id (λ e. ground arith) ∙ h.0.0, h.0.1), IsHeld-on q r c n w same (ground arith) h.1)

not-contains_held :
    (q : Queue) (c n : ℕ) (w : Waiting)
    → ((m : QueueMessage) → message n q ≡ some m → m.locked_by ≢ some c)
    → All (IsHeld q c) w
    → contains n (ids w) ≡ false
not-contains_held q c n [] free h = refl
not-contains_held q c n ((id, m) ∷ w) free h = elim (ℕ_discrete id n) [
  | yes e ↦ absurd (free m (rw (← e) h.0.0) h.0.1)
  | no e ↦ ground (arith, not-contains_held q c n w free h.1)
]

IsDistinct-append :
    (n : ℕ) (xs : List ℕ) → contains n xs ≡ false → IsDistinct xs → IsDistinct (xs ++ n ∷ [])
IsDistinct-append n [] fresh h = (refl, tt)
IsDistinct-append n (x ∷ xs) fresh h =
    (other x n xs (ground arith) h.0, IsDistinct-append n xs (ground arith) h.1)
  where
    other :
        (x n : ℕ) (xs : List ℕ)
        → (n == x) ≡ false
        → contains x xs ≡ false
        → contains x (xs ++ n ∷ []) ≡ false
    other x n [] d h = ground arith
    other x n (y ∷ ys) d h = ground (arith, other x n ys d)

-- Only the messages and the lists count.
HoldsOf-same :
    (q r : Queue) (c : ℕ) (w : Waiting)
    → r.queue ≡ q.queue
    → locked_ids c r ≡ locked_ids c q
    → HoldsOf q c w
    → HoldsOf r c w
HoldsOf-same q r c w messages locks v = record {
  lists = ap ids_or_new locks ∙ v.lists;
  present =
      subst (λ d. All (λ e. (Dict.lookup ℕ_discrete e.0 d ≡ some e.1) × (e.1.locked_by ≡ some c)) w)
        (sym messages) v.present;
  once = v.once;
}

pub Holding-same :
    (q r : Queue) (h : Holdings)
    → r.queue ≡ q.queue
    → r.locked ≡ q.locked
    → Holding q h
    → Holding r h
Holding-same q r h messages locks v c =
    HoldsOf-same q r c (h c) messages (ap (Dict.lookup ℕ_discrete c) locks) (v c)

-- A message that the client does not hold comes, changes or goes.
HoldsOf-else :
    (q r : Queue) (c n : ℕ) (w : Waiting)
    → ((id : ℕ) → n ≢ id → message id r ≡ message id q)
    → locked_ids c r ≡ locked_ids c q
    → ((m : QueueMessage) → message n q ≡ some m → m.locked_by ≢ some c)
    → HoldsOf q c w
    → HoldsOf r c w
HoldsOf-else q r c n w same locks free v = record {
  lists = ap ids_or_new locks ∙ v.lists;
  present = IsHeld-on q r c n w same (not-contains_held q c n w free v.present) v.present;
  once = v.once;
}

set_held-Holding :
    (r : Queue) (h : Holdings) (c : ℕ) (w : Waiting)
    → HoldsOf r c w
    → ((d : ℕ) → c ≢ d → HoldsOf r d (h d))
    → Holding r (set_held h c w)
set_held-Holding r h c w own others d = elim (ℕ_discrete c d) [
  | yes e ↦ rw (if_pos _ e) (subst (λ x. HoldsOf r x w) e own)
  | no e ↦ rw (if_neg _ e) (others d e)
]

pub new_queue-Holding : Holding new_queue none_held
unfolding new_queue Dict.lookup
new_queue-Holding c = record { lists = refl; present = tt; once = tt }

pub enqueue-Holding :
    (q : Queue) (payload : List ℕ) (publisher_id now : ℕ) (h : Holdings)
    → message (next_enqueue_id q.order) q ≡ none
    → Holding q h
    → Holding (enqueue q payload publisher_id now).0 h
unfolding enqueue
enqueue-Holding q payload publisher_id now h new v c =
    HoldsOf-else q (enqueue q payload publisher_id now).0 c (next_enqueue_id q.order) (h c)
      (λ id d. lookup-insert_ne ℕ_discrete (next_enqueue_id q.order) id _ q.queue d) refl
      (λ m e. absurd (let z = sym new ∙ e in cc)) (v c)

-- No message has the id that `enqueue` gives.
pub next_enqueue_id-new :
    (q : Queue) (done : List ℕ) (w : Waiting)
    → Fifo q done w
    → HasRoom q.order
    → message (next_enqueue_id q.order) q ≡ none
next_enqueue_id-new q done w f room =
    let n : ℕ = next_enqueue_id q.order in
    let above = next_enqueue_id-above q.order f.ascends room in
    let fresh = not-contains_above n q.order above.0 in
    elim (Option-cases (message n q)) [
      | inl e ↦ e
      | inr (m, e) ↦ absurd (let z = f.valid.covers n m e in ground arith)
    ]

-- The client gets an unlocked message.
module _ (q : Queue) (c n : ℕ) (m : QueueMessage) (h : Holdings) (v : Holding q h)
    (here : message n q ≡ some m) (free : m.locked_by ≡ none) where
  not_held : (d : ℕ) (x : QueueMessage) → message n q ≡ some x → x.locked_by ≢ some d
  not_held d x e own = let same = sym e ∙ here in absurd (ground arith)

  marked_others : (id : ℕ) → n ≢ id → message id (mark_locked q c n m) ≡ message id q
  unfolding mark_locked
  marked_others id d = lookup-insert_ne ℕ_discrete n id _ q.queue d

  marked_own : HoldsOf (mark_locked q c n m) c (h c ++ (n, lock m c) ∷ [])
  unfolding mark_locked lock
  marked_own =
      let fresh = not-contains_held q c n (h c) (not_held c) (v c).present in
      let joined = map-append (λ (e : ℕ × QueueMessage). e.0) (h c) ((n, lock m c) ∷ []) in
      record {
        lists =
            ap ids_or_new (lookup-insert_self ℕ_discrete c _ q.locked)
            ∙ ap (λ l. l ++ n ∷ []) (v c).lists
            ∙ sym joined;
        present =
            All-join (IsHeld (mark_locked q c n m) c) (h c) (n, lock m c)
              (IsHeld-on q (mark_locked q c n m) c n (h c) marked_others fresh (v c).present)
              (lookup-insert_self ℕ_discrete n (lock m c) q.queue, refl);
        once = subst IsDistinct (sym joined) (IsDistinct-append n (ids (h c)) fresh (v c).once);
      }

  mark_locked-Holding : Holding (mark_locked q c n m) (set_held h c (h c ++ (n, lock m c) ∷ []))
  unfolding mark_locked
  mark_locked-Holding = set_held-Holding (mark_locked q c n m) h c _ marked_own λ d other.
      HoldsOf-else q (mark_locked q c n m) d n (h d) marked_others
        (lookup-insert_ne ℕ_discrete c d _ q.locked other) (not_held d) (v d)

  pub take_lock-Holding : Holding (take_lock q c n m) (set_held h c (h c ++ (n, lock m c) ∷ []))
  unfolding take_lock
  take_lock-Holding =
      let (messages, locks) = end_of_queue-queue (mark_locked q c n m) in
      Holding-same (mark_locked q c n m) (take_lock q c n m) _ messages locks mark_locked-Holding

-- The client acknowledges its first message.
module _ (q : Queue) (c id : ℕ) (m : QueueMessage) (w : Waiting) (h : Holdings) (v : Holding q h)
    (mine : h c ≡ (id, m) ∷ w) where
  own_first : HoldsOf q c ((id, m) ∷ w)
  own_first = subst (HoldsOf q c) mine (v c)

  pub first_listed : locked_ids c q ≡ some (id ∷ ids w)
  first_listed = elim (Option-cases (locked_ids c q)) [
    | inl e ↦ let l = own_first.lists in absurd (ground arith)
    | inr (l, e) ↦ let same = own_first.lists in ground arith
  ]

  pub first_present : (message id q ≡ some m) × (m.locked_by ≡ some c)
  first_present = own_first.present.0

  removed_others : (i : ℕ) → id ≢ i → message i (dequeue_held q c (id ∷ ids w)).0 ≡ message i q
  unfolding dequeue_held remove_zeroes
  removed_others i d = lookup-remove_ne ℕ_discrete id i q.queue d

  rest_held : HoldsOf (dequeue_held q c (id ∷ ids w)).0 c w
  unfolding dequeue_held remove_zeroes
  rest_held = record {
    lists = ap ids_or_new (lookup-insert_self ℕ_discrete c (ids w) q.locked);
    present =
        IsHeld-on q (dequeue_held q c (id ∷ ids w)).0 c id w removed_others own_first.once.0
          own_first.present.1;
    once = own_first.once.1;
  }

  pub dequeue_held-Holding : Holding (dequeue_held q c (id ∷ ids w)).0 (set_held h c w)
  unfolding dequeue_held remove_zeroes
  dequeue_held-Holding =
      set_held-Holding (dequeue_held q c (id ∷ ids w)).0 h c w rest_held λ d other.
        HoldsOf-else q (dequeue_held q c (id ∷ ids w)).0 d id (h d) removed_others
          (lookup-insert_ne ℕ_discrete c d _ q.locked other)
          (λ x e own.
            let (here, by) = first_present in
            let same = sym e ∙ here in absurd (other (ground arith)))
          (v d)

dequeue_held-none :
    (q : Queue) (c : ℕ) (held : List ℕ)
    → held ≡ []
    → dequeue_held q c held ≡ (q, err no_such_message_id_locked)
unfolding dequeue_held
dequeue_held-none q c [] h = refl
dequeue_held-none q c (id ∷ held) h = cc

-- A client without a message gets an error, whichever of the three.
pub dequeue-none :
    (q : Queue) (c : ℕ)
    → ids_or_new (locked_ids c q) ≡ []
    → (e : QueueError) × (dequeue q c none ≡ (q, err e))
unfolding dequeue dequeue_first dequeue_held
dequeue-none q c h = elim (Bool-cases (is_empty q.order)) [
  | inl z ↦ (queue_is_empty, rw (z, dequeue) refl)
  | inr z ↦ elim (Option-cases (locked_ids c q)) [
    | inl l ↦ (not_locked_by_client, rw (z, dequeue, l, dequeue_first) refl)
    | inr (held, l) ↦ (
      no_such_message_id_locked,
      rw (z, dequeue, l, dequeue_first) (dequeue_held-none q c held (ap ids_or_new (sym l) ∙ h)),
    )
  ]
]
