-- ===== src/Queue/Invariant/Removal.antt =====
-- net/queue.rs: the paths of `dequeue`, for the well-formedness of a queue.
use native.Mathlib.Decide.{ℕ_discrete}
use rust_data_broker.Prelude.{
  ℕ, ◌≡◌, ap, ◌≢◌, ◌∙◌, inl, inr, false, Option, some, none, List, [], ◌∷◌, arith, Option-cases,
  Bool-cases, position, contains, is_empty,
}
use rust_data_broker.Dict
use rust_data_broker.Dict.{lookup-remove_self, lookup-remove_ne, remove-IsUnique}
use rust_data_broker.Queue.Message.{QueueMessage}
use rust_data_broker.Queue.State.{Queue, message, locked_ids}
use rust_data_broker.Queue.Ops.{
  ids_or_new, pass_over, off_zero, clear_order, erase_message, drop_lock, dequeue_id, dequeue_held,
  dequeue_first, dequeue,
}
use rust_data_broker.Queue.Order.{
  clear, erase, set-clear, zero_out-clear, remove_at-erase, All-clear, find_nonzero-ne-zero,
  not-contains-erase, position_of_contains,
}
use rust_data_broker.Queue.Invariant.Parts.{
  ids_of, Covers-clear, Covers-remove, HeldBy-remove, HeldBy-release, HeldBy-absent,
  ZeroFree-insert,
}
use rust_data_broker.Queue.Invariant.{Inv, IsWord, remove_zeroes-Inv}

off_zero-ne-zero : (next_id : Option ℕ) (order : List ℕ) → off_zero next_id order ≢ some 0
unfolding off_zero
off_zero-ne-zero none order = λ e. cc
off_zero-ne-zero (some n) order = λ e. ground (arith, find_nonzero-ne-zero order)

remove-positive :
    (q : Queue) (m : ℕ)
    → message 0 q ≡ none
    → Dict.lookup ℕ_discrete 0 (Dict.remove ℕ_discrete m q.queue) ≡ none
remove-positive q m h = elim (ℕ_discrete m 0) [
  | yes e ↦ rw e (lookup-remove_self ℕ_discrete 0 q.queue)
  | no d ↦ lookup-remove_ne ℕ_discrete m 0 q.queue d ∙ h
]

-- The place in `order` and the message go together.
pub erase-clear-Inv : (q : Queue) (m : ℕ) → Inv q → Inv (erase_message (clear_order q m) m)
unfolding erase_message clear_order
erase-clear-Inv q m v = elim (Option-cases (position m q.order)) [
  | inl e ↦
      rw (e, clear_order)
        (record {
          covers = Covers-remove q.order q.queue v.covers m;
          positive = remove-positive q m v.positive;
          held = HeldBy-remove q.queue q.locked v.held m;
          zero_free = v.zero_free;
          next = v.next;
          unique = remove-IsUnique ℕ_discrete m q.queue v.unique;
          words = v.words;
        })
  | inr (i, e) ↦
      rw (e, clear_order, set-clear m q.order e)
        (record {
          covers = Covers-clear q.order q.queue v.covers m;
          positive = remove-positive q m v.positive;
          held = HeldBy-remove q.queue q.locked v.held m;
          zero_free = v.zero_free;
          next = off_zero-ne-zero (pass_over q.next_id q.order m) (clear m q.order);
          unique = remove-IsUnique ℕ_discrete m q.queue v.unique;
          words = All-clear IsWord m q.order (omega arith) v.words;
        })
]

-- The lock on a message that is gone is dropped.
pub drop_lock-Inv : (q : Queue) (c m : ℕ) → message m q ≡ none → Inv q → Inv (drop_lock q c m).0
unfolding drop_lock
drop_lock-Inv q c m gone v = elim (Option-cases (locked_ids c q)) [
  | inl e ↦ rw (e, drop_lock) v
  | inr (ids, e) ↦ elim (Bool-cases (contains m ids)) [
    | inr h ↦ rw (e, drop_lock, h) v
    | inl h ↦
        let (i, p) = position_of_contains m ids h in
        let same : ids_of c q.locked ≡ ids = ap ids_or_new e in
        rw (e, drop_lock, h, p, remove_at-erase m ids p)
          (remove_zeroes-Inv _ (record {
            covers = v.covers;
            positive = v.positive;
            held = rw same at (HeldBy-absent q.queue q.locked v.held m c gone);
            zero_free =
                ZeroFree-insert q.locked c (erase m ids) v.zero_free
                  (not-contains-erase 0 m ids (rw same at (v.zero_free c)));
            next = v.next;
            unique = v.unique;
            words = v.words;
          }))
  ]
]

pub dequeue_id-Inv :
    (q : Queue) (c m : ℕ) (msg : QueueMessage) → Inv q → Inv (dequeue_id q c m msg).0
unfolding dequeue_id erase_message
dequeue_id-Inv q c m msg v =
    drop_lock-Inv (erase_message (clear_order q m) m) c m
      (lookup-remove_self ℕ_discrete m (clear_order q m).queue) (erase-clear-Inv q m v)

pub dequeue_held-Inv :
    (q : Queue) (c : ℕ) (ids : List ℕ)
    → locked_ids c q ≡ some ids
    → Inv q
    → Inv (dequeue_held q c ids).0
unfolding dequeue_held erase
dequeue_held-Inv q c [] e v = v
dequeue_held-Inv q c (id ∷ ids) e v = remove_zeroes-Inv _ (record {
  covers = rw (zero_out-clear id q.order) (Covers-clear q.order q.queue v.covers id);
  positive = remove-positive q id v.positive;
  held = rw (same, erased) at (HeldBy-release q.queue q.locked v.held id c);
  zero_free = ZeroFree-insert q.locked c ids v.zero_free rest_free;
  next = v.next;
  unique = remove-IsUnique ℕ_discrete id q.queue v.unique;
  words = rw (zero_out-clear id q.order) (All-clear IsWord id q.order (omega arith) v.words);
})
  where
    same : ids_of c q.locked ≡ id ∷ ids
    same = ap ids_or_new e

    erased : erase id (id ∷ ids) ≡ ids
    erased = ground arith

    rest_free : contains 0 ids ≡ false
    rest_free =
        let free : contains 0 (id ∷ ids) ≡ false = rw same at (v.zero_free c) in ground arith

dequeue_first-Inv : (q : Queue) (c : ℕ) → Inv q → Inv (dequeue_first q c).0
unfolding dequeue_first
dequeue_first-Inv q c v = elim (Option-cases (locked_ids c q)) [
  | inl e ↦ rw (e, dequeue_first) v
  | inr (ids, e) ↦ rw (e, dequeue_first) (dequeue_held-Inv q c ids e v)
]

pub dequeue-Inv :
    (q : Queue) (c : ℕ) (message_id : Option ℕ) → Inv q → Inv (dequeue q c message_id).0
unfolding dequeue
dequeue-Inv q c none v = elim (Bool-cases (is_empty q.order)) [
  | inl h ↦ rw h v
  | inr h ↦ rw h (dequeue_first-Inv q c v)
]
dequeue-Inv q c (some m) v = elim (Bool-cases (is_empty q.order)) [
  | inl h ↦ rw h v
  | inr h ↦ elim (Option-cases (message m q)) [
    | inl e ↦ rw (h, e, dequeue) (dequeue_first-Inv q c v)
    | inr (msg, e) ↦ rw (h, e, dequeue) (dequeue_id-Inv q c m msg v)
  ]
]
