-- ===== src/Queue/Invariant/Release.antt =====
-- net/queue.rs: `unlock`, `requeue`, `update_message` and the configuration, for the
-- well-formedness of a queue.
use native.Mathlib.Decide.{ℕ_discrete}
use rust_data_broker.Prelude.{
  ℕ, ◌≡◌, refl, ap, ◌≢◌, ◌∙◌, inl, inr, false, Bool, Option, some, none, List, [], ◌∷◌, arith,
  Option-cases, Bool-cases, position, contains, is_empty,
}
use rust_data_broker.Dict.{lookup-insert_ne, insert-IsUnique}
use rust_data_broker.Queue.Message.{QueueMessage}
use rust_data_broker.Queue.Message
use rust_data_broker.Queue.State.{Queue, message, locked_ids}
use rust_data_broker.Queue.Ops.{ids_or_new}
use rust_data_broker.Queue.Locks.{
  back_to, unlock_in, unlock_id, unlock_held, unlock, requeue, update_message,
  update_config_auto_fail, update_config_fail_timeout,
}
use rust_data_broker.Queue.Order.{erase, remove_at-erase, not-contains-erase, contains_of_position}
use rust_data_broker.Queue.Invariant.Parts.{
  ids_of, Covers-insert, HeldBy-unlock, HeldBy-absent, HeldBy-update, ZeroFree-insert,
}
use rust_data_broker.Queue.Invariant.{Inv, id-ne-zero}
use rust_data_broker.Queue.Invariant.Delivery.{enqueue-Inv}
use rust_data_broker.Queue.Invariant.Removal.{dequeue-Inv}

back_to-ne-zero : (m : ℕ) (o : Option ℕ) → m ≢ 0 → o ≢ some 0 → back_to m o ≢ some 0
back_to-ne-zero m none h k = λ e. ground arith
back_to-ne-zero m (some n) h k = λ e. ground arith

unlock_id-Inv :
    (q : Queue) (c : ℕ) (ids : List ℕ) (m : ℕ)
    → locked_ids c q ≡ some ids
    → Inv q
    → Inv (unlock_id q c ids m).0
unfolding unlock_id Message.unlock
unlock_id-Inv q c ids m e v = elim (Option-cases (position m ids)) [
  | inl p ↦ rw (p, unlock_id) v
  | inr (i, p) ↦
      let same : ids_of c q.locked ≡ ids = ap ids_or_new e in
      let free : contains 0 ids ≡ false = rw same at (v.zero_free c) in
      let next : back_to m q.next_id ≢ some 0 =
        back_to-ne-zero m q.next_id (λ z. ground (arith, contains_of_position m ids p)) v.next in
      let zero_free =
        ZeroFree-insert q.locked c (erase m ids) v.zero_free (not-contains-erase 0 m ids free) in
      elim (Option-cases (message m q)) [
        | inl gone ↦
            rw (p, unlock_id, remove_at-erase m ids p, gone, unlock_in)
              (record {
                covers = v.covers;
                positive = v.positive;
                held = rw same at (HeldBy-absent q.queue q.locked v.held m c gone);
                zero_free = zero_free;
                next = next;
                unique = v.unique;
                words = v.words;
              })
        | inr (msg, here) ↦
            rw (p, unlock_id, remove_at-erase m ids p, here, unlock_in)
              (record {
                covers =
                    Covers-insert q.order q.queue v.covers m (Message.unlock msg)
                      (v.covers m msg here);
                positive =
                    lookup-insert_ne ℕ_discrete m 0 (Message.unlock msg) q.queue
                      (id-ne-zero q m v here)
                    ∙ v.positive;
                held =
                    rw same at
                      (HeldBy-unlock q.queue q.locked v.held m c (Message.unlock msg) refl);
                zero_free = zero_free;
                next = next;
                unique = insert-IsUnique ℕ_discrete m (Message.unlock msg) q.queue v.unique;
                words = v.words;
              })
      ]
]

unlock_held-Inv :
    (q : Queue) (c : ℕ) (ids : List ℕ) (message_id : Option ℕ)
    → locked_ids c q ≡ some ids
    → Inv q
    → Inv (unlock_held q c ids message_id).0
unfolding unlock_held
unlock_held-Inv q c ids (some m) e v = elim (Bool-cases (contains m ids)) [
  | inl h ↦ rw h (unlock_id-Inv q c ids m e v)
  | inr h ↦ rw h v
]
unlock_held-Inv q c [] none e v = v
unlock_held-Inv q c (id ∷ ids) none e v = unlock_id-Inv q c (id ∷ ids) id e v

pub unlock-Inv : (q : Queue) (c : ℕ) (message_id : Option ℕ) → Inv q → Inv (unlock q c message_id).0
unfolding unlock
unlock-Inv q c message_id v = elim (Bool-cases (is_empty q.order)) [
  | inl h ↦ rw h v
  | inr h ↦ elim (Option-cases (locked_ids c q)) [
    | inl e ↦ rw (h, e, unlock) v
    | inr (ids, e) ↦ rw (h, e, unlock) (unlock_held-Inv q c ids message_id e v)
  ]
]

pub requeue-Inv : (q : Queue) (c m now : ℕ) → Inv q → Inv (requeue q c m now).0
unfolding requeue
requeue-Inv q c m now v = elim (Bool-cases (is_empty q.order)) [
  | inl h ↦ rw h v
  | inr h ↦ elim (Option-cases (message m q)) [
    | inl e ↦ rw (h, e, requeue) v
    | inr (msg, e) ↦
        rw (h, e, requeue)
          (dequeue-Inv _ c (some m) (enqueue-Inv q msg.payload msg.publisher_id now v))
  ]
]

pub update_message-Inv :
    (q : Queue) (m : ℕ) (payload : List ℕ) → Inv q → Inv (update_message q m payload).0
unfolding update_message
update_message-Inv q m payload v = elim (Bool-cases (is_empty q.order)) [
  | inl h ↦ rw h v
  | inr h ↦ elim (Option-cases (message m q)) [
    | inl e ↦ rw (h, e, update_message) v
    | inr (msg, e) ↦
        let new : QueueMessage = record msg { payload = payload } in
        rw (h, e, update_message)
          (record {
            covers = Covers-insert q.order q.queue v.covers m new (v.covers m msg e);
            positive =
                lookup-insert_ne ℕ_discrete m 0 new q.queue (id-ne-zero q m v e) ∙ v.positive;
            held = HeldBy-update q.queue q.locked v.held m new msg e refl;
            zero_free = v.zero_free;
            next = v.next;
            unique = insert-IsUnique ℕ_discrete m new q.queue v.unique;
            words = v.words;
          })
  ]
]

pub update_config-Inv :
    (q : Queue) (b : Bool) (t : ℕ)
    → Inv q
    → Inv (update_config_auto_fail q b) × Inv (update_config_fail_timeout q t)
unfolding update_config_auto_fail update_config_fail_timeout
update_config-Inv q b t v = (assumption, assumption)
