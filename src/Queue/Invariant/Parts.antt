-- ===== src/Queue/Invariant/Parts.antt =====
-- The parts of the invariant, each about two fields, and what an insertion, a removal, a write in
-- `order` and a change of a client's list do to it.
use native.Mathlib.Decide.{ℕ_discrete}
use rust_data_broker.Prelude.{
  ℕ, ◌≡◌, ◌≢◌, inl, inr, true, false, none, some, List, [], ◌∷◌, ◌++◌, arith, contains, ◌∙◌,
}
use rust_data_broker.Dict
use rust_data_broker.Dict.{
  Dict, lookup-insert-some, lookup-remove-some, lookup-insert_self, lookup-insert_ne,
}
use rust_data_broker.Queue.Message.{QueueMessage}
use rust_data_broker.Queue.State.{drain_zeroes}
use rust_data_broker.Queue.Ops.{ids_or_new}
use rust_data_broker.Queue.Order.{
  clear, erase, contains-append, contains-append_self, contains-clear, contains-drain_zeroes,
  contains-erase,
}

abbrev pub Messages : Type 0
Messages = Dict ℕ QueueMessage

abbrev pub Locks : Type 0
Locks = Dict ℕ (List ℕ)

abbrev pub ids_of : ℕ → Locks → List ℕ
ids_of c locked = ids_or_new (Dict.lookup ℕ_discrete c locked)

-- Every message has its id in `order`.
abbrev pub Covers : List ℕ → Messages → Type 0
Covers order queue =
    (id : ℕ) (m : QueueMessage)
    → Dict.lookup ℕ_discrete id queue ≡ some m
    → contains id order ≡ true

-- A message that a client has locked is in the client's list.
abbrev pub HeldBy : Messages → Locks → Type 0
HeldBy queue locked =
    (id c : ℕ) (m : QueueMessage)
    → Dict.lookup ℕ_discrete id queue ≡ some m
    → m.locked_by ≡ some c
    → contains id (ids_of c locked) ≡ true

-- No client holds the id 0.
abbrev pub ZeroFree : Locks → Type 0
ZeroFree locked = (c : ℕ) → contains 0 (ids_of c locked) ≡ false

module _ (order : List ℕ) (queue : Messages) (cov : Covers order queue) where
  pub Covers-append :
      (id : ℕ) (v : QueueMessage) → Covers (order ++ id ∷ []) (Dict.insert ℕ_discrete id v queue)
  Covers-append id v j m h = elim (lookup-insert-some ℕ_discrete id j v queue h) [
    | inl (e, _) ↦ rw (← e) (contains-append_self id order)
    | inr (d, old) ↦ contains-append j id order (cov j m old)
  ]

  pub Covers-insert :
      (id : ℕ) (v : QueueMessage)
      → contains id order ≡ true
      → Covers order (Dict.insert ℕ_discrete id v queue)
  Covers-insert id v at j m h = elim (lookup-insert-some ℕ_discrete id j v queue h) [
    | inl (e, _) ↦ rw (← e) at
    | inr (d, old) ↦ cov j m old
  ]

  pub Covers-clear : (id : ℕ) → Covers (clear id order) (Dict.remove ℕ_discrete id queue)
  Covers-clear id j m h =
      let (d, old) = lookup-remove-some ℕ_discrete id j queue h in
      contains-clear j id order d (cov j m old)

  pub Covers-remove : (id : ℕ) → Covers order (Dict.remove ℕ_discrete id queue)
  Covers-remove id j m h = cov j m (lookup-remove-some ℕ_discrete id j queue h).1

  pub Covers-drain : Dict.lookup ℕ_discrete 0 queue ≡ none → Covers (drain_zeroes order) queue
  Covers-drain zero_free j m h =
      contains-drain_zeroes j order (λ e. absurd (ground arith)) ∙ cov j m h

pub ids_of-insert_self :
    (c : ℕ) (ids : List ℕ) (locked : Locks) → ids_of c (Dict.insert ℕ_discrete c ids locked) ≡ ids
ids_of-insert_self c ids locked = rw (lookup-insert_self ℕ_discrete c ids locked)

pub ids_of-insert_ne :
    (c d : ℕ) (ids : List ℕ) (locked : Locks)
    → c ≢ d
    → ids_of d (Dict.insert ℕ_discrete c ids locked) ≡ ids_of d locked
ids_of-insert_ne c d ids locked h = rw (lookup-insert_ne ℕ_discrete c d ids locked h)

-- A client's list may be replaced by one that keeps an id.
keeps_id :
    (id c d : ℕ) (ids : List ℕ) (locked : Locks)
    → (contains id (ids_of c locked) ≡ true → contains id ids ≡ true)
    → contains id (ids_of d locked) ≡ true
    → contains id (ids_of d (Dict.insert ℕ_discrete c ids locked)) ≡ true
keeps_id id c d ids locked f h = elim (ℕ_discrete c d) [
  | yes e ↦ rw (← e, ids_of-insert_self c ids locked) (f (rw e h))
  | no n ↦ rw (ids_of-insert_ne c d ids locked n) h
]

module _ (queue : Messages) (locked : Locks) (held : HeldBy queue locked) where
  pub HeldBy-unlocked :
      (id : ℕ) (v : QueueMessage)
      → v.locked_by ≡ none
      → HeldBy (Dict.insert ℕ_discrete id v queue) locked
  HeldBy-unlocked id v free j c m h l = elim (lookup-insert-some ℕ_discrete id j v queue h) [
    | inl (_, e) ↦ absurd (ground arith)
    | inr (d, old) ↦ held j c m old l
  ]

  pub HeldBy-remove : (id : ℕ) → HeldBy (Dict.remove ℕ_discrete id queue) locked
  HeldBy-remove id j c m h l = held j c m (lookup-remove-some ℕ_discrete id j queue h).1 l

  -- The client `c` takes the message `id`.
  pub HeldBy-take :
      (id c : ℕ) (v : QueueMessage)
      → v.locked_by ≡ some c
      → HeldBy
          (Dict.insert ℕ_discrete id v queue)
          (Dict.insert ℕ_discrete c (ids_of c locked ++ id ∷ []) locked)
  HeldBy-take id c v mine j d m h l = elim (lookup-insert-some ℕ_discrete id j v queue h) [
    | inl (e, f) ↦
        let same : c ≡ d = ground arith in
        rw (← e, ← same, ids_of-insert_self c _ locked) (contains-append_self id (ids_of c locked))
    | inr (_, old) ↦
        keeps_id j c d _ locked (contains-append j id (ids_of c locked)) (held j d m old l)
  ]

  -- The client `c` lets `id` go, which is taken out of the messages.
  pub HeldBy-release :
      (id c : ℕ)
      → HeldBy
          (Dict.remove ℕ_discrete id queue)
          (Dict.insert ℕ_discrete c (erase id (ids_of c locked)) locked)
  HeldBy-release id c j d m h l =
      let (n, old) = lookup-remove-some ℕ_discrete id j queue h in
      keeps_id j c d _ locked (contains-erase j id (ids_of c locked) n) (held j d m old l)

  -- Or is unlocked.
  pub HeldBy-unlock :
      (id c : ℕ) (v : QueueMessage)
      → v.locked_by ≡ none
      → HeldBy
          (Dict.insert ℕ_discrete id v queue)
          (Dict.insert ℕ_discrete c (erase id (ids_of c locked)) locked)
  HeldBy-unlock id c v free j d m h l = elim (lookup-insert-some ℕ_discrete id j v queue h) [
    | inl (_, e) ↦ absurd (ground arith)
    | inr (n, old) ↦
        keeps_id j c d _ locked (contains-erase j id (ids_of c locked) n) (held j d m old l)
  ]

  -- Nothing stands under the id.
  pub HeldBy-absent :
      (id c : ℕ)
      → Dict.lookup ℕ_discrete id queue ≡ none
      → HeldBy queue (Dict.insert ℕ_discrete c (erase id (ids_of c locked)) locked)
  HeldBy-absent id c gone j d m h l =
      keeps_id j c d _ locked (contains-erase j id (ids_of c locked) (λ e. absurd (ground arith)))
        (held j d m h l)

  -- A message that was there keeps its lock.
  pub HeldBy-update :
      (id : ℕ) (v w : QueueMessage)
      → Dict.lookup ℕ_discrete id queue ≡ some w
      → v.locked_by ≡ w.locked_by
      → HeldBy (Dict.insert ℕ_discrete id v queue) locked
  HeldBy-update id v w was same j c m h l = elim (lookup-insert-some ℕ_discrete id j v queue h) [
    | inl (e, f) ↦ rw (← e) (held id c w was (ground arith))
    | inr (_, old) ↦ held j c m old l
  ]

pub ZeroFree-insert :
    (locked : Locks) (c : ℕ) (ids : List ℕ)
    → ZeroFree locked
    → contains 0 ids ≡ false
    → ZeroFree (Dict.insert ℕ_discrete c ids locked)
ZeroFree-insert locked c ids free h d = elim (ℕ_discrete c d) [
  | yes e ↦ rw (← e, ids_of-insert_self c ids locked) h
  | no n ↦ rw (ids_of-insert_ne c d ids locked n) (free d)
]
