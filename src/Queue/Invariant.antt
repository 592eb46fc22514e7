-- ===== src/Queue/Invariant.antt =====
-- net/queue.rs: the well-formedness of a `Queue`, and the changes that the operations share.
pub mod Parts
pub mod Delivery
pub mod Removal
pub mod Release
use native.Mathlib.Decide.{ℕ_discrete}
use rust_data_broker.Prelude.{
  ℕ, ◌<◌, ◌≡◌, refl, ◌≢◌, inl, inr, some, none, [], arith, All, Option-cases,
}
use rust_data_broker.Dict
use rust_data_broker.Dict.{IsUnique}
use rust_data_broker.Queue.State.{Queue, message, new_queue, remove_zeroes}
use rust_data_broker.Queue.Ops.{u128_mod, end_of_queue}
use rust_data_broker.Queue.Order.{All-drain_zeroes}
use Parts.{Covers, HeldBy, ZeroFree, Covers-drain}

abbrev pub IsWord : ℕ → Type 0
IsWord x = x < u128_mod

pub record Inv (q : Queue) : Type 0 where
  -- every message has its id in `order`, and none has the id 0, which marks a cleared place
  pub covers : Covers q.order q.queue
  pub positive : message 0 q ≡ none
  -- a locked message is in the list of the client that it names, and 0 is in no such list
  pub held : HeldBy q.queue q.locked
  pub zero_free : ZeroFree q.locked
  pub next : q.next_id ≢ some 0
  pub unique : IsUnique ℕ_discrete q.queue
  pub words : All IsWord q.order

pub new_queue-Inv : Inv new_queue
unfolding new_queue Dict.lookup
new_queue-Inv = record {
  covers = λ id m h. cc;
  positive = refl;
  held = λ id c m h l. cc;
  zero_free = λ c. refl;
  next = λ e. cc;
  unique = tt;
  words = tt;
}

pub remove_zeroes-Inv : (q : Queue) → Inv q → Inv (remove_zeroes q)
unfolding remove_zeroes
remove_zeroes-Inv q v = record {
  covers = Covers-drain q.order q.queue v.covers v.positive;
  positive = v.positive;
  held = v.held;
  zero_free = v.zero_free;
  next = v.next;
  unique = v.unique;
  words = All-drain_zeroes IsWord q.order v.words;
}

pub end_of_queue-Inv : (q : Queue) → Inv q → Inv (end_of_queue q)
unfolding end_of_queue
end_of_queue-Inv q v = elim (Option-cases q.next_id) [
  | inl e ↦ rw (e, end_of_queue) (remove_zeroes-Inv q v)
  | inr (n, e) ↦ rw (e, end_of_queue) v
]

-- An id under which a message stands is not 0.
pub id-ne-zero : (q : Queue) (n : ℕ) {m : _} → Inv q → message n q ≡ some m → n ≢ 0
id-ne-zero q n v h = λ e. ground (arith, v.positive)
