-- ===== src/Server/Delivery.antt =====
-- net/server.rs: the requests of publishers and readers, against the list of waiting messages of a queue.
use native.Mathlib.Decide.{ℕ_discrete}
use rust_data_broker.Prelude.{
  ℕ, ◌≡◌, inl, inr, some, List, arith, ok, Option-cases, Bool-cases, leb,
}
use rust_data_broker.Dict.{lookup-insert_self}
use rust_data_broker.Memory.{Memory}
use rust_data_broker.Queue.State.{Queue}
use rust_data_broker.Queue.Fifo.{Waiting, Fifo}
use rust_data_broker.Queue.Payloads.{get_next_biggest_payload}
use rust_data_broker.Server.Frame.{size_factor}
use rust_data_broker.Server.Dispatch.{Surroundings, observed}
use rust_data_broker.Server.Invariant.Requests.{biggest-Inv}
use rust_data_broker.Server.State.{Server, Name, get_queue, put_queue}
use rust_data_broker.Server.Handlers.{Handled, on_queue, shrink_locked_size}
use rust_data_broker.Server.Invariant.{hash_of, queue_at}

module _ (s : Server) (n : Name) (hash : ℕ) where
  pub found_by :
      (q : Queue)
      → hash_of n s ≡ some hash
      → queue_at hash s ≡ some q
      → get_queue s n ≡ ok (hash, q)
  unfolding get_queue
  found_by q e f = rw (e, get_queue, f)

  pub hash_found : (q : Queue) → get_queue s n ≡ ok (hash, q) → hash_of n s ≡ some hash
  unfolding get_queue
  hash_found q e = elim (Option-cases (hash_of n s)) [
    | inl f ↦ absurd (ground arith)
    | inr (h, f) ↦ elim (Option-cases (queue_at h s)) [
      | inl g ↦ absurd (ground arith)
      | inr (r, g) ↦ ground arith
    ]
  ]

pub queue_found :
    (s : Server) (n : Name) (hash : ℕ) (q : Queue)
    → get_queue s n ≡ ok (hash, q)
    → queue_at hash s ≡ some q
unfolding get_queue
queue_found s n hash q e = ground arith

pub found_after :
    (s : Server) (m : Memory) (n : Name) (hash : ℕ) (q r : Queue)
    → get_queue s n ≡ ok (hash, q)
    → get_queue (put_queue (record s { memory = m }) hash r) n ≡ ok (hash, r)
found_after s m n hash q r e =
    found_by (put_queue (record s { memory = m }) hash r) n hash r (hash_found s n hash q e)
      (lookup-insert_self ℕ_discrete hash r s.queue)

-- The counter of the memory has no part in it.
pub observed-found :
    (s : Server) (e : Surroundings) (n : Name) (hash : ℕ) (q : Queue)
    → get_queue s n ≡ ok (hash, q)
    → get_queue (observed s e) n ≡ ok (hash, q)
unfolding get_queue
observed-found s e n hash q h = h

pub on_queue-found :
    (s : Server) (n : Name) (f : ℕ → Queue → Handled) (hash : ℕ) (q : Queue)
    → get_queue s n ≡ ok (hash, q)
    → on_queue s n f ≡ f hash q
on_queue-found s n f hash q e = rw (e, on_queue)

pub shrink-Fifo :
    (m : Memory) (q : Queue) (size : ℕ) (done : List ℕ) (w : Waiting)
    → Fifo q done w
    → Fifo (shrink_locked_size m q size).1 done w
unfolding shrink_locked_size get_next_biggest_payload
shrink-Fifo m q size done w f = elim (Bool-cases (leb m.locked_size (size_factor size))) [
  | inl h ↦ rw h (record {
    valid = biggest-Inv q f.valid;
    ascends = f.ascends;
    splits = f.splits;
    next = f.next;
    unlocked = f.unlocked;
  })
  | inr h ↦ rw h f
]
