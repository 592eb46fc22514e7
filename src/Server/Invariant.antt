-- ===== src/Server/Invariant.antt =====
-- The well-formedness of the server's two maps and of its queues, and the rules by which a request
-- keeps it.
pub mod Names
pub mod Requests
use native.Mathlib.Decide.{ℕ_discrete}
use rust_data_broker.Prelude.{
  ℕ, ◌≡◌, refl, ◌≢◌, ap, subst, ◌∙◌, inl, inr, ◌⊎◌, true, Option, none, some, List, arith, Outcome,
  ok, err, panic, is_some, Option-cases,
}
use rust_data_broker.Dict
use rust_data_broker.Dict.{lookup-insert-some, lookup-insert_self, lookup-insert_ne}
use rust_data_broker.Errors.{ErrorCode}
use rust_data_broker.Queue.State.{Queue}
use rust_data_broker.Queue.Invariant.{Inv}
use rust_data_broker.Server.State.{Server, Name, Name-discrete, get_queue, put_queue}
use rust_data_broker.Server.Handlers.{Handled, on_queue}

abbrev pub queue_at : ℕ → Server → Option Queue
queue_at hash s = Dict.lookup ℕ_discrete hash s.queue

abbrev pub hash_of : Name → Server → Option ℕ
hash_of queue_name s = Dict.lookup Name-discrete queue_name s.queue_names

pub record IsConsistent (s : Server) : Type 0 where
  -- every queue is well-formed
  pub queues : (hash : ℕ) (q : Queue) → queue_at hash s ≡ some q → Inv q
  -- every name leads to a queue, and no two names to the same
  pub named : (n : Name) (hash : ℕ) → hash_of n s ≡ some hash → is_some (queue_at hash s) ≡ true
  pub apart : (n o : Name) (hash : ℕ) → hash_of n s ≡ some hash → hash_of o s ≡ some hash → n ≡ o

-- A queue that is there may be replaced by a well-formed one.
pub put_queue-IsConsistent :
    (s : Server) (hash : ℕ) (q : Queue) → Inv q → IsConsistent s → IsConsistent (put_queue s hash q)
put_queue-IsConsistent s hash q v k = record {
  queues = λ h r e. elim (lookup-insert-some ℕ_discrete hash h q s.queue e) [
    | inl (_, same) ↦ subst Inv same v
    | inr (_, old) ↦ k.queues h r old
  ];
  named = λ n h e. still_there h (k.named n h e);
  apart = k.apart;
}
  where
    still_there :
        (h : ℕ)
        → is_some (queue_at h s) ≡ true
        → is_some (Dict.lookup ℕ_discrete h (Dict.insert ℕ_discrete hash q s.queue)) ≡ true
    still_there h e = elim (ℕ_discrete hash h) [
      | yes same ↦ rw (← same, lookup-insert_self ℕ_discrete hash q s.queue)
      | no d ↦ rw (lookup-insert_ne ℕ_discrete hash h q s.queue d) e
    ]

-- The counters of the memory have no part in it.
pub memory-IsConsistent :
    (s : Server) (m : _) → IsConsistent s → IsConsistent (record s { memory = m })
memory-IsConsistent s m k = record { queues = k.queues; named = k.named; apart = k.apart }

-- `get_queue` finds the queue of a name, and on a consistent server fails only on an unknown name.
pub get_queue_cases :
    (s : Server) (n : Name)
    → IsConsistent s
    → ((hash : ℕ) × (q : Queue) × (hash_of n s ≡ some hash)
        × (queue_at hash s ≡ some q)
        × (get_queue s n ≡ ok (hash, q)))
      ⊎ ((hash_of n s ≡ none) × (get_queue s n ≡ err ErrorCode.queue_hash_not_found))
unfolding get_queue
get_queue_cases s n k = elim (Option-cases (hash_of n s)) [
  | inl e ↦ inr (e, rw (e, get_queue))
  | inr (hash, e) ↦ elim (Option-cases (queue_at hash s)) [
    | inl f ↦ absurd (let there = k.named n hash e in ground arith)
    | inr (q, f) ↦ inl (hash, q, e, f, rw (e, get_queue, f))
  ]
]

-- A task on one queue keeps the server consistent if its work on a well-formed queue does.
pub on_queue-IsConsistent :
    (s : Server) (n : Name) (f : ℕ → Queue → Handled)
    → IsConsistent s
    → ((hash : ℕ) (q : Queue) → Inv q → IsConsistent (f hash q).0)
    → IsConsistent (on_queue s n f).0
on_queue-IsConsistent s n f k h = elim (get_queue_cases s n k) [
  | inl (hash, q, _, there, e) ↦ rw (e, on_queue) (h hash q (k.queues hash q there))
  | inr (_, e) ↦ rw (e, on_queue) k
]
