-- ===== src/Server/Invariant/Names.antt =====
-- net/server.rs: the changes of CreateQ and DeleteQ, for the consistency of the server.
use native.Mathlib.Decide.{ℕ_discrete}
use rust_data_broker.Prelude.{ℕ, ◌≡◌, ◌≢◌, ap, subst, sym, ◌∙◌, inl, inr, none, some, arith}
use rust_data_broker.Dict
use rust_data_broker.Dict.{
  lookup-insert-some, lookup-insert_self, lookup-insert_ne, lookup-remove-some, lookup-remove_ne,
}
use rust_data_broker.Queue.State.{new_queue}
use rust_data_broker.Queue.Invariant.{Inv, new_queue-Inv}
use rust_data_broker.Server.State.{Server, Name, Name-discrete}
use rust_data_broker.Server.Invariant.{IsConsistent, queue_at, hash_of}

abbrev pub with_queue : Server → Name → ℕ → Server
with_queue s n hash = record s {
  queue = Dict.insert ℕ_discrete hash new_queue s.queue;
  queue_names = Dict.insert Name-discrete n hash s.queue_names;
}

abbrev pub without_queue : Server → Name → ℕ → Server
without_queue s n hash = record s {
  queue = Dict.remove ℕ_discrete hash s.queue;
  queue_names = Dict.remove Name-discrete n s.queue_names;
}

module _ (s : Server) (n : Name) (hash : ℕ) (k : IsConsistent s) where
  unused : (o : Name) → queue_at hash s ≡ none → hash_of o s ≢ some hash
  unused o fresh = λ e. let there = k.named o hash e in ground arith

  -- A new uuid is one under which there is no queue.
  pub with_queue-IsConsistent : queue_at hash s ≡ none → IsConsistent (with_queue s n hash)
  with_queue-IsConsistent fresh = record {
    queues = λ h r e. elim (lookup-insert-some ℕ_discrete hash h new_queue s.queue e) [
      | inl (_, same) ↦ subst Inv same new_queue-Inv
      | inr (_, old) ↦ k.queues h r old
    ];
    named = λ o h e. elim (lookup-insert-some Name-discrete n o hash s.queue_names e) [
      | inl (_, same) ↦ rw (← same, lookup-insert_self ℕ_discrete hash new_queue s.queue)
      | inr (_, old) ↦ elim (ℕ_discrete hash h) [
        | yes same ↦ rw (← same, lookup-insert_self ℕ_discrete hash new_queue s.queue)
        | no d ↦ rw (lookup-insert_ne ℕ_discrete hash h new_queue s.queue d) (k.named o h old)
      ]
    ];
    apart = λ o p h e f. elim (lookup-insert-some Name-discrete n o hash s.queue_names e) [
      | inl (here, same) ↦ elim (lookup-insert-some Name-discrete n p hash s.queue_names f) [
        | inl (there, _) ↦ sym here ∙ there
        | inr (_, old) ↦ absurd (unused p fresh (old ∙ ap some (sym same)))
      ]
      | inr (_, old) ↦ elim (lookup-insert-some Name-discrete n p hash s.queue_names f) [
        | inl (_, same) ↦ absurd (unused o fresh (old ∙ ap some (sym same)))
        | inr (_, old') ↦ k.apart o p h old old'
      ]
    ];
  }

  pub without_queue-IsConsistent : hash_of n s ≡ some hash → IsConsistent (without_queue s n hash)
  without_queue-IsConsistent e = record {
    queues = λ h r f. k.queues h r (lookup-remove-some ℕ_discrete hash h s.queue f).1;
    named = λ o h f.
        let (other, old) = lookup-remove-some Name-discrete n o s.queue_names f in
        rw
          (lookup-remove_ne ℕ_discrete hash h s.queue
            (λ same. other (k.apart n o h (e ∙ ap some same) old)))
          (k.named o h old);
    apart = λ o p h f g.
        k.apart o p h (lookup-remove-some Name-discrete n o s.queue_names f).1
          (lookup-remove-some Name-discrete n p s.queue_names g).1;
  }
