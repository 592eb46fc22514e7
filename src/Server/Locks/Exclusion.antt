-- ===== src/Server/Locks/Exclusion.antt =====
-- net/server.rs: while a task holds a lock for itself alone, no other task holds it.
use rust_data_broker.Prelude.{
  ℕ, zero, suc, ◌<◌, ◌≡◌, ◌≢◌, refl, sym, ◌∙◌, Bool, true, false, ◌||◌, not, List, [], ◌∷◌, arith,
}
use mathlib.Core.Logic.{if_pos, if_neg}
use native.Mathlib.Decide.{ℕ_discrete}
use rust_data_broker.Server.Locks.{Lock, names, queues, one_queue, writer, Action, take, give, Job}
use rust_data_broker.Server.Locks.Order.{Hold}
use rust_data_broker.Server.Locks.Running.{
  Task, Tasks, start, same, in_way, all_below, can_go, advance, update, Step, step, Reached, here,
  next,
}

-- A lock is in both lists, and not shared in both.
unfoldable clash : List Hold → List Hold → Bool
clash [] b = false
clash (h ∷ a) b = in_way h.0 h.1 b || clash a b

same_comm : (a b : Lock) → same a b ≡ same b a
unfolding same
same_comm names names = refl
same_comm names queues = refl
same_comm names (one_queue b) = refl
same_comm names (writer b) = refl
same_comm queues names = refl
same_comm queues queues = refl
same_comm queues (one_queue b) = refl
same_comm queues (writer b) = refl
same_comm (one_queue a) names = refl
same_comm (one_queue a) queues = refl
same_comm (one_queue a) (one_queue b) = ground arith
same_comm (one_queue a) (writer b) = refl
same_comm (writer a) names = refl
same_comm (writer a) queues = refl
same_comm (writer a) (one_queue b) = refl
same_comm (writer a) (writer b) = ground arith

clash-take :
    (a : List Hold) (h : Hold) (b : List Hold)
    → clash a b ≡ false
    → in_way h.0 h.1 a ≡ false
    → clash a (h ∷ b) ≡ false
unfolding clash in_way
clash-take [] h b c away = refl
clash-take (x ∷ a) h b c away = ground (arith, same_comm x.0 h.0, clash-take a h b)

clash-give :
    (a : List Hold) (h : Hold) (b : List Hold) → clash a (h ∷ b) ≡ false → clash a b ≡ false
unfolding clash in_way
clash-give [] h b c = refl
clash-give (x ∷ a) h b c = ground (arith, clash-give a h b)

all_below-at : (n : ℕ) (test : ℕ → Bool) (j : ℕ) → j < n → all_below n test ≡ true → test j ≡ true
unfolding all_below
all_below-at zero test j below h = absurd (omega arith)
all_below-at (suc n) test j below h = elim (ℕ_discrete j n) [
  | yes e ↦ rw e (ground arith)
  | no d ↦ all_below-at n test j (omega arith) (ground arith)
]

-- The task that goes on, against another task.
advance-clash_left :
    (n : ℕ) (f : Tasks) (j : ℕ) (held : List Hold) (todo : List Action)
    → j < n
    → can_go n f todo ≡ true
    → clash held (f j).held ≡ false
    → clash (advance held todo).held (f j).held ≡ false
unfolding can_go advance clash
advance-clash_left n f j held [] below go c = c
advance-clash_left n f j held (take l m ∷ todo) below go c =
    ground (arith, all_below-at n (λ j. not (in_way l m (f j).held)) j below go)
advance-clash_left n f j [] (give ∷ todo) below go c = refl
advance-clash_left n f j (h ∷ held) (give ∷ todo) below go c = ground arith

advance-clash_right :
    (n : ℕ) (f : Tasks) (j : ℕ) (held : List Hold) (todo : List Action)
    → j < n
    → can_go n f todo ≡ true
    → clash (f j).held held ≡ false
    → clash (f j).held (advance held todo).held ≡ false
unfolding can_go advance
advance-clash_right n f j held [] below go c = c
advance-clash_right n f j held (take l m ∷ todo) below go c =
    clash-take (f j).held (l, m) held c
      (ground (arith, all_below-at n (λ j. not (in_way l m (f j).held)) j below go))
advance-clash_right n f j [] (give ∷ todo) below go c = c
advance-clash_right n f j (h ∷ held) (give ∷ todo) below go c = clash-give (f j).held h held c

abbrev IsExclusive : ℕ → Tasks → Type 0
IsExclusive n f = (i j : ℕ) → i < n → j < n → i ≢ j → clash (f i).held (f j).held ≡ false

update-at : (f : Tasks) (t : ℕ) (x : Task) (i : ℕ) → t ≡ i → update f t x i ≡ x
unfolding update
update-at f t x i e = if_pos (ℕ_discrete t i) e x (f i)

update-ne : (f : Tasks) (t : ℕ) (x : Task) (i : ℕ) → t ≢ i → update f t x i ≡ f i
unfolding update
update-ne f t x i d = if_neg (ℕ_discrete t i) d x (f i)

Step-IsExclusive : (n : ℕ) (f g : Tasks) → Step n f g → IsExclusive n f → IsExclusive n g
Step-IsExclusive n f _ (step t under go) k i j low high d =
    let x : Task = advance (f t).held (f t).todo in
    elim (ℕ_discrete t i) [
      | yes e ↦
          let other : t ≢ j = λ h. d (sym e ∙ h) in
          rw (update-at f t x i e, update-ne f t x j other)
            (advance-clash_left n f j (f t).held (f t).todo high go (k t j under high other))
      | no e ↦ elim (ℕ_discrete t j) [
        | yes h ↦
            rw (update-ne f t x i e, update-at f t x j h)
              (advance-clash_right n f i (f t).held (f t).todo low go
                (k i t low under (λ z. d (z ∙ h))))
        | no h ↦ rw (update-ne f t x i e, update-ne f t x j h) (k i j low high d)
      ]
    ]

-- Whatever jobs the first n tasks run, and however their actions have followed each other, no two of
-- them hold the same lock, unless both share it.
Reached-IsExclusive :
    (n : ℕ) (jobs : ℕ → List Job) (f : Tasks) (i j : ℕ)
    → Reached n (start jobs) f
    → i < n
    → j < n
    → i ≢ j
    → clash (f i).held (f j).held ≡ false
unfolding start clash
Reached-IsExclusive n jobs _ i j here low high d = refl
Reached-IsExclusive n jobs _ i j (next r s) low high d =
    Step-IsExclusive n _ _ s (λ a b. Reached-IsExclusive n jobs _ a b r) i j low high d
