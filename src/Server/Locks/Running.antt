-- ===== src/Server/Locks/Running.antt =====
-- net/server.rs with tokio's locks: tasks that run side by side, and what lets one go on. A lock can
-- go to a task when no holder is in the way; who is served first is left open.
use rust_data_broker.Prelude.{
  ℕ, suc, zero, ◌<◌, ◌≡◌, refl, Bool, true, false, ◌&&◌, ◌||◌, not, List, [], ◌∷◌, ◌==◌, ◌⊎◌, inl,
  inr, arith, Bool-cases,
}
use mathlib.Core.Logic.{ite}
use native.Mathlib.Decide.{ℕ_discrete}
use rust_data_broker.Server.Locks.{
  Lock, names, queues, one_queue, writer, Mode, shared, Action, take, give, Job, program,
}
use rust_data_broker.Server.Locks.Order.{Hold, is_shared}

pub record Task : Type 0 where
  pub held : List Hold
  pub todo : List Action

-- The tasks by their number.
abbrev pub Tasks : Type 0
Tasks = ℕ → Task

unfoldable pub start : (ℕ → List Job) → Tasks
start jobs i = record { held = []; todo = program (jobs i) }

unfoldable pub same : Lock → Lock → Bool
same names names = true
same queues queues = true
same (one_queue a) (one_queue b) = a == b
same (writer a) (writer b) = a == b
same _ _ = false

unfoldable pub holds : Lock → List Hold → Bool
holds l [] = false
holds l (h ∷ held) = same l h.0 || holds l held

-- A holder that keeps the lock from being taken in this mode.
unfoldable pub in_way : Lock → Mode → List Hold → Bool
in_way l m [] = false
in_way l m (h ∷ held) = same l h.0 && not (is_shared m && is_shared h.1) || in_way l m held

-- The next action asks for the lock for itself alone.
unfoldable pub asks_alone : Lock → List Action → Bool
asks_alone l [] = false
asks_alone l (give ∷ todo) = false
asks_alone l (take x m ∷ todo) = same l x && not (is_shared m)

unfoldable pub all_below : ℕ → (ℕ → Bool) → Bool
all_below zero test = true
all_below (suc n) test = test n && all_below n test

pub all_below-cases :
    (n : ℕ) (test : ℕ → Bool) → (all_below n test ≡ true) ⊎ ((j : ℕ) × (j < n) × (test j ≡ false))
unfolding all_below
all_below-cases zero test = inl refl
all_below-cases (suc n) test = elim (Bool-cases (test n)) [
  | inr fails ↦ inr (n, (omega arith), fails)
  | inl first ↦ elim (all_below-cases n test) [
    | inl all ↦ inl (ground arith)
    | inr (j, below, fails) ↦ inr (j, (omega arith), fails)
  ]
]

pub all_below-intro :
    (n : ℕ) (test : ℕ → Bool) → ((j : ℕ) → j < n → test j ≡ true) → all_below n test ≡ true
unfolding all_below
all_below-intro zero test h = refl
all_below-intro (suc n) test h =
    ground (arith, h n (omega arith), all_below-intro n test (λ j below. h j (omega arith)))

-- The task has an action that the locks held let through.
unfoldable pub can_go : ℕ → Tasks → List Action → Bool
can_go n f [] = false
can_go n f (give ∷ todo) = true
can_go n f (take l m ∷ todo) = all_below n λ j. not (in_way l m (f j).held)

-- Whoever is served first, now a task goes on: one gives a lock back, or asks for a lock that nobody
-- holds, or to read what nobody holds or asks for alone.
unfoldable pub must_go : ℕ → Tasks → List Action → Bool
must_go n f [] = false
must_go n f (give ∷ todo) = true
must_go n f (take l m ∷ todo) =
    all_below n (λ j. not (holds l (f j).held))
    || is_shared m
      && all_below n (λ j. not (in_way l shared (f j).held) && not (asks_alone l (f j).todo))

unfoldable pub advance : List Hold → List Action → Task
advance held [] = record { held = held; todo = [] }
advance held (take l m ∷ todo) = record { held = (l, m) ∷ held; todo = todo }
advance [] (give ∷ todo) = record { held = []; todo = todo }
advance (h ∷ held) (give ∷ todo) = record { held = held; todo = todo }

unfoldable pub update : Tasks → ℕ → Task → Tasks
update f i t j = ite (ℕ_discrete i j) t (f j)

-- One task of the first `n` goes on by an action.
pub data Step (n : ℕ) (f : Tasks) : Tasks → Type 0 where
  step :
      (i : ℕ)
      → i < n
      → can_go n f (f i).todo ≡ true
      → Step n f (update f i (advance (f i).held (f i).todo))

pub data Reached (n : ℕ) (first : Tasks) : Tasks → Type 0 where
  here : Reached n first first
  next : {f g : Tasks} → Reached n first f → Step n f g → Reached n first g
