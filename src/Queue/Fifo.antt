-- ===== src/Queue/Fifo.antt =====
-- net/queue.rs: the queue as a first-in first-out list of waiting messages, a description for queues
-- whose ids rise and whose waiting messages come last.
pub mod Rising
pub mod Steps
pub mod Counts
pub mod Held
pub mod Delivery
pub mod Returns
use native.Mathlib.Decide.{ℕ_discrete}
use rust_data_broker.Prelude.{ℕ, ◌<◌, ◌≡◌, none, some, List, [], ◌∷◌, ◌++◌, map, arith, All, first}
use rust_data_broker.Queue.Message.{QueueMessage}
use rust_data_broker.Queue.State.{Queue, message}
use rust_data_broker.Queue.Invariant.{Inv, id-ne-zero}
use Rising.{Ascends, Positive}

-- The ids and the messages that wait, in the order of their arrival.
abbrev pub Waiting : Type 0
Waiting = List (ℕ × QueueMessage)

abbrev pub ids : Waiting → List ℕ
ids = map (λ e. e.0)

abbrev pub IsWaiting : Queue → ℕ × QueueMessage → Type 0
IsWaiting q (id, m) = (message id q ≡ some m) × (m.locked_by ≡ none)

-- `order` is a part that was delivered or cleared, and then the waiting ids; `next_id` is the first
-- of these.
pub record Fifo (q : Queue) (done : List ℕ) (waiting : Waiting) : Type 0 where
  pub valid : Inv q
  pub ascends : Ascends 0 q.order
  pub splits : q.order ≡ done ++ ids waiting
  pub next : q.next_id ≡ first (ids waiting)
  pub unlocked : All (IsWaiting q) waiting

pub waiting-Positive : (q : Queue) (w : Waiting) → Inv q → All (IsWaiting q) w → Positive (ids w)
waiting-Positive q [] v h = tt
waiting-Positive q ((id, m) ∷ w) v h =
    (let d = id-ne-zero q id v h.0.0 in omega arith, waiting-Positive q w v h.1)
