-- ===== src/Queue/Payloads.antt =====
-- net/queue.rs: the five biggest payload sizes, `find_biggest_payloads` and `get_next_biggest_payload`.
pub mod Sorted
use rust_data_broker.Prelude.{
  ℕ, zero, suc, ◌+◌, ◌-◌, Bool, List, [], ◌∷◌, ltb, if◌then◌else◌, get_or, set, length, Outcome, ok,
}
use rust_data_broker.Dict.{Dict}
use rust_data_broker.Queue.Message.{QueueMessage}
use rust_data_broker.Queue.State.{Queue, QueueError}
use rust_data_broker.Queue.Ops.{Reply}

-- The inner loop: the entries below `decr_id` move down by one; `rounds` are left, from `id` on.
unfoldable pub shift_down : ℕ → ℕ → List ℕ → List ℕ
shift_down zero id sizes = sizes
shift_down (suc rounds) id sizes =
    shift_down rounds (id + 1) (set sizes id (get_or sizes (id + 1) 0))

-- The outer loop: `decr_id + 1` rounds are left.
unfoldable pub place : ℕ → ℕ → List ℕ → List ℕ
unfolding shift_down
place zero size sizes = sizes
place (suc decr_id) size sizes =
    let rest = place decr_id size sizes in
    if ltb (get_or sizes decr_id 0) size
    then set (shift_down decr_id 0 sizes) decr_id size
    else rest

unfoldable pub place_all : Dict ℕ QueueMessage → List ℕ → List ℕ
unfolding place
place_all [] sizes = sizes
place_all ((id, m) ∷ queue) sizes = place_all queue (place 5 (length m.payload) sizes)

unfoldable pub find_biggest_payloads : Queue → Queue
unfolding place_all
find_biggest_payloads q = record q { biggest_payloads = place_all q.queue q.biggest_payloads }

-- The answer is read before the sizes are brought up to date.
unfoldable pub get_next_biggest_payload : Queue → Reply ℕ
unfolding find_biggest_payloads
get_next_biggest_payload q = (find_biggest_payloads q, ok (get_or q.biggest_payloads 4 0))
