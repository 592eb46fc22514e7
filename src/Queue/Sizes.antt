-- ===== src/Queue/Sizes.antt =====
-- net/queue.rs: the memory estimates of `Queue`. The capacities of the collections are those that
-- the allocator and the collections chose, and are arguments. `(n * 16) as f64 * 1.25` is `n * 20`,
-- exactly so while it is below 2 ^ 53.
use rust_data_broker.Prelude.{ℕ, suc, ◌+◌, ◌*◌, List, [], ◌∷◌, if◌then◌else◌}
use rust_data_broker.Dict.{Dict}
use rust_data_broker.Queue.Message.{QueueMessage, is_locked}
use rust_data_broker.Queue.State.{Queue}

-- `capacity()` of `order`, `queue` and `locked`, of the payload of an id, of the list of a client.
pub record Capacities : Type 0 where
  pub order : ℕ
  pub queue : ℕ
  pub locked : ℕ
  pub payload : ℕ → ℕ
  pub ids : ℕ → ℕ

-- The sizes of u128, u64, Option<u128> and Arc on a 64-bit target.
abbrev pub message_overhead : ℕ
message_overhead = 16 + 8 + 32

abbrev pub arc_size : ℕ
arc_size = 8

unfoldable pub deep_size_of_message : Capacities → ℕ → ℕ
deep_size_of_message k id = k.payload id + message_overhead

unfoldable pub messages_size : Capacities → Dict ℕ QueueMessage → ℕ
unfolding deep_size_of_message
messages_size k [] = 0
messages_size k ((id, m) ∷ queue) = deep_size_of_message k id + messages_size k queue

unfoldable pub lists_size : Capacities → Dict ℕ (List ℕ) → ℕ
lists_size k [] = 0
lists_size k ((client_id, ids) ∷ locked) = k.ids client_id * 16 + lists_size k locked

unfoldable pub locked_capacity : Capacities → Queue → ℕ
unfolding lists_size
locked_capacity k q = k.locked * 20 + k.locked * arc_size + lists_size k q.locked

unfoldable pub deep_size_of : Capacities → Queue → ℕ
unfolding messages_size locked_capacity
deep_size_of k q = k.order * 16 + (k.queue * 20 + messages_size k q.queue) + locked_capacity k q

-- The number of locked messages, and their sizes.
unfoldable pub count_locked : Dict ℕ QueueMessage → ℕ
count_locked [] = 0
count_locked ((id, m) ∷ queue) = let n = count_locked queue in if is_locked m then suc n else n

unfoldable pub locked_messages_size : Capacities → Dict ℕ QueueMessage → ℕ
unfolding deep_size_of_message
locked_messages_size k [] = 0
locked_messages_size k ((id, m) ∷ queue) =
    let rest = locked_messages_size k queue in
    if is_locked m then deep_size_of_message k id + rest else rest

unfoldable pub deep_size_of_locked : Capacities → Queue → ℕ
unfolding count_locked locked_messages_size locked_capacity
deep_size_of_locked k q =
    locked_messages_size k q.queue + count_locked q.queue * 20 + locked_capacity k q
