-- ===== src/NetStats.antt =====
-- net/net_stats.rs: the statistics of the queues and their bytes. `usize` is 64 bits wide.
pub mod RoundTrip
use rust_data_broker.Prelude.{ℕ, ◌%◌, ◌^◌, List, [], ◌∷◌, ◌++◌, length}
use rust_data_broker.Bytes.{to_be_bytes}
use rust_data_broker.Queue.State.{Queue}
use rust_data_broker.Queue.Locks.{get_total_messages, get_total_messages_locked}
use rust_data_broker.Queue.Sizes.{Capacities, deep_size_of, deep_size_of_locked}

pub record StatMessage : Type 0 where
  pub queue_name : List ℕ
  pub total_messages : ℕ
  pub total_bytes : ℕ
  pub total_messages_locked : ℕ
  pub total_bytes_locked : ℕ

unfoldable pub stat_to_bytes : StatMessage → List ℕ
stat_to_bytes m =
    to_be_bytes 2 (length m.queue_name % 2 ^ 16)
    ++ (m.queue_name
        ++ (to_be_bytes 8 m.total_messages
            ++ (to_be_bytes 8 m.total_bytes
                ++ (to_be_bytes 8 m.total_messages_locked ++ to_be_bytes 8 m.total_bytes_locked))))

-- `StatWatcher::new_stat`: the getters of a queue never fail.
unfoldable pub new_stat : List StatMessage → List ℕ → Capacities → Queue → List StatMessage
new_stat stats queue_name k q =
    stats
    ++ record {
      queue_name = queue_name;
      total_messages = get_total_messages q;
      total_bytes = deep_size_of k q;
      total_messages_locked = get_total_messages_locked q;
      total_bytes_locked = deep_size_of_locked k q;
    }
      ∷ []

unfoldable pub stats_to_bytes : List StatMessage → List ℕ
unfolding stat_to_bytes
stats_to_bytes [] = []
stats_to_bytes (m ∷ stats) =
    to_be_bytes 4 (length (stat_to_bytes m) % 2 ^ 32) ++ (stat_to_bytes m ++ stats_to_bytes stats)

-- `StatWatcher::to_bytes`
unfoldable pub watcher_to_bytes : List StatMessage → List ℕ
unfolding stats_to_bytes
watcher_to_bytes stats = to_be_bytes 4 (length stats % 2 ^ 32) ++ stats_to_bytes stats
