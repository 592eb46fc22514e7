-- ===== src/NetStats/RoundTrip.antt =====
-- The bytes of the statistics, as a client reads them.
use rust_data_broker.Prelude.{ℕ, zero, suc, ◌<◌, ◌^◌, List, [], ◌∷◌, ◌++◌, length, take, drop}
use rust_data_broker.Bytes.{to_be_bytes}
use rust_data_broker.Queue.Message.Layout.{field}
use rust_data_broker.NetStats.{StatMessage}

-- A client's reading: one entry, and what follows it.
unfoldable pub parse_numbers : List ℕ → List ℕ → StatMessage × List ℕ
parse_numbers name t = (
  record {
    queue_name = name;
    total_messages = field 0 8 t;
    total_bytes = field 8 8 t;
    total_messages_locked = field 16 8 t;
    total_bytes_locked = field 24 8 t;
  },
  drop 32 t,
)

unfoldable pub parse_stat : List ℕ → StatMessage × List ℕ
parse_stat b = let n = field 0 2 b in parse_numbers (take n (drop 2 b)) (drop n (drop 2 b))

unfoldable pub parse_stats : ℕ → List ℕ → List StatMessage
parse_stats zero b = []
parse_stats (suc k) b = let (m, rest) = parse_stat (drop 4 b) in m ∷ parse_stats k rest

unfoldable pub parse_watcher : List ℕ → List StatMessage
parse_watcher b = parse_stats (field 0 4 b) (drop 4 b)

-- The length of the name is a u16, and the numbers are u64.
pub record Fits (m : StatMessage) : Type 0 where
  pub name : length m.queue_name < 2 ^ 16
  pub messages : m.total_messages < 256 ^ 8
  pub bytes : m.total_bytes < 256 ^ 8
  pub messages_locked : m.total_messages_locked < 256 ^ 8
  pub bytes_locked : m.total_bytes_locked < 256 ^ 8

module _ (m : StatMessage) (fits : Fits m) (rest : List ℕ) where
  last_number : List ℕ
  last_number = to_be_bytes 8 m.total_bytes_locked ++ rest

  third : List ℕ
  third = to_be_bytes 8 m.total_messages_locked ++ last_number

  second : List ℕ
  second = to_be_bytes 8 m.total_bytes ++ third

  numbers : List ℕ
  numbers = to_be_bytes 8 m.total_messages ++ second

  -- The entry, after the length of its name.
  named : List ℕ
  named = m.queue_name ++ numbers
