-- ===== src/Queue/Message.antt =====
-- net/queue.rs: `QueueMessage` and `MessageMeta`. A u128 or u64 is a number, a payload its bytes.
pub mod Layout
use rust_data_broker.Prelude.{
  ℕ, ◌-◌, ◌^◌, Bool, false, Option, none, some, List, ◌++◌, ◌==◌, is_some,
}
use rust_data_broker.Bytes.{to_be_bytes}

pub record QueueMessage : Type 0 where
  pub payload : List ℕ
  pub publisher_id : ℕ
  pub timestamp : ℕ
  pub locked_by : Option ℕ

pub record MessageMeta : Type 0 where
  pub id : ℕ
  pub publisher_id : ℕ
  pub timestamp : ℕ
  pub locked_by : Option ℕ

-- `QueueMessage::new`; `now` is what the system clock gives, in milliseconds.
unfoldable pub new_message : List ℕ → ℕ → ℕ → QueueMessage
new_message payload publisher_id now = record {
  payload = payload;
  publisher_id = publisher_id;
  timestamp = now;
  locked_by = none;
}

unfoldable pub is_locked : QueueMessage → Bool
is_locked m = is_some m.locked_by

unfoldable pub lock : QueueMessage → ℕ → QueueMessage
lock m id = record m { locked_by = some id }

unfoldable pub unlock : QueueMessage → QueueMessage
unlock m = record m { locked_by = none }

-- `PartialEq<u128>`
unfoldable pub eq_client : QueueMessage → ℕ → Bool
eq_client m client_id = elim m.locked_by [ none ↦ false | some id ↦ id == client_id ]

abbrev pub u128_max : ℕ
u128_max = 2 ^ 128 - 1

unfoldable pub new_meta : ℕ → ℕ → ℕ → Option ℕ → MessageMeta
new_meta id publisher_id timestamp locked_by = record {
  id = id;
  publisher_id = publisher_id;
  timestamp = timestamp;
  locked_by = locked_by;
}

abbrev pub map_or : ℕ → Option ℕ → ℕ
map_or d none = d
map_or d (some a) = a

unfoldable pub meta_to_be_bytes : MessageMeta → List ℕ
meta_to_be_bytes m =
    to_be_bytes 16 m.id
    ++ (to_be_bytes 16 m.publisher_id
        ++ (to_be_bytes 8 m.timestamp ++ to_be_bytes 16 (map_or u128_max m.locked_by)))

unfoldable pub get_meta_as_vec : ℕ → QueueMessage → List ℕ
unfolding new_meta
get_meta_as_vec message_id m =
    meta_to_be_bytes (new_meta message_id m.publisher_id m.timestamp m.locked_by)
