-- ===== src/Queue/Config.antt =====
-- net/queue.rs: `QueueConfig` and the update that a client sends, `NetQueueConfig`.
pub mod RoundTrip
use Prim.Native.Nat.{bit_and, bit_or}
use rust_data_broker.Prelude.{
  ℕ, ◌+◌, Bool, true, false, not, Option, none, some, List, [], ◌∷◌, ◌++◌, ◌==◌, ltb, if◌then◌else◌,
  is_some, get_or, take, drop, length, Outcome, ok, err, ◌>>=◌,
}
use rust_data_broker.Bytes.{to_be_bytes, from_be_bytes}

pub record QueueConfig : Type 0 where
  pub auto_fail : Bool
  pub fail_timeout : ℕ

pub record NetQueueConfig : Type 0 where
  pub auto_fail : Option Bool
  pub fail_timeout : Option ℕ

unfoldable pub new_config : QueueConfig
new_config = record { auto_fail = false; fail_timeout = 0 }

unfoldable pub new_net_config : Option Bool → Option ℕ → NetQueueConfig
new_net_config auto_success success_timeout = record {
  auto_fail = auto_success;
  fail_timeout = success_timeout;
}

-- The texts of the `io::Error`s of `from_be_bytes`.
pub data ConfigError : Type 0 where
  empty_bytes : ConfigError
  invalid_auto_success : ConfigError
  invalid_success_timeout : ConfigError

abbrev pub flag_bits : NetQueueConfig → ℕ
flag_bits c =
    let flags = if is_some c.auto_fail then bit_or 0 1 else 0 in
    if is_some c.fail_timeout then bit_or flags 2 else flags

abbrev pub bool_byte : Bool → ℕ
bool_byte true = 1
bool_byte false = 0

abbrev pub auto_fail_bytes : Option Bool → List ℕ
auto_fail_bytes none = []
auto_fail_bytes (some b) = bool_byte b ∷ []

abbrev pub fail_timeout_bytes : Option ℕ → List ℕ
fail_timeout_bytes none = []
fail_timeout_bytes (some t) = to_be_bytes 8 t

unfoldable pub net_config_to_be_bytes : NetQueueConfig → List ℕ
net_config_to_be_bytes c =
    flag_bits c ∷ (auto_fail_bytes c.auto_fail ++ fail_timeout_bytes c.fail_timeout)

-- The two fields are read in turn, each with the offset behind it.
unfoldable pub read_auto_success : List ℕ → ℕ → ℕ → Outcome ConfigError (Option Bool × ℕ)
read_auto_success bytes flags offset =
    if not (bit_and flags 1 == 0)
    then (if ltb (length bytes) (1 + offset)
        then err invalid_auto_success
        else ok (some (not (get_or bytes offset 0 == 0)), offset + 1))
    else ok (none, offset)

unfoldable pub read_success_timeout : List ℕ → ℕ → ℕ → Outcome ConfigError (Option ℕ × ℕ)
read_success_timeout bytes flags offset =
    if not (bit_and flags 2 == 0)
    then (if ltb (length bytes) (8 + offset)
        then err invalid_success_timeout
        else ok (some (from_be_bytes (take 8 (drop offset bytes))), offset + 8))
    else ok (none, offset)

unfoldable pub net_config_from_be_bytes : List ℕ → Outcome ConfigError (NetQueueConfig × ℕ)
unfolding read_auto_success read_success_timeout
net_config_from_be_bytes [] = err empty_bytes
net_config_from_be_bytes (flags ∷ bytes) = do
  (auto_success, offset) ← read_auto_success (flags ∷ bytes) flags 1
  (success_timeout, offset') ← read_success_timeout (flags ∷ bytes) flags offset
  ok (record { auto_fail = auto_success; fail_timeout = success_timeout }, offset')
