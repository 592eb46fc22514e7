-- ===== src/Queue/Config/RoundTrip.antt =====
-- net/queue.rs: `NetQueueConfig::to_be_bytes` against `from_be_bytes`.
use rust_data_broker.Prelude.{
  ℕ, ◌<◌, ◌^◌, ◌≡◌, refl, ap, subst, ◌∙◌, ◌+◌, not, ◌==◌, length-append, length-take_append, Bool,
  true, false, Option, none, some, List, ◌++◌, length, take, arith, ok,
}
use rust_data_broker.Bytes.{
  from_be_bytes, to_be_bytes, from_be_bytes-to_be_bytes, length-to_be_bytes,
}
use rust_data_broker.Queue.Config.{
  new_net_config, bool_byte, net_config_to_be_bytes, net_config_from_be_bytes,
}

-- A timeout fits a u64.
abbrev pub FitsU64 : Option ℕ → Type 0
FitsU64 none = Unit {0}
FitsU64 (some t) = t < 256 ^ 8

-- The eight bytes, read with whatever follows them.
timeout_bytes :
    (t : ℕ) (rest : List ℕ) → t < 256 ^ 8 → from_be_bytes (take 8 (to_be_bytes 8 t ++ rest)) ≡ t
timeout_bytes t rest h =
    ap from_be_bytes (
      subst (λ k. take k (to_be_bytes 8 t ++ rest) ≡ to_be_bytes 8 t) (length-to_be_bytes 8 t)
        (length-take_append (to_be_bytes 8 t) rest))
    ∙ from_be_bytes-to_be_bytes 8 t h

enough : (t : ℕ) (rest : List ℕ) → length (to_be_bytes 8 t ++ rest) ≡ 8 + length rest
enough t rest = omega (arith, length-append (to_be_bytes 8 t) rest, length-to_be_bytes 8 t)

auto_fail_read : (b : Bool) → not (bool_byte b == 0) ≡ b
auto_fail_read true = refl
auto_fail_read false = refl

-- Whatever follows the bytes of a configuration whose timeout, if any, is a u64, `from_be_bytes`
-- gives it back, with the number of bytes that it took.
pub from-to_be_bytes :
    (auto_fail : Option Bool) (fail_timeout : Option ℕ) (rest : List ℕ)
    → FitsU64 fail_timeout
    → let c = new_net_config auto_fail fail_timeout in
      net_config_from_be_bytes (net_config_to_be_bytes c ++ rest)
      ≡ ok (c, length (net_config_to_be_bytes c))
unfolding net_config_to_be_bytes net_config_from_be_bytes new_net_config
from-to_be_bytes none none rest h = refl
from-to_be_bytes (some true) none rest h = ground arith
from-to_be_bytes (some false) none rest h = ground arith
from-to_be_bytes none (some t) rest h =
    ground (arith, timeout_bytes t rest h, enough t rest, length-to_be_bytes 8 t)
from-to_be_bytes (some true) (some t) rest h =
    ground (arith, timeout_bytes t rest h, enough t rest, length-to_be_bytes 8 t)
from-to_be_bytes (some false) (some t) rest h =
    ground (arith, timeout_bytes t rest h, enough t rest, length-to_be_bytes 8 t)
